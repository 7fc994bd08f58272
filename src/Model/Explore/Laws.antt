-- ===== src/Model/Explore/Laws.antt =====
-- The list of spans and the root of a trace, in tracing-console/src/model/explore.rs.
use mathlib.Core.List.{Perm, perm_middle}
use mathlib.Core.List.Perm
use tracing_console.Base.{
  ℕ, zero, suc, ◌<◌, ◌≡◌, ◌↔◌, refl, sym, ap, ◌∙◌, Option-cases, inl, inr, List, [], ◌∷◌, ◌++◌,
  Option, none, some, keep, map, Bool, true, arith,
}
use tracing_console.Base.Text.{Text}
use tracing_console.Host.Protocol.{WireSpan}
use tracing_console.Aggregate.State.{Aggregator}
use tracing_console.Aggregate.State.Rebuild.{span_by_id, iter_with_stack}
use tracing_console.Model.Graph.Inputs.{to_lower}
use tracing_console.Model.Order.Laws.{
  sort_by-Perm, sort_by-IsAscending, IsAscending, sort_by-IsInOrder, IsInOrder, text_le_total,
}
use tracing_console.Model.Explore.Search.{Found, query_keeps-Found}
use tracing_console.Aggregate.State.Keys.{text_le, stack_eq}
use tracing_console.Model.Explore.{
  ExploreSortColumn, timestamp, latency, field_column, SortDirection, asc, desc, ExploreState,
  effective_query, locked_stack_spans, stack_spans, field_string, latency_ns, reverse_onto,
  sorted_by, sort_spans, query_keeps, matching_spans, climb_to_root, find_root_id,
}

reverse_onto-Perm : {A : Type 0} (xs out : List A) → Perm (reverse_onto xs out) (xs ++ out)
reverse_onto-Perm [] out = Perm.refl out
reverse_onto-Perm (x ∷ xs) out = Perm.trans (reverse_onto-Perm xs (x ∷ out)) (perm_middle xs out)

append-nil : {A : Type 0} (xs : List A) → xs ++ [] ≡ xs
append-nil [] = refl
append-nil (x ∷ xs) = ap (◌∷◌ x) (append-nil xs)

reverse_onto-reverse_onto :
    {A : Type 0} (xs out rest : List A)
    → reverse_onto (reverse_onto xs out) rest ≡ reverse_onto out (xs ++ rest)
reverse_onto-reverse_onto [] out rest = refl
reverse_onto-reverse_onto (x ∷ xs) out rest = reverse_onto-reverse_onto xs (x ∷ out) rest

module _ (show_f64 : ℕ → Text) where
  sorted_by-Perm :
      (by : ExploreSortColumn) (spans : List WireSpan) → Perm (sorted_by show_f64 by spans) spans
  unfolding sorted_by
  sorted_by-Perm timestamp spans = sort_by-Perm _ spans
  sorted_by-Perm latency spans = sort_by-Perm _ spans
  sorted_by-Perm (field_column k) spans = sort_by-Perm _ spans

  sort_spans-Perm :
      (spans : List WireSpan) (by : ExploreSortColumn) (direction : SortDirection)
      → Perm (sort_spans show_f64 spans by direction) spans
  unfolding sort_spans
  sort_spans-Perm spans by asc = sorted_by-Perm by spans
  sort_spans-Perm spans by desc =
      Perm.trans (reverse_onto-Perm (sorted_by show_f64 by spans) [])
        (rw (append-nil (sorted_by show_f64 by spans)) (sorted_by-Perm by spans))

  -- The list read in the direction of its order.
  abbrev pub in_direction : SortDirection → List WireSpan → List WireSpan
  in_direction asc spans = spans
  in_direction desc spans = reverse_onto spans []

  in_direction-sort_spans :
      (spans : List WireSpan) (by : ExploreSortColumn) (direction : SortDirection)
      → in_direction direction (sort_spans show_f64 spans by direction)
        ≡ sorted_by show_f64 by spans
  unfolding sort_spans
  in_direction-sort_spans spans by asc = refl
  in_direction-sort_spans spans by desc =
      reverse_onto-reverse_onto (sorted_by show_f64 by spans) [] []
      ∙ append-nil (sorted_by show_f64 by spans)

  abbrev pub field_le : Text → WireSpan → WireSpan → Bool
  field_le k a b = text_le (field_string show_f64 a k) (field_string show_f64 b k)

  -- The spans of the ring whose stack of names is this one, in the order of the ring.
  abbrev pub spans_on : List Text → List (WireSpan × List Text) → List WireSpan
  spans_on stack listed = map (λ p. p.0) (keep (λ p. stack_eq.beq p.1 stack) listed)

  stack_spans-spans_on :
      (stack : List Text) (listed : List (WireSpan × List Text))
      → stack_spans stack listed ≡ spans_on stack listed
  unfolding stack_spans
  stack_spans-spans_on stack [] = refl
  stack_spans-spans_on stack ((s, names) ∷ listed) =
      ground (arith, stack_spans-spans_on stack listed)

  -- The explorer lists the spans of the ring that have its stack and that its search keeps, each as often
  -- as the ring holds it; the search keeps a span exactly when the query, in lower case, is blank or
  -- stands in the name of the span or of one of its events, or in a key or a value of their fields. Read
  -- upwards, or downwards when the direction is descending, the list is in the order of its column: of
  -- the times of opening, of the durations, or of the texts of a field, byte by byte, where a span without
  -- the field counts as blank.
  pub matching_spans_lem :
      (agg : Aggregator) (es : ExploreState)
      → let q = to_lower (effective_query es) in
        let listed = matching_spans show_f64 agg es in
        Perm listed (keep (query_keeps show_f64 q) (spans_on es.locked_stack (iter_with_stack agg)))
        × ((s : WireSpan) → (query_keeps show_f64 q s ≡ true) ↔ Found show_f64 q s)
        × (es.sort ≡ timestamp
            → IsAscending (λ (s : WireSpan). s.opened_at_ns) (in_direction es.direction listed))
        × (es.sort ≡ latency → IsAscending latency_ns (in_direction es.direction listed))
        × ((k : Text)
            → es.sort ≡ field_column k
            → IsInOrder (field_le k) (in_direction es.direction listed))
  unfolding matching_spans
  matching_spans_lem agg es =
      let q = to_lower (effective_query es) in
      let kept = keep (query_keeps show_f64 q) (locked_stack_spans agg es) in
      let on_stack : locked_stack_spans agg es ≡ spans_on es.locked_stack (iter_with_stack agg) =
        unfold locked_stack_spans in stack_spans-spans_on es.locked_stack (iter_with_stack agg) in
      (
        rw (← on_stack) (sort_spans-Perm kept es.sort es.direction),
        λ s. query_keeps-Found show_f64 q s,
        λ e.
            rw (in_direction-sort_spans kept es.sort es.direction, e)
              (unfold sorted_by in sort_by-IsAscending (λ (s : WireSpan). s.opened_at_ns) kept),
        λ e.
            rw (in_direction-sort_spans kept es.sort es.direction, e)
              (unfold sorted_by in sort_by-IsAscending latency_ns kept),
        λ k e.
            rw (in_direction-sort_spans kept es.sort es.direction, e)
              (unfold sorted_by in
                sort_by-IsInOrder (field_le k)
                  (λ a b. text_le_total (field_string show_f64 a k) (field_string show_f64 b k))
                  kept),
      )

-- The span a number of parents up, as far as the ring holds them.
abbrev pub parents_up : Aggregator → ℕ → ℕ → Option ℕ
parents_up agg zero id = some id
parents_up agg (suc n) id = elim (span_by_id id agg) [
  | none ↦ none
  | some s ↦ elim s.parent_id [ none ↦ none | some p ↦ parents_up agg n p ]
]

none-some : {A : Type 0} {a : A} → ¬ (none ≡ some a)
none-some e = cc

-- A span of the ring that has no parent.
abbrev pub IsRoot : Aggregator → ℕ → Type 0
IsRoot agg id = (s : WireSpan) × (span_by_id id agg ≡ some s) × (s.parent_id ≡ none)

module _ (agg : Aggregator) (cur : ℕ) (s : WireSpan) (found : span_by_id cur agg ≡ some s) where
  parents_up_step :
      (n p : ℕ) → s.parent_id ≡ some p → parents_up agg (suc n) cur ≡ parents_up agg n p
  parents_up_step n p up = ground arith

  parents_up_top : (n : ℕ) → s.parent_id ≡ none → parents_up agg (suc n) cur ≡ none
  parents_up_top n top = ground arith

  climb_step :
      (steps p : ℕ)
      → s.parent_id ≡ some p
      → climb_to_root (suc steps) cur agg ≡ climb_to_root steps p agg
  unfolding climb_to_root
  climb_step steps p up = ground arith

  climb_top : (steps : ℕ) → s.parent_id ≡ none → climb_to_root (suc steps) cur agg ≡ some cur
  unfolding climb_to_root
  climb_top steps top = ground arith

module _ (agg : Aggregator) (cur : ℕ) (gone : span_by_id cur agg ≡ none) where
  parents_up_gone : (n : ℕ) → parents_up agg (suc n) cur ≡ none
  parents_up_gone n = ground arith

  climb_gone : (steps : ℕ) → climb_to_root (suc steps) cur agg ≡ none
  unfolding climb_to_root
  climb_gone steps = ground arith

climb_to_root_sound :
    (agg : Aggregator) (steps cur root : ℕ)
    → climb_to_root steps cur agg ≡ some root
    → (n : ℕ) × (n < steps) × (parents_up agg n cur ≡ some root) × IsRoot agg root
climb_to_root_sound agg zero cur root e = absurd (unfold climb_to_root in none-some e)
climb_to_root_sound agg (suc steps) cur root e = elim (Option-cases (span_by_id cur agg)) [
  | inl gone ↦ absurd (none-some (sym (climb_gone agg cur gone steps) ∙ e))
  | inr (s, found) ↦ elim (Option-cases s.parent_id) [
    | inl top ↦
        let here : some cur ≡ some root = sym (climb_top agg cur s found steps top) ∙ e in
        let same : root ≡ cur = cc in (zero, omega arith, here, rw same (s, found, top))
    | inr (p, up) ↦
        let (n, below, there, top) =
          climb_to_root_sound agg steps p root (sym (climb_step agg cur s found steps p up) ∙ e) in
        (suc n, omega arith, parents_up_step agg cur s found n p up ∙ there, top)
  ]
]

climb_to_root_complete :
    (agg : Aggregator) (steps n cur root : ℕ)
    → n < steps
    → parents_up agg n cur ≡ some root
    → IsRoot agg root
    → climb_to_root steps cur agg ≡ some root
climb_to_root_complete agg zero n cur root h e top = absurd (omega arith)
climb_to_root_complete agg (suc steps) zero cur root h e (s, found, top) =
    let same : cur ≡ root = cc in rw same (climb_top agg root s found steps top)
climb_to_root_complete agg (suc steps) (suc n) cur root h e top =
    elim (Option-cases (span_by_id cur agg)) [
      | inl gone ↦ absurd (none-some (sym (parents_up_gone agg cur gone n) ∙ e))
      | inr (s, found) ↦ elim (Option-cases s.parent_id) [
        | inl none_up ↦ absurd (none-some (sym (parents_up_top agg cur s found n none_up) ∙ e))
        | inr (p, up) ↦
            climb_step agg cur s found steps p up
            ∙ climb_to_root_complete agg steps n p root (omega arith)
                (sym (parents_up_step agg cur s found n p up) ∙ e) top
      ]
    ]

-- The root of a span is found exactly when it is reached from the span by fewer than 256 parents, all
-- of them in the ring, and has no parent; a span whose chain leaves the ring, or is longer, has none.
pub find_root_id_lem :
    (agg : Aggregator) (id root : ℕ)
    → (find_root_id agg id ≡ some root)
      ↔ ((n : ℕ) × (n < 256) × (parents_up agg n id ≡ some root) × IsRoot agg root)
unfolding find_root_id
find_root_id_lem agg id root = (
  λ e. climb_to_root_sound agg 256 id root e,
  λ c. climb_to_root_complete agg 256 c.0 id root c.1 c.2 c.3,
)
