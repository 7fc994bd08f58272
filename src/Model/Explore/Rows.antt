-- ===== src/Model/Explore/Rows.antt =====
-- The rows of one trace and the columns of a list of spans, in tracing-console/src/model/explore.rs. The
-- walk down the tree recurses on fuel.
use tracing_console.Base.{
  ℕ, zero, suc, ◌+◌, Bool, true, false, ◌||◌, not, List, [], ◌∷◌, ◌++◌, map, Option, none, some,
  if◌then◌else◌, leb, ◌==◌, length, any, keep, nat_eq,
}
use tracing_console.Base.Assoc
use tracing_console.Base.Text.{Text, text_eq}
use tracing_console.Host.Protocol.{WireFieldValue, WireEvent, WireSpan, to_string_value}
use tracing_console.Aggregate.State.{Aggregator}
use tracing_console.Aggregate.State.Keys.{text_le, has_text}
use tracing_console.Aggregate.State.Rebuild.{iter_with_stack}
use tracing_console.Model.Order.{sort_by}
use tracing_console.Model.Explore.{TraceDetailState}

pub data TraceRow : Type 0 where
  span_row : ℕ → ℕ → Bool → Bool → TraceRow
  event_row : ℕ → ℕ → ℕ → TraceRow

abbrev kids_or_none : Option (List ℕ) → List ℕ
kids_or_none none = []
kids_or_none (some kids) = kids

-- The two maps of `visible_trace_rows`.
unfoldable pub index_spans : List (WireSpan × List Text) → List (ℕ × WireSpan) → List (ℕ × WireSpan)
index_spans [] m = m
index_spans ((s, stack) ∷ rest) m = index_spans rest (Assoc.insert nat_eq s.id s m)

unfoldable pub index_kids : List (WireSpan × List Text) → List (ℕ × List ℕ) → List (ℕ × List ℕ)
index_kids [] m = m
index_kids ((s, stack) ∷ rest) m = elim s.parent_id [
  | none ↦ index_kids rest m
  | some p ↦
      index_kids rest
        (Assoc.insert nat_eq p (kids_or_none (Assoc.lookup nat_eq p m) ++ s.id ∷ []) m)
]

abbrev opened_or_zero : Option WireSpan → ℕ
opened_or_zero none = 0
opened_or_zero (some s) = s.opened_at_ns

-- The kids of a span in the order of their opening.
unfoldable pub sorted_kids : List (ℕ × WireSpan) → List (ℕ × List ℕ) → ℕ → List ℕ
unfolding sort_by Assoc.lookup
sorted_kids spans kids id =
    sort_by
      (λ a b.
        leb (opened_or_zero (Assoc.lookup nat_eq a spans))
          (opened_or_zero (Assoc.lookup nat_eq b spans)))
      (kids_or_none (Assoc.lookup nat_eq id kids))

pub data Item : Type 0 where
  event_item : ℕ → ℕ → Item
  child_item : ℕ → ℕ → Item

abbrev at_of : Item → ℕ
at_of (event_item idx t) = t
at_of (child_item id t) = t

unfoldable pub event_items : ℕ → List WireEvent → List Item
event_items i [] = []
event_items i (e ∷ events) = event_item i e.recorded_at_ns ∷ event_items (suc i) events

abbrev is_empty {ℓ} : {A : Type ℓ} → List A → Bool
is_empty [] = true
is_empty (x ∷ xs) = false

module _ (spans : List (ℕ × WireSpan)) (kids : List (ℕ × List ℕ)) (collapsed : List ℕ) where
  unfoldable pub items_of : WireSpan → List Item
  unfolding event_items sorted_kids sort_by Assoc.lookup
  items_of span =
      sort_by (λ a b. leb (at_of a) (at_of b))
        (event_items 0 span.events
          ++ map (λ id. child_item id (opened_or_zero (Assoc.lookup nat_eq id spans)))
              (sorted_kids spans kids span.id))

  -- The loop over the items; `walk` is the recursive call, one level deeper.
  unfoldable pub walk_items :
      (WireSpan → Option (List TraceRow)) → ℕ → ℕ → List Item → Option (List TraceRow)
  unfolding Assoc.lookup
  walk_items walk parent_id depth [] = some []
  walk_items walk parent_id depth (event_item idx t ∷ items) =
      elim (walk_items walk parent_id depth items) [
        | none ↦ none
        | some rows ↦ some (event_row parent_id idx (depth + 1) ∷ rows)
      ]
  walk_items walk parent_id depth (child_item id t ∷ items) = elim (Assoc.lookup nat_eq id spans) [
    | none ↦ walk_items walk parent_id depth items
    | some child ↦ elim (walk child) [
      | none ↦ none
      | some below ↦ elim (walk_items walk parent_id depth items) [
        | none ↦ none
        | some rows ↦ some (below ++ rows)
      ]
    ]
  ]

  unfoldable pub walk_trace : ℕ → ℕ → WireSpan → Option (List TraceRow)
  unfolding items_of walk_items sorted_kids
  walk_trace zero depth span = none
  walk_trace (suc fuel) depth span =
      let has_children =
        not (is_empty (sorted_kids spans kids span.id)) || not (is_empty span.events) in
      let expanded = not (any (λ id. id == span.id) collapsed) in
      let row = span_row span.id depth has_children expanded in
      elim (walk_items (walk_trace fuel (depth + 1)) span.id depth (items_of span)) [
        | none ↦ if expanded then none else some (row ∷ [])
        | some below ↦ some (row ∷ (if expanded then below else []))
      ]

-- `visible_trace_rows`: a trace is no deeper than the ring is long.
unfoldable pub visible_trace_rows : Aggregator → TraceDetailState → Option (List TraceRow)
unfolding iter_with_stack index_spans index_kids walk_trace Assoc.lookup
visible_trace_rows agg td =
    let listed = iter_with_stack agg in
    let spans = index_spans listed [] in
    elim (Assoc.lookup nat_eq td.root_id spans) [
      | none ↦ some []
      | some root ↦
          walk_trace spans (index_kids listed []) td.collapsed (suc (length listed)) 0 root
    ]

-- A value of a key joins the key's set of values.
unfoldable pub add_value : Text → Text → List (Text × List Text) → List (Text × List Text)
add_value k v [] = (k, v ∷ []) ∷ []
add_value k v ((j, vals) ∷ m) =
    let rest = add_value k v m in
    if text_eq.beq j k
    then (j, (if has_text v vals then vals else v ∷ vals)) ∷ m
    else (j, vals) ∷ rest

module _ (show_f64 : ℕ → Text) where
  unfoldable pub add_fields :
      List (Text × WireFieldValue) → List (Text × List Text) → List (Text × List Text)
  unfolding add_value to_string_value
  add_fields [] m = m
  add_fields ((k, v) ∷ fields) m = add_fields fields (add_value k (to_string_value show_f64 v) m)

  unfoldable pub values_by_key : List WireSpan → List (Text × List Text) → List (Text × List Text)
  unfolding add_fields
  values_by_key [] m = m
  values_by_key (s ∷ spans) m = values_by_key spans (add_fields s.fields m)

  unfoldable pub distinguishing_fields : List WireSpan → List Text
  unfolding values_by_key sort_by text_le
  distinguishing_fields spans =
      sort_by text_le
        (map (λ e. e.0) (keep (λ e. not (leb (length e.1) 1)) (values_by_key spans [])))
