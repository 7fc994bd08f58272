-- ===== src/Model/Reduce/Tree.antt =====
-- What expanding and collapsing do to the visible rows, in tracing-console/src/model/core.rs.
use tracing_console.Base.{
  ℕ, ◌<◌, ◌≤◌, ◌≡◌, refl, sym, ap, ◌∙◌, inl, inr, true, false, Bool-cases, not, List, [], ◌∷◌, map,
  some, ltb, ltb→lt, lt→ltb, length, get_elem?, keep, any, All, All-get_elem?, All-mono, arith,
}
use mathlib.Core.Path.{subst}
use tracing_console.Base.Text.{Text}
use tracing_console.Aggregate.Bucket.{BucketKey, StackStats}
use tracing_console.Aggregate.State.Keys.{key_beq, key_beq_iff}
use tracing_console.Aggregate.Labels.{take_texts}
use tracing_console.Model.Reals.{Reals}
use tracing_console.Model.Visible.{
  VisibleRow, rows, in_set, prefixes_expanded, starts_with_stack, visible_of,
}
use tracing_console.Model.Core.{Model, Focus, visible_rows}
use tracing_console.Model.Reduce.Table.{
  expand_below, expand_all_of_row, expand_all_selected, retain_outside, collapse_row,
  collapse_selected,
}
use tracing_console.Model.Reduce.Prefixes.{
  Revealed, prefixes_expanded-of, Revealed-of, starts_with_stack-take, starts_with_stack-length,
  starts_with_stack_refl, starts_with_stack-of_take, length-take_texts, take_texts-all, goes_below,
  expand_below_mono, expand_below-All, retain_outside-not, retain_outside-same,
  prefixes_expanded-same,
}

visible_of-All :
    (set : List (List Text)) (listed : List (BucketKey × StackStats))
    → All (λ (v : VisibleRow). prefixes_expanded set [] v.key.stack ≡ true) (visible_of set listed)
unfolding visible_of
visible_of-All set [] = tt
visible_of-All set ((key, stats) ∷ later) = elim (Bool-cases (prefixes_expanded set [] key.stack)) [
  | inl e ↦ rw e (e, visible_of-All set later)
  | inr e ↦ rw e (visible_of-All set later)
]

abbrev pub IsShown : BucketKey → List VisibleRow → Type 0
IsShown key shown = any (λ v. key_beq v.key key) shown ≡ true

visible_of-head :
    (set : List (List Text)) (e : BucketKey × StackStats) (later : List (BucketKey × StackStats))
    → prefixes_expanded set [] e.0.stack ≡ true
    → IsShown e.0 (visible_of set (e ∷ later))
unfolding visible_of
visible_of-head set e later h = rw (h, (key_beq_iff e.0 e.0).1 refl) refl

visible_of-keeps :
    (set : List (List Text)) (e : BucketKey × StackStats) (later : List (BucketKey × StackStats))
    (key : BucketKey)
    → IsShown key (visible_of set later)
    → IsShown key (visible_of set (e ∷ later))
unfolding visible_of
visible_of-keeps set e later key h = elim (Bool-cases (prefixes_expanded set [] e.0.stack)) [
  | inl seen ↦ rw seen (ground (arith, h))
  | inr unseen ↦ rw unseen h
]

visible_of-shows :
    (set : List (List Text)) (listed : List (BucketKey × StackStats))
    → All
        (λ e. prefixes_expanded set [] e.0.stack ≡ true → IsShown e.0 (visible_of set listed))
        listed
visible_of-shows set [] = tt
visible_of-shows set (e ∷ later) = (
  visible_of-head set e later,
  All-mono (λ x. prefixes_expanded set [] x.0.stack ≡ true → IsShown x.0 (visible_of set later))
      (λ x. prefixes_expanded set [] x.0.stack ≡ true → IsShown x.0 (visible_of set (e ∷ later)))
      later (λ x f h. visible_of-keeps set e later x.0 (f h)) (visible_of-shows set later),
)

All-both :
    (P Q : BucketKey × StackStats → Type 0) (listed : List (BucketKey × StackStats))
    → All P listed
    → All Q listed
    → All (λ e. P e × Q e) listed
All-both P Q [] h g = tt
All-both P Q (e ∷ later) h g = ((h.0, g.0), All-both P Q later h.1 g.1)

-- A row that starts with a visible one has its shorter prefixes expanded, and the expansion adds the rest.
expanded-Revealed :
    (root : List Text) (all : List (BucketKey × StackStats)) (set : List (List Text))
    (e : BucketKey × StackStats)
    → prefixes_expanded set [] root ≡ true
    → (goes_below root e ≡ true
        → (n : ℕ) → length root ≤ n
        → n < length e.0.stack
        → in_set (take_texts n e.0.stack) (expand_below root all set) ≡ true)
    → starts_with_stack e.0.stack root ≡ true
    → Revealed (expand_below root all set) [] e.0.stack
expanded-Revealed root all set e seen added h n p q = elim (Bool-cases (ltb n (length root))) [
  | inl short ↦
      let before = Revealed-of set [] root seen n p (ltb→lt n (length root) short) in
      expand_below_mono root (take_texts n e.0.stack) all set (
        rw (starts_with_stack-take e.0.stack root h n (omega (arith, ltb→lt n (length root))))
          before)
  | inr long ↦
      let reaches : length root ≤ n = ground (arith, long) in
      added (rw (h, lt→ltb (length root) (length e.0.stack) (omega arith)) refl) n reaches q
]

-- The rows that become visible.
expanded-shows :
    (root : List Text) (all : List (BucketKey × StackStats)) (set : List (List Text))
    → prefixes_expanded set [] root ≡ true
    → All
        (λ e.
          starts_with_stack e.0.stack root ≡ true
          → IsShown e.0 (visible_of (expand_below root all set) all))
        all
expanded-shows root all set seen =
    let new_set = expand_below root all set in
    All-mono
      (λ e.
        (goes_below root e ≡ true
          → (n : ℕ) → length root ≤ n
          → n < length e.0.stack
          → in_set (take_texts n e.0.stack) new_set ≡ true)
        × (prefixes_expanded new_set [] e.0.stack ≡ true → IsShown e.0 (visible_of new_set all)))
      (λ e. starts_with_stack e.0.stack root ≡ true → IsShown e.0 (visible_of new_set all)) all
      (λ e f h.
        f.1
          (prefixes_expanded-of new_set [] e.0.stack (expanded-Revealed root all set e seen f.0 h)))
      (All-both _ _ all (expand_below-All root all set) (visible_of-shows new_set all))

module _ (r : Reals) where
  expand_all_selected-chosen :
      (m : Model r) (row : VisibleRow)
      → m.focus ≡ Focus.stacks
      → get_elem? (visible_rows r m) m.selected ≡ some row
      → expand_all_selected r m
        ≡ record m { expanded = expand_below row.key.stack (rows m.agg) m.expanded }
  unfolding expand_all_selected expand_all_of_row
  expand_all_selected-chosen m row focused chosen = ground (arith, focused, chosen)

  -- Expanding all, with the focus on the stacks and the cursor on a visible row, makes every row of the
  -- aggregator visible whose stack begins with that row's, and leaves the aggregator alone.
  pub descendants-IsShown :
      (m : Model r) (row : VisibleRow)
      → m.focus ≡ Focus.stacks
      → get_elem? (visible_rows r m) m.selected ≡ some row
      → ((expand_all_selected r m).agg ≡ m.agg)
        × All
            (λ e.
              starts_with_stack e.0.stack row.key.stack ≡ true
              → IsShown e.0 (visible_rows r (expand_all_selected r m)))
            (rows m.agg)
  unfolding visible_rows
  descendants-IsShown m row focused chosen =
      let seen =
        All-get_elem? (λ (v : VisibleRow). prefixes_expanded m.expanded [] v.key.stack ≡ true)
          (visible_of m.expanded (rows m.agg)) m.selected row
          (visible_of-All m.expanded (rows m.agg)) chosen in
      subst
        (λ (x : Model r).
          (x.agg ≡ m.agg)
          × All
              (λ e.
                starts_with_stack e.0.stack row.key.stack ≡ true
                → IsShown e.0 (visible_of x.expanded (rows x.agg)))
              (rows m.agg))
        (sym (expand_all_selected-chosen m row focused chosen))
        (refl, expanded-shows row.key.stack (rows m.agg) m.expanded seen)

-- Collapsing.
module _ (root : List Text) (set : List (List Text)) (named : 0 < length root) where
  collapsed-below :
      (e : BucketKey × StackStats)
      → goes_below root e ≡ true
      → prefixes_expanded (retain_outside root set) [] e.0.stack ≡ false
  collapsed-below e below =
      elim (Bool-cases (prefixes_expanded (retain_outside root set) [] e.0.stack)) [
        | inr hidden ↦ hidden
        | inl seen ↦
            let starts : starts_with_stack e.0.stack root ≡ true = ground (arith, below) in
            let longer : length root < length e.0.stack = ground (arith, below) in
            let kept =
              Revealed-of (retain_outside root set) [] e.0.stack seen (length root) named longer in
            let same : take_texts (length root) e.0.stack ≡ root =
              starts_with_stack-take e.0.stack root starts (length root) (omega arith)
              ∙ take_texts-all root (length root) (omega arith) in
            absurd (
              ground (
                arith,
                rw same at kept,
                retain_outside-not root root set (starts_with_stack_refl root),
              ))
      ]

  collapsed-beside :
      (e : BucketKey × StackStats)
      → goes_below root e ≡ false
      → prefixes_expanded (retain_outside root set) [] e.0.stack
        ≡ prefixes_expanded set [] e.0.stack
  collapsed-beside e beside =
      prefixes_expanded-same (retain_outside root set) set [] e.0.stack (λ n p q.
        retain_outside-same root (take_texts n e.0.stack) set
          (elim (Bool-cases (starts_with_stack (take_texts n e.0.stack) root)) [
            | inr differs ↦ differs
            | inl starts ↦
                let shorter = starts_with_stack-length (take_texts n e.0.stack) root starts in
                let below : ltb (length root) (length e.0.stack) ≡ true =
                  lt→ltb (length root) (length e.0.stack)
                    (omega (arith, length-take_texts e.0.stack n)) in
                absurd
                  (ground (arith, beside, below, starts_with_stack-of_take e.0.stack root n starts))
          ]))

  -- The rows that stay visible are those that do not go below the root.
  collapsed-keys :
      (listed : List (BucketKey × StackStats))
      → map (λ (v : VisibleRow). (v.key, v.stats)) (visible_of (retain_outside root set) listed)
        ≡ keep
            (λ e. not (goes_below root e))
            (map (λ (v : VisibleRow). (v.key, v.stats)) (visible_of set listed))
  unfolding visible_of
  collapsed-keys [] = refl
  collapsed-keys (e ∷ later) = elim (Bool-cases (goes_below root e)) [
    | inl below ↦ elim (Bool-cases (prefixes_expanded set [] e.0.stack)) [
      | inl seen ↦ rw (collapsed-below e below, seen, below) (collapsed-keys later)
      | inr unseen ↦ rw (collapsed-below e below, unseen) (collapsed-keys later)
    ]
    | inr beside ↦ elim (Bool-cases (prefixes_expanded set [] e.0.stack)) [
      | inl seen ↦
          rw (collapsed-beside e beside, seen, beside) (ap (λ l. e ∷ l) (collapsed-keys later))
      | inr unseen ↦ rw (collapsed-beside e beside, unseen) (collapsed-keys later)
    ]
  ]

module _ (r : Reals) where
  collapse_selected-chosen :
      (m : Model r) (row : VisibleRow)
      → m.focus ≡ Focus.stacks
      → get_elem? (visible_rows r m) m.selected ≡ some row
      → row.is_expanded ≡ true
      → collapse_selected r m ≡ record m { expanded = retain_outside row.key.stack m.expanded }
  unfolding collapse_selected collapse_row
  collapse_selected-chosen m row focused chosen opened = ground (arith, focused, chosen, opened)

  -- Collapsing, with the focus on the stacks and the cursor on an expanded row of a stack that is not
  -- empty, hides exactly the rows whose stacks go below that row's: the others stay visible, with their
  -- statistics and in their order.
  pub collapse_hides :
      (m : Model r) (row : VisibleRow)
      → m.focus ≡ Focus.stacks
      → get_elem? (visible_rows r m) m.selected ≡ some row
      → row.is_expanded ≡ true
      → 0 < length row.key.stack
      → map (λ (v : VisibleRow). (v.key, v.stats)) (visible_rows r (collapse_selected r m))
        ≡ keep
            (λ e. not (goes_below row.key.stack e))
            (map (λ (v : VisibleRow). (v.key, v.stats)) (visible_rows r m))
  unfolding visible_rows
  collapse_hides m row focused chosen opened named =
      rw (collapse_selected-chosen m row focused chosen opened)
        (collapsed-keys row.key.stack m.expanded named (rows m.agg))
