-- ===== src/Model/Reduce/Table.antt =====
-- The arms of `Model::apply` in tracing-console/src/model/core.rs for the table of stacks.
use tracing_console.Base.{
  ℕ, zero, suc, ◌+◌, ◌-◌, min, ◌&&◌, not, List, [], ◌∷◌, Option, none, some, if◌then◌else◌, ltb,
  ◌==◌, length, get_elem?, keep,
}
use tracing_console.Base.Text.{Text, text_eq}
use tracing_console.Aggregate.Bucket.{BucketKey, StackStats}
use tracing_console.Aggregate.State.Keys.{stack_eq, has_text}
use tracing_console.Aggregate.State.Rebuild.{set_split_keys}
use tracing_console.Aggregate.Labels.{insert_text, take_texts}
use tracing_console.Model.Reals.{Reals}
use tracing_console.Model.Visible.{VisibleRow, rows, starts_with_stack, in_set}
use tracing_console.Model.Core.{
  Model, Focus, visible_rows, current_pane_len, current_selected, set_current_selected,
  candidate_split_keys,
}

-- `HashSet::insert`.
unfoldable pub insert_stack : List Text → List (List Text) → List (List Text)
insert_stack stack set = if in_set stack set then set else stack ∷ set

-- The loop over the lengths: `left` of them are to come, from `len` on.
unfoldable pub insert_prefixes : List Text → ℕ → ℕ → List (List Text) → List (List Text)
unfolding insert_stack
insert_prefixes stack len zero set = set
insert_prefixes stack len (suc left) set =
    insert_prefixes stack (suc len) left (insert_stack (take_texts len stack) set)

-- The loop over the rows.
unfoldable pub expand_below :
    List Text → List (BucketKey × StackStats) → List (List Text) → List (List Text)
unfolding insert_prefixes starts_with_stack
expand_below root_stack [] set = set
expand_below root_stack ((k, stats) ∷ all) set = expand_below root_stack all (
    if starts_with_stack k.stack root_stack && ltb (length root_stack) (length k.stack)
    then insert_prefixes k.stack (length root_stack) (length k.stack - length root_stack) set
    else set)

-- `expanded.retain(|s| !s.starts_with(prefix))`.
unfoldable pub retain_outside : List Text → List (List Text) → List (List Text)
unfolding starts_with_stack
retain_outside prefix set = keep (λ s. not (starts_with_stack s prefix)) set

unfoldable pub position_of_stack : List Text → ℕ → List VisibleRow → Option ℕ
position_of_stack stack i [] = none
position_of_stack stack i (row ∷ listed) =
    let rest = position_of_stack stack (suc i) listed in
    if stack_eq.beq row.key.stack stack then some i else rest

-- A set of texts without `k`, if it was in, or else with it.
unfoldable pub toggle_text : Text → List Text → List Text
unfolding insert_text
toggle_text k keys =
    if has_text k keys then keep (λ t. not (text_eq.beq t k)) keys else insert_text k keys

module _ (r : Reals) where
  unfoldable pub select_up : Model r → Model r
  unfolding current_pane_len current_selected set_current_selected
  select_up m =
      if current_pane_len r m == 0 then m else set_current_selected r (current_selected r m - 1) m

  unfoldable pub select_down : Model r → Model r
  unfolding current_pane_len current_selected set_current_selected
  select_down m =
      let n = current_pane_len r m in
      if n == 0 then m else set_current_selected r (min (current_selected r m + 1) (n - 1)) m

  unfoldable pub expand_row : Option VisibleRow → Model r → Model r
  unfolding insert_stack
  expand_row none m = m
  expand_row (some row) m =
      if row.has_children then record m { expanded = insert_stack row.key.stack m.expanded } else m

  unfoldable pub expand_selected : Model r → Model r
  unfolding visible_rows expand_row
  expand_selected m = elim m.focus [
    | Focus.stacks ↦ expand_row (get_elem? (visible_rows r m) m.selected) m
    | Focus.details ↦ m
  ]

  unfoldable pub expand_all_of_row : Option VisibleRow → Model r → Model r
  unfolding rows expand_below
  expand_all_of_row none m = m
  expand_all_of_row (some row) m = record m {
    expanded = expand_below row.key.stack (rows m.agg) m.expanded;
  }

  unfoldable pub expand_all_selected : Model r → Model r
  unfolding visible_rows expand_all_of_row
  expand_all_selected m = elim m.focus [
    | Focus.stacks ↦ expand_all_of_row (get_elem? (visible_rows r m) m.selected) m
    | Focus.details ↦ m
  ]

  -- The jump to the parent, which is collapsed; the cursor stays if no row of its stack is visible.
  unfoldable pub collapse_parent : List Text → Model r → Model r
  unfolding retain_outside position_of_stack visible_rows
  collapse_parent parent_stack m =
      let collapsed = record m { expanded = retain_outside parent_stack m.expanded } in
      elim (position_of_stack parent_stack 0 (visible_rows r collapsed)) [
        | none ↦ collapsed
        | some idx ↦ record collapsed { selected = idx }
      ]

  unfoldable pub collapse_row : Option VisibleRow → Model r → Model r
  unfolding retain_outside collapse_parent
  collapse_row none m = m
  collapse_row (some row) m =
      if row.is_expanded
      then record m { expanded = retain_outside row.key.stack m.expanded }
      else if ltb 0 row.depth
      then collapse_parent (take_texts (length row.key.stack - 1) row.key.stack) m
      else m

  unfoldable pub collapse_selected : Model r → Model r
  unfolding visible_rows collapse_row
  collapse_selected m = elim m.focus [
    | Focus.stacks ↦ collapse_row (get_elem? (visible_rows r m) m.selected) m
    | Focus.details ↦ m
  ]

  unfoldable pub switch_focus : Model r → Model r
  switch_focus m = elim m.focus [
    | Focus.stacks ↦ record m { focus = Focus.details; details_selected = 0 }
    | Focus.details ↦ record m { focus = Focus.stacks }
  ]

  module _ (show_f64 : ℕ → Text) where
    unfoldable pub toggle_split : Option Text → Model r → Option (Model r)
    toggle_split none m = some m
    toggle_split (some k) m =
        elim (set_split_keys show_f64 (toggle_text k m.agg.split_keys) m.agg) [
          | none ↦ none
          | some agg ↦ some (record m { agg = agg; expanded = []; selected = 0 })
        ]

    -- None would be that the rebuilding of the buckets had run out of fuel.
    unfoldable pub toggle_split_selected : Model r → Option (Model r)
    unfolding candidate_split_keys toggle_split
    toggle_split_selected m = elim m.focus [
      | Focus.stacks ↦ some m
      | Focus.details ↦ toggle_split (get_elem? (candidate_split_keys r m) m.details_selected) m
    ]
