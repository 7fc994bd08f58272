-- ===== src/Model/Visible.antt =====
-- The rows of the table: `Aggregator::rows` of tracing-console/src/aggregate/state.rs, and `visible_rows`
-- of tracing-console/src/model/core.rs. A `HashSet` is the list of its elements.
pub mod Laws
use tracing_console.Base.{
  ℕ, ◌-◌, Bool, true, false, not, List, [], ◌∷◌, ◌++◌, map, if◌then◌else◌, ltb, length, any,
}
use tracing_console.Base.Text.{Text, text_eq}
use tracing_console.Aggregate.Bucket.{BucketKey, StackStats, to_stack_stats}
use tracing_console.Aggregate.State.{Aggregator}
use tracing_console.Aggregate.State.Keys.{stack_eq, text_le}
use tracing_console.Model.Order.{sort_by, key_le}

-- `Vec<String>::cmp`, as `a <= b`.
unfoldable pub stack_le : List Text → List Text → Bool
unfolding text_le
stack_le [] stack = true
stack_le (a ∷ s) [] = false
stack_le (a ∷ s) (b ∷ t) = let rest = stack_le s t in if text_eq.beq a b then rest else text_le a b

abbrev pub bucket_le : BucketKey × StackStats → BucketKey × StackStats → Bool
bucket_le a b =
    if stack_eq.beq a.0.stack b.0.stack
    then key_le a.0.splits b.0.splits
    else stack_le a.0.stack b.0.stack

-- `Aggregator::rows`.
unfoldable pub rows : Aggregator → List (BucketKey × StackStats)
unfolding sort_by stack_le key_le to_stack_stats
rows agg = sort_by bucket_le (map (λ e. (e.0, to_stack_stats e.1)) agg.buckets)

pub record VisibleRow : Type 0 where
  pub key : BucketKey
  pub stats : StackStats
  pub depth : ℕ
  pub has_children : Bool
  pub is_expanded : Bool

abbrev pub in_set : List Text → List (List Text) → Bool
in_set stack set = any (λ s. stack_eq.beq s stack) set

-- The loop over the proper prefixes: `done` is the prefix so far, the rest is to come.
unfoldable pub prefixes_expanded : List (List Text) → List Text → List Text → Bool
prefixes_expanded expanded done [] = true
prefixes_expanded expanded done (name ∷ []) = true
prefixes_expanded expanded done (name ∷ next ∷ stack) =
    let rest = prefixes_expanded expanded (done ++ name ∷ []) (next ∷ stack) in
    if in_set (done ++ name ∷ []) expanded then rest else false

unfoldable pub starts_with_stack : List Text → List Text → Bool
starts_with_stack stack [] = true
starts_with_stack [] (p ∷ prefix) = false
starts_with_stack (t ∷ stack) (p ∷ prefix) =
    let rest = starts_with_stack stack prefix in if text_eq.beq t p then rest else false

-- The scan of the later rows.
unfoldable pub has_children_in : List Text → List (BucketKey × StackStats) → Bool
unfolding starts_with_stack
has_children_in stack [] = false
has_children_in stack (next ∷ later) =
    let rest = has_children_in stack later in
    if not (starts_with_stack next.0.stack stack)
    then false
    else if ltb (length stack) (length next.0.stack)
    then true
    else rest

-- The loop of `visible_rows`. The stack of a bucket is never empty.
unfoldable pub visible_of : List (List Text) → List (BucketKey × StackStats) → List VisibleRow
unfolding prefixes_expanded has_children_in
visible_of expanded [] = []
visible_of expanded ((key, stats) ∷ later) =
    let rest = visible_of expanded later in
    if prefixes_expanded expanded [] key.stack
    then record {
      key = key;
      stats = stats;
      depth = length key.stack - 1;
      has_children = has_children_in key.stack later;
      is_expanded = in_set key.stack expanded;
    }
      ∷ rest
    else rest
