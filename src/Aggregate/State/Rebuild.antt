-- ===== src/Aggregate/State/Rebuild.antt =====
-- The readers of the aggregator and `set_split_keys`, with the rebuilding of every bucket, in
-- tracing-console/src/aggregate/state.rs.
use tracing_console.Base.{ℕ, zero, suc, List, [], ◌∷◌, Option, none, some, if◌then◌else◌, length}
use tracing_console.Base.Text.{Text}
use tracing_console.Base.OrdMap.{lookup, remove}
use tracing_console.Host.Protocol.{WireSpan}
use tracing_console.Aggregate.State.{Entry, Aggregator, ◌>>=◌, absorb_resolved, sum_or_zero}
use tracing_console.Aggregate.State.Keys.{own_splits, sort_splits, stack_eq}

unfoldable pub len : Aggregator → ℕ
len a = length a.order

-- The entries of the ring in the order of insertion.
unfoldable pub entries : List ℕ → List (ℕ × Entry) → List Entry
entries [] by_id = []
entries (id ∷ order) by_id = elim (lookup id by_id) [
  | none ↦ entries order by_id
  | some entry ↦ entry ∷ entries order by_id
]

unfoldable pub with_stack : List Entry → List (WireSpan × List Text)
with_stack [] = []
with_stack (entry ∷ rest) = (entry.span, entry.bucket.stack) ∷ with_stack rest

unfoldable pub iter_with_stack : Aggregator → List (WireSpan × List Text)
unfolding entries with_stack
iter_with_stack a = with_stack (entries a.order a.by_id)

unfoldable pub resolved_stack : ℕ → Aggregator → Option (List Text)
resolved_stack id a = elim (lookup id a.by_id) [
  | none ↦ none
  | some entry ↦ some entry.bucket.stack
]

unfoldable pub child_sum_for : ℕ → Aggregator → ℕ
child_sum_for id a = sum_or_zero (lookup id a.child_sum)

unfoldable pub span_by_id : ℕ → Aggregator → Option WireSpan
span_by_id id a = elim (lookup id a.by_id) [ none ↦ none | some entry ↦ some entry.span ]

abbrev parent_entry : Option ℕ → List (ℕ × Entry) → Option Entry
parent_entry none by_id = none
parent_entry (some p) by_id = lookup p by_id

module _ (show_f64 : ℕ → Text) where
  -- `collect_splits_for`: the walk up the parents takes at most 65 of them.
  unfoldable pub walk_up :
      ℕ → Option Entry → List (ℕ × Entry) → List Text → List (Text × Text) → List (Text × Text)
  unfolding own_splits
  walk_up zero cursor by_id keys out = out
  walk_up (suc steps) none by_id keys out = out
  walk_up (suc steps) (some entry) by_id keys out =
      walk_up steps (parent_entry entry.span.parent_id by_id) by_id keys
        (own_splits show_f64 entry.span.fields keys out)

  unfoldable pub collect_splits_for : ℕ → List Text → Aggregator → List (Text × Text)
  unfolding walk_up sort_splits
  collect_splits_for id keys a = sort_splits (walk_up 65 (lookup id a.by_id) a.by_id keys [])

  -- The loop of `rebuild_buckets` over the old ring.
  unfoldable pub refeed :
      List ℕ → List (ℕ × Entry) → Aggregator → List ℕ → Option (Aggregator × List ℕ)
  refeed [] by_id a sink = some (a, sink)
  refeed (id ∷ order) by_id a sink = elim (lookup id by_id) [
    | none ↦ refeed order by_id a sink
    | some entry ↦ absorb_resolved show_f64 (suc a.pending_len) entry.span a sink >>= λ fed.
        refeed order (remove id by_id) fed.0 fed.1
  ]

  unfoldable pub rebuild_buckets : Aggregator → Option Aggregator
  unfolding refeed
  rebuild_buckets a =
      let cleared = record a {
        buckets = [];
        child_sum = [];
        order = [];
        by_id = [];
        pending = [];
        pending_len = 0;
      } in
      refeed a.order a.by_id cleared [] >>= λ fed.
      some (record fed.0 { pending = a.pending; pending_len = a.pending_len })

  unfoldable pub set_split_keys : List Text → Aggregator → Option Aggregator
  unfolding rebuild_buckets
  set_split_keys new_keys a =
      if stack_eq.beq new_keys a.split_keys
      then some a
      else rebuild_buckets (record a { split_keys = new_keys })
