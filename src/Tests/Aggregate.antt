-- ===== src/Tests/Aggregate.antt =====
-- Examples of the buckets and of the aggregator.
use tracing_console.Base.{ℕ, ◌≡◌, refl, List, [], ◌∷◌, ◌++◌, none, some, arith}
use tracing_console.Base.Text.{Text}
use tracing_console.Host.Protocol.{WireSpan, WireLevel}
use tracing_console.Aggregate.Bucket.{to_stack_stats, remove_contribution, ms_min_max}
use tracing_console.Aggregate.Bucket.Multiset.{ms_of, least, greatest, ms_min_max-ms_of}
use tracing_console.Aggregate.Bucket.Stats.{
  bucket_of, stats_of, to_stack_stats_lem, remove_contribution_lem,
}
use tracing_console.Aggregate.State.{Aggregator, new, absorb, make_room}
use tracing_console.Aggregate.State.Evict.{make_room_diverges}
use tracing_console.Aggregate.State.Absorb.{IsAggregator, new-IsAggregator, absorb_total}

ms_min_max-ms_of_example :
    ms_min_max (ms_of (30 ∷ 10 ∷ 30 ∷ []))
    ≡ (least (30 ∷ 10 ∷ 30 ∷ []), greatest (30 ∷ 10 ∷ 30 ∷ []))
ms_min_max-ms_of_example = ms_min_max-ms_of (30 ∷ 10 ∷ 30 ∷ [])

to_stack_stats_lem_example :
    to_stack_stats (bucket_of ((30, 20) ∷ (10, 10) ∷ [])) ≡ stats_of ((30, 20) ∷ (10, 10) ∷ [])
to_stack_stats_lem_example =
    to_stack_stats_lem ((30, 20) ∷ (10, 10) ∷ []) (omega arith) (omega arith) (omega arith)

remove_contribution_lem_example :
    remove_contribution 10 5 (bucket_of (((30, 20) ∷ []) ++ (10, 5) ∷ (30, 4) ∷ []))
    ≡ bucket_of (((30, 20) ∷ []) ++ (30, 4) ∷ [])
remove_contribution_lem_example =
    remove_contribution_lem 10 5 ((30, 20) ∷ []) ((30, 4) ∷ []) (omega arith) (omega arith)
      (omega arith) (omega arith) (omega arith)

abbrev show_f64 : ℕ → Text
show_f64 bits = []

-- A closed span, below a parent that has not been seen.
abbrev orphan : WireSpan
orphan = record {
  id = 4;
  parent_id = some 3;
  name = 104 ∷ [];
  target = [];
  level = WireLevel.info;
  fields = [];
  events = [];
  opened_at_ns = 10;
  closed_at_ns = some 25;
}

eight-IsAggregator : IsAggregator (new 8)
eight-IsAggregator = new-IsAggregator 8 (omega arith) (omega arith)

absorb_total_example :
    (a' : Aggregator) × (inserted : List ℕ) × (absorb show_f64 orphan (new 8) ≡ some (a', inserted))
    × IsAggregator a'
absorb_total_example = absorb_total show_f64 orphan (new 8) eight-IsAggregator

-- A ring of three, of which the limit is two.
abbrev crowded : Aggregator
crowded = record {
  order = 1 ∷ 2 ∷ 3 ∷ [];
  by_id = [];
  child_sum = [];
  pending = [];
  pending_len = 0;
  pending_cap = 1;
  buckets = [];
  split_keys = [];
  history_budget = 2;
}

make_room_diverges_example : make_room 1000 (record crowded { history_budget = 0 }) ≡ none
make_room_diverges_example = make_room_diverges 1000 (record crowded { history_budget = 0 }) refl
