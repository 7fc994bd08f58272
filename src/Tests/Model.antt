-- ===== src/Tests/Model.antt =====
-- Examples of the console's model.
use tracing_console.Base.{
  ◌↔◌, ℕ, ◌+◌, ◌*◌, ◌/◌, ◌<◌, ◌≤◌, ◌≡◌, refl, true, [], ◌∷◌, none, some, ltb, leb, ◌==◌, length,
  arith, replicate, All,
}
use tracing_console.Base.Text.{Text, show_nat}
use tracing_console.Host.Protocol.{WireLevel, WireSpan}
use tracing_console.Aggregate.State.{Aggregator}
use mathlib.Core.List.{Perm}
use tracing_console.Base.Lists.{keep}
use tracing_console.Aggregate.State.{Entry}
use tracing_console.Model.Graph.Inputs.{to_lower}
use tracing_console.Model.Order.Laws.{IsAscending}
use tracing_console.Aggregate.State.Rebuild.{iter_with_stack}
use tracing_console.Model.Explore.{
  ExploreState, ExploreSortColumn, SortDirection, effective_query, matching_spans, query_keeps,
  latency_ns, find_root_id,
}
use tracing_console.Model.Explore.Search.{Found}
use tracing_console.Model.Order.Laws.{IsInOrder}
use tracing_console.Model.Explore.Laws.{
  spans_on, field_le, matching_spans_lem, find_root_id_lem, parents_up, IsRoot, in_direction,
}
use tracing_console.Model.Reals.{Reals}
use tracing_console.Aggregate.Bucket.{default_bucket}
use tracing_console.Model.Core.{Model, Focus, ConnectionStatus, ViewMode, visible_rows}
use tracing_console.Model.Visible.{rows}
use tracing_console.Model.Visible.Laws.{IsTold, visible_rows-IsTold}
use tracing_console.Model.Graph.{AggMode}
use tracing_console.Model.Graph.Bin.{new_bin, aggregate}
use tracing_console.Model.Graph.Bin.Laws.{aggregate_within, bin_of}
use tracing_console.Model.Graph.Store.{Series, record_bin}
use tracing_console.Model.Graph.Store.Laws.{record_bin_lem, Recorded}
use tracing_console.Model.Rate.{RateTracker, completed, record_event, half_second}
use tracing_console.Model.Rate.Laws.{IsRing}
use tracing_console.Model.Rate.Counts.{slot}
use tracing_console.Model.Rate.Window.{
  tracker_of, count_before, completed-tracker_of, record_event_forgets,
}

-- Whole numbers in place of floats; every text reads as its length.
abbrev pub whole : Reals
whole = record {
  F64 = ℕ;
  nought = 0;
  one = 1;
  four = 4;
  sixty = 60;
  hundred = 100;
  billion = 1000000000;
  is_finite = λ x. true;
  eq = λ x y. x == y;
  le = λ x y. leb x y;
  lt = λ x y. ltb x y;
  before = λ x y. ltb x y;
  mul = λ x y. x * y;
  div = λ x y. x / y;
  neg = λ x. x;
  of_u64 = λ n. n;
  round_u64 = λ x. x;
  ceil_u64 = λ x. x;
  parse = λ s. some (length s);
}

aggregate_within_example :
    (3 ≤ aggregate whole (AggMode.percentile 50) (bin_of (7 ∷ 3 ∷ 9 ∷ [])))
    × (aggregate whole (AggMode.percentile 50) (bin_of (7 ∷ 3 ∷ 9 ∷ [])) ≤ 9)
aggregate_within_example =
    aggregate_within whole (AggMode.percentile 50) 7 (3 ∷ 9 ∷ []) (omega arith) (omega arith)
      (omega arith)

-- A series whose first bin is the eleventh, with one bin empty.
abbrev eleventh : Series
eleventh = record { bins = some new_bin ∷ none ∷ []; base_idx = 11 }

record_bin_lem_example :
    (14 < 11 → record_bin 14 5 eleventh ≡ none)
    × (11 ≤ 14
        → (after : Series) × (record_bin 14 5 eleventh ≡ some after) × Recorded 14 5 eleventh after)
record_bin_lem_example = record_bin_lem 14 5 eleventh (omega arith)

abbrev aggregator : Aggregator
aggregator = record {
  order = [];
  by_id = [];
  child_sum = [];
  pending = [];
  pending_len = 0;
  pending_cap = 4;
  split_keys = [];
  history_budget = 2;
  buckets = [];
}

-- Three events, of which the last comes 1.2 seconds after the first.
completed-tracker_of_example :
    completed (tracker_of (1201000000 ∷ 301000000 ∷ 1000000 ∷ []))
    ≡ count_before 1000000 (slot 1000000 1201000000) (1201000000 ∷ 301000000 ∷ 1000000 ∷ []) 8
completed-tracker_of_example =
    completed-tracker_of 1201000000 (301000000 ∷ 1000000 ∷ [])
      (omega arith, omega arith, (omega arith, omega arith, tt)) (omega arith)

-- A tracker with an event in each completed half second, and an event a minute later.
abbrev busy : RateTracker
busy = record { buckets = replicate 9 1; head = 4; bucket_start = some 1000000 }

busy-IsRing : IsRing busy
busy-IsRing = record { nine = refl; inside = omega arith }

record_event_forgets_example :
    (completed (record_event 60001000000 busy) ≡ 0)
    × ((record_event 60001000000 busy).bucket_start ≡ some (1000000 + 9 * half_second))
    × IsRing (record_event 60001000000 busy)
record_event_forgets_example =
    record_event_forgets busy 1000000 60001000000 busy-IsRing refl (omega arith) (omega arith)

-- A ring of a root and its child.
abbrev pub root_span : WireSpan
root_span = record {
  id = 5;
  parent_id = none;
  name = 97 ∷ [];
  target = [];
  level = WireLevel.info;
  fields = [];
  events = [];
  opened_at_ns = 10;
  closed_at_ns = some 30;
}

abbrev child_span : WireSpan
child_span = record root_span { id = 6; parent_id = some 5; opened_at_ns = 12 }

abbrev entry_of : WireSpan → Entry
entry_of s = record {
  span = s;
  bucket = record { stack = (97 ∷ []) ∷ []; splits = [] };
  total_ns = 20;
  self_ns = 20;
}

abbrev family : Aggregator
family = record aggregator {
  order = 5 ∷ 6 ∷ [];
  by_id = (5, entry_of root_span) ∷ (6, entry_of child_span) ∷ [];
}

find_root_id_lem_example :
    (find_root_id family 6 ≡ some 5)
    ↔ ((n : ℕ) × (n < 256) × (parents_up family n 6 ≡ some 5) × IsRoot family 5)
find_root_id_lem_example = find_root_id_lem family 6 5

-- An explorer of the stack with a search for the letter A.
abbrev explorer : ExploreState
explorer = record {
  locked_stack = (97 ∷ []) ∷ [];
  restore_level = none;
  selected = 0;
  sort = ExploreSortColumn.latency;
  direction = SortDirection.desc;
  search_input = some (65 ∷ []);
  query = [];
}

matching_spans_lem_example :
    let q = to_lower (effective_query explorer) in
    let listed = matching_spans show_nat family explorer in
    Perm listed (
      keep
        (query_keeps show_nat q)
        (spans_on show_nat explorer.locked_stack (iter_with_stack family)))
    × ((s : WireSpan) → (query_keeps show_nat q s ≡ true) ↔ Found show_nat q s)
    × (explorer.sort ≡ ExploreSortColumn.timestamp
        → IsAscending
            (λ (s : WireSpan). s.opened_at_ns)
            (in_direction show_nat explorer.direction listed))
    × (explorer.sort ≡ ExploreSortColumn.latency
        → IsAscending latency_ns (in_direction show_nat explorer.direction listed))
    × ((k : Text)
        → explorer.sort ≡ ExploreSortColumn.field_column k
        → IsInOrder (field_le show_nat k) (in_direction show_nat explorer.direction listed))
matching_spans_lem_example = matching_spans_lem show_nat family explorer

-- Two stacks, the second below the first, which is collapsed.
abbrev stacked : Aggregator
stacked = record family {
  buckets =
      (record { stack = (97 ∷ []) ∷ (98 ∷ []) ∷ []; splits = [] }, default_bucket)
      ∷ (record { stack = (97 ∷ []) ∷ []; splits = [] }, default_bucket)
      ∷ [];
}

abbrev pub table : Model whole
table = record {
  agg = stacked;
  expanded = [];
  selected = 0;
  details_selected = 0;
  focus = Focus.stacks;
  connection = ConnectionStatus.connecting;
  status = none;
  history_budget = 2;
  cache_level = none;
  cache_chance = none;
  server_version = none;
  confirm_version_switch = none;
  quit_confirm_deadline = none;
  chance_input = none;
  view = ViewMode.table_view;
  rate = busy;
}

visible_rows-IsTold_example : All (IsTold (rows table.agg)) (visible_rows whole table)
visible_rows-IsTold_example = visible_rows-IsTold whole table
