-- ===== src/Model/Explore.antt =====
-- tracing-console/src/model/explore.rs: the list of a bucket's spans with its search and order, and the
-- rows of one trace. Of the console's model the functions read the aggregator.
pub mod Rows
pub mod Search
pub mod Laws
use tracing_console.Base.{
  ℕ, zero, suc, ◌+◌, ◌-◌, ◌*◌, ◌%◌, Bool, true, false, ◌&&◌, ◌||◌, not, List, [], ◌∷◌, ◌++◌, map,
  Option, none, some, if◌then◌else◌, ltb, leb, ◌==◌, length, get_elem?, keep, any,
}
use tracing_console.Base.Int.{ℤ, pos, negsuc}
use tracing_console.Base.Text.{Text, text_eq, contains}
use tracing_console.Host.Protocol.{WireFieldValue, WireEvent, WireSpan, to_string_value, field}
use tracing_console.Host.Level.{WireLevelFilter}
use tracing_console.Aggregate.State.{Aggregator}
use tracing_console.Aggregate.State.Keys.{stack_eq, text_le}
use tracing_console.Aggregate.State.Rebuild.{iter_with_stack, span_by_id}
use tracing_console.Model.Order.{sort_by}
use tracing_console.Model.Graph.Inputs.{to_lower}

pub data ExploreSortColumn : Type 0 where
  timestamp latency : ExploreSortColumn
  field_column : Text → ExploreSortColumn

pub data SortDirection : Type 0 where
  asc desc : SortDirection

unfoldable pub default_direction : ExploreSortColumn → SortDirection
default_direction timestamp = desc
default_direction latency = desc
default_direction (field_column k) = asc

unfoldable pub flip : SortDirection → SortDirection
flip asc = desc
flip desc = asc

-- An arrow up or down, in UTF-8.
unfoldable pub arrow : SortDirection → Text
arrow asc = 226 ∷ 150 ∷ 178 ∷ []
arrow desc = 226 ∷ 150 ∷ 188 ∷ []

pub record ExploreState : Type 0 where
  pub locked_stack : List Text
  pub restore_level : Option WireLevelFilter
  pub selected : ℕ
  pub sort : ExploreSortColumn
  pub direction : SortDirection
  pub search_input : Option Text
  pub query : Text

unfoldable pub new_explore : List Text → Option WireLevelFilter → ExploreState
unfolding default_direction
new_explore locked_stack restore_level = record {
  locked_stack = locked_stack;
  restore_level = restore_level;
  selected = 0;
  sort = timestamp;
  direction = default_direction timestamp;
  search_input = none;
  query = [];
}

unfoldable pub effective_query : ExploreState → Text
effective_query es = elim es.search_input [ none ↦ es.query | some input ↦ input ]

pub record TraceDetailState : Type 0 where
  pub root_id : ℕ
  pub selected_idx : ℕ
  pub collapsed : List ℕ
  pub explore : ExploreState

unfoldable pub stack_spans : List Text → List (WireSpan × List Text) → List WireSpan
stack_spans locked [] = []
stack_spans locked ((s, stack) ∷ rest) =
    if stack_eq.beq stack locked then s ∷ stack_spans locked rest else stack_spans locked rest

unfoldable pub locked_stack_spans : Aggregator → ExploreState → List WireSpan
unfolding stack_spans iter_with_stack
locked_stack_spans agg es = stack_spans es.locked_stack (iter_with_stack agg)

unfoldable pub latency_ns : WireSpan → ℕ
latency_ns s = elim s.closed_at_ns [ none ↦ 0 | some c ↦ c - s.opened_at_ns ]

abbrev lower_contains : Text → Text → Bool
lower_contains text q = contains (to_lower text) q

abbrev pub reverse_onto : {A : Type 0} → List A → List A → List A
reverse_onto [] out = out
reverse_onto (x ∷ xs) out = reverse_onto xs (x ∷ out)

module _ (show_f64 : ℕ → Text) where
  unfoldable pub field_matches : Text → List (Text × WireFieldValue) → Bool
  unfolding to_lower contains to_string_value
  field_matches q =
      any (λ kv. lower_contains kv.0 q || lower_contains (to_string_value show_f64 kv.1) q)

  unfoldable pub span_matches_query : WireSpan → Text → Bool
  unfolding field_matches to_lower contains
  span_matches_query s q =
      lower_contains s.name q
      || field_matches q s.fields
      || any (λ e. lower_contains e.name q || field_matches q e.fields) s.events

  unfoldable pub field_string : WireSpan → Text → Text
  unfolding field to_string_value
  field_string s key = elim (field s.fields key) [ none ↦ [] | some v ↦ to_string_value show_f64 v ]

  -- `sort_by_key`, which is stable.
  unfoldable pub sorted_by : ExploreSortColumn → List WireSpan → List WireSpan
  unfolding sort_by latency_ns field_string text_le
  sorted_by timestamp spans = sort_by (λ a b. leb a.opened_at_ns b.opened_at_ns) spans
  sorted_by latency spans = sort_by (λ a b. leb (latency_ns a) (latency_ns b)) spans
  sorted_by (field_column k) spans =
      sort_by (λ a b. text_le (field_string a k) (field_string b k)) spans

  unfoldable pub sort_spans : List WireSpan → ExploreSortColumn → SortDirection → List WireSpan
  unfolding sorted_by
  sort_spans spans by asc = sorted_by by spans
  sort_spans spans by desc = reverse_onto (sorted_by by spans) []

  unfoldable pub query_keeps : Text → WireSpan → Bool
  unfolding span_matches_query
  query_keeps [] s = true
  query_keeps (c ∷ q) s = span_matches_query s (c ∷ q)

  unfoldable pub matching_spans : Aggregator → ExploreState → List WireSpan
  unfolding effective_query to_lower locked_stack_spans query_keeps sort_spans
  matching_spans agg es =
      let q = to_lower (effective_query es) in
      sort_spans (keep (query_keeps q) (locked_stack_spans agg es)) es.sort es.direction

-- `find_root_id`: the walk takes at most 256 steps.
unfoldable pub climb_to_root : ℕ → ℕ → Aggregator → Option ℕ
unfolding span_by_id
climb_to_root zero cur agg = none
climb_to_root (suc steps) cur agg = elim (span_by_id cur agg) [
  | none ↦ none
  | some s ↦ elim s.parent_id [ none ↦ some cur | some p ↦ climb_to_root steps p agg ]
]

unfoldable pub find_root_id : Aggregator → ℕ → Option ℕ
unfolding climb_to_root
find_root_id agg span_id = climb_to_root 256 span_id agg

unfoldable pub same_column : ExploreSortColumn → ExploreSortColumn → Bool
same_column timestamp timestamp = true
same_column latency latency = true
same_column (field_column a) (field_column b) = text_eq.beq a b
same_column _ _ = false

-- `position(...).unwrap_or(0)`.
unfoldable pub position_or_zero : ExploreSortColumn → ℕ → List ExploreSortColumn → ℕ
unfolding same_column
position_or_zero column i [] = 0
position_or_zero column i (c ∷ all) =
    let rest = position_or_zero column (suc i) all in if same_column c column then i else rest

-- `(idx + delta).rem_euclid(n)`, where `n` is positive.
unfoldable pub rem_euclid : ℕ → ℤ → ℕ → ℕ
rem_euclid idx (pos d) n = (idx + d) % n
rem_euclid idx (negsuc d) n = (idx + suc d * (n - 1)) % n

abbrev pub columns_of : List Text → List ExploreSortColumn
columns_of fields = timestamp ∷ latency ∷ map field_column fields

abbrev column_or : ExploreSortColumn → Option ExploreSortColumn → ExploreSortColumn
column_or column none = column
column_or column (some c) = c

-- The index is always within, and the column changes with its direction.
unfoldable pub cycle_sort : List Text → ℤ → ExploreState → ExploreState
unfolding position_or_zero rem_euclid default_direction
cycle_sort fields delta es =
    let all = columns_of fields in
    let next = rem_euclid (position_or_zero es.sort 0 all) delta (length all) in
    let sort = column_or es.sort (get_elem? all next) in
    record es { sort = sort; direction = default_direction sort }

unfoldable pub cycle_sort_left : List Text → ExploreState → ExploreState
unfolding cycle_sort
cycle_sort_left fields es = cycle_sort fields (negsuc 0) es

unfoldable pub cycle_sort_right : List Text → ExploreState → ExploreState
unfolding cycle_sort
cycle_sort_right fields es = cycle_sort fields (pos 1) es
