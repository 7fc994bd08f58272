-- ===== src/Model/Graph/State.antt =====
-- `GraphState` of tracing-console/src/model/graph.rs: the state of the graph view, and the recording of
-- spans of the aggregator into its store. A `BTreeSet` is the list of its elements in order.
pub mod Bounds
use tracing_console.Base.{
  ℕ, zero, suc, ◌-◌, Bool, true, false, List, [], ◌∷◌, ◌++◌, map, Option, none, some, if◌then◌else◌,
  leb, ◌==◌,
}
use tracing_console.Base.Text.{Text, text_eq}
use tracing_console.Host.Protocol.{WireSpan}
use tracing_console.Aggregate.State.{Aggregator}
use tracing_console.Aggregate.State.Keys.{stack_eq, splits_eq, text_le}
use tracing_console.Aggregate.State.Rebuild.{
  child_sum_for, collect_splits_for, iter_with_stack, span_by_id,
}
use tracing_console.Model.Reals.{Reals}
use tracing_console.Model.Order.{sort_by, key_le}
use tracing_console.Model.Graph.{Metric, AggMode, TimeLabels, GraphFocus, SortColumn}
use tracing_console.Model.Graph.Store.{
  SeriesKey, GraphSeriesStore, record_sample, new_store, reset_window,
}
use tracing_console.Model.Graph.Views.{SeriesSummary, series_summary}

pub record GraphState (r : Reals) : Type 0 where
  pub locked_stack : List Text
  pub aggregation : AggMode r.F64
  pub metric : Metric
  pub window_secs : r.F64
  pub lookback_secs : r.F64
  pub split_keys : List Text
  pub hidden_series : List SeriesKey
  pub details_selected : ℕ
  pub focus : GraphFocus
  pub sort_column : SortColumn
  pub agg_input : Option Text
  pub window_input : Option Text
  pub lookback_input : Option Text
  pub time_labels : TimeLabels
  pub store : GraphSeriesStore

-- `iter().find(|(kk, _)| kk == k)`, or the empty text.
unfoldable pub split_value : Text → SeriesKey → Text
split_value k [] = []
split_value k ((kk, v) ∷ key) = if text_eq.beq kk k then v else split_value k key

unfoldable pub find_summary : SeriesKey → List SeriesSummary → Option SeriesSummary
find_summary key [] = none
find_summary key (s ∷ summaries) =
    if splits_eq.beq s.key key then some s else find_summary key summaries

-- `key <= other` by a primary comparison of texts or numbers, with ties by the full key.
abbrev by_text : Text → Text → SeriesKey → SeriesKey → Bool
by_text a b key other = if text_eq.beq a b then key_le key other else text_le a b

abbrev by_number : ℕ → ℕ → SeriesKey → SeriesKey → Bool
by_number a b key other = if a == b then key_le key other else leb a b

abbrev stat : (SeriesSummary → ℕ) → Option SeriesSummary → ℕ
stat f none = 0
stat f (some s) = f s

module _ (r : Reals) where
  unfoldable pub new_graph : List Text → GraphState r
  unfolding new_store
  new_graph locked_stack = record {
    locked_stack = locked_stack;
    aggregation = AggMode.avg;
    metric = Metric.total;
    window_secs = r.one;
    lookback_secs = r.sixty;
    split_keys = [];
    hidden_series = [];
    details_selected = 0;
    focus = GraphFocus.chart;
    sort_column = SortColumn.count;
    agg_input = none;
    window_input = none;
    lookback_input = none;
    time_labels = TimeLabels.delta;
    store = new_store r r.one;
  }

  unfoldable pub series_table_columns : GraphState r → List SortColumn
  series_table_columns g =
      map SortColumn.split_key g.split_keys
      ++ SortColumn.count ∷ SortColumn.min ∷ SortColumn.avg ∷ SortColumn.max ∷ SortColumn.last ∷ []

  unfoldable pub alpha_series_keys : GraphState r → List SeriesKey
  unfolding sort_by key_le
  alpha_series_keys g = sort_by key_le (map (λ e. e.0) g.store.series)

  -- The comparison of `series_keys`.
  unfoldable pub column_le : SortColumn → List SeriesSummary → SeriesKey → SeriesKey → Bool
  unfolding split_value find_summary key_le text_le
  column_le column summaries a b =
      let sa = find_summary a summaries in
      let sb = find_summary b summaries in
      elim column [
        | SortColumn.split_key k ↦ by_text (split_value k a) (split_value k b) a b
        | SortColumn.count ↦ by_number (stat (λ s. s.count) sb) (stat (λ s. s.count) sa) a b
        | SortColumn.min ↦ by_number (stat (λ s. s.min_ns) sa) (stat (λ s. s.min_ns) sb) a b
        | SortColumn.avg ↦ by_number (stat (λ s. s.avg_ns) sb) (stat (λ s. s.avg_ns) sa) a b
        | SortColumn.max ↦ by_number (stat (λ s. s.max_ns) sb) (stat (λ s. s.max_ns) sa) a b
        | SortColumn.last ↦ by_number (stat (λ s. s.last_ns) sb) (stat (λ s. s.last_ns) sa) a b
      ]

  unfoldable pub series_keys : GraphState r → List SeriesKey
  unfolding series_summary alpha_series_keys column_le sort_by
  series_keys g =
      let summaries = series_summary r g.aggregation g.metric g.store in
      sort_by (column_le g.sort_column summaries) (alpha_series_keys g)

  module _ (show_f64 : ℕ → Text) where
    -- The value that a closed span contributes.
    unfoldable pub span_value : Aggregator → WireSpan → ℕ → Metric → ℕ
    unfolding child_sum_for
    span_value agg span closed Metric.total = closed - span.opened_at_ns
    span_value agg span closed Metric.self_time =
        closed - span.opened_at_ns - child_sum_for span.id agg
    span_value agg span closed Metric.count = 1

    -- `record_span`. None is what recording does on a window of 0 or on a sample that comes late.
    unfoldable pub record_span : Aggregator → WireSpan → GraphState r → Option (GraphState r)
    unfolding span_value collect_splits_for record_sample
    record_span agg span g = elim span.closed_at_ns [
      | none ↦ some g
      | some closed ↦
          elim (record_sample (collect_splits_for show_f64 span.id g.split_keys agg) closed
            (span_value agg span closed g.metric) g.store) [
              | none ↦ none
              | some store ↦ some (record g { store = store })
            ]
    ]

    -- The loop over the ids.
    unfoldable pub rerecord : Aggregator → List ℕ → GraphState r → Option (GraphState r)
    unfolding span_by_id record_span
    rerecord agg [] g = some g
    rerecord agg (id ∷ ids) g = elim (span_by_id id agg) [
      | none ↦ rerecord agg ids g
      | some span ↦ elim (record_span agg span g) [ none ↦ none | some g' ↦ rerecord agg ids g' ]
    ]

    unfoldable pub matching_ids : List Text → List (WireSpan × List Text) → List ℕ
    matching_ids locked [] = []
    matching_ids locked ((span, stack) ∷ rest) =
        if stack_eq.beq stack locked
        then span.id ∷ matching_ids locked rest
        else matching_ids locked rest

    unfoldable pub rehydrate : Aggregator → GraphState r → Option (GraphState r)
    unfolding reset_window matching_ids iter_with_stack rerecord
    rehydrate agg g =
        rerecord agg (matching_ids g.locked_stack (iter_with_stack agg))
          (record g { store = reset_window r g.window_secs g.store })
