-- ===== src/Model/Reduce/Graph.antt =====
-- The arms of `Model::apply` in tracing-console/src/model/core.rs for the graph view, as functions of its
-- state, and of the aggregator where they read it. None is that the recording of a span panics.
use tracing_console.Base.{
  ℕ, suc, ◌+◌, ◌-◌, min, Bool, true, false, ◌&&◌, List, [], ◌∷◌, Option, none, some, if◌then◌else◌,
  ltb, ◌==◌, length, get_elem?,
}
use tracing_console.Base.Text.{Text, text_eq}
use tracing_console.Aggregate.State.{Aggregator}
use tracing_console.Aggregate.State.Keys.{has_text}
use tracing_console.Aggregate.Labels.{candidate_split_keys_for}
use tracing_console.Model.Reals.{Reals}
use tracing_console.Model.Graph.{GraphFocus, SortColumn, next_metric}
use tracing_console.Model.Graph.Store.{SeriesKey}
use tracing_console.Model.Graph.State.{GraphState, series_keys, series_table_columns, rehydrate}
use tracing_console.Model.Graph.Inputs.{parse_agg_input, parse_lookback_input}
use tracing_console.Model.Reduce.Table.{toggle_text}
use tracing_console.Model.Reduce.Inputs.{toggle_key}

unfoldable pub same_sort : SortColumn → SortColumn → Bool
same_sort (SortColumn.split_key a) (SortColumn.split_key b) = text_eq.beq a b
same_sort SortColumn.count SortColumn.count = true
same_sort SortColumn.min SortColumn.min = true
same_sort SortColumn.avg SortColumn.avg = true
same_sort SortColumn.max SortColumn.max = true
same_sort SortColumn.last SortColumn.last = true
same_sort _ _ = false

unfoldable pub position_of_column : SortColumn → ℕ → List SortColumn → Option ℕ
unfolding same_sort
position_of_column c i [] = none
position_of_column c i (d ∷ cols) =
    let rest = position_of_column c (suc i) cols in if same_sort d c then some i else rest

unfoldable pub position_of_text : Text → ℕ → List Text → Option ℕ
position_of_text k i [] = none
position_of_text k i (t ∷ ts) =
    let rest = position_of_text k (suc i) ts in if text_eq.beq t k then some i else rest

abbrev column_or_count : Option SortColumn → SortColumn
column_or_count none = SortColumn.count
column_or_count (some c) = c

-- A sort on a split that is gone falls back to the count.
unfoldable pub sort_after_split : List Text → SortColumn → SortColumn
sort_after_split keys (SortColumn.split_key k) =
    if has_text k keys then SortColumn.split_key k else SortColumn.count
sort_after_split keys SortColumn.count = SortColumn.count
sort_after_split keys SortColumn.min = SortColumn.min
sort_after_split keys SortColumn.avg = SortColumn.avg
sort_after_split keys SortColumn.max = SortColumn.max
sort_after_split keys SortColumn.last = SortColumn.last

pub data Target : Type 0 where
  series : SeriesKey → Target
  key : Text → Target

module _ (r : Reals) where
  unfoldable pub agg_input_commit : GraphState r → GraphState r
  unfolding parse_agg_input
  agg_input_commit g = elim g.agg_input [
    | none ↦ g
    | some buf ↦ elim (parse_agg_input r buf) [
      | none ↦ record g { agg_input = none }
      | some mode ↦ record g { agg_input = none; aggregation = mode }
    ]
  ]

  unfoldable pub lookback_input_commit : GraphState r → GraphState r
  unfolding parse_lookback_input
  lookback_input_commit g = elim g.lookback_input [
    | none ↦ g
    | some buf ↦ elim (parse_lookback_input r buf) [
      | none ↦ record g { lookback_input = none }
      | some secs ↦ record g { lookback_input = none; lookback_secs = secs }
    ]
  ]

  unfoldable pub graph_switch_focus : GraphState r → GraphState r
  unfolding series_keys
  graph_switch_focus g = elim g.focus [
    | GraphFocus.chart ↦ record g { focus = GraphFocus.details }
    | GraphFocus.details ↦
        let chart = record g { focus = GraphFocus.chart } in
        record chart {
          details_selected = min chart.details_selected (length (series_keys r chart) - 1);
        }
  ]

  unfoldable pub candidates : Aggregator → GraphState r → List Text
  unfolding candidate_split_keys_for
  candidates agg g = elim g.focus [
    | GraphFocus.chart ↦ []
    | GraphFocus.details ↦ candidate_split_keys_for agg g.locked_stack
  ]

  unfoldable pub graph_select_down : Aggregator → GraphState r → GraphState r
  unfolding series_keys candidates
  graph_select_down agg g =
      let total = length (series_keys r g) + length (candidates agg g) in
      if total == 0
      then g
      else record g { details_selected = min (g.details_selected + 1) (total - 1) }

  abbrev target_key : Option Text → Option Target
  target_key none = none
  target_key (some k) = some (Target.key k)

  -- The row at the cursor: a series, or a candidate below the series.
  unfoldable pub target_of : Aggregator → GraphState r → Option Target
  unfolding series_keys candidates
  target_of agg g =
      let listed = series_keys r g in
      elim (get_elem? listed g.details_selected) [
        | some found ↦ some (Target.series found)
        | none ↦ target_key (get_elem? (candidates agg g) (g.details_selected - length listed))
      ]

  unfoldable pub sort_column_left : GraphState r → GraphState r
  unfolding series_table_columns position_of_column
  sort_column_left g =
      let cols = series_table_columns r g in
      let last = get_elem? cols (length cols - 1) in
      record g {
        sort_column = elim (position_of_column g.sort_column 0 cols) [
          | none ↦ column_or_count last
          | some i ↦ column_or_count (if ltb 0 i then get_elem? cols (i - 1) else last)
        ];
      }

  unfoldable pub sort_column_right : GraphState r → GraphState r
  unfolding series_table_columns position_of_column
  sort_column_right g =
      let cols = series_table_columns r g in
      let first = get_elem? cols 0 in
      record g {
        sort_column = elim (position_of_column g.sort_column 0 cols) [
          | none ↦ column_or_count first
          | some i ↦
              column_or_count (if ltb (i + 1) (length cols) then get_elem? cols (i + 1) else first)
        ];
      }

  module _ (show_f64 : ℕ → Text) where
    unfoldable pub toggle_metric : Aggregator → GraphState r → Option (GraphState r)
    toggle_metric agg g = rehydrate r show_f64 agg (record g { metric = next_metric g.metric })

    -- A window is taken if it is a finite positive number; the store then starts over.
    unfoldable pub take_window : Aggregator → Option r.F64 → GraphState r → Option (GraphState r)
    take_window agg none g = some g
    take_window agg (some v) g =
        if r.is_finite v && r.lt r.nought v
        then rehydrate r show_f64 agg (record g { window_secs = v })
        else some g

    unfoldable pub window_input_commit : Aggregator → GraphState r → Option (GraphState r)
    window_input_commit agg g = elim g.window_input [
      | none ↦ some g
      | some buf ↦ take_window agg (r.parse buf) (record g { window_input = none })
    ]

    -- The cursor stays on the key.
    unfoldable pub pin_cursor : List Text → Text → GraphState r → GraphState r
    unfolding position_of_text series_keys
    pin_cursor listed k g = elim (position_of_text k 0 listed) [
      | none ↦ g
      | some pos ↦ record g { details_selected = length (series_keys r g) + pos }
    ]

    unfoldable pub toggle_target : Aggregator → Option Target → GraphState r → Option (GraphState r)
    toggle_target agg none g = some g
    toggle_target agg (some (Target.series found)) g =
        some (record g { hidden_series = toggle_key found g.hidden_series })
    toggle_target agg (some (Target.key k)) g =
        let keys = toggle_text k g.split_keys in
        elim (rehydrate r show_f64 agg (record g {
          split_keys = keys;
          hidden_series = [];
          sort_column = sort_after_split keys g.sort_column;
        })) [ none ↦ none | some g' ↦ some (pin_cursor (candidates agg g) k g') ]

    unfoldable pub graph_toggle_split : Aggregator → GraphState r → Option (GraphState r)
    graph_toggle_split agg g = toggle_target agg (target_of agg g) g
