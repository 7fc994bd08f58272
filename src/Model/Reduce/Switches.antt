-- ===== src/Model/Reduce/Switches.antt =====
-- The arms of `Model::apply` in tracing-console/src/model/core.rs that record spans into the graph, open
-- and close the graph, and open and close a trace.
use tracing_console.Base.{ℕ, List, [], ◌∷◌, Option, none, some, if◌then◌else◌}
use tracing_console.Base.Text.{Text}
use tracing_console.Host.Protocol.{WireSpan}
use tracing_console.Aggregate.State.{Aggregator, absorb}
use tracing_console.Aggregate.State.Keys.{stack_eq}
use tracing_console.Aggregate.State.Rebuild.{resolved_stack, span_by_id}
use tracing_console.Model.Reals.{Reals}
use tracing_console.Model.Rate.{record_event}
use tracing_console.Model.Graph.State.{GraphState, new_graph, record_span, rehydrate}
use tracing_console.Model.Core.{
  Model, table_view, graph_view, explore_view, trace_detail_view, selected_visible_row,
}
use tracing_console.Model.Update.{Effect}
use tracing_console.Model.Reduce.Explore.{restored_level, open_trace}
use tracing_console.Model.Reduce.Views.{Applied, quietly, try_graph}

module _ (r : Reals) (show_f64 : ℕ → Text) where
  -- A span of the ring is recorded, if it belongs to the graph's stack.
  unfoldable pub record_if_locked : Aggregator → ℕ → GraphState r → Option (GraphState r)
  unfolding resolved_stack span_by_id record_span
  record_if_locked agg id g = elim (resolved_stack id agg) [
    | none ↦ some g
    | some stack ↦ elim (span_by_id id agg) [
      | none ↦ some g
      | some span ↦
          if stack_eq.beq stack g.locked_stack then record_span r show_f64 agg span g else some g
    ]
  ]

  -- The loop over the spans that were inserted.
  unfoldable pub record_inserted : Aggregator → List ℕ → GraphState r → Option (GraphState r)
  unfolding record_if_locked
  record_inserted agg [] g = some g
  record_inserted agg (id ∷ ids) g = elim (record_if_locked agg id g) [
    | none ↦ none
    | some g' ↦ record_inserted agg ids g'
  ]

  unfoldable pub span_received : ℕ → WireSpan → Model r → Applied r
  unfolding record_event absorb record_inserted
  span_received now span m = elim (absorb show_f64 span m.agg) [
    | none ↦ none
    | some (agg, inserted_ids) ↦
        try_graph r (record_inserted agg inserted_ids)
          (record m { rate = record_event now m.rate; agg = agg })
  ]

  -- A graph that opens is filled from the ring.
  unfoldable pub graph_on : List Text → Effect r.F64 → Model r → Applied r
  unfolding new_graph rehydrate
  graph_on stack effect m = elim (rehydrate r show_f64 m.agg (new_graph r stack)) [
    | none ↦ none
    | some g ↦ some (record m { view = graph_view g }, effect)
  ]

  unfoldable pub toggle_graph : Model r → Applied r
  unfolding selected_visible_row graph_on
  toggle_graph m = elim m.view [
    | table_view ↦ elim (selected_visible_row r m) [
      | none ↦ quietly r m
      | some row ↦ graph_on row.key.stack Effect.none m
    ]
    | graph_view g ↦ quietly r (record m { view = table_view })
    | explore_view es ↦ quietly r (record m { view = table_view })
    | trace_detail_view td ↦ quietly r (record m { view = table_view })
  ]

  unfoldable pub enter_graph : Model r → Applied r
  unfolding selected_visible_row graph_on restored_level
  enter_graph m = elim m.view [
    | table_view ↦ elim (selected_visible_row r m) [
      | none ↦ quietly r m
      | some row ↦ graph_on row.key.stack Effect.none m
    ]
    | graph_view g ↦ quietly r m
    | explore_view es ↦ graph_on es.locked_stack (Effect.request_set_level (restored_level es)) m
    | trace_detail_view td ↦
        graph_on td.explore.locked_stack (Effect.request_set_level (restored_level td.explore)) m
  ]

  unfoldable pub explore_open_trace : Model r → Applied r
  explore_open_trace m = elim m.view [
    | table_view ↦ quietly r m
    | graph_view g ↦ quietly r m
    | explore_view es ↦ elim (open_trace show_f64 m.agg es) [
      | none ↦ quietly r m
      | some td ↦ quietly r (record m { view = trace_detail_view td })
    ]
    | trace_detail_view td ↦ quietly r m
  ]

  unfoldable pub exit_trace_detail : Model r → Applied r
  exit_trace_detail m = elim m.view [
    | table_view ↦ quietly r m
    | graph_view g ↦ quietly r (record m { view = table_view })
    | explore_view es ↦ quietly r (record m { view = table_view })
    | trace_detail_view td ↦ quietly r (record m { view = explore_view td.explore })
  ]
