-- ===== src/Model/Reduce/Views.antt =====
-- The arms of `Model::apply` in tracing-console/src/model/core.rs that change the view or touch one view
-- only, and the commit of the chance.
use tracing_console.Base.{ℕ, ◌+◌, ◌&&◌, List, Option, none, some, if◌then◌else◌, ltb, length}
use tracing_console.Base.Text.{Text}
use tracing_console.Host.Level.{WireLevelFilter}
use tracing_console.Model.Reals.{Reals}
use tracing_console.Model.Graph.State.{GraphState}
use tracing_console.Model.Explore.{ExploreState, TraceDetailState, new_explore}
use tracing_console.Model.Explore.Rows.{visible_trace_rows}
use tracing_console.Model.Core.{
  Model, table_view, graph_view, explore_view, trace_detail_view, push_digit_or_decimal,
  selected_visible_row, trace_selected_span_id,
}
use tracing_console.Model.Update.{Effect}
use tracing_console.Model.Reduce.Explore.{restored_level}

-- `push_digit_or_decimal` for its effect on the buffer.
unfoldable pub push_number : ℕ → Text → Text
unfolding push_digit_or_decimal
push_number c buf = (push_digit_or_decimal buf c).0

module _ (r : Reals) where
  abbrev pub Applied : Type 0
  Applied = Option (Model r × Effect r.F64)

  -- No effect.
  abbrev pub quietly : Model r → Applied
  quietly m = some (m, Effect.none)

  abbrev pub settled : Option (Model r) → Applied
  settled none = none
  settled (some m) = quietly m

  abbrev shown : Model r → Option (GraphState r) → Applied
  shown m none = none
  shown m (some g) = quietly (record m { view = graph_view g })

  -- The arms that touch one view only.
  abbrev pub try_graph : (GraphState r → Option (GraphState r)) → Model r → Applied
  try_graph f m = elim m.view [
    | table_view ↦ quietly m
    | graph_view g ↦ shown m (f g)
    | explore_view es ↦ quietly m
    | trace_detail_view td ↦ quietly m
  ]

  abbrev pub on_graph : (GraphState r → GraphState r) → Model r → Applied
  on_graph f m = elim m.view [
    | table_view ↦ quietly m
    | graph_view g ↦ quietly (record m { view = graph_view (f g) })
    | explore_view es ↦ quietly m
    | trace_detail_view td ↦ quietly m
  ]

  abbrev pub on_explore : (ExploreState → ExploreState) → Model r → Applied
  on_explore f m = elim m.view [
    | table_view ↦ quietly m
    | graph_view g ↦ quietly m
    | explore_view es ↦ quietly (record m { view = explore_view (f es) })
    | trace_detail_view td ↦ quietly m
  ]

  abbrev pub on_trace : (TraceDetailState → TraceDetailState) → Model r → Applied
  on_trace f m = elim m.view [
    | table_view ↦ quietly m
    | graph_view g ↦ quietly m
    | explore_view es ↦ quietly m
    | trace_detail_view td ↦ quietly (record m { view = trace_detail_view (f td) })
  ]

  -- A commit of the chance's input: a finite number from 0 to 100 is asked of the server.
  unfoldable pub asked_chance : Option r.F64 → Effect r.F64
  asked_chance none = Effect.none
  asked_chance (some v) =
      if r.is_finite v && r.le r.nought v && r.le v r.hundred
      then Effect.request_set_chance v
      else Effect.none

  unfoldable pub chance_input_commit : Model r → Model r × Effect r.F64
  unfolding asked_chance
  chance_input_commit m = elim m.chance_input [
    | none ↦ (m, Effect.none)
    | some buf ↦ (record m { chance_input = none }, asked_chance (r.parse buf))
  ]

  -- The explorer opens on a stack, and the cache is asked to stop recording.
  unfoldable pub explore_on : List Text → Model r → Model r × Effect r.F64
  unfolding new_explore
  explore_on stack m = (
    record m { view = explore_view (new_explore stack m.cache_level) },
    Effect.request_set_level WireLevelFilter.off,
  )

  unfoldable pub enter_explore : Model r → Model r × Effect r.F64
  unfolding selected_visible_row explore_on
  enter_explore m = elim m.view [
    | table_view ↦ elim (selected_visible_row r m) [
      | none ↦ (m, Effect.none)
      | some row ↦ explore_on row.key.stack m
    ]
    | graph_view g ↦ explore_on g.locked_stack m
    | explore_view es ↦ (m, Effect.none)
    | trace_detail_view td ↦ (record m { view = explore_view td.explore }, Effect.none)
  ]

  unfoldable pub leave_explore : ExploreState → Model r → Model r × Effect r.F64
  unfolding restored_level
  leave_explore es m =
      (record m { view = table_view }, Effect.request_set_level (restored_level es))

  unfoldable pub exit_explore : Model r → Model r × Effect r.F64
  unfolding leave_explore
  exit_explore m = elim m.view [
    | table_view ↦ (m, Effect.none)
    | graph_view g ↦ (m, Effect.none)
    | explore_view es ↦ leave_explore es m
    | trace_detail_view td ↦ leave_explore td.explore m
  ]

  unfoldable pub enter_table : Model r → Model r × Effect r.F64
  unfolding leave_explore
  enter_table m = elim m.view [
    | table_view ↦ (m, Effect.none)
    | graph_view g ↦ (record m { view = table_view }, Effect.none)
    | explore_view es ↦ leave_explore es m
    | trace_detail_view td ↦ leave_explore td.explore m
  ]

  -- The cursor of a trace goes down unless it is on the last row.
  unfoldable pub trace_select_down : Model r → Applied
  unfolding visible_trace_rows
  trace_select_down m = elim m.view [
    | table_view ↦ quietly m
    | graph_view g ↦ quietly m
    | explore_view es ↦ quietly m
    | trace_detail_view td ↦ elim (visible_trace_rows m.agg td) [
      | none ↦ none
      | some listed ↦ quietly (
          if ltb 0 (length listed) && ltb (td.selected_idx + 1) (length listed)
          then record m {
            view = trace_detail_view (record td { selected_idx = td.selected_idx + 1 });
          }
          else m)
    ]
  ]

  -- The span at the cursor is expanded or collapsed.
  unfoldable pub fold_selected : (ℕ → List ℕ → List ℕ) → Model r → Applied
  unfolding trace_selected_span_id
  fold_selected change m = elim (trace_selected_span_id r m) [
    | none ↦ none
    | some none ↦ quietly m
    | some (some id) ↦
        on_trace (λ (td : TraceDetailState). record td { collapsed = change id td.collapsed }) m
  ]
