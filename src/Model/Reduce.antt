-- ===== src/Model/Reduce.antt =====
-- `Model::apply` of tracing-console/src/model/core.rs. None is that the recording of a span into the graph
-- panics, or that a walk runs out of its fuel. `now` and `later` are readings of the clock, `client` is the
-- build's version.
pub mod Table
pub mod Inputs
pub mod Graph
pub mod Explore
pub mod Version
pub mod Views
pub mod Switches
pub mod Session
pub mod Quit
pub mod Restore
pub mod Prefixes
pub mod Tree
pub mod Total
pub mod Windows
pub mod Valid
use tracing_console.Base.{
  ℕ, ◌-◌, ◌+◌, Bool, true, false, ◌&&◌, List, [], ◌∷◌, ◌++◌, Option, none, some, if◌then◌else◌, ltb,
  length,
}
use tracing_console.Base.Text.{Text}
use tracing_console.Host.Protocol.{WireSpan}
use tracing_console.Host.Level.{WireLevelFilter}
use tracing_console.Host.Message.{WireServerInfo}
use tracing_console.Aggregate.State.{Aggregator, absorb}
use tracing_console.Aggregate.State.Keys.{stack_eq}
use tracing_console.Aggregate.State.Rebuild.{resolved_stack, span_by_id}
use tracing_console.Model.Reals.{Reals}
use tracing_console.Model.Rate.{record_event}
use tracing_console.Model.Graph.{next_labels}
use tracing_console.Model.Graph.State.{GraphState, new_graph, record_span, rehydrate}
use tracing_console.Model.Explore.{ExploreState, TraceDetailState, flip}
use tracing_console.Model.Core.{
  Model, ViewMode, table_view, graph_view, explore_view, trace_detail_view, ConnectionStatus,
  ConfirmStatus, open_modal, close_modal, backspace_modal, selected_visible_row,
}
use tracing_console.Model.Update.{Update, Effect}
use Table.{
  select_up, select_down, expand_selected, expand_all_selected, collapse_selected, switch_focus,
  toggle_split_selected,
}
use Inputs.{push_agg_char, push_lookback_char, typed_into}
use Graph.{
  agg_input_commit, lookback_input_commit, graph_switch_focus, graph_select_down, sort_column_left,
  sort_column_right, toggle_metric, window_input_commit, graph_toggle_split,
}
use Explore.{
  push_search_char, restored_level, search_commit, insert_id, remove_id, explore_select_down,
  explore_sort_left, explore_sort_right, open_trace,
}
use Version.{quit, begin_confirm, confirm_yes, confirm_no, installer_ended}
use Views.{
  Applied, quietly, settled, push_number, try_graph, on_graph, on_explore, on_trace,
  chance_input_commit, enter_explore, exit_explore, enter_table, trace_select_down, fold_selected,
}
use Switches.{span_received, toggle_graph, enter_graph, explore_open_trace, exit_trace_detail}

module _ (r : Reals) (show_f64 : ℕ → Text) where
  unfoldable pub apply : Text → ℕ → ℕ → Update r.F64 → Model r → Applied r
  unfolding span_received select_up select_down expand_selected expand_all_selected
      collapse_selected switch_focus toggle_split_selected chance_input_commit toggle_graph
      enter_graph enter_explore exit_explore enter_table explore_open_trace exit_trace_detail
      trace_select_down fold_selected quit begin_confirm confirm_yes confirm_no installer_ended
      open_modal close_modal backspace_modal push_number push_agg_char push_lookback_char
      agg_input_commit lookback_input_commit graph_switch_focus graph_select_down sort_column_left
      sort_column_right toggle_metric window_input_commit graph_toggle_split push_search_char
      search_commit insert_id remove_id explore_select_down explore_sort_left explore_sort_right
      next_labels flip
  apply client now later (Update.span_received span) m = span_received r show_f64 now span m
  apply client now later Update.select_up m = quietly r (select_up r m)
  apply client now later Update.select_down m = quietly r (select_down r m)
  apply client now later Update.expand_selected m = quietly r (expand_selected r m)
  apply client now later Update.expand_all_selected m = quietly r (expand_all_selected r m)
  apply client now later Update.collapse_selected m = quietly r (collapse_selected r m)
  apply client now later Update.switch_focus m = quietly r (switch_focus r m)
  apply client now later Update.toggle_split_selected m =
      settled r (toggle_split_selected r show_f64 m)
  apply client now later Update.connected m =
      quietly r (record m { connection = ConnectionStatus.connected; status = none })
  apply client now later (Update.disconnected reason) m =
      quietly r (record m { connection = ConnectionStatus.disconnected reason })
  apply client now later (Update.status msg) m = quietly r (record m { status = some msg })
  apply client now later (Update.cache_level_received filter) m =
      quietly r (record m { cache_level = some filter })
  apply client now later (Update.server_info_received info) m =
      quietly r (record m { server_version = some info.version })
  apply client now later (Update.request_cache_level filter) m =
      some (m, Effect.request_set_level filter)
  apply client now later (Update.cache_chance_received pct) m =
      quietly r (record m { cache_chance = some pct })
  apply client now later Update.begin_chance_input m =
      quietly r (record m { chance_input = open_modal m.chance_input })
  apply client now later (Update.chance_input_char c) m =
      quietly r (record m { chance_input = typed_into (push_number c) m.chance_input })
  apply client now later Update.chance_input_backspace m =
      quietly r (record m { chance_input = backspace_modal m.chance_input })
  apply client now later Update.chance_input_cancel m =
      quietly r (record m { chance_input = close_modal m.chance_input })
  apply client now later Update.chance_input_commit m = some (chance_input_commit r m)
  apply client now later Update.toggle_graph m = toggle_graph r show_f64 m
  apply client now later (Update.set_graph_agg mode) m =
      on_graph r (λ (g : GraphState r). record g { aggregation = mode }) m
  apply client now later Update.toggle_graph_metric m =
      try_graph r (toggle_metric r show_f64 m.agg) m
  apply client now later Update.begin_graph_agg_input m =
      on_graph r (λ (g : GraphState r). record g { agg_input = open_modal g.agg_input }) m
  apply client now later (Update.graph_agg_input_char c) m =
      on_graph r
        (λ (g : GraphState r). record g {
          agg_input = typed_into (λ buf. push_agg_char buf c) g.agg_input;
        })
        m
  apply client now later Update.graph_agg_input_backspace m =
      on_graph r (λ (g : GraphState r). record g { agg_input = backspace_modal g.agg_input }) m
  apply client now later Update.graph_agg_input_cancel m =
      on_graph r (λ (g : GraphState r). record g { agg_input = close_modal g.agg_input }) m
  apply client now later Update.graph_agg_input_commit m = on_graph r (agg_input_commit r) m
  apply client now later Update.begin_graph_window_input m =
      on_graph r (λ (g : GraphState r). record g { window_input = open_modal g.window_input }) m
  apply client now later (Update.graph_window_input_char c) m =
      on_graph r
        (λ (g : GraphState r). record g {
          window_input = typed_into (push_number c) g.window_input;
        })
        m
  apply client now later Update.graph_window_input_backspace m =
      on_graph r (λ (g : GraphState r). record g { window_input = backspace_modal g.window_input })
        m
  apply client now later Update.graph_window_input_cancel m =
      on_graph r (λ (g : GraphState r). record g { window_input = close_modal g.window_input }) m
  apply client now later Update.graph_window_input_commit m =
      try_graph r (window_input_commit r show_f64 m.agg) m
  apply client now later Update.begin_graph_lookback_input m =
      on_graph r (λ (g : GraphState r). record g { lookback_input = open_modal g.lookback_input }) m
  apply client now later (Update.graph_lookback_input_char c) m =
      on_graph r
        (λ (g : GraphState r). record g {
          lookback_input = typed_into (λ buf. push_lookback_char buf c) g.lookback_input;
        })
        m
  apply client now later Update.graph_lookback_input_backspace m =
      on_graph r
        (λ (g : GraphState r). record g { lookback_input = backspace_modal g.lookback_input }) m
  apply client now later Update.graph_lookback_input_cancel m =
      on_graph r (λ (g : GraphState r). record g { lookback_input = close_modal g.lookback_input })
        m
  apply client now later Update.graph_lookback_input_commit m =
      on_graph r (lookback_input_commit r) m
  apply client now later Update.toggle_graph_time_labels m =
      on_graph r (λ (g : GraphState r). record g { time_labels = next_labels g.time_labels }) m
  apply client now later Update.graph_switch_focus m = on_graph r (graph_switch_focus r) m
  apply client now later Update.graph_select_up m =
      on_graph r (λ (g : GraphState r). record g { details_selected = g.details_selected - 1 }) m
  apply client now later Update.graph_select_down m = on_graph r (graph_select_down r m.agg) m
  apply client now later Update.graph_toggle_split m =
      try_graph r (graph_toggle_split r show_f64 m.agg) m
  apply client now later Update.graph_sort_column_left m = on_graph r (sort_column_left r) m
  apply client now later Update.graph_sort_column_right m = on_graph r (sort_column_right r) m
  apply client now later Update.enter_explore m = some (enter_explore r m)
  apply client now later Update.exit_explore m = some (exit_explore r m)
  apply client now later Update.explore_select_up m =
      on_explore r (λ (es : ExploreState). record es { selected = es.selected - 1 }) m
  apply client now later Update.explore_select_down m =
      on_explore r (explore_select_down show_f64 m.agg) m
  apply client now later Update.explore_sort_left m =
      on_explore r (explore_sort_left show_f64 m.agg) m
  apply client now later Update.explore_sort_right m =
      on_explore r (explore_sort_right show_f64 m.agg) m
  apply client now later Update.explore_invert_sort m =
      on_explore r (λ (es : ExploreState). record es { direction = flip es.direction }) m
  apply client now later Update.begin_explore_search m =
      on_explore r
        (λ (es : ExploreState). record es {
          search_input = open_modal es.search_input;
          selected = 0;
        })
        m
  apply client now later (Update.explore_search_char c) m =
      on_explore r
        (λ (es : ExploreState). record es {
          search_input = typed_into (push_search_char c) es.search_input;
        })
        m
  apply client now later Update.explore_search_backspace m =
      on_explore r
        (λ (es : ExploreState). record es { search_input = backspace_modal es.search_input }) m
  apply client now later Update.explore_search_cancel m =
      on_explore r
        (λ (es : ExploreState). record es {
          search_input = close_modal es.search_input;
          selected = 0;
        })
        m
  apply client now later Update.explore_search_commit m = on_explore r search_commit m
  apply client now later Update.explore_open_trace m = explore_open_trace r show_f64 m
  apply client now later Update.exit_trace_detail m = exit_trace_detail r show_f64 m
  apply client now later Update.trace_detail_select_up m =
      on_trace r (λ (td : TraceDetailState). record td { selected_idx = td.selected_idx - 1 }) m
  apply client now later Update.trace_detail_select_down m = trace_select_down r m
  apply client now later Update.trace_detail_expand m = fold_selected r remove_id m
  apply client now later Update.trace_detail_collapse m = fold_selected r insert_id m
  apply client now later Update.enter_table m = some (enter_table r m)
  apply client now later Update.enter_graph m = enter_graph r show_f64 m
  apply client now later Update.quit m = some (quit r now later m)
  apply client now later Update.quit_confirm_dismiss m =
      quietly r (record m { quit_confirm_deadline = none })
  apply client now later Update.begin_confirm_version_switch m =
      quietly r (begin_confirm r client m)
  apply client now later Update.confirm_version_switch_yes m = some (confirm_yes r m)
  apply client now later Update.confirm_version_switch_no m = quietly r (confirm_no r m)
  apply client now later Update.installer_succeeded m =
      quietly r (installer_ended r ConfirmStatus.restart m)
  apply client now later (Update.installer_failed output) m =
      quietly r (installer_ended r (ConfirmStatus.failed output) m)
