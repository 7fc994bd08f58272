-- ===== src/Model/Update.antt =====
-- tracing-console/src/model/update.rs: the messages that change the model, and what the reducer asks of
-- the runtime. A character is its code.
use tracing_console.Base.{ℕ, Option}
use tracing_console.Base.Text.{Text}
use tracing_console.Host.Protocol.{WireSpan}
use tracing_console.Host.Level.{WireLevelFilter}
use tracing_console.Host.Message.{WireServerInfo}
use tracing_console.Model.Graph.{AggMode}

pub data Update (F64 : Type 0) : Type 0 where
  span_received : WireSpan → Update F64
  select_up select_down : Update F64
  expand_selected expand_all_selected collapse_selected : Update F64
  switch_focus toggle_split_selected : Update F64
  server_info_received : WireServerInfo → Update F64
  cache_level_received : WireLevelFilter → Update F64
  request_cache_level : WireLevelFilter → Update F64
  cache_chance_received : F64 → Update F64
  begin_chance_input : Update F64
  chance_input_char : ℕ → Update F64
  chance_input_backspace chance_input_cancel chance_input_commit : Update F64
  toggle_graph : Update F64
  set_graph_agg : AggMode F64 → Update F64
  toggle_graph_metric begin_graph_agg_input : Update F64
  graph_agg_input_char : ℕ → Update F64
  graph_agg_input_backspace graph_agg_input_cancel graph_agg_input_commit : Update F64
  begin_graph_window_input : Update F64
  graph_window_input_char : ℕ → Update F64
  graph_window_input_backspace graph_window_input_cancel graph_window_input_commit : Update F64
  begin_graph_lookback_input : Update F64
  graph_lookback_input_char : ℕ → Update F64
  graph_lookback_input_backspace graph_lookback_input_cancel graph_lookback_input_commit :
      Update F64
  toggle_graph_time_labels : Update F64
  enter_explore exit_explore : Update F64
  explore_select_up explore_select_down : Update F64
  explore_sort_left explore_sort_right explore_invert_sort : Update F64
  begin_explore_search : Update F64
  explore_search_char : ℕ → Update F64
  explore_search_backspace explore_search_cancel explore_search_commit : Update F64
  explore_open_trace exit_trace_detail : Update F64
  trace_detail_select_up trace_detail_select_down : Update F64
  trace_detail_expand trace_detail_collapse : Update F64
  enter_table enter_graph : Update F64
  graph_switch_focus graph_select_up graph_select_down graph_toggle_split : Update F64
  graph_sort_column_left graph_sort_column_right : Update F64
  connected : Update F64
  disconnected : Text → Update F64
  status : Text → Update F64
  quit : Update F64
  begin_confirm_version_switch confirm_version_switch_yes confirm_version_switch_no : Update F64
  quit_confirm_dismiss : Update F64
  installer_succeeded : Update F64
  installer_failed : Text → Update F64

pub data Effect (F64 : Type 0) : Type 0 where
  none quit restart : Effect F64
  request_set_level : WireLevelFilter → Effect F64
  request_set_chance : F64 → Effect F64
  run_update_installer : Option Text → Effect F64
