-- ===== src/Model/Reduce/Session.antt =====
-- The part of the model of tracing-console/src/model/core.rs that is about the server, the version and
-- quitting, as a machine of its own.
pub mod Laws
use tracing_console.Base.{
  ℕ, zero, suc, ◌+◌, ◌≡◌, refl, ◌∙◌, sym, ap, inl, inr, Bool, true, false, Bool-cases, Option-cases,
  List, [], ◌∷◌, Option, none, some, if◌then◌else◌, ltb, ◌==◌, arith,
}
use tracing_console.Base.Text.{Text, text_eq}
use tracing_console.Host.Protocol.{WireSpan}
use tracing_console.Host.Level.{WireLevelFilter}
use tracing_console.Aggregate.State.{Aggregator}
use tracing_console.Model.Reals.{Reals}
use tracing_console.Model.Graph.State.{GraphState}
use tracing_console.Model.Core.{
  Model, ViewMode, table_view, graph_view, explore_view, trace_detail_view, Focus, ConfirmStatus,
  ConfirmVersionSwitch, set_current_selected, selected_visible_row,
}
use tracing_console.Model.Update.{Update, Effect}
use tracing_console.Model.Visible.{VisibleRow}
use tracing_console.Model.Reduce.{apply}
use tracing_console.Model.Reduce.Table.{
  select_up, select_down, expand_row, expand_selected, expand_all_of_row, expand_all_selected,
  collapse_parent, collapse_row, collapse_selected, switch_focus, toggle_split,
  toggle_split_selected,
}
use tracing_console.Model.Reduce.Version.{
  two_seconds, quit, begin_confirm, confirm_yes, confirm_no, installer_ended, offered,
}
use tracing_console.Model.Reduce.Views.{
  Applied, chance_input_commit, asked_chance, enter_explore, explore_on, exit_explore, enter_table,
  leave_explore, trace_select_down, fold_selected,
}
use tracing_console.Model.Reduce.Switches.{
  span_received, graph_on, toggle_graph, enter_graph, explore_open_trace, exit_trace_detail,
}

module _ (r : Reals) where
  pub record Session : Type 0 where
    pub level : Option WireLevelFilter
    pub chance : Option r.F64
    pub server : Option Text
    pub switch : Option ConfirmVersionSwitch
    pub deadline : Option ℕ

  abbrev pub session_of : Model r → Session
  session_of m = record {
    level = m.cache_level;
    chance = m.cache_chance;
    server = m.server_version;
    switch = m.confirm_version_switch;
    deadline = m.quit_confirm_deadline;
  }

  -- The effects that end the console or start the installer.
  abbrev pub loud : Effect r.F64 → Effect r.F64
  loud Effect.none = Effect.none
  loud Effect.quit = Effect.quit
  loud Effect.restart = Effect.restart
  loud (Effect.request_set_level level) = Effect.none
  loud (Effect.request_set_chance pct) = Effect.none
  loud (Effect.run_update_installer version) = Effect.run_update_installer version

  abbrev pub with_status : ConfirmStatus → Option ConfirmVersionSwitch → Option ConfirmVersionSwitch
  with_status status none = none
  with_status status (some c) = some (record c { status = status })

  abbrev pub answered_yes : Session → ConfirmVersionSwitch → Session × Effect r.F64
  answered_yes s c = elim c.status [
    | ConfirmStatus.confirming ↦ (
      record s { switch = some (record c { status = ConfirmStatus.running }) },
      Effect.run_update_installer (some c.server_version),
    )
    | ConfirmStatus.restart ↦ (s, Effect.restart)
    | _ ↦ (s, Effect.none)
  ]

  abbrev pub dismissed : Option ConfirmVersionSwitch → Option ConfirmVersionSwitch
  dismissed none = none
  dismissed (some c) = elim c.status [ ConfirmStatus.running ↦ some c | _ ↦ none ]

  abbrev pub is_armed : ℕ → Option ℕ → Bool
  is_armed now none = false
  is_armed now (some deadline) = ltb now deadline

  abbrev pub opened_switch :
      Text → Option Text → Option ConfirmVersionSwitch → Option ConfirmVersionSwitch
  opened_switch client server none = offered r client server
  opened_switch client server (some c) = some c

  -- The machine: every update that it does not name leaves it as it is, without a loud effect.
  unfoldable pub session_step : Text → ℕ → ℕ → Update r.F64 → Session → Session × Effect r.F64
  session_step client now later (Update.cache_level_received filter) s =
      (record s { level = some filter }, Effect.none)
  session_step client now later (Update.cache_chance_received pct) s =
      (record s { chance = some pct }, Effect.none)
  session_step client now later (Update.server_info_received info) s =
      (record s { server = some info.version }, Effect.none)
  session_step client now later Update.quit s =
      if is_armed now s.deadline
      then (record s { deadline = none }, Effect.quit)
      else (record s { deadline = some (later + two_seconds) }, Effect.none)
  session_step client now later Update.quit_confirm_dismiss s =
      (record s { deadline = none }, Effect.none)
  session_step client now later Update.begin_confirm_version_switch s =
      (record s { switch = opened_switch client s.server s.switch }, Effect.none)
  session_step client now later Update.confirm_version_switch_yes s = elim s.switch [
    | none ↦ (s, Effect.none)
    | some c ↦ answered_yes s c
  ]
  session_step client now later Update.confirm_version_switch_no s =
      (record s { switch = dismissed s.switch }, Effect.none)
  session_step client now later Update.installer_succeeded s =
      (record s { switch = with_status ConfirmStatus.restart s.switch }, Effect.none)
  session_step client now later (Update.installer_failed output) s =
      (record s { switch = with_status (ConfirmStatus.failed output) s.switch }, Effect.none)
  session_step client now later _ s = (s, Effect.none)
