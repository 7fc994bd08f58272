-- ===== src/Model/Reduce/Session/Laws.antt =====
-- The reducer of tracing-console/src/model/core.rs implements the machine of its session.
use tracing_console.Base.{ℕ, ◌≡◌, List, Option, none, some, arith}
use tracing_console.Base.Text.{Text}
use tracing_console.Host.Protocol.{WireSpan}
use tracing_console.Model.Reals.{Reals}
use tracing_console.Model.Core.{Model, set_current_selected}
use tracing_console.Model.Update.{Update, Effect}
use tracing_console.Model.Visible.{VisibleRow}
use tracing_console.Model.Reduce.{apply}
use tracing_console.Model.Reduce.Table.{
  select_up, select_down, expand_row, expand_selected, expand_all_of_row, expand_all_selected,
  collapse_parent, collapse_row, collapse_selected, switch_focus, toggle_split,
  toggle_split_selected,
}
use tracing_console.Model.Reduce.Version.{
  quit, begin_confirm, confirm_yes, confirm_no, installer_ended,
}
use tracing_console.Model.Reduce.Views.{
  Applied, chance_input_commit, asked_chance, enter_explore, explore_on, exit_explore, enter_table,
  leave_explore, trace_select_down, fold_selected,
}
use tracing_console.Model.Reduce.Switches.{
  span_received, graph_on, toggle_graph, enter_graph, explore_open_trace, exit_trace_detail,
}
use tracing_console.Model.Reduce.Session.{session_of, loud, session_step}

module _ (r : Reals) where
  -- What most arms do to the machine: nothing.
  abbrev IsQuiet : Model r → Applied r → Type 0
  IsQuiet m a =
      (m' : Model r) (e : Effect r.F64)
      → a ≡ some (m', e)
      → (session_of r m' ≡ session_of r m) × (loud r e ≡ Effect.none)

  -- The arms of the table change neither the machine, nor the view, the aggregator and the chance's input.
  abbrev pub IsBeside : Model r → Model r → Type 0
  IsBeside m x =
      (session_of r x ≡ session_of r m)
      × (x.view ≡ m.view)
      × (x.agg ≡ m.agg)
      × (x.chance_input ≡ m.chance_input)

  set_current_selected-IsBeside :
      (idx : ℕ) (m : Model r) → IsBeside m (set_current_selected r idx m)
  unfolding set_current_selected
  set_current_selected-IsBeside idx m = ground arith

  pub select_up-IsBeside : (m : Model r) → IsBeside m (select_up r m)
  unfolding select_up set_current_selected
  select_up-IsBeside m = ground arith

  pub select_down-IsBeside : (m : Model r) → IsBeside m (select_down r m)
  unfolding select_down set_current_selected
  select_down-IsBeside m = ground arith

  expand_row-IsBeside : (row : Option VisibleRow) (m : Model r) → IsBeside m (expand_row r row m)
  unfolding expand_row
  expand_row-IsBeside none m = ground arith
  expand_row-IsBeside (some row) m = ground arith

  pub expand_selected-IsBeside : (m : Model r) → IsBeside m (expand_selected r m)
  unfolding expand_selected expand_row
  expand_selected-IsBeside m = ground arith

  pub expand_all_selected-IsBeside : (m : Model r) → IsBeside m (expand_all_selected r m)
  unfolding expand_all_selected expand_all_of_row
  expand_all_selected-IsBeside m = ground arith

  collapse_parent-IsBeside :
      (stack : List Text) (m : Model r) → IsBeside m (collapse_parent r stack m)
  unfolding collapse_parent
  collapse_parent-IsBeside stack m = ground arith

  collapse_row-IsBeside :
      (row : Option VisibleRow) (m : Model r) → IsBeside m (collapse_row r row m)
  unfolding collapse_row
  collapse_row-IsBeside none m = ground arith
  collapse_row-IsBeside (some row) m = ground (arith, collapse_parent-IsBeside _ m)

  pub collapse_selected-IsBeside : (m : Model r) → IsBeside m (collapse_selected r m)
  unfolding collapse_selected
  collapse_selected-IsBeside m = ground (arith, collapse_row-IsBeside _ m)

  pub switch_focus-IsBeside : (m : Model r) → IsBeside m (switch_focus r m)
  unfolding switch_focus
  switch_focus-IsBeside m = ground arith

  -- The other arms.
  module _ (show_f64 : ℕ → Text) where
    pub toggle_split_selected_quiet :
        (m m' : Model r)
        → toggle_split_selected r show_f64 m ≡ some m'
        → (session_of r m' ≡ session_of r m)
          × (m'.view ≡ m.view)
          × (m'.chance_input ≡ m.chance_input)
    unfolding toggle_split_selected toggle_split
    toggle_split_selected_quiet m m' e = ground arith

    span_received-IsQuiet :
        (now : ℕ) (span : WireSpan) (m : Model r) → IsQuiet m (span_received r show_f64 now span m)
    unfolding span_received
    span_received-IsQuiet now span m m' e h = ground arith

    graph_on-session :
        (stack : List Text) (effect : Effect r.F64) (m m' : Model r) (e : Effect r.F64)
        → graph_on r show_f64 stack effect m ≡ some (m', e)
        → (session_of r m' ≡ session_of r m) × (e ≡ effect)
    unfolding graph_on
    graph_on-session stack effect m m' e h = ground arith

    toggle_graph-IsQuiet : (m : Model r) → IsQuiet m (toggle_graph r show_f64 m)
    unfolding toggle_graph graph_on
    toggle_graph-IsQuiet m m' e h = ground arith

    enter_graph-IsQuiet : (m : Model r) → IsQuiet m (enter_graph r show_f64 m)
    unfolding enter_graph graph_on
    enter_graph-IsQuiet m m' e h = ground arith

    explore_open_trace-IsQuiet : (m : Model r) → IsQuiet m (explore_open_trace r show_f64 m)
    unfolding explore_open_trace
    explore_open_trace-IsQuiet m m' e h = ground arith

    exit_trace_detail-IsQuiet : (m : Model r) → IsQuiet m (exit_trace_detail r show_f64 m)
    unfolding exit_trace_detail
    exit_trace_detail-IsQuiet m m' e h = ground arith

  trace_select_down-IsQuiet : (m : Model r) → IsQuiet m (trace_select_down r m)
  unfolding trace_select_down
  trace_select_down-IsQuiet m m' e h = ground arith

  fold_selected-IsQuiet :
      (change : ℕ → List ℕ → List ℕ) (m : Model r) → IsQuiet m (fold_selected r change m)
  unfolding fold_selected
  fold_selected-IsQuiet change m m' e h = ground arith

  chance_input_commit-IsQuiet : (m : Model r) → IsQuiet m (some (chance_input_commit r m))
  unfolding chance_input_commit asked_chance
  chance_input_commit-IsQuiet m m' e h = ground arith

  enter_explore-IsQuiet : (m : Model r) → IsQuiet m (some (enter_explore r m))
  unfolding enter_explore explore_on
  enter_explore-IsQuiet m m' e h = ground arith

  exit_explore-IsQuiet : (m : Model r) → IsQuiet m (some (exit_explore r m))
  unfolding exit_explore leave_explore
  exit_explore-IsQuiet m m' e h = ground arith

  enter_table-IsQuiet : (m : Model r) → IsQuiet m (some (enter_table r m))
  unfolding enter_table leave_explore
  enter_table-IsQuiet m m' e h = ground arith

  module _ (show_f64 : ℕ → Text) (client : Text) (now later : ℕ) where
    -- On every update that does not panic, the reducer takes the machine of the session exactly as its step
    -- says: what the server has told, the modal of the version switch and the deadline of the prompt change
    -- by their own updates only, and to quit, to restart and to run the installer are asked for as it says.
    pub apply-Session :
        (u : Update r.F64) (m m' : Model r) (e : Effect r.F64)
        → apply r show_f64 client now later u m ≡ some (m', e)
        → (session_of r m', loud r e) ≡ session_step r client now later u (session_of r m)
    unfolding apply session_step quit begin_confirm confirm_yes confirm_no installer_ended
    apply-Session (Update.span_received span) m m' e h =
        ground (arith, span_received-IsQuiet show_f64 now span m m' e h)
    apply-Session Update.select_up m m' e h = ground (arith, select_up-IsBeside m)
    apply-Session Update.select_down m m' e h = ground (arith, select_down-IsBeside m)
    apply-Session Update.expand_selected m m' e h = ground (arith, expand_selected-IsBeside m)
    apply-Session Update.expand_all_selected m m' e h =
        ground (arith, expand_all_selected-IsBeside m)
    apply-Session Update.collapse_selected m m' e h = ground (arith, collapse_selected-IsBeside m)
    apply-Session Update.switch_focus m m' e h = ground (arith, switch_focus-IsBeside m)
    apply-Session Update.toggle_split_selected m m' e h =
        ground (arith, toggle_split_selected_quiet show_f64 m m')
    apply-Session Update.chance_input_commit m m' e h =
        ground (arith, chance_input_commit-IsQuiet m m' e h)
    apply-Session Update.toggle_graph m m' e h =
        ground (arith, toggle_graph-IsQuiet show_f64 m m' e h)
    apply-Session Update.enter_graph m m' e h =
        ground (arith, enter_graph-IsQuiet show_f64 m m' e h)
    apply-Session Update.explore_open_trace m m' e h =
        ground (arith, explore_open_trace-IsQuiet show_f64 m m' e h)
    apply-Session Update.exit_trace_detail m m' e h =
        ground (arith, exit_trace_detail-IsQuiet show_f64 m m' e h)
    apply-Session Update.trace_detail_select_down m m' e h =
        ground (arith, trace_select_down-IsQuiet m m' e h)
    apply-Session Update.trace_detail_expand m m' e h =
        ground (arith, fold_selected-IsQuiet _ m m' e h)
    apply-Session Update.trace_detail_collapse m m' e h =
        ground (arith, fold_selected-IsQuiet _ m m' e h)
    apply-Session Update.enter_explore m m' e h = ground (arith, enter_explore-IsQuiet m m' e h)
    apply-Session Update.exit_explore m m' e h = ground (arith, exit_explore-IsQuiet m m' e h)
    apply-Session Update.enter_table m m' e h = ground (arith, enter_table-IsQuiet m m' e h)
    apply-Session _ m m' e h = ground arith
