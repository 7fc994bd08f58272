-- ===== src/Model/Reduce/Restore.antt =====
-- The level that the explorer gives back when it is left, in tracing-console/src/model/core.rs.
use tracing_console.Base.{ℕ, ◌≡◌, ◌⊎◌, refl, Bool, true, false, List, Option, none, some, arith}
use tracing_console.Base.Text.{Text}
use tracing_console.Host.Protocol.{WireSpan}
use tracing_console.Model.Reals.{Reals}
use tracing_console.Aggregate.State.{Aggregator}
use tracing_console.Model.Explore.{ExploreState, TraceDetailState}
use tracing_console.Model.Core.{
  Model, ViewMode, table_view, graph_view, explore_view, trace_detail_view,
}
use tracing_console.Model.Update.{Update, Effect}
use tracing_console.Model.Reduce.{apply}
use tracing_console.Model.Reduce.Explore.{
  restored_level, search_commit, explore_select_down, explore_sort_left, explore_sort_right,
  open_trace,
}
use tracing_console.Model.Reduce.Views.{
  chance_input_commit, enter_explore, explore_on, exit_explore, enter_table, leave_explore,
  trace_select_down, fold_selected,
}
use tracing_console.Model.Reduce.Version.{
  quit, begin_confirm, confirm_yes, confirm_no, installer_ended,
}
use tracing_console.Model.Reduce.Switches.{
  span_received, graph_on, toggle_graph, enter_graph, explore_open_trace, exit_trace_detail,
}
use tracing_console.Model.Reduce.Session.Laws.{
  select_up-IsBeside, select_down-IsBeside, expand_selected-IsBeside, expand_all_selected-IsBeside,
  collapse_selected-IsBeside, switch_focus-IsBeside, toggle_split_selected_quiet,
}

module _ (r : Reals) where
  -- The explorer's state in the view, which a trace keeps.
  abbrev pub explorer_of : ViewMode r → Option ExploreState
  explorer_of table_view = none
  explorer_of (graph_view g) = none
  explorer_of (explore_view es) = some es
  explorer_of (trace_detail_view td) = some td.explore

  -- The updates that close the explorer with no effect: `ToggleGraph`, and `ExitTraceDetail` outside a trace.
  abbrev pub is_abrupt : Update r.F64 → ViewMode r → Bool
  is_abrupt Update.toggle_graph v = true
  is_abrupt Update.exit_trace_detail table_view = true
  is_abrupt Update.exit_trace_detail (graph_view g) = true
  is_abrupt Update.exit_trace_detail (explore_view es) = true
  is_abrupt Update.exit_trace_detail (trace_detail_view td) = false
  is_abrupt _ v = false

  -- What an update does from an explorer in the state `es` with the view `v`: the explorer that is there
  -- behind it has the same stack and the same level to restore; if there is none, the level was asked
  -- for, or the update is abrupt and nothing was.
  abbrev pub Restores :
      Update r.F64 → ExploreState → ViewMode r → Effect r.F64 → Option ExploreState → Type 0
  Restores u es v e (some es') =
      (es'.locked_stack ≡ es.locked_stack) × (es'.restore_level ≡ es.restore_level)
  Restores u es v e none =
      (e ≡ Effect.request_set_level (restored_level es))
      ⊎ ((is_abrupt u v ≡ true) × (e ≡ Effect.none))

  same_view-Restores :
      (u : Update r.F64) (es : ExploreState) (e : Effect r.F64) (v v' : ViewMode r)
      → explorer_of v ≡ some es
      → v' ≡ v
      → Restores u es v e (explorer_of v')
  same_view-Restores u es e v v' h same = rw same (rw h (refl, refl))

  -- The arms on the explorer.
  search_commit_kept :
      (es : ExploreState)
      → ((search_commit es).locked_stack ≡ es.locked_stack)
        × ((search_commit es).restore_level ≡ es.restore_level)
  unfolding search_commit
  search_commit_kept es = ground arith

  module _ (show_f64 : ℕ → Text) where
    select_down_kept :
        (agg : Aggregator) (es : ExploreState)
        → ((explore_select_down show_f64 agg es).locked_stack ≡ es.locked_stack)
          × ((explore_select_down show_f64 agg es).restore_level ≡ es.restore_level)
    unfolding explore_select_down
    select_down_kept agg es = ground arith

    sort_left_kept :
        (agg : Aggregator) (es : ExploreState)
        → ((explore_sort_left show_f64 agg es).locked_stack ≡ es.locked_stack)
          × ((explore_sort_left show_f64 agg es).restore_level ≡ es.restore_level)
    unfolding explore_sort_left
    sort_left_kept agg es = (refl, refl)

    sort_right_kept :
        (agg : Aggregator) (es : ExploreState)
        → ((explore_sort_right show_f64 agg es).locked_stack ≡ es.locked_stack)
          × ((explore_sort_right show_f64 agg es).restore_level ≡ es.restore_level)
    unfolding explore_sort_right
    sort_right_kept agg es = (refl, refl)

    open_trace-explore :
        (agg : Aggregator) (es : ExploreState) (td : TraceDetailState)
        → open_trace show_f64 agg es ≡ some td
        → td.explore ≡ es
    unfolding open_trace
    open_trace-explore agg es td h = ground arith

    span_received_view :
        (now : ℕ) (span : WireSpan) (m m' : Model r) (e : Effect r.F64) (es : ExploreState)
        → explorer_of m.view ≡ some es
        → span_received r show_f64 now span m ≡ some (m', e)
        → m'.view ≡ m.view
    unfolding span_received
    span_received_view now span m m' e es v h = ground arith

    graph_on-explorer :
        (stack : List Text) (effect : Effect r.F64) (m m' : Model r) (e : Effect r.F64)
        → graph_on r show_f64 stack effect m ≡ some (m', e)
        → (explorer_of m'.view ≡ none) × (e ≡ effect)
    unfolding graph_on
    graph_on-explorer stack effect m m' e h = ground arith

    module _ (client : Text) (now later : ℕ) where
      pub apply-Restores :
          (u : Update r.F64) (m m' : Model r) (e : Effect r.F64) (es : ExploreState)
          → explorer_of m.view ≡ some es
          → apply r show_f64 client now later u m ≡ some (m', e)
          → Restores u es m.view e (explorer_of m'.view)
      unfolding apply quit begin_confirm confirm_yes confirm_no installer_ended chance_input_commit
          enter_explore explore_on exit_explore enter_table leave_explore trace_select_down
          fold_selected toggle_graph enter_graph explore_open_trace exit_trace_detail
      apply-Restores (Update.span_received span) m m' e es v h =
          same_view-Restores (Update.span_received span) es e m.view m'.view v
            (span_received_view now span m m' e es v h)
      apply-Restores Update.select_up m m' e es v h = ground (arith, select_up-IsBeside r m)
      apply-Restores Update.select_down m m' e es v h = ground (arith, select_down-IsBeside r m)
      apply-Restores Update.expand_selected m m' e es v h =
          ground (arith, expand_selected-IsBeside r m)
      apply-Restores Update.expand_all_selected m m' e es v h =
          ground (arith, expand_all_selected-IsBeside r m)
      apply-Restores Update.collapse_selected m m' e es v h =
          ground (arith, collapse_selected-IsBeside r m)
      apply-Restores Update.switch_focus m m' e es v h = ground (arith, switch_focus-IsBeside r m)
      apply-Restores Update.toggle_split_selected m m' e es v h =
          ground (arith, toggle_split_selected_quiet r show_f64 m m')
      apply-Restores Update.explore_search_commit m m' e es v h =
          ground (arith, search_commit_kept es)
      apply-Restores Update.explore_select_down m m' e es v h =
          ground (arith, select_down_kept m.agg es)
      apply-Restores Update.explore_sort_left m m' e es v h =
          ground (arith, sort_left_kept m.agg es)
      apply-Restores Update.explore_sort_right m m' e es v h =
          ground (arith, sort_right_kept m.agg es)
      apply-Restores Update.explore_open_trace m m' e es v h =
          grind (arith, open_trace-explore m.agg)
      apply-Restores Update.enter_graph m m' e es v h = grind (arith, graph_on-explorer)
      apply-Restores Update.toggle_graph m m' e es v h = ground arith
      apply-Restores _ m m' e es v h = ground arith
