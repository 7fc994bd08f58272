-- ===== src/Model/Reduce/Valid.antt =====
-- The numbers that the inputs of tracing-console/src/model/core.rs let through: the chance that is asked of the
-- server, and the window of the graph.
use tracing_console.Base.{
  ℕ, ◌≡◌, sym, ap, ◌∙◌, inl, inr, Bool, true, ◌&&◌, Option-cases, List, Option, none, some, arith,
}
use tracing_console.Base.Text.{Text}
use tracing_console.Host.Protocol.{WireSpan}
use tracing_console.Aggregate.State.{absorb}
use tracing_console.Model.Rate.{record_event}
use tracing_console.Model.Reals.{Reals}
use tracing_console.Model.Graph.State.{GraphState, new_graph, rehydrate}
use tracing_console.Model.Core.{Model, ViewMode, graph_view}
use mathlib.Core.Path.{subst}
use tracing_console.Model.Update.{Update, Effect}
use tracing_console.Model.Reduce.{apply}
use tracing_console.Model.Reduce.Graph.{
  agg_input_commit, lookback_input_commit, graph_switch_focus, graph_select_down, sort_column_left,
  sort_column_right, toggle_metric, window_input_commit, graph_toggle_split,
}
use tracing_console.Model.Reduce.Views.{
  try_graph, on_graph, asked_chance, chance_input_commit, enter_explore, explore_on, exit_explore,
  enter_table, leave_explore, trace_select_down, fold_selected,
}
use tracing_console.Model.Reduce.Version.{
  quit, begin_confirm, confirm_yes, confirm_no, installer_ended,
}
use tracing_console.Model.Reduce.Switches.{
  record_inserted, span_received, graph_on, toggle_graph, enter_graph, explore_open_trace,
  exit_trace_detail,
}
use tracing_console.Model.Reduce.Session.Laws.{
  select_up-IsBeside, select_down-IsBeside, expand_selected-IsBeside, expand_all_selected-IsBeside,
  collapse_selected-IsBeside, switch_focus-IsBeside, toggle_split_selected_quiet,
}
use tracing_console.Model.Reduce.Windows.{
  is_window, agg_input_commit-window_secs, lookback_input_commit-window_secs,
  graph_switch_focus-window_secs, sort_column_left-window_secs, sort_column_right-window_secs,
  graph_select_down-window_secs, rehydrate-window_secs, record_inserted-window_secs,
  toggle_metric-window_secs, graph_toggle_split-window_secs, window_input_commit-is_window,
}

module _ (r : Reals) where
  abbrev pub is_percent : r.F64 → Bool
  is_percent v = r.is_finite v && r.le r.nought v && r.le v r.hundred

  -- A chance that is asked for is a percentage.
  abbrev pub IsAskable : Effect r.F64 → Type 0
  IsAskable (Effect.request_set_chance v) = is_percent v ≡ true
  IsAskable _ = Unit {0}

  abbrev pub HasWindow : ViewMode r → Type 0
  HasWindow (graph_view g) = is_window r g.window_secs ≡ true
  HasWindow _ = Unit {0}

  asked_chance-IsAskable : (o : Option r.F64) → IsAskable (asked_chance r o)
  unfolding asked_chance
  asked_chance-IsAskable none = tt
  asked_chance-IsAskable (some v) = ground arith

  module _ (show_f64 : ℕ → Text) where
    graph_on-HasWindow :
        (stack : List Text) (asked e : Effect r.F64) (m m' : Model r)
        → is_window r r.one ≡ true
        → IsAskable asked
        → graph_on r show_f64 stack asked m ≡ some (m', e)
        → HasWindow m'.view × IsAskable e
    unfolding graph_on new_graph
    graph_on-HasWindow stack asked e m m' v a h =
        elim (Option-cases (rehydrate r show_f64 m.agg (new_graph r stack))) [
          | inl panics ↦ absurd (ground (arith, panics))
          | inr (g, done) ↦
              let kept : is_window r g.window_secs ≡ true =
                ap (is_window r) (rehydrate-window_secs r show_f64 m.agg (new_graph r stack) g done)
                ∙ v in
              let viewed : m'.view ≡ graph_view g = ground (arith, done) in
              let sent : e ≡ asked = ground (arith, done) in
              (subst HasWindow (sym viewed) kept, subst IsAskable (sym sent) a)
        ]

    try_graph-HasWindow :
        (f : GraphState r → Option (GraphState r)) (m m' : Model r) (e : Effect r.F64)
        → ((g g' : GraphState r)
            → is_window r g.window_secs ≡ true
            → f g ≡ some g'
            → is_window r g'.window_secs ≡ true)
        → HasWindow m.view
        → try_graph r f m ≡ some (m', e)
        → HasWindow m'.view × IsAskable e
    try_graph-HasWindow f m m' e kept v h = grind (arith, kept)

    on_graph-HasWindow :
        (f : GraphState r → GraphState r) (m m' : Model r) (e : Effect r.F64)
        → ((g : GraphState r) → (f g).window_secs ≡ g.window_secs)
        → HasWindow m.view
        → on_graph r f m ≡ some (m', e)
        → HasWindow m'.view × IsAskable e
    on_graph-HasWindow f m m' e kept v h = grind (arith, kept)

    span_received-HasWindow :
        (now : ℕ) (span : WireSpan) (m m' : Model r) (e : Effect r.F64)
        → HasWindow m.view
        → span_received r show_f64 now span m ≡ some (m', e)
        → HasWindow m'.view × IsAskable e
    unfolding span_received
    span_received-HasWindow now span m m' e v h = elim (Option-cases (absorb show_f64 span m.agg)) [
      | inl panics ↦ absurd (ground (arith, panics))
      | inr ((agg, inserted_ids), done) ↦
          try_graph-HasWindow (record_inserted r show_f64 agg inserted_ids)
            (record m { rate = record_event now m.rate; agg = agg }) m' e
            (λ g g' w d.
              ap (is_window r) (record_inserted-window_secs r show_f64 agg inserted_ids g g' d) ∙ w)
            v (ground (arith, done))
    ]

    chance_input_commit-HasWindow :
        (m m' : Model r) (e : Effect r.F64)
        → HasWindow m.view
        → some (chance_input_commit r m) ≡ some (m', e)
        → HasWindow m'.view × IsAskable e
    unfolding chance_input_commit
    chance_input_commit-HasWindow m m' e v h = grind (arith, asked_chance-IsAskable)

    module _ (client : Text) (now later : ℕ) where
      pub apply-HasWindow :
          (u : Update r.F64) (m m' : Model r) (e : Effect r.F64)
          → is_window r r.one ≡ true
          → HasWindow m.view
          → apply r show_f64 client now later u m ≡ some (m', e)
          → HasWindow m'.view × IsAskable e
      unfolding apply quit begin_confirm confirm_yes confirm_no installer_ended chance_input_commit
          enter_explore explore_on exit_explore enter_table leave_explore trace_select_down
          fold_selected toggle_graph enter_graph explore_open_trace exit_trace_detail
      apply-HasWindow (Update.span_received span) m m' e o v h =
          span_received-HasWindow now span m m' e v h
      apply-HasWindow Update.select_up m m' e o v h = ground (arith, select_up-IsBeside r m)
      apply-HasWindow Update.select_down m m' e o v h = ground (arith, select_down-IsBeside r m)
      apply-HasWindow Update.expand_selected m m' e o v h =
          ground (arith, expand_selected-IsBeside r m)
      apply-HasWindow Update.expand_all_selected m m' e o v h =
          ground (arith, expand_all_selected-IsBeside r m)
      apply-HasWindow Update.collapse_selected m m' e o v h =
          ground (arith, collapse_selected-IsBeside r m)
      apply-HasWindow Update.switch_focus m m' e o v h = ground (arith, switch_focus-IsBeside r m)
      apply-HasWindow Update.toggle_split_selected m m' e o v h =
          ground (arith, toggle_split_selected_quiet r show_f64 m m')
      apply-HasWindow Update.chance_input_commit m m' e o v h =
          chance_input_commit-HasWindow m m' e v h
      apply-HasWindow Update.toggle_graph_metric m m' e o v h =
          try_graph-HasWindow (toggle_metric r show_f64 m.agg) m m' e
            (λ g g' w d. ap (is_window r) (toggle_metric-window_secs r show_f64 m.agg g g' d) ∙ w) v
            h
      apply-HasWindow Update.graph_window_input_commit m m' e o v h =
          try_graph-HasWindow (window_input_commit r show_f64 m.agg) m m' e
            (window_input_commit-is_window r show_f64 m.agg) v h
      apply-HasWindow Update.graph_toggle_split m m' e o v h =
          try_graph-HasWindow (graph_toggle_split r show_f64 m.agg) m m' e
            (λ g g' w d.
              ap (is_window r) (graph_toggle_split-window_secs r show_f64 m.agg g g' d) ∙ w)
            v h
      apply-HasWindow Update.graph_agg_input_commit m m' e o v h =
          on_graph-HasWindow (agg_input_commit r) m m' e (agg_input_commit-window_secs r) v h
      apply-HasWindow Update.graph_lookback_input_commit m m' e o v h =
          on_graph-HasWindow (lookback_input_commit r) m m' e (lookback_input_commit-window_secs r)
            v h
      apply-HasWindow Update.graph_switch_focus m m' e o v h =
          on_graph-HasWindow (graph_switch_focus r) m m' e (graph_switch_focus-window_secs r) v h
      apply-HasWindow Update.graph_select_down m m' e o v h =
          on_graph-HasWindow (graph_select_down r m.agg) m m' e
            (graph_select_down-window_secs r m.agg) v h
      apply-HasWindow Update.graph_sort_column_left m m' e o v h =
          on_graph-HasWindow (sort_column_left r) m m' e (sort_column_left-window_secs r) v h
      apply-HasWindow Update.graph_sort_column_right m m' e o v h =
          on_graph-HasWindow (sort_column_right r) m m' e (sort_column_right-window_secs r) v h
      apply-HasWindow Update.toggle_graph m m' e o v h = grind (arith, graph_on-HasWindow)
      apply-HasWindow Update.enter_graph m m' e o v h = grind (arith, graph_on-HasWindow)
      apply-HasWindow _ m m' e o v h = ground arith
