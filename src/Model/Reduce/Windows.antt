-- ===== src/Model/Reduce/Windows.antt =====
-- The arms of the graph view of tracing-console/src/model/core.rs keep the width of its window, or take a
-- finite positive one.
use tracing_console.Base.{
  ℕ, ◌≡◌, ap, ◌∙◌, inl, inr, Bool, true, ◌&&◌, Option-cases, List, [], ◌∷◌, Option, none, some,
  arith,
}
use tracing_console.Base.Text.{Text}
use tracing_console.Host.Protocol.{WireSpan}
use tracing_console.Aggregate.State.{Aggregator}
use tracing_console.Model.Reals.{Reals}
use tracing_console.Model.Graph.State.{GraphState, record_span, rerecord, rehydrate}
use tracing_console.Model.Graph.{next_metric}
use tracing_console.Model.Reduce.Graph.{
  Target, agg_input_commit, lookback_input_commit, graph_switch_focus, graph_select_down,
  sort_column_left, sort_column_right, toggle_metric, take_window, window_input_commit, pin_cursor,
  toggle_target, graph_toggle_split, candidates, sort_after_split,
}
use tracing_console.Model.Reduce.Table.{toggle_text}
use tracing_console.Model.Reduce.Switches.{record_if_locked, record_inserted}

module _ (r : Reals) where
  abbrev pub is_window : r.F64 → Bool
  is_window v = r.is_finite v && r.lt r.nought v

  pub agg_input_commit-window_secs :
      (g : GraphState r) → (agg_input_commit r g).window_secs ≡ g.window_secs
  unfolding agg_input_commit
  agg_input_commit-window_secs g = ground arith

  pub lookback_input_commit-window_secs :
      (g : GraphState r) → (lookback_input_commit r g).window_secs ≡ g.window_secs
  unfolding lookback_input_commit
  lookback_input_commit-window_secs g = ground arith

  pub graph_switch_focus-window_secs :
      (g : GraphState r) → (graph_switch_focus r g).window_secs ≡ g.window_secs
  unfolding graph_switch_focus
  graph_switch_focus-window_secs g = ground arith

  pub sort_column_left-window_secs :
      (g : GraphState r) → (sort_column_left r g).window_secs ≡ g.window_secs
  unfolding sort_column_left
  sort_column_left-window_secs g = ground arith

  pub sort_column_right-window_secs :
      (g : GraphState r) → (sort_column_right r g).window_secs ≡ g.window_secs
  unfolding sort_column_right
  sort_column_right-window_secs g = ground arith

  pub graph_select_down-window_secs :
      (agg : Aggregator) (g : GraphState r)
      → (graph_select_down r agg g).window_secs ≡ g.window_secs
  unfolding graph_select_down
  graph_select_down-window_secs agg g = ground arith

  module _ (show_f64 : ℕ → Text) where
    record_span-window_secs :
        (agg : Aggregator) (span : WireSpan) (g g' : GraphState r)
        → record_span r show_f64 agg span g ≡ some g'
        → g'.window_secs ≡ g.window_secs
    unfolding record_span
    record_span-window_secs agg span g g' e = ground arith

    rerecord-window_secs :
        (agg : Aggregator) (ids : List ℕ) (g g' : GraphState r)
        → rerecord r show_f64 agg ids g ≡ some g'
        → g'.window_secs ≡ g.window_secs
    unfolding rerecord
    rerecord-window_secs agg [] g g' e = ground arith
    rerecord-window_secs agg (id ∷ ids) g g' e =
        grind (arith, record_span-window_secs, rerecord-window_secs agg ids)

    pub rehydrate-window_secs :
        (agg : Aggregator) (g g' : GraphState r)
        → rehydrate r show_f64 agg g ≡ some g'
        → g'.window_secs ≡ g.window_secs
    unfolding rehydrate
    rehydrate-window_secs agg g g' e = ground (arith, rerecord-window_secs agg _ _ g' e)

    record_if_locked-window_secs :
        (agg : Aggregator) (id : ℕ) (g g' : GraphState r)
        → record_if_locked r show_f64 agg id g ≡ some g'
        → g'.window_secs ≡ g.window_secs
    unfolding record_if_locked
    record_if_locked-window_secs agg id g g' e = grind (arith, record_span-window_secs)

    pub record_inserted-window_secs :
        (agg : Aggregator) (ids : List ℕ) (g g' : GraphState r)
        → record_inserted r show_f64 agg ids g ≡ some g'
        → g'.window_secs ≡ g.window_secs
    unfolding record_inserted
    record_inserted-window_secs agg [] g g' e = ground arith
    record_inserted-window_secs agg (id ∷ ids) g g' e =
        elim (Option-cases (record_if_locked r show_f64 agg id g)) [
          | inl panics ↦ absurd (ground (arith, panics))
          | inr (g1, done) ↦
              record_inserted-window_secs agg ids g1 g' (ground (arith, done))
              ∙ record_if_locked-window_secs agg id g g1 done
        ]

    pub toggle_metric-window_secs :
        (agg : Aggregator) (g g' : GraphState r)
        → toggle_metric r show_f64 agg g ≡ some g'
        → g'.window_secs ≡ g.window_secs
    unfolding toggle_metric
    toggle_metric-window_secs agg g g' e =
        rehydrate-window_secs agg (record g { metric = next_metric g.metric }) g' e

    pin_cursor-window_secs :
        (listed : List Text) (k : Text) (g : GraphState r)
        → (pin_cursor r show_f64 listed k g).window_secs ≡ g.window_secs
    unfolding pin_cursor
    pin_cursor-window_secs listed k g = ground arith

    toggle_target-window_secs :
        (agg : Aggregator) (target : Option Target) (g g' : GraphState r)
        → toggle_target r show_f64 agg target g ≡ some g'
        → g'.window_secs ≡ g.window_secs
    unfolding toggle_target
    toggle_target-window_secs agg none g g' e = ground arith
    toggle_target-window_secs agg (some (Target.series found)) g g' e = ground arith
    toggle_target-window_secs agg (some (Target.key k)) g g' e =
        let chosen = record g {
          split_keys = toggle_text k g.split_keys;
          hidden_series = [];
          sort_column = sort_after_split (toggle_text k g.split_keys) g.sort_column;
        } in
        elim (Option-cases (rehydrate r show_f64 agg chosen)) [
          | inl panics ↦ absurd (ground (arith, panics))
          | inr (g1, done) ↦
              let same : g' ≡ pin_cursor r show_f64 (candidates r agg g) k g1 =
                ground (arith, done) in
              ap (λ x. x.window_secs) same
              ∙ pin_cursor-window_secs (candidates r agg g) k g1
              ∙ rehydrate-window_secs agg chosen g1 done
        ]

    pub graph_toggle_split-window_secs :
        (agg : Aggregator) (g g' : GraphState r)
        → graph_toggle_split r show_f64 agg g ≡ some g'
        → g'.window_secs ≡ g.window_secs
    unfolding graph_toggle_split
    graph_toggle_split-window_secs agg g g' e = toggle_target-window_secs agg _ g g' e

    take_window-is_window :
        (agg : Aggregator) (o : Option r.F64) (g g' : GraphState r)
        → is_window g.window_secs ≡ true
        → take_window r show_f64 agg o g ≡ some g'
        → is_window g'.window_secs ≡ true
    unfolding take_window
    take_window-is_window agg none g g' v e = ground arith
    take_window-is_window agg (some w) g g' v e = grind (arith, rehydrate-window_secs)

    pub window_input_commit-is_window :
        (agg : Aggregator) (g g' : GraphState r)
        → is_window g.window_secs ≡ true
        → window_input_commit r show_f64 agg g ≡ some g'
        → is_window g'.window_secs ≡ true
    unfolding window_input_commit
    window_input_commit-is_window agg g g' v e = elim (Option-cases g.window_input) [
      | inl closed ↦ ground (arith, closed)
      | inr (buf, opened) ↦
          take_window-is_window agg (r.parse buf) (record g { window_input = none }) g' v
            (ground (arith, opened))
    ]
