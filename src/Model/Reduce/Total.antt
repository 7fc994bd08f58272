-- ===== src/Model/Reduce/Total.antt =====
-- The reducer of tracing-console/src/model/core.rs keeps the aggregator's invariant, and always returns while
-- no graph and no trace is shown.
use tracing_console.Base.{ℕ, Bool, true, false}
use tracing_console.Base.Text.{Text}
use tracing_console.Model.Reals.{Reals}
use tracing_console.Model.Core.{
  Model, ViewMode, table_view, graph_view, explore_view, trace_detail_view,
}
use tracing_console.Model.Update.{Update}
use tracing_console.Model.Reduce.Table.{toggle_split_selected}
use tracing_console.Model.Reduce.Switches.{span_received, toggle_graph, enter_graph}

module _ (r : Reals) (show_f64 : ℕ → Text) where
  -- The updates that open a graph, which is filled from the ring.
  abbrev pub opens_graph : Update r.F64 → Bool
  opens_graph Update.toggle_graph = true
  opens_graph Update.enter_graph = true
  opens_graph _ = false

  -- The updates that change the aggregator.
  abbrev is_feeding : Update r.F64 → Bool
  is_feeding (Update.span_received span) = true
  is_feeding Update.toggle_split_selected = true
  is_feeding _ = false

  abbrev pub is_plain : ViewMode r → Bool
  is_plain table_view = true
  is_plain (graph_view g) = false
  is_plain (explore_view es) = true
  is_plain (trace_detail_view td) = false
