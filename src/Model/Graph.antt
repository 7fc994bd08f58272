-- ===== src/Model/Graph.antt =====
-- tracing-console/src/model/graph.rs: the choices of the graph view.
pub mod Bin
pub mod Store
pub mod Views
pub mod State
pub mod Inputs
use tracing_console.Base.{Bool, true, false}
use tracing_console.Base.Text.{Text}
use tracing_console.Model.Reals.{Reals}

pub data Metric : Type 0 where
  total self_time count : Metric

unfoldable pub next_metric : Metric → Metric
next_metric Metric.total = Metric.self_time
next_metric Metric.self_time = Metric.count
next_metric Metric.count = Metric.total

unfoldable pub is_count : Metric → Bool
is_count Metric.count = true
is_count _ = false

pub data AggMode (F64 : Type 0) : Type 0 where
  min max avg : AggMode F64
  percentile : F64 → AggMode F64

-- `impl PartialEq for AggMode`.
unfoldable pub same_mode : (r : Reals) → AggMode r.F64 → AggMode r.F64 → Bool
same_mode r AggMode.min AggMode.min = true
same_mode r AggMode.max AggMode.max = true
same_mode r AggMode.avg AggMode.avg = true
same_mode r (AggMode.percentile a) (AggMode.percentile b) = r.eq a b
same_mode r _ _ = false

pub data TimeLabels : Type 0 where
  delta unix local : TimeLabels

unfoldable pub next_labels : TimeLabels → TimeLabels
next_labels TimeLabels.delta = TimeLabels.unix
next_labels TimeLabels.unix = TimeLabels.local
next_labels TimeLabels.local = TimeLabels.delta

pub data GraphFocus : Type 0 where
  chart details : GraphFocus

pub data SortColumn : Type 0 where
  split_key : Text → SortColumn
  count min avg max last : SortColumn
