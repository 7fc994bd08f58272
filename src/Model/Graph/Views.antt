-- ===== src/Model/Graph/Views.antt =====
-- What the chart and the legend read of the store, in tracing-console/src/model/graph.rs. The order in
-- which a hash map lists its series is that of the association list; the results are sorted.
use tracing_console.Base.{
  ℕ, suc, ◌+◌, ◌-◌, ◌/◌, ◌%◌, min, max, ◌&&◌, ◌||◌, not, List, [], ◌∷◌, map, Option, none, some,
  if◌then◌else◌, ltb, ◌==◌, length,
}
use tracing_console.Base.Words.{u64_mod}
use tracing_console.Model.Reals.{Reals}
use tracing_console.Model.Order.{sort_by, key_le}
use tracing_console.Model.Graph.{Metric, AggMode, is_count}
use tracing_console.Model.Graph.Bin.{Bin, aggregate, bin_value, u128_mod}
use tracing_console.Model.Graph.Store.{SeriesKey, Series, GraphSeriesStore, window_secs}

pub record SeriesSummary : Type 0 where
  pub key : SeriesKey
  pub count : ℕ
  pub min_ns : ℕ
  pub max_ns : ℕ
  pub avg_ns : ℕ
  pub last_ns : ℕ

pub record SeriesProjection (F64 : Type 0) : Type 0 where
  pub key : SeriesKey
  pub points : List (F64 × F64)

-- `bins.iter().flatten()`.
unfoldable pub flatten : List (Option Bin) → List Bin
flatten [] = []
flatten (none ∷ bins) = flatten bins
flatten (some b ∷ bins) = b ∷ flatten bins

abbrev last_of : List ℕ → ℕ
last_of [] = 0
last_of (v ∷ []) = v
last_of (v ∷ w ∷ vs) = last_of (w ∷ vs)

abbrev sum_u64 : List ℕ → ℕ
sum_u64 [] = 0
sum_u64 (v ∷ vs) = (v + sum_u64 vs) % u64_mod

abbrev least_or_zero : List ℕ → ℕ
least_or_zero [] = 0
least_or_zero (v ∷ []) = v
least_or_zero (v ∷ w ∷ vs) = min v (least_or_zero (w ∷ vs))

abbrev greatest_or_zero : List ℕ → ℕ
greatest_or_zero [] = 0
greatest_or_zero (v ∷ vs) = max v (greatest_or_zero vs)

-- The running count, sum, least and greatest of the loop over the bins.
pub record Rollup : Type 0 where
  pub count : ℕ
  pub sum : ℕ
  pub min_ns : ℕ
  pub max_ns : ℕ

unfoldable pub roll_up : List Bin → Rollup → Rollup
roll_up [] acc = acc
roll_up (b ∷ bins) acc = roll_up bins (record {
  count = (acc.count + b.count) % u64_mod;
  sum = (acc.sum + b.sum_ns) % u128_mod;
  min_ns = min acc.min_ns b.min_ns;
  max_ns = max acc.max_ns b.max_ns;
})

module _ (r : Reals) where
  unfoldable pub counts_summary : SeriesKey → Series → SeriesSummary
  unfolding flatten
  counts_summary key series =
      let bin_counts = map (λ (b : Bin). b.count) (flatten series.bins) in
      let total = sum_u64 bin_counts in
      record {
        key = key;
        count = total;
        min_ns = least_or_zero bin_counts;
        max_ns = greatest_or_zero bin_counts;
        avg_ns = elim bin_counts [ [] ↦ 0 | c ∷ cs ↦ total / length (c ∷ cs) ];
        last_ns = last_of bin_counts;
      }

  unfoldable pub values_summary : AggMode r.F64 → SeriesKey → Series → SeriesSummary
  unfolding flatten roll_up aggregate
  values_summary agg key series =
      let all =
        roll_up (flatten series.bins)
          (record { count = 0; sum = 0; min_ns = u64_mod - 1; max_ns = 0 }) in
      record {
        key = key;
        count = all.count;
        min_ns = if all.count == 0 then 0 else all.min_ns;
        max_ns = all.max_ns;
        avg_ns = if all.count == 0 then 0 else all.sum / all.count % u64_mod;
        last_ns = last_of (map (aggregate r agg) (flatten series.bins));
      }

  -- `GraphSeriesStore::series_summary`.
  unfoldable pub series_summary : AggMode r.F64 → Metric → GraphSeriesStore → List SeriesSummary
  unfolding is_count counts_summary values_summary sort_by key_le
  series_summary agg metric store =
      sort_by (λ a b. key_le a.key b.key)
        (map (λ e. if is_count metric then counts_summary e.0 e.1 else values_summary agg e.0 e.1)
          store.series)

  -- The points of one series, from the offset of its first bin on.
  unfoldable pub points_of :
      AggMode r.F64 → Metric → ℕ → ℕ → r.F64 → ℕ → List (Option Bin) → List (r.F64 × r.F64)
  unfolding bin_value is_count
  points_of agg metric oldest latest width abs_idx [] = []
  points_of agg metric oldest latest width abs_idx (slot ∷ bins) =
      let rest = points_of agg metric oldest latest width (suc abs_idx) bins in
      if ltb abs_idx oldest || (is_count metric && (abs_idx == latest)) then rest else elim slot [
        | none ↦ rest
        | some bin ↦
            (
              r.neg (r.mul (r.of_u64 (latest - abs_idx)) width),
              r.of_u64 (bin_value r bin agg metric),
            )
            ∷ rest
      ]

  -- `GraphSeriesStore::project`.
  unfoldable pub project :
      AggMode r.F64 → Metric → r.F64 → GraphSeriesStore → List (SeriesProjection r.F64)
  unfolding window_secs points_of sort_by key_le
  project agg metric x_max_secs store =
      if store.window_ns == 0
      then []
      else let width = window_secs r store in
        let visible_bins = max (r.ceil_u64 (r.div x_max_secs width)) 1 in
        let oldest = store.latest_bin_idx - visible_bins in
        sort_by (λ a b. key_le a.key b.key)
          (map
            (λ e. record {
              key = e.0;
              points =
                  sort_by (λ p q. not (r.before q.0 p.0))
                    (points_of agg metric oldest store.latest_bin_idx width e.1.base_idx e.1.bins);
            })
            store.series)
