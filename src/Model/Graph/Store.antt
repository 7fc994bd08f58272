-- ===== src/Model/Graph/Store.antt =====
-- The store of tracing-console/src/model/graph.rs: the bins of every series, and the recording of one
-- value.
pub mod Laws
use tracing_console.Base.{
  ℕ, zero, suc, ◌+◌, ◌-◌, ◌/◌, ◌%◌, max, Bool, true, false, ◌||◌, not, List, [], ◌∷◌, ◌++◌, Option,
  none, some, if◌then◌else◌, ltb, leb, ◌==◌, length, get_elem?, set, replicate,
}
use tracing_console.Base.Assoc
use tracing_console.Base.Text.{Text}
use tracing_console.Base.Words.{u64_mod}
use tracing_console.Aggregate.State.Keys.{splits_eq}
use tracing_console.Model.Reals.{Reals}
use tracing_console.Model.Graph.Bin.{Bin, new_bin, record_value}

abbrev pub bin_cap : ℕ
bin_cap = 600

abbrev pub SeriesKey : Type 0
SeriesKey = List (Text × Text)

pub record Series : Type 0 where
  pub bins : List (Option Bin)
  pub base_idx : ℕ

unfoldable pub default_series : Series
default_series = record { bins = []; base_idx = 0 }

pub record GraphSeriesStore : Type 0 where
  pub origin_ns : ℕ
  pub window_ns : ℕ
  pub latest_bin_idx : ℕ
  pub series : List (SeriesKey × Series)

-- `while bins.len() > BIN_CAP { pop_front(); base_idx += 1 }`.
unfoldable pub pop_fronts : ℕ → Series → Series
pop_fronts zero s = s
pop_fronts (suc excess) s = elim s.bins [
  | [] ↦ s
  | b ∷ bins ↦ pop_fronts excess (record s { bins = bins; base_idx = s.base_idx + 1 })
]

abbrev pub bin_or_new : Option Bin → Bin
bin_or_new none = new_bin
bin_or_new (some b) = b

abbrev pub slot_or_none : Option (Option Bin) → Option Bin
slot_or_none none = none
slot_or_none (some slot) = slot

-- `if bins.is_empty() { base_idx = bin_idx }`.
abbrev pub first_bin : List (Option Bin) → ℕ → ℕ → ℕ
first_bin [] bin_idx base = bin_idx
first_bin (b ∷ bins) bin_idx base = base

-- What `record` does to one series. None is a bin before the series's first: there the subtractions
-- wrap, so that the loop pushes until memory ends, or panic. The pushes are as many as are needed.
unfoldable pub record_bin : ℕ → ℕ → Series → Option Series
unfolding pop_fronts new_bin record_value
record_bin bin_idx value s =
    let base = first_bin s.bins bin_idx s.base_idx in
    if ltb bin_idx base
    then none
    else let needed_back = bin_idx + 1 - base in
      let filled = s.bins ++ replicate (needed_back - length s.bins) none in
      let kept = pop_fronts (length filled - bin_cap) (record { bins = filled; base_idx = base }) in
      let slot = bin_idx - kept.base_idx in
      if ltb slot (length kept.bins)
      then some (record kept {
        bins =
            set kept.bins slot
              (some (record_value value (bin_or_new (slot_or_none (get_elem? kept.bins slot)))));
      })
      else none

abbrev pub series_or_default : Option Series → Series
series_or_default none = default_series
series_or_default (some s) = s

-- The origin, set half a window before the first sample.
unfoldable pub origin_for : ℕ → GraphSeriesStore → ℕ
origin_for t_ns store = if store.origin_ns == 0 then t_ns - store.window_ns / 2 else store.origin_ns

-- The recording under a key in the bin of an index.
unfoldable pub put_sample : SeriesKey → ℕ → ℕ → ℕ → GraphSeriesStore → Option GraphSeriesStore
unfolding record_bin default_series
put_sample key bin_idx value origin store =
    elim (record_bin bin_idx value (series_or_default (Assoc.lookup splits_eq key store.series))) [
      | none ↦ none
      | some s ↦ some (record store {
        origin_ns = origin;
        latest_bin_idx = max store.latest_bin_idx bin_idx;
        series = Assoc.insert splits_eq key s store.series;
      })
    ]

-- `GraphSeriesStore::record`. None is a panic, or a run that ends with the memory: a window of 0, by
-- which the code divides, and a bin before the first of its series.
unfoldable pub record_sample : SeriesKey → ℕ → ℕ → GraphSeriesStore → Option GraphSeriesStore
unfolding origin_for put_sample
record_sample key t_ns value store =
    let origin = origin_for t_ns store in
    if ltb t_ns origin
    then some (record store { origin_ns = origin })
    else if store.window_ns == 0
    then none
    else put_sample key ((t_ns - origin) / store.window_ns) value origin store

unfoldable pub wipe : GraphSeriesStore → GraphSeriesStore
wipe store = record store { series = []; origin_ns = 0; latest_bin_idx = 0 }

module _ (r : Reals) where
  unfoldable pub window_ns_from_secs : r.F64 → ℕ
  window_ns_from_secs secs =
      if not (r.is_finite secs) || r.le secs r.nought
      then 1000000000
      else r.round_u64 (r.mul secs r.billion)

  unfoldable pub new_store : r.F64 → GraphSeriesStore
  unfolding window_ns_from_secs
  new_store window_secs = record {
    origin_ns = 0;
    window_ns = window_ns_from_secs window_secs;
    latest_bin_idx = 0;
    series = [];
  }

  unfoldable pub window_secs : GraphSeriesStore → r.F64
  window_secs store = r.div (r.of_u64 store.window_ns) r.billion

  unfoldable pub reset_window : r.F64 → GraphSeriesStore → GraphSeriesStore
  unfolding wipe window_ns_from_secs
  reset_window secs store = wipe (record store { window_ns = window_ns_from_secs secs })
