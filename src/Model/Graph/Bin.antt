-- ===== src/Model/Graph/Bin.antt =====
-- The accumulator of one series and one bin of time, `Bin` of tracing-console/src/model/graph.rs.
pub mod Laws
use tracing_console.Base.{
  ℕ, zero, suc, ◌+◌, ◌-◌, ◌*◌, ◌/◌, ◌%◌, ◌^◌, min, max, Bool, true, false, List, [], ◌∷◌, ◌++◌,
  Option, none, some, if◌then◌else◌, ltb, leb, ◌==◌, length, get_elem?,
}
use tracing_console.Base.Text.{Text}
use tracing_console.Base.Words.{u64_mod}
use tracing_console.Model.Reals.{Reals}
use tracing_console.Model.Graph.{Metric, is_count, AggMode}

-- 2^128, the modulus of `u128`.
abbrev pub u128_mod : ℕ
u128_mod = 2 ^ 128

abbrev pub bin_sample_cap : ℕ
bin_sample_cap = 4096

pub record Bin : Type 0 where
  pub count : ℕ
  pub sum_ns : ℕ
  pub min_ns : ℕ
  pub max_ns : ℕ
  pub samples : List ℕ

-- The bin that `get_or_insert_with` inserts.
unfoldable pub new_bin : Bin
new_bin = record { count = 0; sum_ns = 0; min_ns = 0; max_ns = 0; samples = [] }

-- `Bin::record`: the counters wrap at their width.
unfoldable pub record_value : ℕ → Bin → Bin
record_value value bin =
    let extreme =
      if bin.count == 0
      then record bin { min_ns = value; max_ns = value }
      else record bin { min_ns = min bin.min_ns value; max_ns = max bin.max_ns value } in
    record extreme {
      count = (bin.count + 1) % u64_mod;
      sum_ns = (bin.sum_ns + value) % u128_mod;
      samples =
          if ltb (length bin.samples) bin_sample_cap
          then bin.samples ++ value ∷ []
          else bin.samples;
    }

-- `sort_unstable` of numbers.
unfoldable pub insert_sorted : ℕ → List ℕ → List ℕ
insert_sorted v [] = v ∷ []
insert_sorted v (w ∷ vs) = let rest = insert_sorted v vs in if leb v w then v ∷ w ∷ vs else w ∷ rest

unfoldable pub sorted : List ℕ → List ℕ
unfolding insert_sorted
sorted [] = []
sorted (v ∷ vs) = insert_sorted v (sorted vs)

abbrev pub at_or_zero : Option ℕ → ℕ
at_or_zero none = 0
at_or_zero (some v) = v

module _ (r : Reals) where
  -- `sorted[idx.min(n - 1)]`, where `n` is positive.
  unfoldable pub percentile_of : r.F64 → List ℕ → ℕ
  unfolding sorted
  percentile_of p samples =
      let n = length (sorted samples) in
      let idx = r.round_u64 (r.mul (r.div p r.hundred) (r.of_u64 (n - 1))) in
      at_or_zero (get_elem? (sorted samples) (min idx (n - 1)))

  -- `Bin::aggregate`.
  unfoldable pub aggregate : AggMode r.F64 → Bin → ℕ
  unfolding percentile_of
  aggregate mode bin = if bin.count == 0 then 0 else elim mode [
    | AggMode.min ↦ bin.min_ns
    | AggMode.max ↦ bin.max_ns
    | AggMode.avg ↦ bin.sum_ns / bin.count % u64_mod
    | AggMode.percentile p ↦ elim bin.samples [
      | [] ↦ 0
      | s ∷ samples ↦ percentile_of p (s ∷ samples)
    ]
  ]

  -- `bin_value`.
  unfoldable pub bin_value : Bin → AggMode r.F64 → Metric → ℕ
  unfolding aggregate is_count
  bin_value bin agg metric = if is_count metric then bin.count else aggregate agg bin
