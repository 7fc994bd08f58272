-- ===== src/Aggregate/Bucket.antt =====
-- tracing-console/src/aggregate/types.rs, and `BucketState` of tracing-console/src/aggregate/state.rs.
-- Counters wrap at their width, as in a release build.
pub mod Multiset
pub mod Stats
use tracing_console.Base.{
  ℕ, ◌+◌, ◌-◌, ◌/◌, ◌%◌, ◌^◌, Bool, List, [], ◌∷◌, Option, none, some, if◌then◌else◌, ◌==◌,
}
use tracing_console.Base.Text.{Text}
use tracing_console.Base.OrdMap.{lookup, insert, remove}

abbrev pub wrapping_add : ℕ → ℕ → ℕ → ℕ
wrapping_add modulus a b = (a + b) % modulus

abbrev pub wrapping_sub : ℕ → ℕ → ℕ → ℕ
wrapping_sub modulus a b = (a + modulus - b) % modulus

abbrev pub u32_mod : ℕ
u32_mod = 2 ^ 32

abbrev pub u64_mod : ℕ
u64_mod = 2 ^ 64

abbrev pub u128_mod : ℕ
u128_mod = 2 ^ 128

pub record StackStats : Type 0 where
  pub count : ℕ
  pub total_min_ns : ℕ
  pub total_max_ns : ℕ
  pub total_sum_ns : ℕ
  pub self_min_ns : ℕ
  pub self_max_ns : ℕ
  pub self_sum_ns : ℕ

unfoldable pub total_avg_ns : StackStats → ℕ
total_avg_ns s = if s.count == 0 then 0 else s.total_sum_ns / s.count % u64_mod

unfoldable pub self_avg_ns : StackStats → ℕ
self_avg_ns s = if s.count == 0 then 0 else s.self_sum_ns / s.count % u64_mod

-- How often each value occurs, by value.
abbrev pub Multiset : Type 0
Multiset = List (ℕ × ℕ)

abbrev pub get_or_zero : Option ℕ → ℕ
get_or_zero none = 0
get_or_zero (some c) = c

-- `*ms.entry(key).or_insert(0) += 1`.
unfoldable pub ms_inc : ℕ → Multiset → Multiset
ms_inc key ms = insert key (wrapping_add u32_mod (get_or_zero (lookup key ms)) 1) ms

unfoldable pub ms_dec : ℕ → Multiset → Multiset
ms_dec key ms = elim (lookup key ms) [
  | none ↦ ms
  | some c ↦
      if wrapping_sub u32_mod c 1 == 0
      then remove key ms
      else insert key (wrapping_sub u32_mod c 1) ms
]

abbrev pub first_key : Multiset → Option ℕ
first_key [] = none
first_key ((k, c) ∷ ms) = some k

abbrev pub last_key : Multiset → Option ℕ
last_key [] = none
last_key ((k, c) ∷ []) = some k
last_key ((k, c) ∷ e ∷ ms) = last_key (e ∷ ms)

-- The smallest and the largest value; both 0 if there is none.
unfoldable pub ms_min_max : Multiset → ℕ × ℕ
ms_min_max [] = (0, 0)
ms_min_max ((k, c) ∷ ms) = (k, get_or_zero (last_key ((k, c) ∷ ms)))

pub record BucketState : Type 0 where
  pub count : ℕ
  pub total_sum_ns : ℕ
  pub self_sum_ns : ℕ
  pub total_ns_multiset : Multiset
  pub self_ns_multiset : Multiset

unfoldable pub default_bucket : BucketState
default_bucket = record {
  count = 0;
  total_sum_ns = 0;
  self_sum_ns = 0;
  total_ns_multiset = [];
  self_ns_multiset = [];
}

unfoldable pub add : ℕ → ℕ → BucketState → BucketState
add total_ns self_ns s = record {
  count = wrapping_add u64_mod s.count 1;
  total_sum_ns = wrapping_add u128_mod s.total_sum_ns total_ns;
  self_sum_ns = wrapping_add u128_mod s.self_sum_ns self_ns;
  total_ns_multiset = ms_inc total_ns s.total_ns_multiset;
  self_ns_multiset = ms_inc self_ns s.self_ns_multiset;
}

unfoldable pub remove_contribution : ℕ → ℕ → BucketState → BucketState
remove_contribution total_ns self_ns s = record {
  count = wrapping_sub u64_mod s.count 1;
  total_sum_ns = wrapping_sub u128_mod s.total_sum_ns total_ns;
  self_sum_ns = wrapping_sub u128_mod s.self_sum_ns self_ns;
  total_ns_multiset = ms_dec total_ns s.total_ns_multiset;
  self_ns_multiset = ms_dec self_ns s.self_ns_multiset;
}

unfoldable pub is_empty : BucketState → Bool
is_empty s = s.count == 0

unfoldable pub to_stack_stats : BucketState → StackStats
unfolding ms_min_max
to_stack_stats s =
    let (total_min, total_max) = ms_min_max s.total_ns_multiset in
    let (self_min, self_max) = ms_min_max s.self_ns_multiset in
    record {
      count = s.count;
      total_min_ns = total_min;
      total_max_ns = total_max;
      total_sum_ns = s.total_sum_ns;
      self_min_ns = self_min;
      self_max_ns = self_max;
      self_sum_ns = s.self_sum_ns;
    }

-- Two spans share a bucket if they have one ancestry of names and the same resolved splits.
pub record BucketKey : Type 0 where
  pub stack : List Text
  pub splits : List (Text × Text)
