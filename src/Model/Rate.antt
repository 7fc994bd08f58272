-- ===== src/Model/Rate.antt =====
-- `RateTracker` of tracing-console/src/model/core.rs. An `Instant` is a number of nanoseconds.
pub mod Laws
pub mod Buckets
pub mod Counts
pub mod Window
use tracing_console.Base.{
  ℕ, zero, suc, ◌+◌, ◌-◌, ◌*◌, ◌/◌, ◌%◌, min, Bool, List, [], ◌∷◌, Option, none, some,
  if◌then◌else◌, leb, ◌==◌, set, get_elem?, replicate,
}
use tracing_console.Base.Words.{u64_mod}
use tracing_console.Model.Reals.{Reals}

abbrev pub bucket_count : ℕ
bucket_count = 9

-- A half second in nanoseconds.
abbrev pub half_second : ℕ
half_second = 500000000

abbrev pub u32_max : ℕ
u32_max = 4294967295

pub record RateTracker : Type 0 where
  pub buckets : List ℕ
  pub head : ℕ
  pub bucket_start : Option ℕ

unfoldable pub default_tracker : RateTracker
default_tracker = record { buckets = replicate bucket_count 0; head = 0; bucket_start = none }

-- The loop over the half seconds that have passed.
unfoldable pub advance : ℕ → RateTracker → RateTracker
advance zero t = t
advance (suc n) t =
    let head = (t.head + 1) % bucket_count in
    advance n (record t { head = head; buckets = set t.buckets head 0 })

-- What a bucket holds, if the index is within.
abbrev pub held : Option ℕ → ℕ
held none = 0
held (some v) = v

-- `saturating_add(1)` of the bucket at the head.
unfoldable pub bump : RateTracker → RateTracker
bump t = record t {
  buckets = set t.buckets t.head (min (held (get_elem? t.buckets t.head) + 1) u32_max);
}

unfoldable pub roll_to : ℕ → ℕ → RateTracker → RateTracker
unfolding advance
roll_to start now t =
    let elapsed_ms = (now - start) / 1000000 % u64_mod in
    let advances = min (elapsed_ms / 500) bucket_count in
    if leb 500 elapsed_ms
    then record (advance advances t) { bucket_start = some (start + half_second * advances) }
    else t

unfoldable pub record_event : ℕ → RateTracker → RateTracker
unfolding roll_to bump
record_event now t = elim t.bucket_start [
  | none ↦ bump (record t { bucket_start = some now })
  | some start ↦ bump (roll_to start now t)
]

-- The loop of `rate_hz`, from index `i` on.
unfoldable pub sum_except : ℕ → ℕ → List ℕ → ℕ
sum_except head i [] = 0
sum_except head i (v ∷ buckets) =
    let rest = sum_except head (suc i) buckets in if i == head then rest else v + rest

unfoldable pub completed : RateTracker → ℕ
unfolding sum_except
completed t = sum_except t.head 0 t.buckets

unfoldable pub rate_hz : (r : Reals) → RateTracker → r.F64
unfolding completed
rate_hz r t = elim t.bucket_start [
  | none ↦ r.nought
  | some start ↦ r.div (r.of_u64 (completed t)) r.four
]
