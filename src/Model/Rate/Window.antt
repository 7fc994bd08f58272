-- ===== src/Model/Rate/Window.antt =====
-- The rate of tracing-console/src/model/core.rs for a whole history of events.
use tracing_console.Base.{
  ℕ, zero, suc, ◌+◌, ◌-◌, ◌*◌, ◌/◌, ◌%◌, ◌<◌, ◌≤◌, min, ◌≡◌, refl, ap, ◌∙◌, true, List, [], ◌∷◌,
  some, leb, length, replicate, get_elem?, arith,
}
use tracing_console.Base.Words.{u64_mod}
use tracing_console.Model.Rate.{
  RateTracker, half_second, u32_max, default_tracker, bump, record_event, completed, held, advance,
  roll_to, bucket_count,
}
use tracing_console.Model.Rate.Laws.{ago, IsRing, advance-IsRing, ago-advance_new}
use tracing_console.Model.Rate.Buckets.{eight_ago, ring, nine_elements}
use tracing_console.Model.Rate.Counts.{
  slot, count_ago, Counts, event-Counts, bump-Counts, bump-IsRing, ago-bump_before,
}

-- The tracker that events have been recorded in, the last one first.
abbrev pub tracker_of : List ℕ → RateTracker
tracker_of [] = default_tracker
tracker_of (now ∷ times) = record_event now (tracker_of times)

-- Each event comes within four and a half seconds of the one before it.
abbrev pub IsSteady : List ℕ → Type 0
IsSteady [] = Unit {0}
IsSteady (now ∷ []) = Unit {0}
IsSteady (now ∷ before ∷ times) =
    (before ≤ now) × (now < before + 9 * half_second) × IsSteady (before ∷ times)

-- The first event.
abbrev pub first_of : ℕ → List ℕ → ℕ
first_of now [] = now
first_of now (before ∷ times) = first_of before times

-- The events of the n half seconds before the k-th.
abbrev pub count_before : ℕ → ℕ → List ℕ → ℕ → ℕ
count_before first k times zero = 0
count_before first k times (suc n) = count_before first k times n + count_ago first k times (suc n)

completed-eight_ago : (t : RateTracker) → IsRing t → completed t ≡ eight_ago (ring t.head t.buckets)
unfolding completed
completed-eight_ago t v = nine_elements t.buckets v.nine t.head v.inside

empty_held : (n i : ℕ) → held (get_elem? (replicate n 0) i) ≡ 0
empty_held zero i = refl
empty_held (suc n) zero = refl
empty_held (suc n) (suc i) = empty_held n i

first_event : (now : ℕ) → Counts now (slot now now) (now ∷ []) (tracker_of (now ∷ []))
unfolding record_event default_tracker
first_event now =
    bump-Counts now (slot now now) now [] opened
      (record {
        ring_ok = record { nine = refl; inside = omega arith };
        started = ap some (omega arith);
        counted = λ j h. empty_held 9 ((0 + 9 - j) % 9) ∙ ground arith;
        so_far = tt;
      })
      refl (omega arith)
  where
    opened : RateTracker
    opened = record { buckets = replicate bucket_count 0; head = 0; bucket_start = some now }

tracker_of-Counts :
    (now : ℕ) (times : List ℕ)
    → IsSteady (now ∷ times)
    → length (now ∷ times) < u32_max
    → (first_of now times ≤ now)
      × Counts
          (first_of now times)
          (slot (first_of now times) now)
          (now ∷ times)
          (tracker_of (now ∷ times))
tracker_of-Counts now [] steady few = (omega arith, first_event now)
tracker_of-Counts now (before ∷ times) steady few =
    let (le, v) = tracker_of-Counts before times steady.2 (omega arith) in
    let first = first_of before times in
    (
      omega (arith, steady.0, le),
      event-Counts (first_of before times) (slot (first_of before times) before) now
          (before ∷ times) (tracker_of (before ∷ times)) v (omega (arith, steady.0, le))
          (omega (arith, steady.1, le)) (omega arith),
    )

-- When each event comes within four and a half seconds of the one before it, and they are fewer than
-- 2^32 - 1, then after the last of them the completed buckets, whose sum the rate divides by four
-- seconds, hold exactly the events of the eight half seconds before the current one, where half
-- seconds are counted from the first event.
pub completed-tracker_of :
    (now : ℕ) (times : List ℕ)
    → IsSteady (now ∷ times)
    → length (now ∷ times) < u32_max
    → let first = first_of now times in
      completed (tracker_of (now ∷ times)) ≡ count_before first (slot first now) (now ∷ times) 8
completed-tracker_of now times steady few =
    let (le, v) = tracker_of-Counts now times steady few in
    completed-eight_ago (tracker_of (now ∷ times)) v.ring_ok
    ∙ omega (
      arith,
      v.counted 1 (omega arith),
      v.counted 2 (omega arith),
      v.counted 3 (omega arith),
      v.counted 4 (omega arith),
      v.counted 5 (omega arith),
      v.counted 6 (omega arith),
      v.counted 7 (omega arith),
      v.counted 8 (omega arith),
    )

advance-nine : (t : RateTracker) → IsRing t → (j : ℕ) → j < 9 → ago (advance 9 t) j ≡ 0
advance-nine t v j h = ago-advance_new 9 j t v h h

-- When an event comes five seconds or more after the current half second began, it empties every
-- completed bucket, and moves the beginning of the current half second on by four and a half seconds
-- only, however late it comes. The tracker stays one to which this applies again.
pub record_event_forgets :
    (t : RateTracker) (start now : ℕ)
    → IsRing t
    → t.bucket_start ≡ some start
    → start + 10 * half_second ≤ now
    → (now - start) / 1000000 < u64_mod
    → (completed (record_event now t) ≡ 0)
      × ((record_event now t).bucket_start ≡ some (start + 9 * half_second))
      × IsRing (record_event now t)
unfolding record_event completed
record_event_forgets t start now v e late fits =
    rw (record_event, e)
      (rw rolled (
        completed-eight_ago (bump moved) (bump-IsRing moved ring_ok)
            ∙ omega (
              arith,
              before 1 (omega arith) (omega arith),
              before 2 (omega arith) (omega arith),
              before 3 (omega arith) (omega arith),
              before 4 (omega arith) (omega arith),
              before 5 (omega arith) (omega arith),
              before 6 (omega arith) (omega arith),
              before 7 (omega arith) (omega arith),
              before 8 (omega arith) (omega arith),
            ),
        unfold bump in ap some (omega arith),
        bump-IsRing moved ring_ok,
      ))
  where
    moved : RateTracker
    moved = record (advance 9 t) { bucket_start = some (start + half_second * 9) }

    ring_ok : IsRing moved
    ring_ok = let a = advance-IsRing 9 t v in record { nine = a.nine; inside = a.inside }

    rolled : roll_to start now t ≡ moved
    rolled =
        unfold roll_to in
        let nine : min ((now - start) / 1000000 % u64_mod / 500) bucket_count ≡ 9 = omega arith in
        let test : leb 500 ((now - start) / 1000000 % u64_mod) ≡ true = ground arith in
        rw (test, nine) refl

    before : (j : ℕ) → 0 < j → j < 9 → ago (bump moved) j ≡ 0
    before j h k = ago-bump_before moved j ring_ok h k ∙ advance-nine t v j k
