-- ===== src/Model/Rate/Counts.antt =====
-- That the rate tracker of tracing-console/src/model/core.rs reports the events of the last eight
-- completed half seconds.
use tracing_console.Base.{
  ℕ, zero, suc, ◌+◌, ◌-◌, ◌*◌, ◌/◌, ◌%◌, ◌<◌, ◌≤◌, min, ◌≡◌, refl, ap, ◌∙◌, sym, Bool-cases, inl,
  inr, List, [], ◌∷◌, some, if◌then◌else◌, ltb, leb, ◌==◌, set, get_elem?, length, length-set,
  get_elem?-set_self, get_elem?-set_ne, All, All-mono, arith,
}
use tracing_console.Base.Words.{u64_mod}
use tracing_console.Model.Rate.{
  RateTracker, bucket_count, half_second, u32_max, advance, held, bump, roll_to, record_event,
}
use tracing_console.Model.Rate.Laws.{ago, IsRing, advance-IsRing, ago-advance_old, ago-advance_new}

-- The half second of a time, counted from the first event.
abbrev pub slot : ℕ → ℕ → ℕ
slot first time = (time - first) / half_second

-- The events of one half second.
abbrev pub count_in : ℕ → ℕ → List ℕ → ℕ
count_in first k [] = 0
count_in first k (time ∷ times) = (if slot first time == k then 1 else 0) + count_in first k times

-- The events of the j-th half second before the k-th.
abbrev pub count_ago : ℕ → ℕ → List ℕ → ℕ → ℕ
count_ago first k times j = if leb j k then count_in first (k - j) times else 0

count_in-le : (first k : ℕ) (times : List ℕ) → count_in first k times ≤ length times
count_in-le first k [] = omega arith
count_in-le first k (time ∷ times) = ground (arith, count_in-le first k times)

count_in_later :
    (first k n : ℕ) (times : List ℕ)
    → All (λ t. slot first t ≤ k) times
    → k < n
    → count_in first n times ≡ 0
count_in_later first k n [] h lt = refl
count_in_later first k n (time ∷ times) h lt =
    ground (arith, h.0, count_in_later first k n times h.1 lt)

-- The tracker stands in the k-th half second, and its buckets count the events.
pub record Counts (first k : ℕ) (times : List ℕ) (t : RateTracker) : Type 0 where
  pub ring_ok : IsRing t
  pub started : t.bucket_start ≡ some (first + half_second * k)
  pub counted : (j : ℕ) → j < 9 → ago t j ≡ count_ago first k times j
  pub so_far : All (λ time. slot first time ≤ k) times

pub bump-IsRing : (t : RateTracker) → IsRing t → IsRing (bump t)
unfolding bump
bump-IsRing t v = record {
  nine = length-set t.buckets t.head (min (held (get_elem? t.buckets t.head) + 1) u32_max) ∙ v.nine;
  inside = v.inside;
}

pub ago-bump_now : (t : RateTracker) → IsRing t → ago (bump t) 0 ≡ min (ago t 0 + 1) u32_max
unfolding bump
ago-bump_now t v =
    ap (λ i. held (get_elem? new i)) here
    ∙ ap held (
        get_elem?-set_self t.buckets t.head (min (held (get_elem? t.buckets t.head) + 1) u32_max)
          (omega (arith, v.nine, v.inside)))
    ∙ ap (λ i. min (held (get_elem? t.buckets i) + 1) u32_max) (sym here)
  where
    new : List ℕ
    new = set t.buckets t.head (min (held (get_elem? t.buckets t.head) + 1) u32_max)

    here : (t.head + 9 - 0) % 9 ≡ t.head
    here = omega (arith, v.inside)

pub ago-bump_before :
    (t : RateTracker) (j : ℕ) → IsRing t → 0 < j → j < 9 → ago (bump t) j ≡ ago t j
unfolding bump
ago-bump_before t j v h k = ap held (
    get_elem?-set_ne t.buckets t.head ((t.head + 9 - j) % 9)
      (min (held (get_elem? t.buckets t.head) + 1) u32_max) (λ e. absurd (omega (arith, v.inside))))

bumped :
    (first k now : ℕ) (times : List ℕ) (t : RateTracker)
    → Counts first k times t
    → slot first now ≡ k
    → length times < u32_max
    → (j : ℕ) → j < 9
    → ago (bump t) j ≡ count_ago first k (now ∷ times) j
bumped first k now times t v here few zero h =
    let same : k - 0 ≡ k = omega arith in
    ago-bump_now t v.ring_ok
    ∙ ap (λ n. min (n + 1) u32_max) (v.counted 0 h)
    ∙ ground (arith, here, count_in-le first k times, ap (λ i. count_in first i times) same)
bumped first k now times t v here few (suc j) h =
    ago-bump_before t (suc j) v.ring_ok (omega arith) h ∙ v.counted (suc j) h ∙ ground (arith, here)

-- An event in the current half second.
pub bump-Counts :
    (first k now : ℕ) (times : List ℕ) (t : RateTracker)
    → Counts first k times t
    → slot first now ≡ k
    → length times < u32_max
    → Counts first k (now ∷ times) (bump t)
bump-Counts first k now times t v here few = record {
  ring_ok = bump-IsRing t v.ring_ok;
  started = unfold bump in v.started;
  counted = λ j h. bumped first k now times t v here few j h;
  so_far = (omega arith, v.so_far);
}

-- The buckets that have moved back count the same events from a later half second.
count_ago_old :
    (first k n j : ℕ) (times : List ℕ)
    → count_ago first (k + n) times (n + j) ≡ count_ago first k times j
count_ago_old first k n j times =
    let same : k + n - (n + j) ≡ k - j = omega arith in
    ground (arith, ap (λ i. count_in first i times) same)

count_ago_new :
    (first k n j : ℕ) (times : List ℕ)
    → All (λ time. slot first time ≤ k) times
    → j < n
    → count_ago first (k + n) times j ≡ 0
count_ago_new first k n j times h lt = ground (arith, count_in_later first k (k + n - j) times h)

-- The tracker after a number of half seconds, at most nine.
abbrev rolled : ℕ → ℕ → RateTracker → RateTracker
rolled start n t = record (advance n t) { bucket_start = some (start + half_second * n) }

rolled_counted :
    (first k n : ℕ) (times : List ℕ) (t : RateTracker) (j : ℕ)
    → Counts first k times t
    → j < 9
    → ago (advance n t) j ≡ count_ago first (k + n) times j
rolled_counted first k n times t j v h = elim (Bool-cases (ltb j n)) [
  | inl e ↦
      ago-advance_new n j t v.ring_ok (ground arith) h
      ∙ sym (count_ago_new first k n j times v.so_far (ground arith))
  | inr e ↦
      let moved : j ≡ n + (j - n) = ground arith in
      ap (ago (advance n t)) moved
      ∙ ago-advance_old n (j - n) t v.ring_ok (omega arith)
      ∙ v.counted (j - n) (omega arith)
      ∙ sym (count_ago_old first k n (j - n) times)
      ∙ ap (count_ago first (k + n) times) (sym moved)
]

rolled-Counts :
    (first k n : ℕ) (times : List ℕ) (t : RateTracker)
    → Counts first k times t
    → Counts first (k + n) times (rolled (first + half_second * k) n t)
rolled-Counts first k n times t v =
    let a = advance-IsRing n t v.ring_ok in
    record {
      ring_ok = record { nine = a.nine; inside = a.inside };
      started = ap some (omega arith);
      counted = λ j h. rolled_counted first k n times t j v h;
      so_far =
          All-mono (λ time. slot first time ≤ k) (λ time. slot first time ≤ k + n) times
            (λ time le. omega arith) v.so_far;
    }

roll_to-Counts :
    (first k now : ℕ) (times : List ℕ) (t : RateTracker)
    → Counts first k times t
    → first + half_second * k ≤ now
    → now < first + half_second * k + 10 * half_second
    → Counts first (slot first now) times (roll_to (first + half_second * k) now t)
unfolding roll_to
roll_to-Counts first k now times t v after soon =
    let start = first + half_second * k in
    let elapsed_ms = (now - start) / 1000000 % u64_mod in
    elim (Bool-cases (leb 500 ((now - (first + half_second * k)) / 1000000 % u64_mod))) [
      | inl e ↦
          let n = min (elapsed_ms / 500) bucket_count in
          let there : (now - first) / half_second
              ≡ k + min ((now - (first + half_second * k)) / 1000000 % u64_mod / 500) bucket_count =
            omega arith in
          rw (e, there) (rolled-Counts first k n times t v)
      | inr e ↦ let there : (now - first) / half_second ≡ k = ground arith in rw (e, there) v
    ]

-- An event less than five seconds after the current half second began, counted from there.
pub event-Counts :
    (first k now : ℕ) (times : List ℕ) (t : RateTracker)
    → Counts first k times t
    → first + half_second * k ≤ now
    → now < first + half_second * k + 10 * half_second
    → length times < u32_max
    → Counts first (slot first now) (now ∷ times) (record_event now t)
unfolding record_event
event-Counts first k now times t v after soon few =
    rw (record_event, v.started)
      (bump-Counts first (slot first now) now times (roll_to (first + half_second * k) now t)
        (roll_to-Counts first k now times t v after soon) refl few)
