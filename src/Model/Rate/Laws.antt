-- ===== src/Model/Rate/Laws.antt =====
-- That the rate tracker of tracing-console/src/model/core.rs counts the right half seconds.
use tracing_console.Base.{
  ℕ, zero, suc, ◌+◌, ◌-◌, ◌%◌, ◌<◌, ◌≡◌, ap, ◌∙◌, Bool-cases, inl, inr, ltb, set, get_elem?, length,
  length-set, get_elem?-set_self, get_elem?-set_ne, arith,
}
use tracing_console.Model.Rate.{RateTracker, advance, held}

-- The bucket of j half seconds before the current one.
abbrev pub ago : RateTracker → ℕ → ℕ
ago t j = held (get_elem? t.buckets ((t.head + 9 - j) % 9))

pub record IsRing (t : RateTracker) : Type 0 where
  pub nine : length t.buckets ≡ 9
  pub inside : t.head < 9

abbrev turn : RateTracker → RateTracker
turn t = record t { head = (t.head + 1) % 9; buckets = set t.buckets ((t.head + 1) % 9) 0 }

turn-IsRing : (t : RateTracker) → IsRing t → IsRing (turn t)
turn-IsRing t v = record {
  nine = length-set t.buckets ((t.head + 1) % 9) 0 ∙ v.nine;
  inside = omega arith;
}

ago-turn : (t : RateTracker) (j : ℕ) → IsRing t → j < 8 → ago (turn t) (suc j) ≡ ago t j
ago-turn t j v h =
    ap (λ i. held (get_elem? (set t.buckets ((t.head + 1) % 9) 0) i)) same
    ∙ ap held (
        get_elem?-set_ne t.buckets ((t.head + 1) % 9) ((t.head + 9 - j) % 9) 0
          (λ e. absurd (omega (arith, v.inside))))
  where
    same : ((t.head + 1) % 9 + 9 - suc j) % 9 ≡ (t.head + 9 - j) % 9
    same = omega (arith, v.inside)

ago-turn_now : (t : RateTracker) → IsRing t → ago (turn t) 0 ≡ 0
ago-turn_now t v =
    ap (λ i. held (get_elem? (set t.buckets ((t.head + 1) % 9) 0) i)) same
    ∙ ap held (get_elem?-set_self t.buckets ((t.head + 1) % 9) 0 (omega (arith, v.nine)))
  where
    same : ((t.head + 1) % 9 + 9 - 0) % 9 ≡ (t.head + 1) % 9
    same = omega arith

pub advance-IsRing : (n : ℕ) (t : RateTracker) → IsRing t → IsRing (advance n t)
unfolding advance
advance-IsRing zero t v = v
advance-IsRing (suc n) t v = advance-IsRing n (turn t) (turn-IsRing t v)

-- Buckets move back by the half seconds that have passed, and those between are empty.
pub ago-advance_old :
    (n j : ℕ) (t : RateTracker) → IsRing t → n + j < 9 → ago (advance n t) (n + j) ≡ ago t j
unfolding advance
ago-advance_old zero j t v h = ap (ago t) (omega arith)
ago-advance_old (suc n) j t v h =
    let step : suc n + j ≡ n + suc j = omega arith in
    ap (ago (advance n (turn t))) step
    ∙ ago-advance_old n (suc j) (turn t) (turn-IsRing t v) (omega arith)
    ∙ ago-turn t j v (omega arith)

pub ago-advance_new :
    (n j : ℕ) (t : RateTracker) → IsRing t → j < n → j < 9 → ago (advance n t) j ≡ 0
unfolding advance
ago-advance_new zero j t v h k = absurd (omega arith)
ago-advance_new (suc n) j t v h k = elim (Bool-cases (ltb j n)) [
  | inl e ↦ ago-advance_new n j (turn t) (turn-IsRing t v) (ground arith) k
  | inr e ↦
      let same : j ≡ n + 0 = ground arith in
      ap (ago (advance n (turn t))) same
      ∙ ago-advance_old n 0 (turn t) (turn-IsRing t v) (ground arith)
      ∙ ago-turn_now t v
]
