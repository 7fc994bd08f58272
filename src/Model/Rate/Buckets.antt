-- ===== src/Model/Rate/Buckets.antt =====
-- The completed half seconds of the rate tracker in tracing-console/src/model/core.rs, bucket by
-- bucket.
use tracing_console.Base.{
  ℕ, zero, suc, ◌+◌, ◌<◌, ◌≡◌, refl, ap, ◌∙◌, List, [], ◌∷◌, none, length, arith,
}
use tracing_console.Model.Rate.{RateTracker, sum_except}
use tracing_console.Model.Rate.Laws.{ago}

empty : (xs : List ℕ) → length xs ≡ 0 → xs ≡ []
empty [] e = refl
empty (x ∷ xs) e = absurd (omega arith)

uncons :
    (n : ℕ) (xs : List ℕ)
    → length xs ≡ suc n
    → (x : ℕ) × (ys : List ℕ) × (xs ≡ x ∷ ys) × (length ys ≡ n)
uncons n [] e = absurd (omega arith)
uncons n (x ∷ xs) e = (x, xs, refl, omega arith)

abbrev pub eight_ago : RateTracker → ℕ
eight_ago t =
    ago t 1 + (ago t 2 + (ago t 3 + (ago t 4 + (ago t 5 + (ago t 6 + (ago t 7 + ago t 8))))))

abbrev nine : ℕ → ℕ → ℕ → ℕ → ℕ → ℕ → ℕ → ℕ → ℕ → List ℕ
nine b0 b1 b2 b3 b4 b5 b6 b7 b8 = b0 ∷ b1 ∷ b2 ∷ b3 ∷ b4 ∷ b5 ∷ b6 ∷ b7 ∷ b8 ∷ []

abbrev pub ring : ℕ → List ℕ → RateTracker
ring head buckets = record { buckets = buckets; head = head; bucket_start = none }

sum_except-nine :
    (head b0 b1 b2 b3 b4 b5 b6 b7 b8 : ℕ)
    → head < 9
    → sum_except head 0 (nine b0 b1 b2 b3 b4 b5 b6 b7 b8)
      ≡ eight_ago (ring head (nine b0 b1 b2 b3 b4 b5 b6 b7 b8))
unfolding sum_except
sum_except-nine zero b0 b1 b2 b3 b4 b5 b6 b7 b8 h = omega arith
sum_except-nine (suc zero) b0 b1 b2 b3 b4 b5 b6 b7 b8 h = omega arith
sum_except-nine (suc (suc zero)) b0 b1 b2 b3 b4 b5 b6 b7 b8 h = omega arith
sum_except-nine (suc (suc (suc zero))) b0 b1 b2 b3 b4 b5 b6 b7 b8 h = omega arith
sum_except-nine (suc (suc (suc (suc zero)))) b0 b1 b2 b3 b4 b5 b6 b7 b8 h = omega arith
sum_except-nine (suc (suc (suc (suc (suc zero))))) b0 b1 b2 b3 b4 b5 b6 b7 b8 h = omega arith
sum_except-nine (suc (suc (suc (suc (suc (suc zero)))))) b0 b1 b2 b3 b4 b5 b6 b7 b8 h = omega arith
sum_except-nine (suc (suc (suc (suc (suc (suc (suc zero))))))) b0 b1 b2 b3 b4 b5 b6 b7 b8 h =
    omega arith
sum_except-nine (suc (suc (suc (suc (suc (suc (suc (suc zero)))))))) b0 b1 b2 b3 b4 b5 b6 b7 b8 h =
    omega arith
sum_except-nine (suc (suc (suc (suc (suc (suc (suc (suc (suc n))))))))) b0 b1 b2 b3 b4 b5 b6 b7 b8
      h =
    absurd (omega arith)

pub nine_elements :
    (xs : List ℕ)
    → length xs ≡ 9
    → (head : ℕ) → head < 9
    → sum_except head 0 xs ≡ eight_ago (ring head xs)
nine_elements xs e head h =
    let (b0, x0, e0, l0) = uncons 8 xs e in
    let (b1, x1, e1, l1) = uncons 7 x0 l0 in
    let (b2, x2, e2, l2) = uncons 6 x1 l1 in
    let (b3, x3, e3, l3) = uncons 5 x2 l2 in
    let (b4, x4, e4, l4) = uncons 4 x3 l3 in
    let (b5, x5, e5, l5) = uncons 3 x4 l4 in
    let (b6, x6, e6, l6) = uncons 2 x5 l5 in
    let (b7, x7, e7, l7) = uncons 1 x6 l6 in
    let (b8, x8, e8, l8) = uncons 0 x7 l7 in
    let whole : xs ≡ nine b0 b1 b2 b3 b4 b5 b6 b7 b8 =
      e0
      ∙ ap (◌∷◌ b0) (
          e1
          ∙ ap (◌∷◌ b1) (
              e2
              ∙ ap (◌∷◌ b2) (
                  e3
                  ∙ ap (◌∷◌ b3) (
                      e4
                      ∙ ap (◌∷◌ b4) (
                          e5
                          ∙ ap (◌∷◌ b5) (
                              e6
                              ∙ ap (◌∷◌ b6)
                                  (e7 ∙ ap (◌∷◌ b7) (e8 ∙ ap (◌∷◌ b8) (empty x8 l8))))))))) in
    rw whole (sum_except-nine head b0 b1 b2 b3 b4 b5 b6 b7 b8 h)
