-- ===== src/Base/Words.antt =====
-- Machine words: shifts and masks of `u64` values, and the digit laws that turn the bit operations
-- of the sources into arithmetic.
use Prim.Native.Nat.{
  ℕ, zero, suc, ◌+◌, ◌-◌, ◌*◌, ◌/◌, ◌%◌, ◌^◌, ◌≤◌, ◌<◌, max, min, bit_and, bit_or, digits,
  bit_and-bitwise, bit_or-bitwise,
}
use mathlib.Core.Path.{◌≡◌, refl, ap, ◌∙◌}
use native.Mathlib.Nat.{div-add-mod, mod-lt, mod-eq_of_lt, mul-add-mod_self_left, zero-add, suc-add}
use native.Mathlib.Omega.{arith}

-- 2^64, the modulus of `u64`.
abbrev pub u64_mod : ℕ
u64_mod = 2 ^ 64

-- Each operation by digits, with the fuel of the native definition as an argument.
abbrev or_digits : ℕ → ℕ → ℕ → ℕ
or_digits n a b = digits (λ c. c) max n a b

abbrev and_digits : ℕ → ℕ → ℕ → ℕ
and_digits n a b = digits (λ c. zero) min n a b

or_digits-fuel : (n m a b : ℕ) → a ≤ n → a ≤ m → or_digits n a b ≡ or_digits m a b
or_digits-fuel zero zero a b p q = refl
or_digits-fuel zero (suc m) zero b p q = refl
or_digits-fuel zero (suc m) (suc a) b p q = absurd (omega arith)
or_digits-fuel (suc n) zero zero b p q = refl
or_digits-fuel (suc n) zero (suc a) b p q = absurd (omega arith)
or_digits-fuel (suc n) (suc m) zero b p q = refl
or_digits-fuel (suc n) (suc m) (suc a) b p q =
    omega (arith, or_digits-fuel n m (suc a / 2) (b / 2) (omega arith) (omega arith))

and_digits-fuel : (n m a b : ℕ) → a ≤ n → a ≤ m → and_digits n a b ≡ and_digits m a b
and_digits-fuel zero zero a b p q = refl
and_digits-fuel zero (suc m) zero b p q = refl
and_digits-fuel zero (suc m) (suc a) b p q = absurd (omega arith)
and_digits-fuel (suc n) zero zero b p q = refl
and_digits-fuel (suc n) zero (suc a) b p q = absurd (omega arith)
and_digits-fuel (suc n) (suc m) zero b p q = refl
and_digits-fuel (suc n) (suc m) (suc a) b p q =
    omega (arith, and_digits-fuel n m (suc a / 2) (b / 2) (omega arith) (omega arith))

pub bit_or-zero_left : (b : ℕ) → bit_or 0 b ≡ b
bit_or-zero_left b = bit_or-bitwise 0 b

bit_and-zero_left : (b : ℕ) → bit_and 0 b ≡ 0
bit_and-zero_left b = bit_and-bitwise 0 b

-- The law of the lowest digit.
pub bit_or_step : (a b : ℕ) → bit_or a b ≡ bit_or (a / 2) (b / 2) * 2 + max (a % 2) (b % 2)
bit_or_step zero b = omega (arith, bit_or-zero_left b, bit_or-zero_left (b / 2))
bit_or_step (suc a) b = omega (
  arith,
  bit_or-bitwise (suc a) b,
  bit_or-bitwise (suc a / 2) (b / 2),
  or_digits-fuel a (suc a / 2) (suc a / 2) (b / 2) (omega arith) (omega arith),
)

pub bit_and_step : (a b : ℕ) → bit_and a b ≡ min (a % 2) (b % 2) + 2 * bit_and (a / 2) (b / 2)
bit_and_step zero b = omega (arith, bit_and-zero_left b, bit_and-zero_left (b / 2))
bit_and_step (suc a) b = omega (
  arith,
  bit_and-bitwise (suc a) b,
  bit_and-bitwise (suc a / 2) (b / 2),
  and_digits-fuel a (suc a / 2) (suc a / 2) (b / 2) (omega arith) (omega arith),
)

bit_or-zero_below : (n a : ℕ) → a ≤ n → bit_or a 0 ≡ a
bit_or-zero_below n zero h = refl
bit_or-zero_below zero (suc a) h = absurd (omega arith)
bit_or-zero_below (suc n) (suc a) h =
    omega (arith, bit_or_step (suc a) 0, bit_or-zero_below n (suc a / 2) (omega arith))

bit_and-zero_below : (n a : ℕ) → a ≤ n → bit_and a 0 ≡ 0
bit_and-zero_below n zero h = refl
bit_and-zero_below zero (suc a) h = absurd (omega arith)
bit_and-zero_below (suc n) (suc a) h =
    omega (arith, bit_and_step (suc a) 0, bit_and-zero_below n (suc a / 2) (omega arith))

-- 2^k, by doubling: `omega` reads its clauses.
unfoldable pub pow2 : ℕ → ℕ
pow2 zero = 1
pow2 (suc k) = 2 * pow2 k

pub pow2-pos : (k : ℕ) → 0 < pow2 k
unfolding pow2
pow2-pos zero = omega arith
pow2-pos (suc k) = omega (arith, pow2-pos k)

-- A shifted word and a field below the shift have no bit in common.
pub bit_or-shifted : (k a b : ℕ) → b < pow2 k → bit_or (a * pow2 k) b ≡ a * pow2 k + b
unfolding pow2
bit_or-shifted zero a b h =
    let e : b ≡ 0 = omega arith in
    rw e (omega (arith, bit_or-zero_below (a * 1) (a * 1) (omega arith)))
bit_or-shifted (suc k) a b h =
    omega
      (arith, bit_or_step (a * (2 * pow2 k)) b, halves, bit_or-shifted k a (b / 2) (omega arith))
  where
    half : a * (2 * pow2 k) / 2 ≡ a * pow2 k
    half = omega arith

    halves : bit_or (a * (2 * pow2 k) / 2) (b / 2) ≡ bit_or (a * pow2 k) (b / 2)
    halves = rw half refl

-- A mask of k ones keeps the remainder by 2^k.
pub bit_and_mask : (k a : ℕ) → bit_and a (pow2 k - 1) ≡ a % pow2 k
unfolding pow2
bit_and_mask zero a = omega (arith, bit_and-zero_below a a (omega arith))
bit_and_mask (suc k) a =
    omega (arith, bit_and_step a (2 * pow2 k - 1), halves, bit_and_mask k (a / 2), pow2-pos k, rest)
  where
    half : (2 * pow2 k - 1) / 2 ≡ pow2 k - 1
    half = omega (arith, pow2-pos k)

    halves : bit_and (a / 2) ((2 * pow2 k - 1) / 2) ≡ bit_and (a / 2) (pow2 k - 1)
    halves = rw half refl

    low : a / 2 % pow2 k < pow2 k
    low = mod-lt (a / 2) (pow2-pos k)

    parts : a ≡ 2 * pow2 k * (a / 2 / pow2 k) + (2 * (a / 2 % pow2 k) + a % 2)
    parts = omega (arith, div-add-mod (a / 2) (pow2 k))

    rest : a % (2 * pow2 k) ≡ 2 * (a / 2 % pow2 k) + a % 2
    rest =
        ap (λ t. t % (2 * pow2 k)) parts
        ∙ mul-add-mod_self_left (2 * pow2 k) (a / 2 / pow2 k) (2 * (a / 2 % pow2 k) + a % 2)
        ∙ mod-eq_of_lt (omega (arith, low))

pub pow2-add : (j k : ℕ) → pow2 (j + k) ≡ pow2 j * pow2 k
unfolding pow2
pow2-add zero k = omega (arith, ap pow2 (zero-add k))
pow2-add (suc j) k = omega (arith, ap pow2 (suc-add j k), pow2-add j k)

pub pow2-le : (j k : ℕ) → j ≤ k → pow2 j ≤ pow2 k
pow2-le j k h =
    let e : k ≡ (k - j) + j = omega arith in
    rw (ap pow2 e ∙ pow2-add (k - j) j) (grind (arith, pow2-pos (k - j)))
