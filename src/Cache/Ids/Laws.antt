-- ===== src/Cache/Ids/Laws.antt =====
-- What the identifiers of tracing-cache/src/id_encoding.rs promise.
use Prim.Native.Nat.{bit_and}
use native.Mathlib.Nat.{
  mod-eq_of_lt, mul-add-mod_self_right, mul-add-div_right, div-eq_of_lt, zero-add, suc-add, add-suc,
}
use tracing_console.Base.{
  ℕ, zero, suc, ◌+◌, ◌-◌, ◌*◌, ◌/◌, ◌%◌, ◌≤◌, ◌<◌, min, max, ◌≡◌, ◌≢◌, sym, ◌∙◌, some, leb, ◌==◌,
  arith, Bool-cases, inl, inr, leb→le,
}
use tracing_console.Base.Words.{
  pow2, pow2-pos, pow2-le, pow2-add, u64_mod, bit_or-shifted, bit_and_mask,
}
use tracing_console.Cache.Ids.{
  geometry, ceil_log2, shard_bits, lane_count_of, encode_tracing_id, decode_tracing_id, disabled,
}

-- The search ends at an exponent that is large enough, and no lower one is.
ceil_log2_bounds :
    (fuel k n : ℕ)
    → n ≤ pow2 (fuel + k)
    → (n ≤ pow2 (ceil_log2 fuel k n))
      × (k ≤ ceil_log2 fuel k n)
      × (ceil_log2 fuel k n ≤ fuel + k)
      × ((j : ℕ) → k ≤ j → j < ceil_log2 fuel k n → pow2 j < n)
unfolding ceil_log2
ceil_log2_bounds zero k n h =
    (rw zero-add at h, omega arith, omega arith, λ j a b. absurd (omega arith))
ceil_log2_bounds (suc fuel) k n h = elim (Bool-cases (leb n (pow2 k))) [
  | inl small ↦ rw small (leb→le _ _ small, omega arith, omega arith, λ j a b. absurd (omega arith))
  | inr large ↦
      let (enough, low, high, least) =
        ceil_log2_bounds fuel (suc k) n (rw (suc-add fuel k ∙ sym (add-suc fuel k)) at h) in
      rw large (
        enough,
        omega arith,
        omega arith,
        λ j a b. elim (Bool-cases (j == k)) [
          | inl e ↦ let e' : j ≡ k = ground arith in rw e' (ground arith)
          | inr e ↦ least j (ground arith) b
        ],
      )
]

pub bits_bounds :
    (lanes : ℕ)
    → (max 1 (min 256 lanes) ≤ pow2 (shard_bits lanes))
      × (shard_bits lanes ≤ 8)
      × ((j : ℕ) → j < shard_bits lanes → pow2 j < max 1 (min 256 lanes))
unfolding shard_bits
bits_bounds lanes =
    let (enough, _, high, least) =
      ceil_log2_bounds 8 0 (max 1 (min 256 lanes)) (unfold pow2 in omega arith) in
    (enough, high, λ j b. least j (omega arith) b)

-- The lane count is the least power of two that is not below the requested count, once that is
-- clamped to 1 to 256; so it lies in that range itself.
pub lane_count_of_least :
    (lanes : ℕ)
    → (max 1 (min 256 lanes) ≤ lane_count_of lanes)
      × (1 ≤ lane_count_of lanes)
      × (lane_count_of lanes ≤ 256)
      × ((j : ℕ) → pow2 j < lane_count_of lanes → pow2 j < max 1 (min 256 lanes))
unfolding lane_count_of pow2
lane_count_of_least lanes =
    let (enough, high, least) = bits_bounds lanes in
    (
      enough,
      pow2-pos (shard_bits lanes),
      pow2-le (shard_bits lanes) 8 high,
      λ j b. elim (Bool-cases (leb (shard_bits lanes) j)) [
        | inl over ↦ absurd (omega (arith, pow2-le (shard_bits lanes) j (leb→le _ _ over)))
        | inr below ↦ least j (ground arith)
      ],
    )

-- The shard field and the slot field fill at most the 64 bits.
geometry_fits : (lanes : ℕ) → lane_count_of lanes * pow2 (geometry lanes).shard_shift ≤ u64_mod
unfolding geometry lane_count_of pow2
geometry_fits lanes =
    rw (← pow2-add (shard_bits lanes) (64 - max (shard_bits lanes) 1))
      (pow2-le _ 64 (omega (arith, (bits_bounds lanes).1)))

-- The number of values that the slot field can hold.
abbrev slots : ℕ → ℕ
slots lanes = pow2 (geometry lanes).shard_shift

module _ (lanes shard slab_idx : ℕ) (valid : shard < lane_count_of lanes)
    (fits : slab_idx + 2 < pow2 (geometry lanes).shard_shift) where
  shard_room : shard * slots lanes + slots lanes ≤ u64_mod
  shard_room = grind (arith, geometry_fits lanes)

  high_word : shard * slots lanes % u64_mod ≡ shard * slots lanes
  high_word = mod-eq_of_lt (omega (arith, shard_room, pow2-pos (geometry lanes).shard_shift))

  low_word : (slab_idx + 2) % u64_mod ≡ slab_idx + 2
  low_word = mod-eq_of_lt (omega (arith, shard_room))

  -- The two fields side by side.
  encode-eq-sum :
      encode_tracing_id (geometry lanes) shard slab_idx ≡ shard * slots lanes + (slab_idx + 2)
  unfolding encode_tracing_id
  encode-eq-sum =
      rw (high_word, low_word)
        (bit_or-shifted (geometry lanes).shard_shift shard (slab_idx + 2) fits)

  raw_field : bit_and (shard * slots lanes + (slab_idx + 2)) (slots lanes - 1) ≡ slab_idx + 2
  raw_field =
      bit_and_mask (geometry lanes).shard_shift (shard * slots lanes + (slab_idx + 2))
      ∙ mul-add-mod_self_right shard (slots lanes) (slab_idx + 2)
      ∙ mod-eq_of_lt fits

  quotient : (shard * slots lanes + (slab_idx + 2)) / slots lanes ≡ shard
  quotient = omega (
    arith,
    mul-add-div_right (pow2-pos (geometry lanes).shard_shift) shard (slab_idx + 2),
    div-eq_of_lt fits,
  )

  masked : bit_and shard (geometry lanes).shard_mask ≡ shard
  unfolding geometry lane_count_of
  masked = bit_and_mask (shard_bits lanes) shard ∙ mod-eq_of_lt valid

  -- For each lane count, an identifier made of a lane and of a slot that fits its field decodes to
  -- that lane and slot; it is a `u64`, and neither 0, which no identifier may be, nor the reserved one.
  pub decode-encode :
      (decode_tracing_id (geometry lanes) (encode_tracing_id (geometry lanes) shard slab_idx)
        ≡ some (shard, slab_idx))
      × (encode_tracing_id (geometry lanes) shard slab_idx ≢ 0)
      × (encode_tracing_id (geometry lanes) shard slab_idx ≢ disabled)
      × (encode_tracing_id (geometry lanes) shard slab_idx < u64_mod)
  unfolding decode_tracing_id
  decode-encode = rw encode-eq-sum (rw (quotient, raw_field, masked) (ground (arith, shard_room)))
