-- ===== src/Cache/Ids.antt =====
-- tracing-cache/src/id_encoding.rs, the identifier arithmetic of tracing-cache/src/cache.rs
-- (`encode_tracing_id`, `decode_tracing_id`, the lane count of `with_predicate_and_config`) and
-- tracing-cache/src/config.rs. An identifier is its `u64`; the geometry of a cache is the pair
-- `(shard_mask, shard_shift)` that the constructor computes from the lane count.
pub mod Laws
use Prim.Native.Nat.{bit_and, bit_or}
use tracing_console.Base.{
  ℕ, zero, suc, ◌+◌, ◌-◌, ◌*◌, ◌/◌, ◌%◌, min, max, Option, none, some, if◌then◌else◌, ltb, leb,
  ◌==◌,
}
use tracing_console.Base.Words.{pow2, u64_mod}

abbrev pub disabled : ℕ
disabled = 1

abbrev pub slab_offset : ℕ
slab_offset = 2

abbrev pub default_lane_count : ℕ
default_lane_count = 16

-- The knobs; the driver's batch size and interval are read by no code.
pub record CacheConfig : Type 0 where
  pub lane_count : ℕ
  pub pending_batch : ℕ
  pub driver_batch : ℕ
  pub driver_interval : ℕ
  pub channel_capacity : ℕ

-- The interval is in seconds.
unfoldable pub default_config : CacheConfig
default_config = record {
  lane_count = default_lane_count;
  pending_batch = 8;
  driver_batch = 600;
  driver_interval = 1;
  channel_capacity = 65536;
}

-- The least k with n ≤ 2^k, found from k up; the exponent of `next_power_of_two`, whose
-- `trailing_zeros` is k again. The fuel bounds k.
unfoldable pub ceil_log2 : ℕ → ℕ → ℕ → ℕ
ceil_log2 zero k n = k
ceil_log2 (suc fuel) k n = let rest = ceil_log2 fuel (suc k) n in if leb n (pow2 k) then k else rest

-- `lane_count.clamp(1, 256).next_power_of_two().trailing_zeros()`.
unfoldable pub shard_bits : ℕ → ℕ
shard_bits lanes = ceil_log2 8 0 (max 1 (min 256 lanes))

unfoldable pub lane_count_of : ℕ → ℕ
lane_count_of lanes = pow2 (shard_bits lanes)

pub record Geometry : Type 0 where
  pub shard_mask : ℕ
  pub shard_shift : ℕ

-- At least one bit is reserved, so that the shift is defined with a single lane.
unfoldable pub geometry : ℕ → Geometry
geometry lanes = record {
  shard_mask = lane_count_of lanes - 1;
  shard_shift = 64 - max (shard_bits lanes) 1;
}

-- `(shard << shift) | (slab_idx + SLAB_OFFSET)`, in 64 bits.
unfoldable pub encode_tracing_id : Geometry → ℕ → ℕ → ℕ
encode_tracing_id g shard slab_idx =
    bit_or (shard * pow2 g.shard_shift % u64_mod) ((slab_idx + slab_offset) % u64_mod)

unfoldable pub decode_tracing_id : Geometry → ℕ → Option (ℕ × ℕ)
decode_tracing_id g id =
    if id == disabled
    then none
    else (let raw = bit_and id (pow2 g.shard_shift - 1) in
        if ltb raw slab_offset
        then none
        else some (bit_and (id / pow2 g.shard_shift) g.shard_mask, raw - slab_offset))
