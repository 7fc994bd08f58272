-- ===== src/Tests/Ids.antt =====
-- Examples of the identifiers.
use tracing_console.Base.{◌+◌, ◌<◌, ◌≡◌, ◌≢◌, some, arith}
use tracing_console.Base.Words.{pow2, u64_mod}
use tracing_console.Cache.Ids.{
  geometry, lane_count_of, shard_bits, ceil_log2, encode_tracing_id, decode_tracing_id, disabled,
}
use tracing_console.Cache.Ids.Laws.{decode-encode}

lane_valid : 3 < lane_count_of 12
unfolding lane_count_of shard_bits ceil_log2 pow2
lane_valid = omega arith

slot_fits : 40 + 2 < pow2 (geometry 12).shard_shift
unfolding geometry shard_bits ceil_log2 pow2
slot_fits = omega arith

decode-encode_example :
    (decode_tracing_id (geometry 12) (encode_tracing_id (geometry 12) 3 40) ≡ some (3, 40))
    × (encode_tracing_id (geometry 12) 3 40 ≢ 0)
    × (encode_tracing_id (geometry 12) 3 40 ≢ disabled)
    × (encode_tracing_id (geometry 12) 3 40 < u64_mod)
decode-encode_example = decode-encode 12 3 40 lane_valid slot_fits
