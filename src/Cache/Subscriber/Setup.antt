-- ===== src/Cache/Subscriber/Setup.antt =====
-- A cache as `with_predicate_and_config` of tracing-cache/src/cache.rs makes it.
use native.Mathlib.Nat.{div-le_of_le-mul}
use tracing_console.Base.{ℕ, ◌+◌, ◌-◌, ◌/◌, ◌≤◌, refl, All-replicate, length-replicate, arith}
use tracing_console.Base.Words.{pow2, pow2-le}
use tracing_console.Cache.Ids.{CacheConfig, geometry, lane_count_of}
use tracing_console.Cache.Ids.Laws.{lane_count_of_least, bits_bounds}
use tracing_console.Cache.Record.{SpanRecord}
use tracing_console.Cache.Driver.{Channel, EventMessage}
use tracing_console.Cache.Slab.{Slab}
use tracing_console.Cache.Subscriber.{new_cache}
use tracing_console.Cache.Subscriber.Invariant.{IsCache, IsLane}

module _ {Meta : Type 0} (sl : Slab (SpanRecord Meta)) (cs : Channel (SpanRecord Meta))
    (ce : Channel (EventMessage Meta)) where
  shift-ge : (lanes : ℕ) → 56 ≤ (geometry lanes).shard_shift
  unfolding geometry
  shift-ge lanes = omega (arith, (bits_bounds lanes).1)

  capacity-le : (capacity lanes : ℕ) → 1 ≤ lanes → (capacity + lanes - 1) / lanes ≤ capacity + 1
  capacity-le capacity lanes h = div-le_of_le-mul lanes (grind arith)

  -- A new cache, of a capacity below 2^56 - 2 and of any requested lane count, is well formed.
  pub new_cache-IsCache :
      (capacity : ℕ) (config : CacheConfig) (span_sender : cs.Sender) (event_sender : ce.Sender)
      → capacity + 3 ≤ pow2 56
      → IsCache sl cs ce (new_cache sl cs ce capacity config span_sender event_sender)
  unfolding new_cache
  new_cache-IsCache capacity config span_sender event_sender small = record {
    requested = config.lane_count;
    geom_eq = refl;
    lanes_eq = length-replicate (lane_count_of config.lane_count) _;
    fits = omega (
      arith,
      capacity-le capacity (lane_count_of config.lane_count)
          (lane_count_of_least config.lane_count).1,
      pow2-le 56 (geometry config.lane_count).shard_shift (shift-ge config.lane_count),
    );
    lanes_ok = All-replicate (IsLane sl cs ce _) (lane_count_of config.lane_count) _ (record {
      sized = length-replicate _ 0;
      slots_le = omega (arith, sl.len-empty);
      len_le = omega (arith, sl.len-empty);
      mirrored = λ k rec filled. ground (arith, sl.get-empty k);
    });
  }
