-- ===== src/Cache/Subscriber/Invariant.antt =====
-- The invariant of the cache of tracing-cache/src/cache.rs, and that the operations keep it.
use Prim.Native.Nat.{bit_and}
use native.Mathlib.Nat.{mod-lt}
use tracing_console.Base.{
  ℕ, ◌+◌, ◌≤◌, ◌<◌, ◌≡◌, refl, ◌∙◌, ap, Option, none, some, if◌then◌else◌, ◌==◌, length, get_elem?,
  set, All, All-set, length-set, get_elem?-set_self, get_elem?-set_ne, lt_of_get_elem?, arith,
}
use tracing_console.Base.Words.{pow2, pow2-pos, bit_and_mask}
use tracing_console.Cache.Ids.{geometry, lane_count_of, shard_bits}
use tracing_console.Cache.Record.{SpanRecord}
use tracing_console.Cache.Driver.{Channel, EventMessage}
use tracing_console.Cache.Slab.{Slab}
use tracing_console.Cache.Subscriber.{
  ShardLane, SpanCache, State, flush_events, flush_spans, flush_pending, ensure_thread_shard_key,
  pick_shard, allocate_actual_id,
}

module _ {Meta : Type 0} (sl : Slab (SpanRecord Meta)) (cs : Channel (SpanRecord Meta))
    (ce : Channel (EventMessage Meta)) where
  -- A lane stays within its capacity, which is the size of its sidecar, and the sidecar holds the id of
  -- each open span.
  pub record IsLane (capacity : ℕ) (lane : ShardLane sl cs ce) : Type 0 where
    pub sized : length lane.actual_ids ≡ capacity
    pub slots_le : sl.slots lane.slab ≤ capacity
    pub len_le : sl.len lane.slab ≤ capacity
    pub mirrored :
        (k : ℕ) (rec : SpanRecord Meta)
        → sl.get lane.slab k ≡ some rec
        → get_elem? lane.actual_ids k ≡ some rec.id

  -- The lanes match the identifiers' geometry, and a slot number fits its field.
  pub record IsCache (c : SpanCache sl cs ce) : Type 0 where
    pub requested : ℕ
    pub geom_eq : c.geom ≡ geometry requested
    pub lanes_eq : length c.in_flight ≡ lane_count_of requested
    pub fits : c.shard_capacity + 2 ≤ pow2 (geometry requested).shard_shift
    pub lanes_ok : All (IsLane c.shard_capacity) c.in_flight

  -- The open span in a slot of a lane.
  abbrev pub slot_of : SpanCache sl cs ce → ℕ → ℕ → Option (SpanRecord Meta)
  slot_of c shard slab_idx = elim (get_elem? c.in_flight shard) [
    | none ↦ none
    | some lane ↦ sl.get lane.slab slab_idx
  ]

  -- A lane replaced by a well-formed one.
  pub set-IsCache :
      (c : SpanCache sl cs ce) (shard : ℕ) (lane : ShardLane sl cs ce)
      → IsCache c
      → IsLane c.shard_capacity lane
      → IsCache (record c { in_flight = set c.in_flight shard lane })
  set-IsCache c shard lane v h = record {
    requested = v.requested;
    geom_eq = v.geom_eq;
    lanes_eq = length-set c.in_flight shard lane ∙ v.lanes_eq;
    fits = v.fits;
    lanes_ok = All-set (IsLane c.shard_capacity) c.in_flight shard lane v.lanes_ok h;
  }

  pub slot_of-set :
      (c : SpanCache sl cs ce) (shard : ℕ) (lane old : ShardLane sl cs ce) (i k : ℕ)
      → get_elem? c.in_flight shard ≡ some old
      → slot_of (record c { in_flight = set c.in_flight shard lane }) i k
        ≡ (if shard == i then sl.get lane.slab k else slot_of c i k)
  slot_of-set c shard lane old i k e = ground (
    arith,
    get_elem?-set_self c.in_flight shard lane,
    get_elem?-set_ne c.in_flight shard i lane,
    lt_of_get_elem? c.in_flight shard old e,
  )

  pub insert-IsLane :
      (capacity : ℕ) (lane : ShardLane sl cs ce) (rec : SpanRecord Meta)
      → IsLane capacity lane
      → sl.len lane.slab < capacity
      → IsLane capacity (record {
        slab = (sl.insert lane.slab rec).1;
        actual_ids = set lane.actual_ids (sl.insert lane.slab rec).0 rec.id;
      })
  insert-IsLane capacity lane rec v room = record {
    sized = length-set lane.actual_ids (sl.insert lane.slab rec).0 rec.id ∙ v.sized;
    slots_le = omega (arith, sl.insert_slots lane.slab rec, v.slots_le);
    len_le = omega (arith, sl.len-insert lane.slab rec);
    mirrored = λ k other filled. ground (
      arith,
      v.sized,
      v.slots_le,
      sl.insert_key lane.slab rec,
      sl.get-insert lane.slab rec k,
      v.mirrored k other,
      get_elem?-set_self lane.actual_ids (sl.insert lane.slab rec).0 rec.id,
      get_elem?-set_ne lane.actual_ids (sl.insert lane.slab rec).0 k rec.id,
    );
  }

  -- Two caches with the same lanes and the same geometry.
  pub record SameLanes (a b : SpanCache sl cs ce) : Type 0 where
    pub in_flight_eq : b.in_flight ≡ a.in_flight
    pub geom_same : b.geom ≡ a.geom
    pub capacity_eq : b.shard_capacity ≡ a.shard_capacity

  pub SameLanes-IsCache : {a b : SpanCache sl cs ce} → SameLanes a b → IsCache a → IsCache b
  SameLanes-IsCache {a} {b} h v = record {
    requested = v.requested;
    geom_eq = h.geom_same ∙ v.geom_eq;
    lanes_eq = ap length h.in_flight_eq ∙ v.lanes_eq;
    fits = rw h.capacity_eq v.fits;
    lanes_ok = rw (h.capacity_eq, h.in_flight_eq) v.lanes_ok;
  }

  pub slot_of_same :
      {a b : SpanCache sl cs ce} (i k : ℕ) → SameLanes a b → slot_of b i k ≡ slot_of a i k
  slot_of_same i k h = rw h.in_flight_eq refl

  pub allocate_actual_id-SameLanes :
      (s : State sl cs ce) → SameLanes s.cache (allocate_actual_id sl cs ce s).1.cache
  unfolding allocate_actual_id
  allocate_actual_id-SameLanes s = ground arith

  pub pick_shard-SameLanes :
      (s : State sl cs ce) → SameLanes s.cache (pick_shard sl cs ce s).1.cache
  unfolding pick_shard ensure_thread_shard_key
  pick_shard-SameLanes s = ground arith

  pub flush_pending-SameLanes :
      (s : State sl cs ce) → SameLanes s.cache (flush_pending sl cs ce s).cache
  unfolding flush_pending flush_events flush_spans
  flush_pending-SameLanes s = ground arith

  mask-lt :
      (c : SpanCache sl cs ce) (key : ℕ)
      → IsCache c
      → bit_and key c.geom.shard_mask < length c.in_flight
  mask-lt c key v =
      rw (v.geom_eq, v.lanes_eq)
        (unfold geometry lane_count_of in
          rw (bit_and_mask (shard_bits v.requested) key)
            (mod-lt key (pow2-pos (shard_bits v.requested))))

  -- A thread's key always picks one of the lanes.
  pub pick_shard-lt :
      (s : State sl cs ce) → IsCache s.cache → (pick_shard sl cs ce s).0 < length s.cache.in_flight
  unfolding pick_shard
  pick_shard-lt s v = omega (
    arith,
    ap (length {0}) (pick_shard-SameLanes s).in_flight_eq,
    mask-lt (pick_shard sl cs ce s).1.cache (ensure_thread_shard_key sl cs ce s).0
        (SameLanes-IsCache (pick_shard-SameLanes s) v),
  )
