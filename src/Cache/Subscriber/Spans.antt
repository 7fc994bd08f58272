-- ===== src/Cache/Subscriber/Spans.antt =====
-- The life of a span in tracing-cache/src/cache.rs: opened, addressed by its identifier, closed once.
use tracing_console.Base.{
  ◌∙◌, ◌&&◌, ℕ, ◌≤◌, ◌<◌, ◌≡◌, ◌≢◌, refl, ap, true, false, Option, none, some, leb, ◌==◌, length,
  get_elem?, set, All-get_elem?, get_elem?_of_lt, get_elem?-set_self, lt_of_get_elem?, leb→le,
  arith, Bool-cases, inl, inr, ◌⊎◌,
}
use tracing_console.Cache.Ids.{encode_tracing_id, decode_tracing_id, disabled}
use tracing_console.Cache.Ids.Laws.{decode-encode}
use tracing_console.Cache.Record.{SpanRecord}
use tracing_console.Cache.Predicate.{Attributes, EnabledPredicate}
use tracing_console.Cache.Driver.{Channel, EventMessage}
use tracing_console.Cache.Slab.{Slab}
use tracing_console.Cache.Subscriber.{
  ShardLane, SpanCache, State, resolved, resolve_parent, load_actual_id, actual_id_for,
  insert_record, open_record, admit, new_span, pick_shard, allocate_actual_id,
}
use tracing_console.Cache.Subscriber.Invariant.{
  IsLane, IsCache, slot_of, set-IsCache, slot_of-set, insert-IsLane, SameLanes, SameLanes-IsCache,
  allocate_actual_id-SameLanes, pick_shard-SameLanes, pick_shard-lt,
}

module _ {Meta : Type 0} (sl : Slab (SpanRecord Meta)) (cs : Channel (SpanRecord Meta))
    (ce : Channel (EventMessage Meta)) where
  -- What a span opened in a lane looks like afterwards: its identifier addresses its record and its
  -- id, and no other slot has changed.
  pub record Opened (rec : SpanRecord Meta) (shard tracing_id : ℕ)
      (before after : SpanCache sl cs ce) : Type 0 where
    pub slab_idx : ℕ
    pub decoded : decode_tracing_id after.geom tracing_id ≡ some (shard, slab_idx)
    pub not_disabled : tracing_id ≢ disabled
    pub stored : slot_of sl cs ce after shard slab_idx ≡ some rec
    pub published : actual_id_for sl cs ce after tracing_id ≡ some (some rec.id)
    pub was_vacant : slot_of sl cs ce before shard slab_idx ≡ none
    pub others :
        (i k : ℕ)
        → (i == shard && k == slab_idx) ≡ false
        → slot_of sl cs ce after i k ≡ slot_of sl cs ce before i k

  module _ (rec : SpanRecord Meta) (shard : ℕ) (s : State sl cs ce) (v : IsCache sl cs ce s.cache)
      (lane : ShardLane sl cs ce) (here : get_elem? s.cache.in_flight shard ≡ some lane) where
    found-IsLane : IsLane sl cs ce s.cache.shard_capacity lane
    found-IsLane =
        All-get_elem? (IsLane sl cs ce s.cache.shard_capacity) s.cache.in_flight shard lane
          v.lanes_ok here

    abbrev slot : ℕ
    slot = (sl.insert lane.slab rec).0

    abbrev lane' : ShardLane sl cs ce
    lane' = record {
      slab = (sl.insert lane.slab rec).1;
      actual_ids = set lane.actual_ids slot rec.id;
    }

    abbrev cache' : SpanCache sl cs ce
    cache' = record s.cache { in_flight = set s.cache.in_flight shard lane' }

    module _ (room : sl.len lane.slab < s.cache.shard_capacity) where
      slot-lt : slot < s.cache.shard_capacity
      slot-lt = omega (arith, sl.insert_key lane.slab rec, found-IsLane.slots_le)

      decoded_slot :
          decode_tracing_id s.cache.geom (encode_tracing_id s.cache.geom shard slot)
          ≡ some (shard, slot)
      decoded_slot =
          rw v.geom_eq
            (decode-encode v.requested shard slot
              (omega (arith, lt_of_get_elem? s.cache.in_flight shard lane here, v.lanes_eq))
              (omega (arith, slot-lt, v.fits))).0

      enabled_slot : encode_tracing_id s.cache.geom shard slot ≢ disabled
      enabled_slot =
          rw v.geom_eq
            (decode-encode v.requested shard slot
              (omega (arith, lt_of_get_elem? s.cache.in_flight shard lane here, v.lanes_eq))
              (omega (arith, slot-lt, v.fits))).2

      loaded : load_actual_id sl cs ce cache' shard slot ≡ some rec.id
      unfolding load_actual_id
      loaded = ground (
        arith,
        get_elem?-set_self s.cache.in_flight shard lane',
        lt_of_get_elem? s.cache.in_flight shard lane here,
        get_elem?-set_self lane.actual_ids slot rec.id,
        slot-lt,
        found-IsLane.sized,
      )

      insert_record-Opened :
          (insert_record sl cs ce rec shard s
            ≡ some (encode_tracing_id s.cache.geom shard slot, record s { cache = cache' }))
          × Opened rec shard (encode_tracing_id s.cache.geom shard slot) s.cache cache'
          × IsCache sl cs ce cache'
      unfolding insert_record actual_id_for
      insert_record-Opened = (
        ground (arith, slot-lt, found-IsLane.sized),
        record {
          slab_idx = slot;
          decoded = decoded_slot;
          not_disabled = enabled_slot;
          stored = ground (
            arith,
            slot_of-set sl cs ce s.cache shard lane' lane shard slot here,
            sl.get-insert lane.slab rec slot,
          );
          published = rw (decoded_slot, actual_id_for, loaded) refl;
          was_vacant = ground (arith, sl.insert_vacant lane.slab rec);
          others = λ i k ne. ground (
            arith,
            slot_of-set sl cs ce s.cache shard lane' lane i k here,
            sl.get-insert lane.slab rec k,
          );
        },
        set-IsCache sl cs ce s.cache shard lane' v
            (insert-IsLane sl cs ce s.cache.shard_capacity lane rec found-IsLane room),
      )

    insert_record_full :
        s.cache.shard_capacity ≤ sl.len lane.slab
        → insert_record sl cs ce rec shard s ≡ some (disabled, s)
    unfolding insert_record
    insert_record_full full = ground arith

  module _ (attrs : Attributes Meta) (parent_id : Option ℕ) (now : ℕ) (s : State sl cs ce)
      (v : IsCache sl cs ce s.cache) where
    -- The state after the id and the lane are chosen, and the record that is built.
    abbrev pub allocated : State sl cs ce
    allocated = (allocate_actual_id sl cs ce s).1

    abbrev pub chosen : State sl cs ce
    chosen = (pick_shard sl cs ce allocated).1

    abbrev pub built : SpanRecord Meta
    built = open_record sl cs ce attrs parent_id now (allocate_actual_id sl cs ce s).0

    abbrev pub lane_of : ℕ
    lane_of = (pick_shard sl cs ce allocated).0

    allocated-IsCache : IsCache sl cs ce allocated.cache
    allocated-IsCache = SameLanes-IsCache sl cs ce (allocate_actual_id-SameLanes sl cs ce s) v

    chosen-IsCache : IsCache sl cs ce chosen.cache
    chosen-IsCache =
        SameLanes-IsCache sl cs ce (pick_shard-SameLanes sl cs ce allocated) allocated-IsCache

    -- The choice of the id and of the lane leaves the lanes alone.
    chosen-SameLanes : SameLanes sl cs ce s.cache chosen.cache
    chosen-SameLanes =
        let first = allocate_actual_id-SameLanes sl cs ce s in
        let next = pick_shard-SameLanes sl cs ce allocated in
        record {
          in_flight_eq = next.in_flight_eq ∙ first.in_flight_eq;
          geom_same = next.geom_same ∙ first.geom_same;
          capacity_eq = next.capacity_eq ∙ first.capacity_eq;
        }

    lane_of-lt : lane_of < length chosen.cache.in_flight
    lane_of-lt = omega (
      arith,
      pick_shard-lt sl cs ce allocated allocated-IsCache,
      ap (length {0}) (pick_shard-SameLanes sl cs ce allocated).in_flight_eq,
    )

    -- The lane of the thread holds as many spans as it may.
    abbrev pub LaneIsFull : Type 0
    LaneIsFull =
        (lane : ShardLane sl cs ce) × (get_elem? chosen.cache.in_flight lane_of ≡ some lane)
        × (chosen.cache.shard_capacity ≤ sl.len lane.slab)

    -- Admitting a span never panics on a well-formed cache: it opens the span in the thread's lane, or,
    -- when that lane is full, refuses it and leaves every lane as it was.
    admit_cases :
        (LaneIsFull × (admit sl cs ce attrs parent_id now s ≡ some (disabled, chosen)))
        ⊎ ((tracing_id : ℕ) × (cache' : SpanCache sl cs ce) × (admit sl cs ce attrs parent_id now s
              ≡ some (tracing_id, record chosen { cache = cache' }))
            × Opened built lane_of tracing_id chosen.cache cache'
            × IsCache sl cs ce cache')
    unfolding admit
    admit_cases =
        let (lane, here) = get_elem?_of_lt chosen.cache.in_flight lane_of lane_of-lt in
        elim (Bool-cases (leb chosen.cache.shard_capacity (sl.len lane.slab))) [
          | inl full ↦
              let over = leb→le chosen.cache.shard_capacity (sl.len lane.slab) full in
              inl (
                (lane, here, over),
                insert_record_full built lane_of chosen chosen-IsCache lane here over,
              )
          | inr room ↦
              let (result, opened, kept) =
                insert_record-Opened built lane_of chosen chosen-IsCache lane here (ground arith) in
              inr (_, _, result, opened, kept)
        ]

    -- A span whose parent is resolved and which its predicate admits: `new_span` never panics on a
    -- well-formed cache. It opens the span, and its identifier then addresses the new record and the
    -- record's id while no other open span has changed; or the thread's lane holds as many spans as its
    -- capacity, and the span is disabled and no lane changes. The cache stays well formed.
    pub new_span_opens :
        {Filter : Type 0} (p : EnabledPredicate Filter Meta)
        → resolve_parent sl cs ce attrs s ≡ resolved parent_id
        → p.new_span_enabled attrs ≡ true
        → SameLanes sl cs ce s.cache chosen.cache
          × ((LaneIsFull
                × (new_span sl cs ce p attrs now s ≡ some (disabled, chosen))
                × IsCache sl cs ce chosen.cache)
              ⊎ ((tracing_id : ℕ) × (cache' : SpanCache sl cs ce) × (new_span sl cs ce p attrs now s
                    ≡ some (tracing_id, record chosen { cache = cache' }))
                  × Opened built lane_of tracing_id chosen.cache cache'
                  × IsCache sl cs ce cache'))
    unfolding new_span
    new_span_opens p parent_eq enabled = (
      chosen-SameLanes,
      elim admit_cases [
        | inl (full, refused) ↦
            inl (full, rw (parent_eq, new_span, enabled) refused, chosen-IsCache)
        | inr (tracing_id, cache', result, opened, kept) ↦
            inr (tracing_id, cache', rw (parent_eq, new_span, enabled) result, opened, kept)
      ],
    )
