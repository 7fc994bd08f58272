-- ===== src/Cache/Subscriber/Close.antt =====
-- Closing a span in tracing-cache/src/cache.rs: once, and without touching another.
use tracing_console.Base.{
  ◌&&◌, ℕ, ◌+◌, ◌<◌, ◌≡◌, refl, ◌∙◌, ap, true, false, [], ◌∷◌, ◌++◌, none, some, if◌then◌else◌, leb,
  ◌==◌, length, length-append, get_elem?, set, All-get_elem?, get_elem?_of_lt, length-set,
  lt_of_get_elem?, arith, Bool-cases, Option-cases, inl, inr,
}
use tracing_console.Cache.Ids.{decode_tracing_id}
use tracing_console.Cache.Record.{SpanRecord}
use tracing_console.Cache.Driver.{Channel, EventMessage}
use tracing_console.Cache.Slab.{Slab}
use tracing_console.Cache.Subscriber.{ShardLane, SpanCache, State}
use tracing_console.Cache.Subscriber.Invariant.{
  IsLane, IsCache, slot_of, set-IsCache, slot_of-set, SameLanes, SameLanes-IsCache, slot_of_same,
  flush_pending-SameLanes,
}
use tracing_console.Cache.Subscriber.Ops.{put_slab, push_span, try_close}

module _ {Meta : Type 0} (sl : Slab (SpanRecord Meta)) (cs : Channel (SpanRecord Meta))
    (ce : Channel (EventMessage Meta)) where
  remove-IsLane :
      (capacity : ℕ) (lane : ShardLane sl cs ce) (i : ℕ) (rec : SpanRecord Meta) (slab : sl.Store)
      → IsLane sl cs ce capacity lane
      → sl.try_remove lane.slab i ≡ some (rec, slab)
      → IsLane sl cs ce capacity (record lane { slab = slab })
  remove-IsLane capacity lane i rec slab v removed = record {
    sized = v.sized;
    slots_le = omega (arith, sl.len-remove lane.slab i rec slab removed, v.slots_le);
    len_le = omega (arith, sl.len-remove lane.slab i rec slab removed, v.len_le);
    mirrored = λ k other filled.
        ground (arith, sl.get-remove lane.slab i rec slab k removed, v.mirrored k other);
  }

  -- The slots after a span is closed: its own is vacant, and the others have not changed.
  pub record Closed (shard slab_idx : ℕ) (before after : SpanCache sl cs ce) : Type 0 where
    pub vacated : slot_of sl cs ce after shard slab_idx ≡ none
    pub kept :
        (i k : ℕ)
        → (i == shard && k == slab_idx) ≡ false
        → slot_of sl cs ce after i k ≡ slot_of sl cs ce before i k

  push_span-SameLanes :
      (rec : SpanRecord Meta) (s : State sl cs ce)
      → SameLanes sl cs ce s.cache (push_span sl cs ce rec s).cache
  unfolding push_span
  push_span-SameLanes rec s =
      elim (Bool-cases (leb s.cache.pending_batch (length (s.thread.pending_span ++ rec ∷ [])))) [
        | inl flushes ↦
            rw (flushes, push_span)
              (flush_pending-SameLanes sl cs ce (record s {
                thread = record s.thread { pending_span = s.thread.pending_span ++ rec ∷ [] };
              }))
        | inr waits ↦
            rw (waits, push_span)
              (record { in_flight_eq = refl; geom_same = refl; capacity_eq = refl })
      ]

  push_span-pending :
      (rec : SpanRecord Meta) (s : State sl cs ce)
      → length s.thread.pending_span + 1 < s.cache.pending_batch
      → (push_span sl cs ce rec s).thread.pending_span ≡ s.thread.pending_span ++ rec ∷ []
  unfolding push_span
  push_span-pending rec s room = ground (arith, length-append s.thread.pending_span (rec ∷ []))

  try_close_vacant :
      (id now shard slab_idx : ℕ) (s : State sl cs ce)
      → decode_tracing_id s.cache.geom id ≡ some (shard, slab_idx)
      → shard < length s.cache.in_flight
      → slot_of sl cs ce s.cache shard slab_idx ≡ none
      → try_close sl cs ce id now s ≡ some (false, s)
  unfolding try_close
  try_close_vacant id now shard slab_idx s decodes valid vacant =
      let (lane, here) = get_elem?_of_lt s.cache.in_flight shard valid in
      let gone : sl.get lane.slab slab_idx ≡ none = ground arith in
      rw (decodes, try_close, here, sl.remove_vacant lane.slab slab_idx gone) refl

  module _ (id now shard slab_idx : ℕ) (rec : SpanRecord Meta) (s : State sl cs ce)
      (v : IsCache sl cs ce s.cache)
      (decodes : decode_tracing_id s.cache.geom id ≡ some (shard, slab_idx))
      (lane : ShardLane sl cs ce) (here : get_elem? s.cache.in_flight shard ≡ some lane)
      (slab : sl.Store) (removed : sl.try_remove lane.slab slab_idx ≡ some (rec, slab)) where
    abbrev lane' : ShardLane sl cs ce
    lane' = record lane { slab = slab }

    abbrev closing : State sl cs ce
    closing = record s { cache = record s.cache { in_flight = set s.cache.in_flight shard lane' } }

    abbrev after : State sl cs ce
    after = push_span sl cs ce (record rec { closed_at = some now }) closing

    same : SameLanes sl cs ce closing.cache after.cache
    same = push_span-SameLanes (record rec { closed_at = some now }) closing

    after-IsCache : IsCache sl cs ce after.cache
    after-IsCache = SameLanes-IsCache sl cs ce same (
        set-IsCache sl cs ce s.cache shard lane' v (
          remove-IsLane s.cache.shard_capacity lane slab_idx rec slab
            (All-get_elem? (IsLane sl cs ce s.cache.shard_capacity) s.cache.in_flight shard lane
              v.lanes_ok here)
            removed))

    slot_of-after :
        (i k : ℕ)
        → slot_of sl cs ce after.cache i k ≡ (
            if shard == i
            then (if slab_idx == k then none else sl.get lane.slab k)
            else slot_of sl cs ce s.cache i k)
    slot_of-after i k =
        slot_of_same sl cs ce i k same
        ∙ slot_of-set sl cs ce s.cache shard lane' lane i k here
        ∙ rw (sl.get-remove lane.slab slab_idx rec slab k removed) refl

    after-Closed : Closed shard slab_idx s.cache after.cache
    after-Closed = record {
      vacated = ground (arith, slot_of-after shard slab_idx);
      kept = λ i k ne. ground (arith, slot_of-after i k);
    }

    try_close-after : try_close sl cs ce id now s ≡ some (true, after)
    unfolding try_close put_slab
    try_close-after = rw (decodes, try_close, here, removed) refl

    close_again : (later : ℕ) → try_close sl cs ce id later after ≡ some (false, after)
    close_again later =
        try_close_vacant id later shard slab_idx after (rw same.geom_same decodes)
          (omega (
            arith,
            ap (length {0}) same.in_flight_eq,
            length-set s.cache.in_flight shard lane',
            lt_of_get_elem? s.cache.in_flight shard lane here,
          ))
          after-Closed.vacated

  pub lane_of_slot :
      (shard slab_idx : ℕ) (rec : SpanRecord Meta) (s : State sl cs ce)
      → slot_of sl cs ce s.cache shard slab_idx ≡ some rec
      → (lane : ShardLane sl cs ce) × (get_elem? s.cache.in_flight shard ≡ some lane)
        × (sl.get lane.slab slab_idx ≡ some rec)
  lane_of_slot shard slab_idx rec s e = elim (Option-cases (get_elem? s.cache.in_flight shard)) [
    | inl missing ↦ ground arith
    | inr (lane, here) ↦ (lane, here, ground arith)
  ]

  -- Closing the identifier of an open span on a well-formed cache never panics and reports true. It
  -- vacates the span's slot and no other, and keeps the cache well formed. While the thread's buffer
  -- is below its batch size the span, stamped with the time, is added at its end. A second close
  -- of the identifier reports false and changes nothing.
  pub try_close_closes :
      (id now shard slab_idx : ℕ) (rec : SpanRecord Meta) (s : State sl cs ce)
      → IsCache sl cs ce s.cache
      → decode_tracing_id s.cache.geom id ≡ some (shard, slab_idx)
      → slot_of sl cs ce s.cache shard slab_idx ≡ some rec
      → (s' : State sl cs ce) × (try_close sl cs ce id now s ≡ some (true, s'))
        × Closed shard slab_idx s.cache s'.cache
        × IsCache sl cs ce s'.cache
        × (length s.thread.pending_span + 1 < s.cache.pending_batch
            → s'.thread.pending_span
              ≡ s.thread.pending_span ++ record rec { closed_at = some now } ∷ [])
        × ((later : ℕ) → try_close sl cs ce id later s' ≡ some (false, s'))
  try_close_closes id now shard slab_idx rec s v decodes open_span =
      let (lane, here, filled) = lane_of_slot shard slab_idx rec s open_span in
      let (slab, removed) = sl.remove_filled lane.slab slab_idx rec filled in
      (
        after id now shard slab_idx rec s v decodes lane here slab removed,
        try_close-after id now shard slab_idx rec s v decodes lane here slab removed,
        after-Closed id now shard slab_idx rec s v decodes lane here slab removed,
        after-IsCache id now shard slab_idx rec s v decodes lane here slab removed,
        λ room. push_span-pending (record rec { closed_at = some now }) _ room,
        close_again id now shard slab_idx rec s v decodes lane here slab removed,
      )
