-- ===== src/Cache/Subscriber/Events.antt =====
-- Events, in tracing-cache/src/cache.rs: what an event adds to the thread's buffer.
use tracing_console.Base.{
  ℕ, ◌+◌, ◌<◌, ◌≤◌, leb, true, ◌≡◌, refl, ◌∙◌, Bool, List, [], ◌∷◌, ◌++◌, Option, some, length,
  length-append, arith,
}
use tracing_console.Base.Text.{Text}
use tracing_console.Cache.Record.{SpanRecord, EventRecord, Visited, default_event, record_fields}
use tracing_console.Cache.Pool.{shard_of}
use tracing_console.Cache.Pool.Laws.{IsPool, acquire-IsPool}
use tracing_console.Cache.Driver.{Channel, EventMessage}
use tracing_console.Cache.Slab.{Slab}
use tracing_console.Cache.Subscriber.{
  State, ensure_thread_shard_key, flush_events, flush_spans, flush_pending,
}
use tracing_console.Cache.Subscriber.Ops.{event, event_parent, found, push_event, fill_event}

module _ {Meta : Type 0} (sl : Slab (SpanRecord Meta)) (cs : Channel (SpanRecord Meta))
    (ce : Channel (EventMessage Meta)) where
  -- A pooled record may hold anything: what it held is not read.
  abbrev pub HoldsAnything : EventRecord Meta → Type 0
  HoldsAnything e = Unit {0}

  same_pool :
      (s : State sl cs ce)
      → ((ensure_thread_shard_key sl cs ce s).1.cache.event_pool ≡ s.cache.event_pool)
        × ((ensure_thread_shard_key sl cs ce s).1.cache.pending_batch ≡ s.cache.pending_batch)
        × ((ensure_thread_shard_key sl cs ce s).1.thread.pending_event ≡ s.thread.pending_event)
        × ((ensure_thread_shard_key sl cs ce s).1.cache.event_sender ≡ s.cache.event_sender)
  unfolding ensure_thread_shard_key
  same_pool s = ground arith

  -- The thread has sent its events, and these were the last.
  abbrev Sent : List (EventMessage Meta) → State sl cs ce → State sl cs ce → Type 0
  Sent events s t =
      (t.thread.pending_event ≡ [])
      × (t.thread.pending_span ≡ [])
      × (t.cache.event_sender ≡ (ce.send_many s.cache.event_sender events).1)

  flush_events-Sent :
      (events : List (EventMessage Meta)) (msg : EventMessage Meta) (s : State sl cs ce)
      → s.thread.pending_event ≡ events ++ msg ∷ []
      → ((flush_events sl cs ce s).thread.pending_event ≡ [])
        × ((flush_events sl cs ce s).cache.event_sender
            ≡ (ce.send_many s.cache.event_sender (events ++ msg ∷ [])).1)
  unfolding flush_events
  flush_events-Sent [] msg s e = rw e (refl, refl)
  flush_events-Sent (x ∷ events) msg s e = rw e (refl, refl)

  flush_spans_lem :
      (s : State sl cs ce)
      → ((flush_spans sl cs ce s).thread.pending_span ≡ [])
        × ((flush_spans sl cs ce s).thread.pending_event ≡ s.thread.pending_event)
        × ((flush_spans sl cs ce s).cache.event_sender ≡ s.cache.event_sender)
  unfolding flush_spans
  flush_spans_lem s = ground arith

  push_event-Sent :
      (msg : EventMessage Meta) (s : State sl cs ce)
      → s.cache.pending_batch ≤ length s.thread.pending_event + 1
      → Sent (s.thread.pending_event ++ msg ∷ []) s (push_event sl cs ce msg s)
  unfolding push_event flush_pending
  push_event-Sent msg s full =
      let s1 : State sl cs ce = record s {
        thread = record s.thread { pending_event = s.thread.pending_event ++ msg ∷ [] };
      } in
      let sent = flush_events-Sent s.thread.pending_event msg s1 refl in
      let spans = flush_spans_lem (flush_events sl cs ce s1) in
      let reached : leb s.cache.pending_batch (length (s.thread.pending_event ++ msg ∷ [])) ≡ true =
        ground (arith, length-append s.thread.pending_event (msg ∷ [])) in
      rw reached (spans.1 ∙ sent.0, spans.0, spans.2 ∙ sent.1)

  push_event-pending :
      (msg : EventMessage Meta) (s : State sl cs ce)
      → length s.thread.pending_event + 1 < s.cache.pending_batch
      → (push_event sl cs ce msg s).thread.pending_event ≡ s.thread.pending_event ++ msg ∷ []
  unfolding push_event
  push_event-pending msg s room = ground (arith, length-append s.thread.pending_event (msg ∷ []))

  -- The message of an event.
  abbrev pub queued : ℕ → Meta → List (Text × Visited) → ℕ → ℕ → EventMessage Meta
  queued parent_id metadata values now shard = record {
    parent_actual_id = parent_id;
    record_ref = record {
      value = record {
        metadata = some metadata;
        fields = record_fields values [];
        recorded_at = some now;
      };
      pool = shard;
    };
  }

  -- An event whose parent is found, on a cache whose pool is well formed: it never panics, whatever
  -- the pool's records hold and whether or not the pool's lock is free. Its message has the parent's id,
  -- and the metadata, the time and the fields of this event only. While the thread's events with this one
  -- are fewer than its batch size, the message goes to their end; otherwise all of them are handed to the
  -- channel, this one as the last, and the thread keeps neither events nor spans.
  pub event_queues :
      (parent : Option ℕ) (metadata : Meta) (values : List (Text × Visited)) (now : ℕ)
      (locked : Bool) (s : State sl cs ce) (parent_id limit : ℕ)
      → event_parent sl cs ce parent s ≡ found parent_id
      → IsPool HoldsAnything limit s.cache.event_pool
      → (s' : State sl cs ce) × (shard : ℕ) × (event sl cs ce parent metadata values now locked s
          ≡ some s')
        × (length s.thread.pending_event + 1 < s.cache.pending_batch
            → s'.thread.pending_event
              ≡ s.thread.pending_event ++ queued parent_id metadata values now shard ∷ [])
        × (s.cache.pending_batch ≤ length s.thread.pending_event + 1
            → (s'.thread.pending_event ≡ [])
              × (s'.thread.pending_span ≡ [])
              × (s'.cache.event_sender
                  ≡ (ce.send_many s.cache.event_sender (
                      s.thread.pending_event
                      ++ queued parent_id metadata values now shard ∷ [])).1))
  unfolding event fill_event
  event_queues parent metadata values now locked s parent_id limit e v =
      let key = (ensure_thread_shard_key sl cs ce s).0 in
      let s1 = (ensure_thread_shard_key sl cs ce s).1 in
      let (pool_eq, batch_eq, pending_eq, sender_eq) = same_pool s in
      let (b, pool', got, blank, kept, inside) =
        acquire-IsPool HoldsAnything limit default_event key locked s1.cache.event_pool tt
          (rw pool_eq v) in
      let shard = shard_of s1.cache.event_pool key in
      let msg = queued parent_id metadata values now shard in
      let s2 : State sl cs ce = record s1 { cache = record s1.cache { event_pool = pool' } } in
      (
        push_event sl cs ce msg s2,
        shard,
        rw (event, e) (rw got refl),
        λ room. push_event-pending msg s2 (rw (batch_eq, pending_eq) room) ∙ rw pending_eq refl,
        λ full.
            let sent = push_event-Sent msg s2 (rw (batch_eq, pending_eq) full) in
            (sent.0, sent.1, sent.2 ∙ rw (sender_eq, pending_eq) refl),
      )
