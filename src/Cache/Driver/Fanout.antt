-- ===== src/Cache/Driver/Fanout.antt =====
-- The fan-out of tracing-cache/src/driver.rs, and what a synchronous drain delivers.
use tracing_console.Base.{ℕ, ◌+◌, ◌≤◌, List, [], ◌∷◌, ◌++◌, map, length, ◌≡◌, refl}
use tracing_console.Cache.Record.{SpanRecord}
use tracing_console.Cache.Driver.{
  SendResult, Channel, EventMessage, SideEvents, extend, retain_open, fanout_under_lock, Driver,
  flush_event_batch, flush_span_batch, flush_events, drain_sync,
}
use tracing_console.Cache.Driver.Attach.{completed, DistinctIds, prepare_lem}
use tracing_console.Cache.Driver.Buffer.{parked, IsBuffer, refs_for, parked-flush_event_batch}

module _ {Meta : Type 0} (c : Channel (SpanRecord Meta)) where
  -- The subscribers before and after a batch, in order: one that accepts has the batch behind what it
  -- had, one that is full has what it had, and one whose receiver is gone is removed.
  pub data Fanned (prepared : List (SpanRecord Meta)) : List c.Sender → List c.Sender → Type 0 where
    nobody : Fanned prepared [] []
    accepted :
        {s s' : c.Sender} {before after : List c.Sender}
        → (c.send_many s prepared).0 ≡ SendResult.sent
        → c.delivered s' ≡ c.delivered s ++ prepared
        → Fanned prepared before after
        → Fanned prepared (s ∷ before) (s' ∷ after)
    skipped :
        {s s' : c.Sender} {before after : List c.Sender}
        → (c.send_many s prepared).0 ≡ SendResult.full
        → c.delivered s' ≡ c.delivered s
        → Fanned prepared before after
        → Fanned prepared (s ∷ before) (s' ∷ after)
    pruned :
        {s : c.Sender} {before after : List c.Sender}
        → (c.send_many s prepared).0 ≡ SendResult.closed
        → Fanned prepared before after
        → Fanned prepared (s ∷ before) after

  SendResult-cases :
      (s : c.Sender) (prepared : List (SpanRecord Meta)) (r : SendResult)
      → (c.send_many s prepared).0 ≡ r
      → (subs : List c.Sender) → Fanned prepared subs (retain_open c prepared subs)
      → Fanned prepared (s ∷ subs) (retain_open c prepared (s ∷ subs))
  unfolding retain_open
  SendResult-cases s prepared SendResult.sent e subs f =
      rw (e, retain_open) (accepted e (c.sent_delivers s prepared e) f)
  SendResult-cases s prepared SendResult.full e subs f =
      rw (e, retain_open) (skipped e (c.full_keeps s prepared e) f)
  SendResult-cases s prepared SendResult.closed e subs f = rw (e, retain_open) (pruned e f)

  retain_open-Fanned :
      (prepared : List (SpanRecord Meta)) (subs : List c.Sender)
      → Fanned prepared subs (retain_open c prepared subs)
  unfolding retain_open
  retain_open-Fanned prepared [] = nobody
  retain_open-Fanned prepared (s ∷ subs) =
      SendResult-cases s prepared (c.send_many s prepared).0 refl subs
        (retain_open-Fanned prepared subs)

  -- A batch that is not empty reaches every subscriber that accepts it, whole and in order; a full
  -- subscriber misses the whole batch and stays; one whose receiver is gone is removed. The rest keep
  -- their order.
  fanout_under_lock-Fanned :
      (subs : List c.Sender) (span : SpanRecord Meta) (prepared : List (SpanRecord Meta))
      → Fanned (span ∷ prepared) subs (fanout_under_lock c subs (span ∷ prepared))
  unfolding fanout_under_lock
  fanout_under_lock-Fanned subs span prepared = retain_open-Fanned (span ∷ prepared) subs

  -- A span with the events that were parked for it and those of the event batch behind its own.
  abbrev pub with_events :
      SideEvents Meta → List (EventMessage Meta) → SpanRecord Meta → SpanRecord Meta
  with_events side events span = extend span (parked span.id side ++ refs_for span.id events)

  map-with_events :
      (capacity : ℕ) (side : SideEvents Meta) (events : List (EventMessage Meta))
      (spans : List (SpanRecord Meta))
      → IsBuffer capacity side
      → length side + length events ≤ capacity
      → map (completed (flush_event_batch capacity events side)) spans
        ≡ map (with_events side events) spans
  map-with_events capacity side events [] v room = refl
  map-with_events capacity side events (span ∷ spans) v room =
      rw
        (
          parked-flush_event_batch capacity span.id events side v room,
          map-with_events capacity side events spans v room,
        )
        refl

  -- A drain with room in the side buffer for each event's span, and with spans of distinct ids: what
  -- the subscribers are offered is each span with its own events, then those parked for it earlier,
  -- then those of this drain, in order; no event of such a span is lost or goes to another span.
  pub drain_sync_delivers :
      (d : Driver c) (events : List (EventMessage Meta)) (span : SpanRecord Meta)
      (spans : List (SpanRecord Meta))
      → IsBuffer d.capacity d.side_events
      → length d.side_events + length events ≤ d.capacity
      → DistinctIds (span ∷ spans)
      → Fanned
          (map (with_events d.side_events events) (span ∷ spans))
          d.subscribers
          (drain_sync c events (span ∷ spans) d).subscribers
  unfolding drain_sync flush_span_batch flush_events
  drain_sync_delivers d events span spans v room distinct =
      let side = flush_event_batch d.capacity events d.side_events in
      rw
        (
          (prepare_lem (span ∷ spans) side distinct).0,
          map-with_events d.capacity d.side_events events (span ∷ spans) v room,
        )
        (fanout_under_lock-Fanned d.subscribers _ _)
