-- ===== src/Tests/Driver.antt =====
-- Examples of the driver: its side buffer, its fan-out and its loop.
use tracing_console.Base.{
  ℕ, ◌≡◌, refl, true, false, any, ◌&&◌, List, [], ◌∷◌, ◌++◌, map, none, some, arith,
}
use tracing_console.Cache.Record.{SpanRecord, ReuseRef}
use tracing_console.Cache.Driver.{
  Channel, EventMessage, SideEvents, Driver, event_batch, span_batch, event_end, run, drain_sync,
  flush_event_batch,
}
use tracing_console.Cache.Driver.Buffer.{IsBuffer, parked, refs_for, parked-flush_event_batch}
use tracing_console.Cache.Driver.Fanout.{Fanned, with_events, drain_sync_delivers}
use tracing_console.Cache.Driver.Run.{
  IsDriver, run-IsDriver, is_over, ends_spans, ends_events, run-is_over,
}
use tracing_console.Tests.Instances.{Mailbox, mailboxes}

abbrev spans : Channel (SpanRecord ℕ)
spans = mailboxes

abbrev span_of : ℕ → SpanRecord ℕ
span_of id = record {
  id = id;
  parent_id = none;
  metadata = 7;
  fields = [];
  events = [];
  opened_at = 10;
  closed_at = some 20;
}

abbrev ref_at : ℕ → ReuseRef ℕ
ref_at t = record {
  value = record { metadata = some 7; fields = []; recorded_at = some t };
  pool = 0;
}

abbrev message : ℕ → ℕ → EventMessage ℕ
message id t = record { parent_actual_id = id; record_ref = ref_at t }

-- Two ids wait, in a buffer of two.
abbrev side : SideEvents ℕ
side = (5, ref_at 1 ∷ []) ∷ (9, ref_at 2 ∷ []) ∷ []

side-IsBuffer : IsBuffer 2 side
side-IsBuffer = record { sorted = (omega arith, (omega arith, tt)); bounded = omega arith }

side-IsBuffer_roomy : IsBuffer 4 side
side-IsBuffer_roomy = record { sorted = (omega arith, (omega arith, tt)); bounded = omega arith }

-- One subscriber that has room, one that is full and one that is gone.
abbrev subscribers : List (Mailbox (SpanRecord ℕ))
subscribers =
    record { log = []; limit = 10; alive = true }
    ∷ record { log = []; limit = 0; alive = true }
    ∷ record { log = []; limit = 10; alive = false }
    ∷ []

abbrev driver : Driver spans
driver = record { capacity = 4; side_events = side; subscribers = subscribers }

drain_sync_delivers_example :
    Fanned spans
      (map (with_events spans side (message 5 3 ∷ [])) (span_of 5 ∷ span_of 6 ∷ []))
      subscribers
      (drain_sync spans (message 5 3 ∷ []) (span_of 5 ∷ span_of 6 ∷ []) driver).subscribers
drain_sync_delivers_example =
    drain_sync_delivers spans driver (message 5 3 ∷ []) (span_of 5) (span_of 6 ∷ [])
      side-IsBuffer_roomy (omega arith) (refl, (refl, tt))

run-IsDriver_example :
    IsDriver spans 4
      (run spans (event_batch (message 6 3 ∷ []) ∷ span_batch (span_of 5 ∷ []) ∷ []) driver).driver
run-IsDriver_example =
    run-IsDriver spans (event_batch (message 6 3 ∷ []) ∷ span_batch (span_of 5 ∷ []) ∷ []) driver
      side-IsBuffer_roomy

run-is_over_example :
    let arrivals = event_end ∷ event_batch (message 6 3 ∷ []) ∷ [] in
    let later = span_batch (span_of 5 ∷ []) ∷ [] in
    (is_over spans (run spans arrivals driver)
      ≡ (any (ends_spans spans) arrivals && any (ends_events spans) arrivals))
    × (any (ends_events spans) arrivals ≡ true
        → (batch : List (EventMessage ℕ))
        → run spans (arrivals ++ event_batch batch ∷ later) driver
          ≡ run spans (arrivals ++ later) driver)
    × (any (ends_spans spans) arrivals ≡ true
        → (batch : List (SpanRecord ℕ))
        → run spans (arrivals ++ span_batch batch ∷ later) driver
          ≡ run spans (arrivals ++ later) driver)
run-is_over_example =
    run-is_over spans (event_end ∷ event_batch (message 6 3 ∷ []) ∷ [])
      (span_batch (span_of 5 ∷ []) ∷ []) driver

parked-flush_event_batch_example :
    parked 5 (flush_event_batch 4 (message 5 3 ∷ message 6 4 ∷ []) side)
    ≡ parked 5 side ++ refs_for 5 (message 5 3 ∷ message 6 4 ∷ [])
parked-flush_event_batch_example =
    parked-flush_event_batch 4 5 (message 5 3 ∷ message 6 4 ∷ []) side side-IsBuffer_roomy
      (omega arith)
