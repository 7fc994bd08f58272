-- ===== src/Cache/Driver/Run.antt =====
-- The loop of tracing-cache/src/driver.rs over any sequence of arrivals.
use tracing_console.Base.{
  ℕ, Bool, true, false, not, ◌&&◌, ◌||◌, any, ◌∙◌, List, [], ◌∷◌, ◌++◌, ◌≡◌, ◌⊎◌, inl, inr, refl,
  sym, arith,
}
use tracing_console.Cache.Record.{SpanRecord}
use tracing_console.Cache.Driver.{
  Channel, EventMessage, Driver, Arrival, event_batch, span_batch, event_end, span_end, Loop,
  select, run_loop, run, flush_events, flush_span_batch, is_empty,
}
use tracing_console.Cache.Driver.Attach.{prepare-IsBuffer}
use tracing_console.Cache.Driver.Buffer.{IsBuffer, flush_event_batch-IsBuffer}

module _ {Meta : Type 0} (c : Channel (SpanRecord Meta)) where
  -- The buffer of a driver is well formed for the driver's capacity.
  abbrev pub IsDriver : ℕ → Driver c → Type 0
  IsDriver capacity d = (d.capacity ≡ capacity) × IsBuffer capacity d.side_events

  flush_events-IsDriver :
      (capacity : ℕ) (batch : List (EventMessage Meta)) (d : Driver c)
      → IsDriver capacity d
      → IsDriver capacity (flush_events c batch d)
  unfolding flush_events
  flush_events-IsDriver capacity batch d v =
      (v.0, rw v.0 (flush_event_batch-IsBuffer capacity batch d.side_events v.1))

  flush_span_batch-IsDriver :
      (capacity : ℕ) (batch : List (SpanRecord Meta)) (d : Driver c)
      → IsDriver capacity d
      → IsDriver capacity (flush_span_batch c batch d)
  unfolding flush_span_batch
  flush_span_batch-IsDriver capacity [] d v = v
  flush_span_batch-IsDriver capacity (span ∷ batch) d v = (
    v.0,
    prepare-IsBuffer capacity (not (is_empty d.side_events)) (span ∷ batch) d.side_events v.1,
  )

  select-IsDriver :
      (capacity : ℕ) (a : Arrival c) (l : Loop c)
      → IsDriver capacity l.driver
      → IsDriver capacity (select c a l).driver
  unfolding select
  select-IsDriver capacity (event_batch batch) l v =
      ground (arith, flush_events-IsDriver capacity batch l.driver v)
  select-IsDriver capacity (span_batch batch) l v =
      ground (arith, flush_span_batch-IsDriver capacity batch l.driver v)
  select-IsDriver capacity event_end l v = v
  select-IsDriver capacity span_end l v = v

  run_loop-IsDriver :
      (capacity : ℕ) (arrivals : List (Arrival c)) (l : Loop c)
      → IsDriver capacity l.driver
      → IsDriver capacity (run_loop c arrivals l).driver
  unfolding run_loop
  run_loop-IsDriver capacity [] l v = v
  run_loop-IsDriver capacity (a ∷ arrivals) l v =
      ground
        (arith, run_loop-IsDriver capacity arrivals (select c a l) (select-IsDriver capacity a l v))

  -- However batches of events and spans interleave, the side buffer of a driver stays sorted and holds
  -- the events of at most `capacity` spans (of one, if the capacity is 0).
  pub run-IsDriver :
      (arrivals : List (Arrival c)) (d : Driver c)
      → IsBuffer d.capacity d.side_events
      → IsDriver d.capacity (run c arrivals d).driver
  unfolding run
  run-IsDriver arrivals d v = run_loop-IsDriver d.capacity arrivals _ (refl, v)

  abbrev pub is_over : Loop c → Bool
  is_over l = l.span_closed && l.event_closed

  run_loop_over :
      (arrivals : List (Arrival c)) (l : Loop c) → is_over l ≡ true → run_loop c arrivals l ≡ l
  unfolding run_loop
  run_loop_over [] l e = refl
  run_loop_over (a ∷ arrivals) l e = ground arith

  run_loop-append :
      (arrivals later : List (Arrival c)) (l : Loop c)
      → run_loop c (arrivals ++ later) l ≡ run_loop c later (run_loop c arrivals l)
  unfolding run_loop
  run_loop-append [] later l = refl
  run_loop-append (a ∷ arrivals) later l =
      ground (arith, run_loop-append arrivals later (select c a l), run_loop_over later l)

  abbrev pub ends_events : Arrival c → Bool
  ends_events event_end = true
  ends_events _ = false

  abbrev pub ends_spans : Arrival c → Bool
  ends_spans span_end = true
  ends_spans _ = false

  select-ends :
      (a : Arrival c) (l : Loop c)
      → ((select c a l).event_closed ≡ (l.event_closed || ends_events a))
        × ((select c a l).span_closed ≡ (l.span_closed || ends_spans a))
  unfolding select
  select-ends (event_batch batch) l = ground arith
  select-ends (span_batch batch) l = ground arith
  select-ends event_end l = ground arith
  select-ends span_end l = ground arith

  run_loop-is_over :
      (arrivals : List (Arrival c)) (l : Loop c)
      → is_over (run_loop c arrivals l) ≡ (
          (l.span_closed || any ends_spans arrivals)
          && (l.event_closed || any ends_events arrivals))
  unfolding run_loop
  run_loop-is_over [] l = ground arith
  run_loop-is_over (a ∷ arrivals) l =
      ground (arith, select-ends a l, run_loop-is_over arrivals (select c a l))

  run_loop-event_closed :
      (arrivals : List (Arrival c)) (l : Loop c)
      → (l.event_closed || any ends_events arrivals) ≡ true
      → ((run_loop c arrivals l).event_closed ≡ true) ⊎ (is_over (run_loop c arrivals l) ≡ true)
  unfolding run_loop
  run_loop-event_closed [] l e = ground arith
  run_loop-event_closed (a ∷ arrivals) l e =
      ground (arith, select-ends a l, run_loop-event_closed arrivals (select c a l))

  run_loop-span_closed :
      (arrivals : List (Arrival c)) (l : Loop c)
      → (l.span_closed || any ends_spans arrivals) ≡ true
      → ((run_loop c arrivals l).span_closed ≡ true) ⊎ (is_over (run_loop c arrivals l) ≡ true)
  unfolding run_loop
  run_loop-span_closed [] l e = ground arith
  run_loop-span_closed (a ∷ arrivals) l e =
      ground (arith, select-ends a l, run_loop-span_closed arrivals (select c a l))

  unread_events :
      (batch : List (EventMessage Meta)) (later : List (Arrival c)) (l : Loop c)
      → (l.event_closed ≡ true) ⊎ (is_over l ≡ true)
      → run_loop c (event_batch batch ∷ later) l ≡ run_loop c later l
  unfolding run_loop select
  unread_events batch later l (inl e) = ground (arith, run_loop_over later l)
  unread_events batch later l (inr e) =
      run_loop_over (event_batch batch ∷ later) l e ∙ sym (run_loop_over later l e)

  unread_spans :
      (batch : List (SpanRecord Meta)) (later : List (Arrival c)) (l : Loop c)
      → (l.span_closed ≡ true) ⊎ (is_over l ≡ true)
      → run_loop c (span_batch batch ∷ later) l ≡ run_loop c later l
  unfolding run_loop select
  unread_spans batch later l (inl e) = ground (arith, run_loop_over later l)
  unread_spans batch later l (inr e) =
      run_loop_over (span_batch batch ∷ later) l e ∙ sym (run_loop_over later l e)

  abbrev opening : Driver c → Loop c
  opening d = record { driver = d; span_closed = false; event_closed = false }

  -- After any arrivals the loop is over exactly when both channels have closed among them, in whatever
  -- order. A channel that has closed is not read again: a batch that stands behind its end is passed over,
  -- while the other channel is read on.
  pub run-is_over :
      (arrivals later : List (Arrival c)) (d : Driver c)
      → (is_over (run c arrivals d) ≡ (any ends_spans arrivals && any ends_events arrivals))
        × (any ends_events arrivals ≡ true
            → (batch : List (EventMessage Meta))
            → run c (arrivals ++ event_batch batch ∷ later) d ≡ run c (arrivals ++ later) d)
        × (any ends_spans arrivals ≡ true
            → (batch : List (SpanRecord Meta))
            → run c (arrivals ++ span_batch batch ∷ later) d ≡ run c (arrivals ++ later) d)
  unfolding run
  run-is_over arrivals later d = (
    run_loop-is_over arrivals (opening d),
    λ ended batch.
        run_loop-append arrivals (event_batch batch ∷ later) (opening d)
        ∙ unread_events batch later (run_loop c arrivals (opening d))
            (run_loop-event_closed arrivals (opening d) ended)
        ∙ sym (run_loop-append arrivals later (opening d)),
    λ ended batch.
        run_loop-append arrivals (span_batch batch ∷ later) (opening d)
        ∙ unread_spans batch later (run_loop c arrivals (opening d))
            (run_loop-span_closed arrivals (opening d) ended)
        ∙ sym (run_loop-append arrivals later (opening d)),
  )
