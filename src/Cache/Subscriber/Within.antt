-- ===== src/Cache/Subscriber/Within.antt =====
-- What may happen on a thread between two points at the same depth of its stack of entered spans, in
-- tracing-cache/src/cache.rs.
use tracing_console.Base.{ℕ, ◌≡◌, refl, ◌∙◌, Bool, List, Option, some, arith}
use tracing_console.Base.Text.{Text}
use tracing_console.Cache.Record.{SpanRecord, Visited}
use tracing_console.Cache.Driver.{Channel, EventMessage}
use tracing_console.Cache.Predicate.{Attributes, EnabledPredicate}
use tracing_console.Cache.Slab.{Slab}
use tracing_console.Cache.Subscriber.{
  SpanCache, State, StackedSpan, ensure_thread_shard_key, pick_shard, allocate_actual_id,
  flush_events, flush_spans, flush_pending, insert_record, admit, new_span,
}
use tracing_console.Cache.Subscriber.Ops.{
  put_slab, record_values, event, push_event, push_stack, enter, exit, push_span, try_close,
}

module _ {Meta : Type 0} (sl : Slab (SpanRecord Meta)) (cs : Channel (SpanRecord Meta))
    (ce : Channel (EventMessage Meta)) {Filter : Type 0} (p : EnabledPredicate Filter Meta) where
  -- The second state comes of the first by operations of the thread, of which each enter has its exit, and
  -- by whatever other threads do to the cache in between.
  pub data Within : State sl cs ce → State sl cs ce → Type 0 where
    here : {s : State sl cs ce} → Within s s
    elsewhere :
        {s t : State sl cs ce}
        → Within s t
        → (cache : SpanCache sl cs ce) → Within s (record t { cache = cache })
    opened :
        {s t u : State sl cs ce}
        → Within s t
        → (attrs : Attributes Meta) (now id : ℕ) → new_span sl cs ce p attrs now t ≡ some (id, u)
        → Within s u
    recorded :
        {s t u : State sl cs ce}
        → Within s t
        → (span : ℕ) (values : List (Text × Visited))
        → record_values sl cs ce span values t ≡ some u
        → Within s u
    emitted :
        {s t u : State sl cs ce}
        → Within s t
        → (parent : Option ℕ) (metadata : Meta) (values : List (Text × Visited)) (now : ℕ)
          (locked : Bool)
        → event sl cs ce parent metadata values now locked t ≡ some u
        → Within s u
    closed :
        {s t u : State sl cs ce}
        → Within s t
        → (id now : ℕ) (found : Bool) → try_close sl cs ce id now t ≡ some (found, u)
        → Within s u
    nested :
        {s t u w : State sl cs ce}
        → Within s t
        → (id : ℕ) → enter sl cs ce id t ≡ some u
        → Within u w
        → Within s (exit sl cs ce w)

  abbrev stack : State sl cs ce → List StackedSpan
  stack s = s.thread.span_stack

  key-span_stack : (s : State sl cs ce) → stack (ensure_thread_shard_key sl cs ce s).1 ≡ stack s
  unfolding ensure_thread_shard_key
  key-span_stack s = ground arith

  pick_shard-span_stack : (s : State sl cs ce) → stack (pick_shard sl cs ce s).1 ≡ stack s
  unfolding pick_shard
  pick_shard-span_stack s = ground (arith, key-span_stack s)

  allocate-span_stack : (s : State sl cs ce) → stack (allocate_actual_id sl cs ce s).1 ≡ stack s
  unfolding allocate_actual_id
  allocate-span_stack s = ground arith

  insert_record-span_stack :
      (rec : SpanRecord Meta) (shard id : ℕ) (s t : State sl cs ce)
      → insert_record sl cs ce rec shard s ≡ some (id, t)
      → stack t ≡ stack s
  unfolding insert_record
  insert_record-span_stack rec shard id s t e = ground arith

  admit-span_stack :
      (attrs : Attributes Meta) (parent_id : Option ℕ) (now id : ℕ) (s t : State sl cs ce)
      → admit sl cs ce attrs parent_id now s ≡ some (id, t)
      → stack t ≡ stack s
  unfolding admit
  admit-span_stack attrs parent_id now id s t e =
      insert_record-span_stack _ _ id _ t e
      ∙ pick_shard-span_stack (allocate_actual_id sl cs ce s).1
      ∙ allocate-span_stack s

  new_span-span_stack :
      (attrs : Attributes Meta) (now id : ℕ) (s t : State sl cs ce)
      → new_span sl cs ce p attrs now s ≡ some (id, t)
      → stack t ≡ stack s
  unfolding new_span
  new_span-span_stack attrs now id s t e = grind (arith, admit-span_stack)

  flush_events-span_stack : (s : State sl cs ce) → stack (flush_events sl cs ce s) ≡ stack s
  unfolding flush_events
  flush_events-span_stack s = ground arith

  flush_spans-span_stack : (s : State sl cs ce) → stack (flush_spans sl cs ce s) ≡ stack s
  unfolding flush_spans
  flush_spans-span_stack s = ground arith

  flush_pending-span_stack : (s : State sl cs ce) → stack (flush_pending sl cs ce s) ≡ stack s
  unfolding flush_pending
  flush_pending-span_stack s =
      flush_spans-span_stack (flush_events sl cs ce s) ∙ flush_events-span_stack s

  push_event-span_stack :
      (msg : EventMessage Meta) (s : State sl cs ce) → stack (push_event sl cs ce msg s) ≡ stack s
  unfolding push_event
  push_event-span_stack msg s = grind (arith, flush_pending-span_stack)

  push_span-span_stack :
      (rec : SpanRecord Meta) (s : State sl cs ce) → stack (push_span sl cs ce rec s) ≡ stack s
  unfolding push_span
  push_span-span_stack rec s = grind (arith, flush_pending-span_stack)

  event-span_stack :
      (parent : Option ℕ) (metadata : Meta) (values : List (Text × Visited)) (now : ℕ)
      (locked : Bool) (s t : State sl cs ce)
      → event sl cs ce parent metadata values now locked s ≡ some t
      → stack t ≡ stack s
  unfolding event
  event-span_stack parent metadata values now locked s t e =
      grind (arith, key-span_stack s, push_event-span_stack)

  record_values-span_stack :
      (span : ℕ) (values : List (Text × Visited)) (s t : State sl cs ce)
      → record_values sl cs ce span values s ≡ some t
      → stack t ≡ stack s
  unfolding record_values put_slab
  record_values-span_stack span values s t e = ground arith

  try_close-span_stack :
      (id now : ℕ) (found : Bool) (s t : State sl cs ce)
      → try_close sl cs ce id now s ≡ some (found, t)
      → stack t ≡ stack s
  unfolding try_close put_slab
  try_close-span_stack id now found s t e = grind (arith, push_span-span_stack)

  enter-exit :
      (id : ℕ) (t u w : State sl cs ce)
      → enter sl cs ce id t ≡ some u
      → stack w ≡ stack u
      → stack (exit sl cs ce w) ≡ stack t
  unfolding enter exit push_stack
  enter-exit id t u w e same = ground arith

  pub Within-span_stack :
      {s t : State sl cs ce} → Within s t → t.thread.span_stack ≡ s.thread.span_stack
  Within-span_stack here = refl
  Within-span_stack (elsewhere w cache) = Within-span_stack w
  Within-span_stack (opened {s} {t} {u} w attrs now id e) =
      new_span-span_stack attrs now id t u e ∙ Within-span_stack w
  Within-span_stack (recorded {s} {t} {u} w span values e) =
      record_values-span_stack span values t u e ∙ Within-span_stack w
  Within-span_stack (emitted {s} {t} {u} w parent metadata values now locked e) =
      event-span_stack parent metadata values now locked t u e ∙ Within-span_stack w
  Within-span_stack (closed {s} {t} {u} w id now found e) =
      try_close-span_stack id now found t u e ∙ Within-span_stack w
  Within-span_stack (nested {s} {t} {u} {w = x} w id e inner) =
      enter-exit id t u x e (Within-span_stack inner) ∙ Within-span_stack w
