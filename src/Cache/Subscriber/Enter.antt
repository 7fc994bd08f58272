-- ===== src/Cache/Subscriber/Enter.antt =====
-- The stack of entered spans, in tracing-cache/src/cache.rs: enter, exit, and the parent of a span that
-- is opened between the two.
use tracing_console.Base.{ℕ, ◌≡◌, refl, true, false, none, some, ◌==◌, arith, All-get_elem?}
use tracing_console.Cache.Ids.{disabled, decode_tracing_id}
use tracing_console.Cache.Record.{SpanRecord}
use tracing_console.Cache.Driver.{Channel, EventMessage}
use tracing_console.Cache.Predicate.{Attributes, EnabledPredicate}
use tracing_console.Cache.Slab.{Slab}
use tracing_console.Cache.Subscriber.{State, stack_top, load_actual_id, resolve_parent, resolved}
use tracing_console.Cache.Subscriber.Ops.{enter, exit, push_stack, event_parent, found}
use tracing_console.Cache.Subscriber.Invariant.{IsLane, IsCache, slot_of}
use tracing_console.Cache.Subscriber.Within.{Within, Within-span_stack}
use tracing_console.Cache.Subscriber.Close.{lane_of_slot}

module _ {Meta : Type 0} (sl : Slab (SpanRecord Meta)) (cs : Channel (SpanRecord Meta))
    (ce : Channel (EventMessage Meta)) where
  module _ (id shard slab_idx : ℕ) (rec : SpanRecord Meta) (s : State sl cs ce)
      (v : IsCache sl cs ce s.cache)
      (decodes : decode_tracing_id s.cache.geom id ≡ some (shard, slab_idx))
      (open_span : slot_of sl cs ce s.cache shard slab_idx ≡ some rec) where
    -- The sidecar has the id of the open span.
    loads : load_actual_id sl cs ce s.cache shard slab_idx ≡ some rec.id
    unfolding load_actual_id
    loads =
        let (lane, here, filled) = lane_of_slot sl cs ce shard slab_idx rec s open_span in
        rw (here, load_actual_id)
          ((All-get_elem? (IsLane sl cs ce s.cache.shard_capacity) s.cache.in_flight shard lane
              v.lanes_ok here).mirrored
            slab_idx rec filled)

    abbrev pub inside : State sl cs ce
    inside = push_stack sl cs ce (record { tracing_id = id; actual_id = rec.id }) s

    not_disabled : (id == disabled) ≡ false
    unfolding decode_tracing_id
    not_disabled = ground (arith, decodes)

    enters : enter sl cs ce id s ≡ some inside
    unfolding enter
    enters = ground (arith, decodes, loads)

    on_top :
        (t : State sl cs ce)
        → t.thread.span_stack ≡ inside.thread.span_stack
        → stack_top t.thread ≡ some (record { tracing_id = id; actual_id = rec.id })
    unfolding push_stack
    on_top t same = rw same refl

    contextual_parent :
        (t : State sl cs ce) (attrs : Attributes Meta)
        → t.thread.span_stack ≡ inside.thread.span_stack
        → attrs.is_contextual ≡ true
        → resolve_parent sl cs ce attrs t ≡ resolved (some rec.id)
    unfolding resolve_parent
    contextual_parent t attrs same contextual = ground (arith, not_disabled, on_top t same)

    contextual_event :
        (t : State sl cs ce)
        → t.thread.span_stack ≡ inside.thread.span_stack
        → event_parent sl cs ce none t ≡ found rec.id
    unfolding event_parent
    contextual_event t same = ground (arith, not_disabled, on_top t same)

    exits :
        (t : State sl cs ce)
        → t.thread.span_stack ≡ inside.thread.span_stack
        → exit sl cs ce t
          ≡ record t { thread = record (t.thread) { span_stack = s.thread.span_stack } }
    unfolding exit push_stack
    exits t same = rw same refl

    -- Entering an open span on a well-formed cache never panics. After any operations of the thread from
    -- there on, of which each further enter has had its exit, and whatever other threads do to the cache
    -- meanwhile, the span's id is the parent of a span that is opened in the context and of an event in
    -- the context; and an exit then gives the stack back as it was before the enter, and changes nothing
    -- else.
    pub enter_opens_context :
        {Filter : Type 0} (p : EnabledPredicate Filter Meta) {t : State sl cs ce}
        → Within sl cs ce p inside t
        → (enter sl cs ce id s ≡ some inside)
          × ((attrs : Attributes Meta)
              → attrs.is_contextual ≡ true
              → resolve_parent sl cs ce attrs t ≡ resolved (some rec.id))
          × (event_parent sl cs ce none t ≡ found rec.id)
          × (exit sl cs ce t
              ≡ record t { thread = record (t.thread) { span_stack = s.thread.span_stack } })
    enter_opens_context p {t} w =
        let same = Within-span_stack sl cs ce p w in
        (enters, λ attrs h. contextual_parent t attrs same h, contextual_event t same, exits t same)
