-- ===== src/Tests/Cache.antt =====
-- Examples of the subscriber's operations, on a cache of two lanes.
use tracing_console.Base.{
  length, ◌≤◌, ℕ, ◌+◌, ◌<◌, ◌≡◌, refl, true, false, [], ◌∷◌, none, some, ◌⊎◌, arith, ◌++◌,
}
use tracing_console.Base.Words.{pow2}
use tracing_console.Cache.Ids.{
  CacheConfig, disabled, decode_tracing_id, geometry, lane_count_of, shard_bits, ceil_log2,
}
use tracing_console.Cache.Record.{SpanRecord}
use tracing_console.Cache.Driver.{EventMessage}
use tracing_console.Cache.Predicate.{Attributes, EnabledPredicate, Interest}
use tracing_console.Cache.Subscriber.{
  State, ShardLane, SpanCache, new_thread, new_cache, resolve_parent, resolved, new_span,
}
use tracing_console.Cache.Subscriber.Ops.{
  try_close, enter, exit, event_parent, found, event, push_stack,
}
use tracing_console.Cache.Subscriber.Events.{HoldsAnything, queued, event_queues}
use tracing_console.Cache.Pool.{new as new_event_pool}
use tracing_console.Cache.Pool.Laws.{IsPool, new-IsPool}
use tracing_console.Base.{◌++◌}
use tracing_console.Cache.Ids.{lane_count_of, shard_bits, ceil_log2}
use tracing_console.Base.Words.{pow2}
use tracing_console.Cache.Subscriber.Enter.{inside, enter_opens_context}
use tracing_console.Cache.Subscriber.Invariant.{IsCache, IsLane, slot_of, insert-IsLane}
use tracing_console.Cache.Subscriber.Setup.{new_cache-IsCache}
use tracing_console.Cache.Subscriber.Invariant.{SameLanes}
use tracing_console.Cache.Subscriber.Spans.{
  Opened, LaneIsFull, new_span_opens, chosen, built, lane_of,
}
use tracing_console.Cache.Subscriber.Within.{here, emitted}
use tracing_console.Cache.Subscriber.Close.{Closed, try_close_closes}
use tracing_console.Cache.Subscriber.ActualIds.{issue, Distinct, issued_ids-Distinct}
use tracing_console.Tests.Instances.{Mailbox, mailboxes}
use tracing_console.Tests.Slabs.{list_slab, filled, slot, put}
use tracing_console.Cache.Slab.{Slab}
use tracing_console.Cache.Driver.{Channel}

abbrev slab : Slab (SpanRecord ℕ)
slab = list_slab

abbrev spans : Channel (SpanRecord ℕ)
spans = mailboxes

abbrev events : Channel (EventMessage ℕ)
events = mailboxes

abbrev config : CacheConfig
config = record {
  lane_count = 2;
  pending_batch = 8;
  driver_batch = 600;
  driver_interval = 1;
  channel_capacity = 100;
}

abbrev box : {A : Type 0} → Mailbox A
box = record { log = []; limit = 100; alive = true }

abbrev fresh : SpanCache slab spans events
fresh = new_cache slab spans events 4 config box box

abbrev start : State slab spans events
start = record { cache = fresh; thread = new_thread }

abbrev root : Attributes ℕ
root = record { is_contextual = false; is_root = true; parent = none; metadata = 7; values = [] }

abbrev admits_all : EnabledPredicate ℕ ℕ
admits_all = record {
  max_level_hint = none;
  callsite_enabled = λ m. Interest.always;
  enabled = λ m. true;
  new_span_enabled = λ span. true;
}

new_cache-IsCache_example : IsCache slab spans events fresh
unfolding pow2
new_cache-IsCache_example = new_cache-IsCache slab spans events 4 config box box (omega arith)

root_resolves : resolve_parent slab spans events root start ≡ resolved none
unfolding resolve_parent new_thread
root_resolves = refl

-- The state once the span's id and lane are chosen.
abbrev after_choice : State slab spans events
after_choice = chosen slab spans events root none 10 start new_cache-IsCache_example

abbrev first_span : SpanRecord ℕ
first_span = built slab spans events root none 10 start new_cache-IsCache_example

abbrev first_lane : ℕ
first_lane = lane_of slab spans events root none 10 start new_cache-IsCache_example

new_span_opens_example :
    SameLanes slab spans events start.cache after_choice.cache
    × ((LaneIsFull slab spans events root none 10 start new_cache-IsCache_example
          × (new_span slab spans events admits_all root 10 start ≡ some (disabled, after_choice))
          × IsCache slab spans events after_choice.cache)
        ⊎ ((tracing_id : ℕ) × (cache' : SpanCache slab spans events) × (new_span slab spans events
                admits_all root 10 start
              ≡ some (tracing_id, record after_choice { cache = cache' }))
            × Opened slab spans events first_span first_lane tracing_id after_choice.cache cache'
            × IsCache slab spans events cache'))
new_span_opens_example =
    new_span_opens slab spans events root none 10 start new_cache-IsCache_example admits_all
      root_resolves refl

-- The cache with one span open, in the first slot of the first lane.
abbrev opened : SpanRecord ℕ
opened = record {
  id = 1024;
  parent_id = none;
  metadata = 7;
  fields = [];
  events = [];
  opened_at = 10;
  closed_at = none;
}

abbrev empty_lane : ShardLane slab spans events
empty_lane = record { slab = []; actual_ids = 0 ∷ 0 ∷ [] }

abbrev lane_with : ShardLane slab spans events
lane_with = record { slab = some opened ∷ []; actual_ids = 1024 ∷ 0 ∷ [] }

abbrev busy : State slab spans events
busy = record start { cache = record fresh { in_flight = lane_with ∷ empty_lane ∷ [] } }

fresh_lanes : fresh.in_flight ≡ empty_lane ∷ empty_lane ∷ []
unfolding new_cache lane_count_of shard_bits ceil_log2 pow2
fresh_lanes = refl

empty_lane-IsLane : IsLane slab spans events 2 empty_lane
unfolding filled slot
empty_lane-IsLane = record {
  sized = refl;
  slots_le = omega arith;
  len_le = omega arith;
  mirrored = λ k rec e. cc;
}

lane_with-IsLane : IsLane slab spans events 2 lane_with
unfolding put filled
lane_with-IsLane =
    insert-IsLane slab spans events 2 empty_lane opened empty_lane-IsLane (omega arith)

busy-IsCache : IsCache slab spans events busy.cache
unfolding new_cache lane_count_of shard_bits ceil_log2 pow2
busy-IsCache = record {
  requested = 2;
  geom_eq = refl;
  lanes_eq = refl;
  fits = unfold geometry in omega arith;
  lanes_ok = (lane_with-IsLane, (empty_lane-IsLane, tt));
}

identifier_decodes : decode_tracing_id busy.cache.geom 2 ≡ some (0, 0)
unfolding decode_tracing_id geometry lane_count_of shard_bits ceil_log2 pow2 new_cache
identifier_decodes = refl

opened_stored : slot_of slab spans events busy.cache 0 0 ≡ some opened
unfolding slot
opened_stored = refl

try_close_closes_example :
    (s' : State slab spans events) × (try_close slab spans events 2 20 busy ≡ some (true, s'))
    × Closed slab spans events 0 0 busy.cache s'.cache
    × IsCache slab spans events s'.cache
    × (0 + 1 < busy.cache.pending_batch
        → s'.thread.pending_span ≡ [] ++ record opened { closed_at = some 20 } ∷ [])
    × ((later : ℕ) → try_close slab spans events 2 later s' ≡ some (false, s'))
unfolding new_thread
try_close_closes_example =
    try_close_closes slab spans events 2 20 0 0 opened busy busy-IsCache identifier_decodes
      opened_stored

issued_ids-Distinct_example :
    Distinct (issue slab spans events fresh (λ t. new_thread) (0 ∷ 1 ∷ 0 ∷ 1 ∷ []) [])
issued_ids-Distinct_example =
    issued_ids-Distinct slab spans events 4 config box box (0 ∷ 1 ∷ 0 ∷ 1 ∷ []) (omega arith)

-- The thread inside the open span.
abbrev entered : State slab spans events
entered = inside slab spans events 2 0 0 opened busy busy-IsCache identifier_decodes opened_stored

boxes-IsPool : IsPool (HoldsAnything slab spans events) 256 entered.cache.event_pool
unfolding new_cache lane_count_of shard_bits ceil_log2 pow2 push_stack new_event_pool
boxes-IsPool = new-IsPool (HoldsAnything slab spans events) 256 2

context_found : event_parent slab spans events none entered ≡ found 1024
unfolding event_parent push_stack
context_found = refl

event_queues_example :
    (s' : State slab spans events) × (shard : ℕ) × (event slab spans events none 9 [] 15 false
        entered
      ≡ some s')
    × (length entered.thread.pending_event + 1 < entered.cache.pending_batch
        → s'.thread.pending_event
          ≡ entered.thread.pending_event ++ queued slab spans events 1024 9 [] 15 shard ∷ [])
    × (entered.cache.pending_batch ≤ length entered.thread.pending_event + 1
        → (s'.thread.pending_event ≡ [])
          × (s'.thread.pending_span ≡ [])
          × (s'.cache.event_sender
              ≡ (events.send_many entered.cache.event_sender (
                  entered.thread.pending_event
                  ++ queued slab spans events 1024 9 [] 15 shard ∷ [])).1))
event_queues_example =
    event_queues slab spans events none 9 [] 15 false entered 1024 256 context_found boxes-IsPool

-- The thread after an event inside the span.
one_event :
    (s' : State slab spans events) × (event slab spans events none 9 [] 15 false entered ≡ some s')
one_event =
    let (s', shard, done, waits, sends) =
      event_queues slab spans events none 9 [] 15 false entered 1024 256 context_found
        boxes-IsPool in
    (s', done)

enter_opens_context_example :
    (enter slab spans events 2 busy ≡ some entered)
    × ((attrs : Attributes ℕ)
        → attrs.is_contextual ≡ true
        → resolve_parent slab spans events attrs one_event.0 ≡ resolved (some 1024))
    × (event_parent slab spans events none one_event.0 ≡ found 1024)
    × (exit slab spans events one_event.0 ≡ record (one_event.0) {
      thread = record (one_event.0.thread) { span_stack = busy.thread.span_stack };
    })
enter_opens_context_example =
    enter_opens_context slab spans events 2 0 0 opened busy busy-IsCache identifier_decodes
      opened_stored admits_all (emitted here none 9 [] 15 false one_event.1)
