-- ===== src/Cache/Subscriber.antt =====
-- tracing-cache/src/cache.rs and tracing-cache/src/thread_state.rs: the subscriber's operations on the
-- shared cache and on the state of the calling thread. `none` is a panic. The slab and the channels
-- are other crates' and enter as interfaces; with one cache, a thread's sender clones send on the
-- cache's own channels. A lock is held for one operation only, so each operation is one step.
pub mod ActualIds
pub mod Ops
pub mod Invariant
pub mod Spans
pub mod Close
pub mod Within
pub mod Enter
pub mod Events
pub mod Setup
use Prim.Native.Nat.{bit_and}
use tracing_console.Base.{
  ℕ, zero, suc, ◌+◌, ◌-◌, ◌*◌, ◌/◌, ◌%◌, ◌≤◌, ◌<◌, ◌≡◌, ◌≢◌, max, Bool, true, false, List, [], ◌∷◌,
  ◌++◌, Option, none, some, if◌then◌else◌, ltb, leb, ◌==◌, length, get_elem?, set, replicate,
}
use tracing_console.Base.Words.{u64_mod}
use tracing_console.Cache.Ids.{
  CacheConfig, Geometry, disabled, geometry, lane_count_of, encode_tracing_id, decode_tracing_id,
}
use tracing_console.Cache.Record.{SpanRecord, EventRecord, ReuseRef, default_event, record_fields}
use tracing_console.Cache.Pool.{ObjectPool, acquire, new as new_pool}
use tracing_console.Cache.Driver.{Channel, EventMessage}
use tracing_console.Cache.Slab.{Slab}
use tracing_console.Cache.Predicate.{Attributes, EnabledPredicate}

abbrev pub id_batch : ℕ
id_batch = 1024

-- The sentinel of a thread that has no shard key yet.
abbrev pub unassigned : ℕ
unassigned = u64_mod - 1

pub record StackedSpan : Type 0 where
  pub tracing_id : ℕ
  pub actual_id : ℕ

-- The thread-locals; the top of the stack comes first.
pub record Thread (Meta : Type 0) : Type 0 where
  pub span_stack : List StackedSpan
  pub pending_span : List (SpanRecord Meta)
  pub pending_event : List (EventMessage Meta)
  pub shard_key : ℕ
  pub id_cursor : ℕ

unfoldable pub new_thread : {Meta : Type 0} → Thread Meta
new_thread = record {
  span_stack = [];
  pending_span = [];
  pending_event = [];
  shard_key = unassigned;
  id_cursor = 0;
}

abbrev pub stack_top : {Meta : Type 0} → Thread Meta → Option StackedSpan
stack_top t = elim t.span_stack [ [] ↦ none | top ∷ rest ↦ some top ]

pub data ParentOf : Type 0 where
  refused panics : ParentOf
  resolved : Option ℕ → ParentOf

module _ {Meta : Type 0} (sl : Slab (SpanRecord Meta)) (cs : Channel (SpanRecord Meta))
    (ce : Channel (EventMessage Meta)) where
  pub record ShardLane : Type 0 where
    pub slab : sl.Store
    pub actual_ids : List ℕ

  pub record SpanCache : Type 0 where
    pub in_flight : List ShardLane
    pub id_high_water : ℕ
    pub shard_capacity : ℕ
    pub pending_batch : ℕ
    pub geom : Geometry
    pub event_pool : ObjectPool (EventRecord Meta)
    pub span_sender : cs.Sender
    pub event_sender : ce.Sender
    pub next_thread_key : ℕ

  -- The shared cache, and the calling thread.
  pub record State : Type 0 where
    pub cache : SpanCache
    pub thread : Thread Meta

  -- `with_predicate_and_config`, given the channels that it opens.
  unfoldable pub new_cache : ℕ → CacheConfig → cs.Sender → ce.Sender → SpanCache
  new_cache capacity config span_sender event_sender =
      let lanes = lane_count_of config.lane_count in
      let shard_capacity = (capacity + lanes - 1) / lanes in
      record {
        in_flight =
            replicate lanes (record { slab = sl.empty; actual_ids = replicate shard_capacity 0 });
        id_high_water = id_batch;
        shard_capacity = shard_capacity;
        pending_batch = config.pending_batch;
        geom = geometry config.lane_count;
        event_pool = new_pool lanes 256;
        span_sender = span_sender;
        event_sender = event_sender;
        next_thread_key = 0;
      }

  -- `ensure_thread_shard_key`: claimed from the shared counter on the first use.
  unfoldable pub ensure_thread_shard_key : State → ℕ × State
  ensure_thread_shard_key s =
      if s.thread.shard_key == unassigned
      then (
        s.cache.next_thread_key,
        record {
          cache = record s.cache { next_thread_key = (s.cache.next_thread_key + 1) % u64_mod };
          thread = record s.thread { shard_key = s.cache.next_thread_key };
        },
      )
      else (s.thread.shard_key, s)

  unfoldable pub pick_shard : State → ℕ × State
  pick_shard s =
      let (key, s') = ensure_thread_shard_key s in (bit_and key s'.cache.geom.shard_mask, s')

  -- The next id of the thread's reservation, or the first of a new one.
  unfoldable pub allocate_actual_id : State → ℕ × State
  allocate_actual_id s =
      if bit_and s.thread.id_cursor (id_batch - 1) == 0
      then (
        s.cache.id_high_water,
        record {
          cache = record s.cache { id_high_water = (s.cache.id_high_water + id_batch) % u64_mod };
          thread = record s.thread { id_cursor = s.cache.id_high_water + 1 };
        },
      )
      else (
        s.thread.id_cursor,
        record s { thread = record s.thread { id_cursor = s.thread.id_cursor + 1 } },
      )

  unfoldable pub load_actual_id : SpanCache → ℕ → ℕ → Option ℕ
  load_actual_id c shard slab_idx = elim (get_elem? c.in_flight shard) [
    | none ↦ none
    | some lane ↦ get_elem? lane.actual_ids slab_idx
  ]

  -- `actual_id_for`: the outer option is a panic.
  unfoldable pub actual_id_for : SpanCache → ℕ → Option (Option ℕ)
  actual_id_for c tracing_id = elim (decode_tracing_id c.geom tracing_id) [
    | none ↦ some none
    | some (shard, slab_idx) ↦ elim (load_actual_id c shard slab_idx) [
      | none ↦ none
      | some id ↦ some (some id)
    ]
  ]

  -- Events leave before spans, and a batch that its channel refuses is dropped.
  unfoldable pub flush_events : State → State
  flush_events s = elim s.thread.pending_event [
    | [] ↦ s
    | e ∷ rest ↦ record {
      cache = record s.cache { event_sender = (ce.send_many s.cache.event_sender (e ∷ rest)).1 };
      thread = record s.thread { pending_event = [] };
    }
  ]

  unfoldable pub flush_spans : State → State
  flush_spans s = elim s.thread.pending_span [
    | [] ↦ s
    | e ∷ rest ↦ record {
      cache = record s.cache { span_sender = (cs.send_many s.cache.span_sender (e ∷ rest)).1 };
      thread = record s.thread { pending_span = [] };
    }
  ]

  unfoldable pub flush_pending : State → State
  flush_pending s = flush_spans (flush_events s)

  -- Step A of `new_span`.
  unfoldable pub resolve_parent : Attributes Meta → State → ParentOf
  resolve_parent attrs s =
      if attrs.is_contextual
      then (elim (stack_top s.thread) [
        | none ↦ refused
        | some top ↦ if top.tracing_id == disabled then refused else resolved (some top.actual_id)
      ])
      else if attrs.is_root
      then (elim (stack_top s.thread) [ none ↦ resolved none | some top ↦ refused ])
      else (elim attrs.parent [
        | none ↦ refused
        | some explicit ↦ elim (actual_id_for s.cache explicit) [
          | none ↦ panics
          | some none ↦ refused
          | some (some id) ↦ resolved (some id)
        ]
      ])

  -- Step D: the lane's capacity check and insertion, then the sidecar and the identifier.
  unfoldable pub insert_record : SpanRecord Meta → ℕ → State → Option (ℕ × State)
  insert_record rec shard s = elim (get_elem? s.cache.in_flight shard) [
    | none ↦ none
    | some lane ↦
        if leb s.cache.shard_capacity (sl.len lane.slab)
        then some (disabled, s)
        else (let (slab_idx, slab') = sl.insert lane.slab rec in
            if ltb slab_idx (length lane.actual_ids)
            then some (
              encode_tracing_id s.cache.geom shard slab_idx,
              record s {
                cache = record s.cache {
                  in_flight =
                      set s.cache.in_flight shard
                        (record { slab = slab'; actual_ids = set lane.actual_ids slab_idx rec.id });
                };
              },
            )
            else none)
  ]

  unfoldable pub open_record : Attributes Meta → Option ℕ → ℕ → ℕ → SpanRecord Meta
  open_record attrs parent_id now actual_id = record {
    id = actual_id;
    parent_id = parent_id;
    metadata = attrs.metadata;
    fields = record_fields attrs.values [];
    events = [];
    opened_at = now;
    closed_at = none;
  }

  -- Steps C and D, once the span is admitted.
  unfoldable pub admit : Attributes Meta → Option ℕ → ℕ → State → Option (ℕ × State)
  admit attrs parent_id now s =
      let (actual_id, s1) = allocate_actual_id s in
      let (shard, s2) = pick_shard s1 in
      insert_record (open_record attrs parent_id now actual_id) shard s2

  unfoldable pub new_span :
      {Filter : Type 0}
      → EnabledPredicate Filter Meta
      → Attributes Meta
      → ℕ
      → State
      → Option (ℕ × State)
  new_span p attrs now s = elim (resolve_parent attrs s) [
    | refused ↦ some (disabled, s)
    | panics ↦ none
    | resolved parent_id ↦
        if p.new_span_enabled attrs then admit attrs parent_id now s else some (disabled, s)
  ]

  -- `Subscriber::enabled`: nothing is enabled under a disabled span.
  unfoldable pub enabled : {Filter : Type 0} → EnabledPredicate Filter Meta → Meta → State → Bool
  enabled p metadata s = elim (stack_top s.thread) [
    | none ↦ p.enabled metadata
    | some top ↦ if top.tracing_id == disabled then false else p.enabled metadata
  ]
