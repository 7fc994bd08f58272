-- ===== src/Cache/Subscriber/Ops.antt =====
-- The other operations of tracing-cache/src/cache.rs on the calling thread: record, event, enter, exit,
-- try_close. `none` is a panic.
use tracing_console.Base.{
  ℕ, Bool, true, false, List, [], ◌∷◌, ◌++◌, Option, none, some, if◌then◌else◌, leb, ◌==◌, length,
  get_elem?, set,
}
use tracing_console.Base.Text.{Text}
use tracing_console.Cache.Ids.{disabled, decode_tracing_id}
use tracing_console.Cache.Record.{SpanRecord, EventRecord, default_event, Visited, record_fields}
use tracing_console.Cache.Pool.{acquire}
use tracing_console.Cache.Driver.{Channel, EventMessage}
use tracing_console.Cache.Slab.{Slab}
use tracing_console.Cache.Subscriber.{
  StackedSpan, stack_top, ShardLane, State, load_actual_id, flush_pending, ensure_thread_shard_key,
}

-- What `event.parent()` and the stack say of an event's parent.
pub data EventParent : Type 0 where
  dropped panics : EventParent
  found : ℕ → EventParent

module _ {Meta : Type 0} (sl : Slab (SpanRecord Meta)) (cs : Channel (SpanRecord Meta))
    (ce : Channel (EventMessage Meta)) where
  -- `lane.slab` with another store.
  unfoldable pub put_slab : State sl cs ce → ℕ → ShardLane sl cs ce → sl.Store → State sl cs ce
  put_slab s shard lane slab = record s {
    cache = record s.cache {
      in_flight = set s.cache.in_flight shard (record lane { slab = slab });
    };
  }

  unfoldable pub record_values :
      ℕ → List (Text × Visited) → State sl cs ce → Option (State sl cs ce)
  unfolding put_slab
  record_values span values s = elim (decode_tracing_id s.cache.geom span) [
    | none ↦ some s
    | some (shard, slab_idx) ↦ elim (get_elem? s.cache.in_flight shard) [
      | none ↦ none
      | some lane ↦ elim (sl.get lane.slab slab_idx) [
        | none ↦ some s
        | some rec ↦ some (
            put_slab s shard lane (
              sl.update lane.slab slab_idx
                (record rec { fields = record_fields values rec.fields })))
      ]
    ]
  ]

  unfoldable pub event_parent : Option ℕ → State sl cs ce → EventParent
  event_parent (some tracing_id) s =
      if tracing_id == disabled
      then dropped
      else (elim (decode_tracing_id s.cache.geom tracing_id) [
        | none ↦ dropped
        | some (shard, slab_idx) ↦ elim (load_actual_id sl cs ce s.cache shard slab_idx) [
          | none ↦ panics
          | some id ↦ found id
        ]
      ])
  event_parent none s = elim (stack_top s.thread) [
    | none ↦ dropped
    | some top ↦ if top.tracing_id == disabled then dropped else found top.actual_id
  ]

  unfoldable pub push_event : EventMessage Meta → State sl cs ce → State sl cs ce
  push_event msg s =
      let s' = record s {
        thread = record s.thread { pending_event = s.thread.pending_event ++ msg ∷ [] };
      } in
      if leb s.cache.pending_batch (length s'.thread.pending_event)
      then flush_pending sl cs ce s'
      else s'

  unfoldable pub fill_event : Meta → List (Text × Visited) → ℕ → EventRecord Meta → EventRecord Meta
  fill_event metadata values now e = record e {
    metadata = some metadata;
    recorded_at = some now;
    fields = record_fields values [];
  }

  -- `event`: `locked` says whether the pool shard's lock is free.
  unfoldable pub event :
      Option ℕ → Meta → List (Text × Visited) → ℕ → Bool → State sl cs ce → Option (State sl cs ce)
  event parent metadata values now locked s = elim (event_parent parent s) [
    | dropped ↦ some s
    | panics ↦ none
    | found parent_actual_id ↦
        let (key, s1) = ensure_thread_shard_key sl cs ce s in
        elim (acquire default_event key locked s1.cache.event_pool) [
          | none ↦ none
          | some ((e, shard), pool) ↦ some (
              push_event
                (record {
                  parent_actual_id = parent_actual_id;
                  record_ref = record { value = fill_event metadata values now e; pool = shard };
                })
                (record s1 { cache = record s1.cache { event_pool = pool } }))
        ]
  ]

  unfoldable pub push_stack : StackedSpan → State sl cs ce → State sl cs ce
  push_stack entry s = record s {
    thread = record s.thread { span_stack = entry ∷ s.thread.span_stack };
  }

  unfoldable pub enter : ℕ → State sl cs ce → Option (State sl cs ce)
  enter tracing_id s = elim (decode_tracing_id s.cache.geom tracing_id) [
    | none ↦ some (push_stack (record { tracing_id = tracing_id; actual_id = 0 }) s)
    | some (shard, slab_idx) ↦ elim (load_actual_id sl cs ce s.cache shard slab_idx) [
      | none ↦ none
      | some id ↦ some (push_stack (record { tracing_id = tracing_id; actual_id = id }) s)
    ]
  ]

  abbrev pop_list {ℓ} : {A : Type ℓ} → List A → List A
  pop_list [] = []
  pop_list (x ∷ xs) = xs

  unfoldable pub exit : State sl cs ce → State sl cs ce
  exit s = record s { thread = record s.thread { span_stack = pop_list s.thread.span_stack } }

  unfoldable pub push_span : SpanRecord Meta → State sl cs ce → State sl cs ce
  push_span rec s =
      let s' = record s {
        thread = record s.thread { pending_span = s.thread.pending_span ++ rec ∷ [] };
      } in
      if leb s.cache.pending_batch (length s'.thread.pending_span)
      then flush_pending sl cs ce s'
      else s'

  unfoldable pub try_close : ℕ → ℕ → State sl cs ce → Option (Bool × State sl cs ce)
  try_close id now s = elim (decode_tracing_id s.cache.geom id) [
    | none ↦ some (false, s)
    | some (shard, slab_idx) ↦ elim (get_elem? s.cache.in_flight shard) [
      | none ↦ none
      | some lane ↦ elim (sl.try_remove lane.slab slab_idx) [
        | none ↦ some (false, s)
        | some (rec, slab) ↦
            some
              (true, push_span (record rec { closed_at = some now }) (put_slab s shard lane slab))
      ]
    ]
  ]
