-- ===== src/Cache/Driver/Buffer.antt =====
-- The side buffer of tracing-cache/src/driver.rs: its bound, what it keeps, and what a span takes.
use mathlib.Core.List.{append-nil, append_assoc}
use tracing_console.Base.{
  ℕ, suc, ◌+◌, ◌≤◌, ◌<◌, max, List, [], ◌∷◌, ◌++◌, none, some, if◌then◌else◌, leb, ◌==◌, length,
  ◌≡◌, refl, sym, ◌∙◌, arith, Bool-cases, Option-cases, inl, inr,
}
use tracing_console.Base.OrdMap.{
  lookup, IsSorted, Above-mono, insert-Above, lookup-insert, lookup-below, length-insert_absent,
  length-insert_present,
}
use tracing_console.Cache.Record.{ReuseRef}
use tracing_console.Cache.Driver.{EventMessage, SideEvents, pop_first, park, flush_event_batch}

module _ {V : Type 0} where
  pop_first-IsSorted : (m : List (ℕ × V)) → IsSorted m → IsSorted (pop_first m)
  unfolding pop_first
  pop_first-IsSorted [] s = tt
  pop_first-IsSorted ((j, v) ∷ m) s = Above-mono 0 (suc j) m (omega arith) s.1

  length-pop_first : (m : List (ℕ × V)) → length (pop_first m) + 1 ≤ max (length m) 1
  unfolding pop_first
  length-pop_first [] = omega arith
  length-pop_first (e ∷ m) = omega arith

  lookup-pop_first :
      (j : ℕ) (v : V) (m : List (ℕ × V)) (k : ℕ)
      → IsSorted ((j, v) ∷ m)
      → lookup k (pop_first ((j, v) ∷ m)) ≡ (if j == k then none else lookup k ((j, v) ∷ m))
  unfolding pop_first lookup
  lookup-pop_first j v m k s = ground (arith, lookup-below (suc j) k m s.1)

  lookup-pop_first-none :
      (k : ℕ) (m : List (ℕ × V)) → lookup k m ≡ none → lookup k (pop_first m) ≡ none
  unfolding pop_first lookup
  lookup-pop_first-none k [] e = refl
  lookup-pop_first-none k ((j, v) ∷ m) e = ground arith

module _ {Meta : Type 0} where
  -- The events parked for an id.
  abbrev pub parked : ℕ → SideEvents Meta → List (ReuseRef Meta)
  parked k side = elim (lookup k side) [ none ↦ [] | some events ↦ events ]

  -- The buffer is sorted by id, and holds at most `capacity` ids (one, if that is 0).
  pub record IsBuffer (capacity : ℕ) (side : SideEvents Meta) : Type 0 where
    pub sorted : IsSorted side
    pub bounded : length side ≤ max capacity 1

  park-IsBuffer :
      (capacity : ℕ) (msg : EventMessage Meta) (side : SideEvents Meta)
      → IsBuffer capacity side
      → IsBuffer capacity (park capacity msg side)
  unfolding park
  park-IsBuffer capacity msg side v = elim (Option-cases (lookup p side)) [
    | inl e ↦ elim (Bool-cases (leb capacity (length side))) [
      | inl full ↦
          rw (e, park, full)
            (record {
              sorted =
                  insert-Above 0 p _ (pop_first side) (omega arith)
                    (pop_first-IsSorted side v.sorted);
              bounded = omega (
                arith,
                length-insert_absent p (msg.record_ref ∷ []) (pop_first side)
                    (lookup-pop_first-none p side e),
                length-pop_first side,
                v.bounded,
              );
            })
      | inr room ↦
          rw (e, park, room)
            (record {
              sorted = insert-Above 0 p _ side (omega arith) v.sorted;
              bounded = ground (arith, length-insert_absent p (msg.record_ref ∷ []) side e);
            })
    ]
    | inr (events, e) ↦
        rw (e, park)
          (record {
            sorted = insert-Above 0 p _ side (omega arith) v.sorted;
            bounded = omega (
              arith,
              length-insert_present p (events ++ msg.record_ref ∷ []) events 0 side v.sorted e,
              v.bounded,
            );
          })
  ]
    where
      open msg use {parent_actual_id as p}

  -- After each batch of events the side buffer is sorted, and within its bound.
  pub flush_event_batch-IsBuffer :
      (capacity : ℕ) (batch : List (EventMessage Meta)) (side : SideEvents Meta)
      → IsBuffer capacity side
      → IsBuffer capacity (flush_event_batch capacity batch side)
  unfolding flush_event_batch
  flush_event_batch-IsBuffer capacity [] side v = v
  flush_event_batch-IsBuffer capacity (msg ∷ batch) side v =
      flush_event_batch-IsBuffer capacity batch (park capacity msg side)
        (park-IsBuffer capacity msg side v)

  -- With room in the buffer a message goes behind the events of its id, and no other id's change.
  parked-park :
      (capacity k : ℕ) (msg : EventMessage Meta) (side : SideEvents Meta)
      → length side < capacity
      → parked k (park capacity msg side) ≡ (
          if msg.parent_actual_id == k then parked k side ++ msg.record_ref ∷ [] else parked k side)
  unfolding park
  parked-park capacity k msg side room = ground (
    arith,
    lookup-insert msg.parent_actual_id k (msg.record_ref ∷ []) side,
    lookup-insert msg.parent_actual_id k (parked msg.parent_actual_id side ++ msg.record_ref ∷ [])
        side,
  )

  -- A message for a new id, when the buffer is full: the smallest id is dropped with all its events,
  -- the new id has the message alone, and each other id keeps its events.
  pub park_evicts :
      (capacity k oldest : ℕ) (events : List (ReuseRef Meta)) (msg : EventMessage Meta)
      (side : SideEvents Meta)
      → IsSorted ((oldest, events) ∷ side)
      → capacity ≤ length ((oldest, events) ∷ side)
      → lookup msg.parent_actual_id ((oldest, events) ∷ side) ≡ none
      → lookup k (park capacity msg ((oldest, events) ∷ side)) ≡ (
          if msg.parent_actual_id == k
          then some (msg.record_ref ∷ [])
          else if oldest == k
          then none
          else lookup k ((oldest, events) ∷ side))
  unfolding park
  park_evicts capacity k oldest events msg side s full absent = ground (
    arith,
    lookup-insert msg.parent_actual_id k (msg.record_ref ∷ [])
        (pop_first ((oldest, events) ∷ side)),
    lookup-pop_first oldest events side k s,
  )

  -- The events of a batch that are for an id, in order.
  abbrev pub refs_for : ℕ → List (EventMessage Meta) → List (ReuseRef Meta)
  refs_for k [] = []
  refs_for k (msg ∷ batch) =
      if msg.parent_actual_id == k then msg.record_ref ∷ refs_for k batch else refs_for k batch

  length-park-le :
      (capacity : ℕ) (msg : EventMessage Meta) (side : SideEvents Meta)
      → IsSorted side
      → length side < capacity
      → length (park capacity msg side) ≤ length side + 1
  unfolding park
  length-park-le capacity msg side s room = elim (Option-cases (lookup msg.parent_actual_id side)) [
    | inl e ↦ ground (arith, length-insert_absent msg.parent_actual_id (msg.record_ref ∷ []) side e)
    | inr (events, e) ↦
        rw (e, park)
          (omega (
            arith,
            length-insert_present msg.parent_actual_id (events ++ msg.record_ref ∷ []) events 0 side
                s e,
          ))
  ]

  -- While there is room for each message of a batch to bring a new id, no event is lost: each id has
  -- the events it had, and then its events of the batch in the order in which they were sent.
  pub parked-flush_event_batch :
      (capacity k : ℕ) (batch : List (EventMessage Meta)) (side : SideEvents Meta)
      → IsBuffer capacity side
      → length side + length batch ≤ capacity
      → parked k (flush_event_batch capacity batch side) ≡ parked k side ++ refs_for k batch
  unfolding flush_event_batch
  parked-flush_event_batch capacity k [] side v room = sym (append-nil (parked k side))
  parked-flush_event_batch capacity k (msg ∷ batch) side v room =
      parked-flush_event_batch capacity k batch (park capacity msg side)
        (park-IsBuffer capacity msg side v)
        (omega (arith, length-park-le capacity msg side v.sorted (omega arith)))
      ∙ rw (parked-park capacity k msg side (omega arith))
          (ground (arith, append_assoc (parked k side) (msg.record_ref ∷ []) (refs_for k batch)))
