-- ===== src/Cache/Driver.antt =====
-- tracing-cache/src/driver.rs. The driver's state is its side buffer and its subscribers; a run of
-- the loop is a sequence of arrivals. The channel crate enters as an interface.
pub mod Attach
pub mod Buffer
pub mod Fanout
pub mod Run
use tracing_console.Base.{
  ℕ, ◌+◌, Bool, true, false, not, ◌&&◌, List, [], ◌∷◌, ◌++◌, Option, none, some, if◌then◌else◌, ltb,
  leb, length, ◌≡◌,
}
use tracing_console.Base.OrdMap.{lookup, insert, remove}
use tracing_console.Cache.Record.{SpanRecord, ReuseRef}

pub data SendResult : Type 0 where
  sent full closed : SendResult

-- What the code relies on of `spillway::Sender`: `send_many` delivers the whole batch in order, or
-- delivers nothing, because the channel is full or because its receiver is gone.
pub record Channel (A : Type 0) : Type 1 where
  pub Sender : Type 0
  pub delivered : Sender → List A
  pub send_many : Sender → List A → SendResult × Sender
  pub sent_delivers :
      (s : Sender) (batch : List A)
      → (send_many s batch).0 ≡ SendResult.sent
      → delivered (send_many s batch).1 ≡ delivered s ++ batch
  pub full_keeps :
      (s : Sender) (batch : List A)
      → (send_many s batch).0 ≡ SendResult.full
      → delivered (send_many s batch).1 ≡ delivered s

pub record EventMessage (Meta : Type 0) : Type 0 where
  pub parent_actual_id : ℕ
  pub record_ref : ReuseRef Meta

-- `side_events`: the events whose span has not arrived, by the span's id.
abbrev pub SideEvents : Type 0 → Type 0
SideEvents Meta = List (ℕ × List (ReuseRef Meta))

-- `BTreeMap::pop_first`.
unfoldable pub pop_first {ℓ} : {V : Type ℓ} → List (ℕ × V) → List (ℕ × V)
pop_first [] = []
pop_first (e ∷ m) = m

module _ {Meta : Type 0} where
  -- One message of `flush_event_batch`.
  unfoldable pub park : ℕ → EventMessage Meta → SideEvents Meta → SideEvents Meta
  unfolding pop_first
  park capacity msg side = elim (lookup msg.parent_actual_id side) [
    | some events ↦ insert msg.parent_actual_id (events ++ msg.record_ref ∷ []) side
    | none ↦
        insert msg.parent_actual_id (msg.record_ref ∷ [])
          (if leb capacity (length side) then pop_first side else side)
  ]

  -- `Driver::flush_event_batch`; an empty batch changes nothing.
  unfoldable pub flush_event_batch :
      ℕ → List (EventMessage Meta) → SideEvents Meta → SideEvents Meta
  flush_event_batch capacity [] side = side
  flush_event_batch capacity (msg ∷ batch) side =
      flush_event_batch capacity batch (park capacity msg side)

  -- `span.events.extend(events)`.
  abbrev pub extend : SpanRecord Meta → List (ReuseRef Meta) → SpanRecord Meta
  extend span events = record span { events = span.events ++ events }

  abbrev pub is_empty : SideEvents Meta → Bool
  is_empty [] = true
  is_empty (e ∷ m) = false

  -- One span of the loop in `flush_span_batch`: the span, and the side buffer after.
  unfoldable pub attach :
      Bool → SpanRecord Meta → SideEvents Meta → SpanRecord Meta × SideEvents Meta
  attach any_side span side =
      if any_side
      then (elim (lookup span.id side) [
        | some events ↦ (extend span events, remove span.id side)
        | none ↦ (span, side)
      ])
      else (span, side)

  unfoldable pub prepare :
      Bool → List (SpanRecord Meta) → SideEvents Meta → List (SpanRecord Meta) × SideEvents Meta
  prepare any_side [] side = ([], side)
  prepare any_side (span ∷ batch) side =
      let (span', side') = attach any_side span side in
      let (prepared, side'') = prepare any_side batch side' in (span' ∷ prepared, side'')

module _ {Meta : Type 0} (c : Channel (SpanRecord Meta)) where
  -- `subs.retain(..)`: a subscriber whose receiver is gone is removed.
  unfoldable pub retain_open : List (SpanRecord Meta) → List c.Sender → List c.Sender
  retain_open prepared [] = []
  retain_open prepared (s ∷ subs) =
      let rest = retain_open prepared subs in
      let (result, s') = c.send_many s prepared in
      elim result [
        | SendResult.closed ↦ rest
        | SendResult.sent ↦ s' ∷ rest
        | SendResult.full ↦ s' ∷ rest
      ]

  unfoldable pub fanout_under_lock : List c.Sender → List (SpanRecord Meta) → List c.Sender
  unfolding retain_open
  fanout_under_lock subs [] = subs
  fanout_under_lock subs (span ∷ prepared) = retain_open (span ∷ prepared) subs

  pub record Driver : Type 0 where
    pub capacity : ℕ
    pub side_events : SideEvents Meta
    pub subscribers : List c.Sender

  -- `Driver::flush_span_batch`; an empty batch changes nothing.
  unfoldable pub flush_span_batch : List (SpanRecord Meta) → Driver → Driver
  flush_span_batch [] d = d
  flush_span_batch (span ∷ batch) d =
      let (prepared, side) = prepare (not (is_empty d.side_events)) (span ∷ batch) d.side_events in
      record d { side_events = side; subscribers = fanout_under_lock d.subscribers prepared }

  unfoldable pub flush_events : List (EventMessage Meta) → Driver → Driver
  flush_events batch d = record d { side_events = flush_event_batch d.capacity batch d.side_events }

  -- What `next_batch` of the two receivers yields: a batch, or that the channel is closed.
  pub data Arrival : Type 0 where
    event_batch : List (EventMessage Meta) → Arrival
    span_batch : List (SpanRecord Meta) → Arrival
    event_end span_end : Arrival

  pub record Loop : Type 0 where
    pub driver : Driver
    pub span_closed : Bool
    pub event_closed : Bool

  -- One round of `Driver::run`: a branch is polled only while its channel is open.
  unfoldable pub select : Arrival → Loop → Loop
  select (event_batch batch) l =
      if l.event_closed then l else record l { driver = flush_events batch l.driver }
  select (span_batch batch) l =
      if l.span_closed then l else record l { driver = flush_span_batch batch l.driver }
  select event_end l = record l { event_closed = true }
  select span_end l = record l { span_closed = true }

  -- The loop ends once both channels are closed, and then polls nothing more.
  unfoldable pub run_loop : List Arrival → Loop → Loop
  run_loop [] l = l
  run_loop (a ∷ arrivals) l =
      let rest = run_loop arrivals (select a l) in
      if l.span_closed && l.event_closed then l else rest

  unfoldable pub run : List Arrival → Driver → Loop
  run arrivals d =
      run_loop arrivals (record { driver = d; span_closed = false; event_closed = false })

  -- `Driver::drain_sync`: all waiting events, then all waiting spans.
  unfoldable pub drain_sync : List (EventMessage Meta) → List (SpanRecord Meta) → Driver → Driver
  drain_sync events spans d = flush_span_batch spans (flush_events events d)
