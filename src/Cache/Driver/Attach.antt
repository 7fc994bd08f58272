-- ===== src/Cache/Driver/Attach.antt =====
-- How a batch of spans takes its parked events, in tracing-cache/src/driver.rs.
use mathlib.Core.List.{append-nil}
use tracing_console.Base.{
  ℕ, Bool, true, false, not, ◌||◌, List, [], ◌∷◌, map, none, if◌then◌else◌, ◌==◌, ◌≡◌, refl, arith,
}
use tracing_console.Base.OrdMap.{lookup, lookup-remove, remove-Above, length-remove-le}
use tracing_console.Cache.Record.{SpanRecord}
use tracing_console.Cache.Driver.{SideEvents, extend, is_empty, attach, prepare}
use tracing_console.Cache.Driver.Buffer.{parked, IsBuffer}

module _ {Meta : Type 0} where
  -- A span with the events that are parked for it behind its own.
  abbrev pub completed : SideEvents Meta → SpanRecord Meta → SpanRecord Meta
  completed side span = extend span (parked span.id side)

  abbrev pub has_id : ℕ → List (SpanRecord Meta) → Bool
  has_id k [] = false
  has_id k (span ∷ batch) = span.id == k || has_id k batch

  -- No two spans of the batch have one id.
  abbrev pub DistinctIds : List (SpanRecord Meta) → Type 0
  DistinctIds [] = Unit {0}
  DistinctIds (span ∷ batch) = (has_id span.id batch ≡ false) × DistinctIds batch

  attach-completed :
      (span : SpanRecord Meta) (side : SideEvents Meta)
      → (attach true span side).0 ≡ completed side span
  unfolding attach
  attach-completed span side = ground (arith, append-nil span.events)

  attach-IsBuffer :
      (capacity : ℕ) (any_side : Bool) (span : SpanRecord Meta) (side : SideEvents Meta)
      → IsBuffer capacity side
      → IsBuffer capacity (attach any_side span side).1
  unfolding attach
  attach-IsBuffer capacity any_side span side v =
      ground (arith, remove-Above 0 span.id side v.sorted, length-remove-le span.id side)

  lookup-attach :
      (k : ℕ) (span : SpanRecord Meta) (side : SideEvents Meta)
      → lookup k (attach true span side).1 ≡ (if span.id == k then none else lookup k side)
  unfolding attach
  lookup-attach k span side = ground (arith, lookup-remove span.id k side)

  parked-attach :
      (k : ℕ) (span : SpanRecord Meta) (side : SideEvents Meta)
      → (span.id == k) ≡ false
      → parked k (attach true span side).1 ≡ parked k side
  parked-attach k span side e = ground (arith, lookup-attach k span side)

  completed-attach :
      (span : SpanRecord Meta) (side : SideEvents Meta) (batch : List (SpanRecord Meta))
      → has_id span.id batch ≡ false
      → map (completed (attach true span side).1) batch ≡ map (completed side) batch
  completed-attach span side [] e = refl
  completed-attach span side (other ∷ batch) e =
      ground (arith, parked-attach other.id span side, completed-attach span side batch)

  -- Each span of a batch with distinct ids takes exactly the events parked for it, in order.
  prepare-completed :
      (batch : List (SpanRecord Meta)) (side : SideEvents Meta)
      → DistinctIds batch
      → (prepare true batch side).0 ≡ map (completed side) batch
  unfolding prepare
  prepare-completed [] side d = refl
  prepare-completed (span ∷ batch) side d = ground (
    arith,
    attach-completed span side,
    prepare-completed batch (attach true span side).1 d.1,
    completed-attach span side batch d.0,
  )

  lookup-prepare :
      (k : ℕ) (batch : List (SpanRecord Meta)) (side : SideEvents Meta)
      → lookup k (prepare true batch side).1 ≡ (if has_id k batch then none else lookup k side)
  unfolding prepare
  lookup-prepare k [] side = refl
  lookup-prepare k (span ∷ batch) side =
      ground (arith, lookup-prepare k batch (attach true span side).1, lookup-attach k span side)

  prepare_empty : (batch : List (SpanRecord Meta)) → prepare false batch [] ≡ prepare true batch []
  unfolding prepare attach lookup
  prepare_empty [] = refl
  prepare_empty (span ∷ batch) = rw (prepare_empty batch) refl

  -- The test for an empty buffer is made once, before the loop, and changes no result.
  prepare_any :
      (batch : List (SpanRecord Meta)) (side : SideEvents Meta)
      → prepare (not (is_empty side)) batch side ≡ prepare true batch side
  prepare_any batch [] = prepare_empty batch
  prepare_any batch (e ∷ side) = refl

  -- A batch of spans with distinct ids: each span takes exactly the events parked for it, behind its
  -- own and in order; those buckets leave the buffer, and every other bucket stays.
  pub prepare_lem :
      (batch : List (SpanRecord Meta)) (side : SideEvents Meta)
      → DistinctIds batch
      → ((prepare (not (is_empty side)) batch side).0 ≡ map (completed side) batch)
        × ((k : ℕ)
            → lookup k (prepare (not (is_empty side)) batch side).1
              ≡ (if has_id k batch then none else lookup k side))
  prepare_lem batch side d =
      rw (prepare_any batch side) (prepare-completed batch side d, λ k. lookup-prepare k batch side)

  -- Taking the events of spans keeps the buffer sorted and does not make it longer.
  pub prepare-IsBuffer :
      (capacity : ℕ) (any_side : Bool) (batch : List (SpanRecord Meta)) (side : SideEvents Meta)
      → IsBuffer capacity side
      → IsBuffer capacity (prepare any_side batch side).1
  unfolding prepare
  prepare-IsBuffer capacity any_side [] side v = v
  prepare-IsBuffer capacity any_side (span ∷ batch) side v =
      prepare-IsBuffer capacity any_side batch (attach any_side span side).1
        (attach-IsBuffer capacity any_side span side v)
