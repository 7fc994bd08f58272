-- ===== src/Host/Wire/Laws.antt =====
-- What a span keeps on its way to the wire: tracing-console-host/src/wire.rs against the records of
-- tracing-cache and the readers of tracing-console-host/src/protocol.rs.
use tracing_console.Base.{
  ℕ, ◌+◌, ◌-◌, ◌≤◌, ◌<◌, [], ◌∷◌, Option, none, some, Bool-cases, inl, inr, ◌≡◌, refl, arith,
}
use tracing_console.Base.Int.{pos}
use tracing_console.Base.Text.{Text, text_eq}
use tracing_console.Base.Words.{u64_mod}
use tracing_console.Cache.Record.{
  FieldValue, FieldList, SpanRecord, field_get, to_display_string, contains as record_contains,
}
use tracing_console.Cache.Predicate.{Tracing}
use tracing_console.Host.Protocol.{WireFieldValue, to_string_value, contains, field}
use tracing_console.Host.Level.{Levels}
use tracing_console.Host.Wire.{
  Metadata, field_to_wire, fields_to_wire, TimeBase, ns, later, since_epoch, Unfilled, span_to_wire,
}
use tracing_console.Aggregate.State.{closed_or_opened}

abbrev pub to_wire_field : Option FieldValue → Option WireFieldValue
to_wire_field none = none
to_wire_field (some v) = some (field_to_wire v)

module _ (show_f64 : ℕ → Text) where
  display :
      (v : FieldValue) → to_string_value show_f64 (field_to_wire v) ≡ to_display_string show_f64 v
  unfolding field_to_wire to_string_value to_display_string
  display (FieldValue.u64 v) = refl
  display (FieldValue.i64 v) = refl
  display (FieldValue.f64 v) = refl
  display (FieldValue.bool v) = refl
  display (FieldValue.str v) = refl
  display (FieldValue.small_string v) = refl
  display (FieldValue.shared_string v) = refl
  display (FieldValue.string v) = refl

  contains_lem :
      (v : FieldValue) (needle : Text)
      → contains show_f64 (field_to_wire v) needle ≡ record_contains show_f64 v needle
  unfolding field_to_wire contains record_contains to_string_value to_display_string
  contains_lem (FieldValue.u64 v) needle = refl
  contains_lem (FieldValue.i64 v) needle = refl
  contains_lem (FieldValue.f64 v) needle = refl
  contains_lem (FieldValue.bool v) needle = refl
  contains_lem (FieldValue.str v) needle = refl
  contains_lem (FieldValue.small_string v) needle = refl
  contains_lem (FieldValue.shared_string v) needle = refl
  contains_lem (FieldValue.string v) needle = refl

  field-fields_to_wire :
      (fields : FieldList) (name : Text)
      → field (fields_to_wire fields) name ≡ to_wire_field (field_get fields name)
  unfolding field fields_to_wire field_get
  field-fields_to_wire [] name = refl
  field-fields_to_wire ((k, v) ∷ fields) name = elim (Bool-cases (text_eq.beq k name)) [
    | inl e ↦ rw e refl
    | inr e ↦ rw (e, field-fields_to_wire fields name) refl
  ]

  module _ {t : Tracing} (l : Levels t) (u : Unfilled (Metadata t)) where
    -- The readers of a wire span agree with those of the record it was made of: a name is looked up to
    -- the wire form of what the record holds under it, and a value's wire form prints the same text
    -- and contains the same texts as the value.
    pub field-span_to_wire :
        (base : TimeBase) (r : SpanRecord (Metadata t)) (name : Text)
        → (field (span_to_wire l u base r).fields name ≡ to_wire_field (field_get r.fields name))
          × ((v : FieldValue)
              → to_string_value show_f64 (field_to_wire v) ≡ to_display_string show_f64 v)
          × ((v : FieldValue) (needle : Text)
              → contains show_f64 (field_to_wire v) needle ≡ record_contains show_f64 v needle)
    unfolding span_to_wire
    field-span_to_wire base r name = (field-fields_to_wire r.fields name, display, contains_lem)

-- An instant from the start on is the wall clock's value at the start and the time since, unless that
-- leaves 64 bits.
ns_after :
    (inst wall time : ℕ)
    → inst ≤ time
    → wall + (time - inst) < u64_mod
    → ns (record { instant_at_start = inst; systime_at_start = pos wall }) time
      ≡ wall + (time - inst)
unfolding ns later since_epoch
ns_after inst wall time h small = omega arith

ns_before :
    (inst wall time : ℕ)
    → time ≤ inst
    → wall < u64_mod
    → ns (record { instant_at_start = inst; systime_at_start = pos wall }) time ≡ wall
unfolding ns later since_epoch
ns_before inst wall time h small = omega arith

module _ {t : Tracing} (l : Levels t) (u : Unfilled (Metadata t)) where
  -- With a wall clock not before the Unix epoch, a span that closes at or after its opening, and
  -- times that fit 64 bits: the console's duration of the wire span, closing less opening, is the
  -- record's when the server started before the span opened; when the server started while it was
  -- open, it is the time since the start; when the server started after it closed, it is 0.
  pub duration-span_to_wire :
      (inst wall : ℕ) (r : SpanRecord (Metadata t)) (closed : ℕ)
      → r.closed_at ≡ some closed
      → r.opened_at ≤ closed
      → wall + (closed - inst) < u64_mod
      → let w =
          span_to_wire l u (record { instant_at_start = inst; systime_at_start = pos wall }) r in
        let duration = closed_or_opened w - w.opened_at_ns in
        (inst ≤ r.opened_at → duration ≡ closed - r.opened_at)
        × (r.opened_at ≤ inst → inst ≤ closed → duration ≡ closed - inst)
        × (closed ≤ inst → duration ≡ 0)
  unfolding span_to_wire
  duration-span_to_wire inst wall r closed e order small = rw e (
    λ h. omega (
      arith,
      ns_after inst wall r.opened_at h (omega arith),
      ns_after inst wall closed (omega arith) small,
    ),
    λ h k.
        omega (
          arith,
          ns_before inst wall r.opened_at h (omega arith),
          ns_after inst wall closed k small,
        ),
    λ h. omega (
      arith,
      ns_before inst wall r.opened_at (omega arith) (omega arith),
      ns_before inst wall closed h (omega arith),
    ),
  )
