-- ===== src/Host/Wire.antt =====
-- tracing-console-host/src/wire.rs: the conversion of span and event records to the wire. An `Instant`
-- is a number of nanoseconds, the wall clock is a signed number of them since the Unix epoch; the
-- metadata of a callsite is what the tracing crate's accessors give.

pub mod Laws
use tracing_console.Base.{ℕ, suc, ◌+◌, ◌-◌, ◌%◌, List, map, Option, none, some, if◌then◌else◌, leb}
use tracing_console.Base.Int.{ℤ, pos, negsuc}
use tracing_console.Base.Text.{Text}
use tracing_console.Base.Words.{u64_mod}
use tracing_console.Cache.Record.{FieldValue, FieldList, EventRecord, ReuseRef, SpanRecord}
use tracing_console.Cache.Predicate.{Tracing}
use tracing_console.Host.Protocol.{WireFieldValue, WireEvent, WireSpan}
use tracing_console.Host.Level.{Levels, from_tracing}

-- What `Metadata` answers.
pub record Metadata (t : Tracing) : Type 0 where
  pub name : Text
  pub target : Text
  pub level : t.Level

unfoldable pub field_to_wire : FieldValue → WireFieldValue
field_to_wire (FieldValue.u64 v) = WireFieldValue.u64 v
field_to_wire (FieldValue.i64 v) = WireFieldValue.i64 v
field_to_wire (FieldValue.f64 v) = WireFieldValue.f64 v
field_to_wire (FieldValue.bool v) = WireFieldValue.bool v
field_to_wire (FieldValue.str s) = WireFieldValue.str s
field_to_wire (FieldValue.small_string s) = WireFieldValue.str s
field_to_wire (FieldValue.shared_string s) = WireFieldValue.str s
field_to_wire (FieldValue.string s) = WireFieldValue.str s

unfoldable pub fields_to_wire : FieldList → List (Text × WireFieldValue)
unfolding field_to_wire
fields_to_wire fields = map (λ kv. (kv.0, field_to_wire kv.1)) fields

pub record TimeBase : Type 0 where
  pub instant_at_start : ℕ
  pub systime_at_start : ℤ

-- `SystemTime + Duration`.
unfoldable pub later : ℤ → ℕ → ℤ
later (pos n) offset = pos (n + offset)
later (negsuc n) offset = if leb (suc n) offset then pos (offset - suc n) else negsuc (n - offset)

-- `duration_since(UNIX_EPOCH)`, which fails before the epoch, in nanoseconds `as u64`.
unfoldable pub since_epoch : ℤ → ℕ
since_epoch (pos n) = n % u64_mod
since_epoch (negsuc n) = 0

-- `TimeBase::ns`: the offset from the server's start saturates at 0.
unfoldable pub ns : TimeBase → ℕ → ℕ
unfolding later since_epoch
ns base t =
    let offset = t - base.instant_at_start in since_epoch (later base.systime_at_start offset)

-- The stand-ins that an event record gives while it is not filled.
pub record Unfilled (Meta : Type 0) : Type 0 where
  pub empty_metadata : Meta
  pub unfilled_instant : ℕ

-- `EventRecord::metadata` and `EventRecord::recorded_at`.
unfoldable pub event_metadata : {Meta : Type 0} → Unfilled Meta → EventRecord Meta → Meta
event_metadata u event = elim event.metadata [ none ↦ u.empty_metadata | some m ↦ m ]

unfoldable pub event_recorded_at : {Meta : Type 0} → Unfilled Meta → EventRecord Meta → ℕ
event_recorded_at u event = elim event.recorded_at [ none ↦ u.unfilled_instant | some at ↦ at ]

module _ {t : Tracing} (l : Levels t) (u : Unfilled (Metadata t)) where
  unfoldable pub event_to_wire : TimeBase → EventRecord (Metadata t) → WireEvent
  unfolding event_metadata event_recorded_at from_tracing fields_to_wire ns
  event_to_wire base event =
      let metadata = event_metadata u event in
      record {
        name = metadata.name;
        level = from_tracing l metadata.level;
        fields = fields_to_wire event.fields;
        recorded_at_ns = ns base (event_recorded_at u event);
      }

  unfoldable pub span_to_wire : TimeBase → SpanRecord (Metadata t) → WireSpan
  unfolding event_to_wire from_tracing fields_to_wire ns
  span_to_wire base r = record {
    id = r.id;
    parent_id = r.parent_id;
    name = r.metadata.name;
    target = r.metadata.target;
    level = from_tracing l r.metadata.level;
    fields = fields_to_wire r.fields;
    events = map (λ e. event_to_wire base e.value) r.events;
    opened_at_ns = ns base r.opened_at;
    closed_at_ns = elim r.closed_at [ none ↦ none | some t ↦ some (ns base t) ];
  }
