-- ===== src/Cache/Record.antt =====
-- tracing-cache/src/record.rs: field values and lists, the records of spans and events, and the
-- visitor that captures fields. Texts are their bytes, an `Instant` is a number of nanoseconds, an
-- `f64` is its bit pattern, and the metadata of a callsite is an opaque type of the tracing crate.
pub mod Laws
use tracing_console.Base.{ℕ, Bool, List, [], ◌∷◌, ◌++◌, Option, none, some, if◌then◌else◌, Eq}
use tracing_console.Base.Int.{ℤ}
use tracing_console.Base.Text.{
  Text, text_eq, show_nat, show_int, show_bool, contains as text_contains,
}

pub data FieldValue : Type 0 where
  u64 : ℕ → FieldValue
  i64 : ℤ → FieldValue
  f64 : ℕ → FieldValue
  bool : Bool → FieldValue
  str : Text → FieldValue
  small_string : Text → FieldValue
  shared_string : Text → FieldValue
  string : Text → FieldValue

abbrev pub FieldList : Type 0
FieldList = List (Text × FieldValue)

-- The printing of floats is the standard library's.
module _ (show_f64 : ℕ → Text) where
  unfoldable pub to_display_string : FieldValue → Text
  unfolding show_nat show_int show_bool
  to_display_string (u64 v) = show_nat v
  to_display_string (i64 v) = show_int v
  to_display_string (f64 v) = show_f64 v
  to_display_string (bool v) = show_bool v
  to_display_string (str s) = s
  to_display_string (small_string s) = s
  to_display_string (shared_string s) = s
  to_display_string (string s) = s

  unfoldable pub contains : FieldValue → Text → Bool
  contains (str s) needle = text_contains s needle
  contains (small_string s) needle = text_contains s needle
  contains (shared_string s) needle = text_contains s needle
  contains (string s) needle = text_contains s needle
  contains value needle = text_contains (to_display_string value) needle

unfoldable pub field_get : FieldList → Text → Option FieldValue
field_get [] name = none
field_get ((k, v) ∷ fields) name = if text_eq.beq k name then some v else field_get fields name

-- `metadata` and `recorded_at` are absent only in a pooled record that is not yet filled.
pub record EventRecord (Meta : Type 0) : Type 0 where
  pub metadata : Option Meta
  pub fields : FieldList
  pub recorded_at : Option ℕ

-- `Resettable::reset`, and the `Default` of a fresh record.
unfoldable pub reset : {Meta : Type 0} → EventRecord Meta → EventRecord Meta
reset e = record e { metadata = none; fields = []; recorded_at = none }

unfoldable pub default_event : {Meta : Type 0} → EventRecord Meta
default_event = record { metadata = none; fields = []; recorded_at = none }

-- A pooled reference: the record, and the pool shard that its allocation returns to.
pub record ReuseRef (Meta : Type 0) : Type 0 where
  pub value : EventRecord Meta
  pub pool : ℕ

pub record SpanRecord (Meta : Type 0) : Type 0 where
  pub id : ℕ
  pub parent_id : Option ℕ
  pub metadata : Meta
  pub fields : FieldList
  pub events : List (ReuseRef Meta)
  pub opened_at : ℕ
  pub closed_at : Option ℕ

-- `FieldVisitor::set`: replace the entry of that name, or append a new one.
unfoldable pub set : Text → FieldValue → FieldList → FieldList
set name value [] = (name, value) ∷ []
set name value ((k, v) ∷ fields) =
    if text_eq.beq k name then (k, value) ∷ fields else (k, v) ∷ set name value fields

-- What `tracing::field::Visit` delivers. The texts of debug values and errors are formatted.
pub data Visited : Type 0 where
  debug : Text → Visited
  text : Text → Visited
  signed : ℤ → Visited
  unsigned : ℕ → Visited
  boolean : Bool → Visited
  float : ℕ → Visited
  error : Text → Visited

-- The value that each `record_*` method stores.
unfoldable pub captured : Visited → FieldValue
captured (debug s) = small_string s
captured (text s) = small_string s
captured (signed v) = i64 v
captured (unsigned v) = u64 v
captured (boolean v) = bool v
captured (float v) = f64 v
captured (error s) = small_string s

-- `attrs.record(&mut visitor)`: the fields are visited in order.
unfoldable pub record_fields : List (Text × Visited) → FieldList → FieldList
record_fields [] fields = fields
record_fields ((name, v) ∷ rest) fields = record_fields rest (set name (captured v) fields)
