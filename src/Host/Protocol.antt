-- ===== src/Host/Protocol.antt =====
-- tracing-console-host/src/protocol.rs: the wire types that the console consumes. An `f64` is its bit
-- pattern, and its printing is the standard library's.
use tracing_console.Base.{ℕ, Bool, List, [], ◌∷◌, Option, none, some, if◌then◌else◌}
use tracing_console.Base.Int.{ℤ}
use tracing_console.Base.Text.{
  Text, text_eq, show_nat, show_int, show_bool, contains as text_contains,
}

pub data WireFieldValue : Type 0 where
  u64 : ℕ → WireFieldValue
  i64 : ℤ → WireFieldValue
  f64 : ℕ → WireFieldValue
  bool : Bool → WireFieldValue
  str : Text → WireFieldValue

module _ (show_f64 : ℕ → Text) where
  unfoldable pub to_string_value : WireFieldValue → Text
  unfolding show_nat show_int show_bool
  to_string_value (u64 v) = show_nat v
  to_string_value (i64 v) = show_int v
  to_string_value (f64 v) = show_f64 v
  to_string_value (bool v) = show_bool v
  to_string_value (str s) = s

  unfoldable pub contains : WireFieldValue → Text → Bool
  contains (str s) needle = text_contains s needle
  contains other needle = text_contains (to_string_value other) needle

pub data WireLevel : Type 0 where
  trace debug info warn error : WireLevel

pub record WireEvent : Type 0 where
  pub name : Text
  pub level : WireLevel
  pub fields : List (Text × WireFieldValue)
  pub recorded_at_ns : ℕ

pub record WireSpan : Type 0 where
  pub id : ℕ
  pub parent_id : Option ℕ
  pub name : Text
  pub target : Text
  pub level : WireLevel
  pub fields : List (Text × WireFieldValue)
  pub events : List WireEvent
  pub opened_at_ns : ℕ
  pub closed_at_ns : Option ℕ

-- `WireSpan::field` and `WireEvent::field`: the first field of that name.
unfoldable pub field : List (Text × WireFieldValue) → Text → Option WireFieldValue
field [] name = none
field ((k, v) ∷ fields) name = if text_eq.beq k name then some v else field fields name
