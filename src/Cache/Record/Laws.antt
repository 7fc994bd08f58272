-- ===== src/Cache/Record/Laws.antt =====
-- What the field visitor of tracing-cache/src/record.rs promises.
use tracing_console.Base.{
  List, [], ◌∷◌, Option, none, some, if◌then◌else◌, ◌≡◌, refl, ap, ◌∙◌, arith,
}
use tracing_console.Base.Text.{Text, text_eq}
use tracing_console.Cache.Record.{
  FieldValue, FieldList, field_get, set, Visited, captured, record_fields,
}

pub field_get-set :
    (name other : Text) (value : FieldValue) (fields : FieldList)
    → field_get (set name value fields) other
      ≡ (if text_eq.beq name other then some value else field_get fields other)
unfolding field_get set
field_get-set name other value [] = refl
field_get-set name other value ((k, v) ∷ fields) = ground (
  arith,
  text_eq.beq_iff k name,
  text_eq.beq_iff k other,
  text_eq.beq_iff name other,
  field_get-set name other value fields,
)

-- The value visited last under a name, if there is one; otherwise the other one.
abbrev pub last_visited : Text → List (Text × Visited) → Option FieldValue → Option FieldValue
last_visited name [] before = before
last_visited name ((k, v) ∷ rest) before =
    last_visited name rest (if text_eq.beq k name then some (captured v) else before)

-- After a visit, a name holds the value that was visited last under it, and a name that was not
-- visited holds what it held before.
pub field_get-record_fields :
    (name : Text) (visits : List (Text × Visited)) (fields : FieldList)
    → field_get (record_fields visits fields) name
      ≡ last_visited name visits (field_get fields name)
unfolding record_fields
field_get-record_fields name [] fields = refl
field_get-record_fields name ((k, v) ∷ rest) fields =
    field_get-record_fields name rest (set k (captured v) fields)
    ∙ ap (last_visited name rest) (field_get-set k name (captured v) fields)

-- No name stands twice.
abbrev IsDistinct : FieldList → Type 0
IsDistinct [] = Unit {0}
IsDistinct ((k, v) ∷ fields) = (field_get fields k ≡ none) × IsDistinct fields

set-IsDistinct :
    (name : Text) (value : FieldValue) (fields : FieldList)
    → IsDistinct fields
    → IsDistinct (set name value fields)
unfolding field_get set
set-IsDistinct name value [] d = (refl, tt)
set-IsDistinct name value ((k, v) ∷ fields) d = ground (
  arith,
  text_eq.beq_iff k name,
  text_eq.beq_iff name k,
  field_get-set name k value fields,
  set-IsDistinct name value fields d.1,
)

-- A visit keeps the names of a field list distinct.
record_fields-IsDistinct :
    (visits : List (Text × Visited)) (fields : FieldList)
    → IsDistinct fields
    → IsDistinct (record_fields visits fields)
unfolding record_fields
record_fields-IsDistinct [] fields d = d
record_fields-IsDistinct ((k, v) ∷ rest) fields d =
    record_fields-IsDistinct rest (set k (captured v) fields)
      (set-IsDistinct k (captured v) fields d)
