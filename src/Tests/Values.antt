-- ===== src/Tests/Values.antt =====
-- Examples of the predicates and of the field lists.
use tracing_console.Base.{ℕ, ◌≡◌, true, false, List, [], ◌∷◌, none, some}
use tracing_console.Cache.Record.{FieldList, u64, bool, Visited, unsigned}
use tracing_console.Base.Text.{Text}
use tracing_console.Cache.Predicate.{
  Attributes, EnabledPredicate, Interest, with_filter, level_predicate,
}
use tracing_console.Cache.Predicate.Laws.{level_predicate_decides}
use tracing_console.Tests.Instances.{levels, Filter}

-- A child span whose metadata is its level.
abbrev child : Attributes ℕ
child = record { is_contextual = true; is_root = false; parent = none; metadata = 2; values = [] }

abbrev level_of : ℕ → ℕ
level_of m = m

level_predicate_decides_example :
    ((level_predicate levels level_of (with_filter levels Filter.warn)).enabled 2 ≡ false)
    × ((level_predicate levels level_of (with_filter levels Filter.warn)).new_span_enabled child
        ≡ false)
    × ((level_predicate levels level_of (with_filter levels Filter.warn)).callsite_enabled 2
        ≡ Interest.never)
    × ((level_predicate levels level_of (with_filter levels Filter.warn)).max_level_hint
        ≡ some Filter.warn)
level_predicate_decides_example = level_predicate_decides levels level_of Filter.warn child

abbrev inner : EnabledPredicate Filter ℕ
inner = record {
  max_level_hint = none;
  callsite_enabled = λ m. Interest.always;
  enabled = λ m. true;
  new_span_enabled = λ span. true;
}

-- Two fields, of which one is visited again, and a new one.
abbrev fields : FieldList
fields = (1 ∷ [], u64 10) ∷ (2 ∷ [], bool true) ∷ []

abbrev visits : List (Text × Visited)
visits = (1 ∷ [], unsigned 11) ∷ (3 ∷ [], unsigned 12) ∷ []
