-- ===== src/Aggregate/Labels.antt =====
-- tracing-console/src/aggregate/util.rs: the candidates for split keys and the labels of the flat table.
-- Formatting of times is left to the standard library.
use tracing_console.Base.{
  ℕ, zero, suc, ◌-◌, Bool, true, false, ◌||◌, not, List, [], ◌∷◌, ◌++◌, Option, none, some,
  if◌then◌else◌, ltb, ◌==◌, length, get_elem?,
}
use tracing_console.Base.Text.{Text, text_eq}
use tracing_console.Host.Protocol.{WireFieldValue, WireSpan}
use tracing_console.Aggregate.State.{Aggregator}
use tracing_console.Aggregate.State.Keys.{stack_eq, text_le}
use tracing_console.Aggregate.State.Rebuild.{iter_with_stack}

-- `BTreeSet::insert`.
unfoldable pub insert_text : Text → List Text → List Text
unfolding text_le
insert_text k [] = k ∷ []
insert_text k (t ∷ ts) =
    let rest = insert_text k ts in
    if text_eq.beq k t then t ∷ ts else if text_le k t then k ∷ t ∷ ts else t ∷ rest

unfoldable pub insert_names : List (Text × WireFieldValue) → List Text → List Text
unfolding insert_text
insert_names [] keys = keys
insert_names ((name, v) ∷ fields) keys = insert_names fields (insert_text name keys)

unfoldable pub collect_names : List Text → List (WireSpan × List Text) → List Text → List Text
unfolding insert_names
collect_names target [] keys = keys
collect_names target ((s, stack) ∷ rest) keys =
    collect_names target rest
      (if stack_eq.beq stack target then insert_names s.fields keys else keys)

unfoldable pub candidate_split_keys_for : Aggregator → List Text → List Text
unfolding collect_names iter_with_stack
candidate_split_keys_for agg target_stack = collect_names target_stack (iter_with_stack agg) []

abbrev pub take_texts : ℕ → List Text → List Text
take_texts zero ts = []
take_texts (suc n) [] = []
take_texts (suc n) (t ∷ ts) = t ∷ take_texts n ts

abbrev drop_rows {ℓ} : {A : Type ℓ} → ℕ → List A → List A
drop_rows zero rows = rows
drop_rows (suc n) [] = []
drop_rows (suc n) (row ∷ rows) = drop_rows n rows

abbrev text_or_empty : Option Text → Text
text_or_empty none = []
text_or_empty (some t) = t

-- The loop over the stacks of the later rows.
unfoldable pub sibling_in : List Text → Text → ℕ → List (List Text) → Bool
sibling_in prefix needle d [] = false
sibling_in prefix needle d (sj ∷ rest) =
    let later = sibling_in prefix needle d rest in
    if ltb (length sj) (d - 1) || not (stack_eq.beq (take_texts (d - 1) sj) prefix)
    then false
    else if ltb (length sj) d
    then later
    else if text_eq.beq (text_or_empty (get_elem? sj (d - 1))) needle
    then later
    else true

-- For the stacks of the rows, of which `s` is that of the i-th.
unfoldable pub has_sibling_after : List (List Text) → List Text → ℕ → ℕ → Bool
unfolding sibling_in
has_sibling_after stacks s i d =
    if (d == 0) || ltb (length s) d
    then false
    else sibling_in (take_texts (d - 1) s) (text_or_empty (get_elem? s (d - 1))) d
        (drop_rows (suc i) stacks)

-- The pieces of the prefix, in UTF-8.
abbrev pub bar : Text
bar = 226 ∷ 148 ∷ 130 ∷ 32 ∷ 32 ∷ []

abbrev pub blank : Text
blank = 32 ∷ 32 ∷ 32 ∷ []

abbrev pub tee : Text
tee = 226 ∷ 148 ∷ 156 ∷ 226 ∷ 148 ∷ 128 ∷ 32 ∷ []

abbrev pub corner : Text
corner = 226 ∷ 148 ∷ 148 ∷ 226 ∷ 148 ∷ 128 ∷ 32 ∷ []

-- The loop over the depths; `left` of them are to come, from `d` on.
unfoldable pub tree_prefix : List (List Text) → List Text → ℕ → ℕ → ℕ → Text
unfolding has_sibling_after
tree_prefix stacks s i d zero = []
tree_prefix stacks s i d (suc left) =
    let has_sibling = has_sibling_after stacks s i d in
    let rest = tree_prefix stacks s i (suc d) left in
    (if ltb d (length s)
      then (if has_sibling then bar else blank)
      else if has_sibling
      then tee
      else corner)
    ++ rest

-- `tree_label`. None is a row out of bounds, which panics.
unfoldable pub tree_label : List (List Text) → ℕ → Option Text
unfolding tree_prefix
tree_label stacks i = elim (get_elem? stacks i) [
  | none ↦ none
  | some stack ↦ some (elim stack [
    | [] ↦ []
    | name ∷ [] ↦ name
    | name ∷ below ∷ rest ↦
        tree_prefix stacks (name ∷ below ∷ rest) i 2 (suc (length rest))
        ++ text_or_empty (get_elem? (name ∷ below ∷ rest) (suc (length rest)))
  ])
]
