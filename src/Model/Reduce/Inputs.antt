-- ===== src/Model/Reduce/Inputs.antt =====
-- The filters of the characters that `Model::apply` in tracing-console/src/model/core.rs takes into its
-- inputs, and its set of hidden series.
use tracing_console.Base.{
  ℕ, ◌+◌, Bool, true, false, ◌||◌, ◌&&◌, not, List, [], ◌∷◌, ◌++◌, Option, none, some,
  if◌then◌else◌, leb, ◌==◌, any, keep,
}
use tracing_console.Base.Text.{Text}
use tracing_console.Aggregate.State.Keys.{splits_eq}
use tracing_console.Model.Order.{key_le}
use tracing_console.Model.Graph.Store.{SeriesKey}
use tracing_console.Model.Core.{push_digit_or_decimal}

-- The letters are 97 to 122, and 65 to 90 as capitals.
unfoldable pub to_ascii_lowercase : ℕ → ℕ
to_ascii_lowercase c = if leb 65 c && leb c 90 then c + 32 else c

unfoldable pub push_agg_char : Text → ℕ → Text
unfolding to_ascii_lowercase
push_agg_char buf typed =
    let c = to_ascii_lowercase typed in
    if (leb 97 c && leb c 122) || (leb 48 c && leb c 57) || (c == 46)
    then (if (c == 46) && any (λ d. d == 46) buf then buf else buf ++ c ∷ [])
    else buf

unfoldable pub ends_with : ℕ → Text → Bool
ends_with c [] = false
ends_with c (d ∷ []) = d == c
ends_with c (d ∷ e ∷ s) = ends_with c (e ∷ s)

abbrev is_blank : Text → Bool
is_blank [] = true
is_blank (c ∷ s) = false

unfoldable pub push_lookback_char : Text → ℕ → Text
unfolding ends_with push_digit_or_decimal
push_lookback_char buf c =
    let has_suffix = ends_with 115 buf || ends_with 109 buf in
    let (pushed, kept) = push_digit_or_decimal buf c in
    if has_suffix
    then buf
    else if not kept && ((c == 115) || (c == 109)) && not (is_blank buf)
    then pushed ++ c ∷ []
    else pushed

-- An open input takes a character; a closed one stays so.
abbrev pub typed_into : (Text → Text) → Option Text → Option Text
typed_into push none = none
typed_into push (some buf) = some (push buf)

-- A set of series keys, in order, without `key`, if it was in, or else with it.
unfoldable pub insert_key : SeriesKey → List SeriesKey → List SeriesKey
unfolding key_le
insert_key key [] = key ∷ []
insert_key key (k ∷ ks) =
    let rest = insert_key key ks in if key_le key k then key ∷ k ∷ ks else k ∷ rest

unfoldable pub toggle_key : SeriesKey → List SeriesKey → List SeriesKey
unfolding insert_key
toggle_key key keys =
    if any (λ k. splits_eq.beq k key) keys
    then keep (λ k. not (splits_eq.beq k key)) keys
    else insert_key key keys
