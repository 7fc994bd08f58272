-- ===== src/Model/Graph/Inputs.antt =====
-- The parsing of the inputs of the graph view, in tracing-console/src/model/graph.rs. The texts are of
-- ASCII characters, which are all that the inputs accept.
pub mod Laws
use tracing_console.Base.{
  ℕ, ◌+◌, ◌-◌, ◌≡◌, refl, Bool-cases, inl, inr, Bool, true, false, ◌||◌, ◌&&◌, not, List, [], ◌∷◌,
  ◌++◌, map, Option, none, some, if◌then◌else◌, leb, ◌==◌, arith,
}
use tracing_console.Base.Text.{Text, text_eq}
use tracing_console.Model.Reals.{Reals}
use tracing_console.Model.Graph.{AggMode}

-- A space, or one of tab, line feed, vertical tab, form feed and carriage return.
abbrev is_space : ℕ → Bool
is_space c = (c == 32) || (leb 9 c && leb c 13)

unfoldable pub trim_start : Text → Text
trim_start [] = []
trim_start (c ∷ s) = let rest = trim_start s in if is_space c then rest else c ∷ s

unfoldable pub trim_end : Text → Text
trim_end [] = []
trim_end (c ∷ s) =
    let rest = trim_end s in
    elim rest [ [] ↦ (if is_space c then [] else c ∷ []) | d ∷ t ↦ c ∷ d ∷ t ]

unfoldable pub trim : Text → Text
unfolding trim_start trim_end
trim s = trim_end (trim_start s)

-- `strip_suffix` of one character.
unfoldable pub strip_last : ℕ → Text → Option Text
strip_last c [] = none
strip_last c (d ∷ []) = if d == c then some [] else none
strip_last c (d ∷ e ∷ s) = elim (strip_last c (e ∷ s)) [ none ↦ none | some rest ↦ some (d ∷ rest) ]

unfoldable pub to_lower : Text → Text
to_lower s = map (λ c. if leb 65 c && leb c 90 then c + 32 else c) s

module _ (r : Reals) where
  -- The number of an input and its multiplier, if it is finite and positive.
  unfoldable pub scaled : Text → r.F64 → Option r.F64
  scaled num multiplier = elim (r.parse num) [
    | none ↦ none
    | some v ↦ if not (r.is_finite v) || r.le v r.nought then none else some (r.mul v multiplier)
  ]

  -- The suffix `m` or `s`, or none.
  unfoldable pub lookback_of : Text → Option r.F64
  unfolding strip_last scaled
  lookback_of s = elim (strip_last 109 s) [
    | some num ↦ scaled num r.sixty
    | none ↦ elim (strip_last 115 s) [ some num ↦ scaled num r.one | none ↦ scaled s r.one ]
  ]

  unfoldable pub parse_lookback_input : Text → Option r.F64
  unfolding trim lookback_of
  parse_lookback_input s = elim (trim s) [ [] ↦ none | c ∷ rest ↦ lookback_of (c ∷ rest) ]

  -- The percentile of the text behind `p`.
  unfoldable pub percentile_input : Text → Option (AggMode r.F64)
  percentile_input rest = elim (r.parse rest) [
    | none ↦ none
    | some v ↦
        if not (r.is_finite v) || r.lt v r.nought
        then none
        else if r.eq v r.nought
        then some AggMode.min
        else if r.le r.hundred v
        then some AggMode.max
        else some (AggMode.percentile v)
  ]

  -- The `match` and what follows it. The names of the modes are `a`, `avg`, `min` and `max`.
  unfoldable pub mode_of : Text → Option (AggMode r.F64)
  unfolding percentile_input
  mode_of s =
      if text_eq.beq s (97 ∷ []) || text_eq.beq s (97 ∷ 118 ∷ 103 ∷ [])
      then some AggMode.avg
      else if text_eq.beq s (109 ∷ 105 ∷ 110 ∷ [])
      then some AggMode.min
      else if text_eq.beq s (109 ∷ 97 ∷ 120 ∷ [])
      then some AggMode.max
      else elim s [
        | [] ↦ none
        | c ∷ [] ↦ none
        | c ∷ d ∷ rest ↦ if c == 112 then percentile_input (d ∷ rest) else none
      ]

  unfoldable pub parse_agg_input : Text → Option (AggMode r.F64)
  unfolding trim to_lower mode_of
  parse_agg_input s = mode_of (to_lower (trim s))
