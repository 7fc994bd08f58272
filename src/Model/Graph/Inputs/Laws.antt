-- ===== src/Model/Graph/Inputs/Laws.antt =====
-- What the inputs of the graph view let through, in tracing-console/src/model/graph.rs.
use tracing_console.Base.{
  ◌≡◌, refl, ap, ◌∙◌, ◌⊎◌, inl, inr, true, false, Option-cases, [], ◌∷◌, none, some, arith,
}
use tracing_console.Base.Text.{Text}
use tracing_console.Model.Reals.{Reals}
use tracing_console.Model.Graph.{AggMode}
use tracing_console.Model.Graph.Inputs.{
  trim, strip_last, to_lower, scaled, lookback_of, parse_lookback_input, percentile_input, mode_of,
  parse_agg_input,
}

module _ (r : Reals) where
  -- A finite number above zero, times a multiplier.
  abbrev pub IsScaled : r.F64 → r.F64 → Type 0
  IsScaled multiplier x =
      (v : r.F64) × (r.is_finite v ≡ true) × (r.le v r.nought ≡ false) × (x ≡ r.mul v multiplier)

  scaled-IsScaled :
      (num : Text) (multiplier x : r.F64) → scaled r num multiplier ≡ some x → IsScaled multiplier x
  unfolding scaled
  scaled-IsScaled num multiplier x e = elim (Option-cases (r.parse num)) [
    | inl bad ↦ absurd (ground arith)
    | inr (v, parsed) ↦ (v, ground arith, ground arith, ground arith)
  ]

  lookback_of-IsScaled :
      (s : Text) (x : r.F64) → lookback_of r s ≡ some x → (IsScaled r.sixty x) ⊎ (IsScaled r.one x)
  unfolding lookback_of
  lookback_of-IsScaled s x e = elim (Option-cases (strip_last 109 s)) [
    | inl no_m ↦ elim (Option-cases (strip_last 115 s)) [
      | inl no_s ↦ inr (scaled-IsScaled s r.one x (ground arith))
      | inr (num, found) ↦ inr (scaled-IsScaled num r.one x (ground arith))
    ]
    | inr (num, found) ↦ inl (scaled-IsScaled num r.sixty x (ground arith))
  ]

  percentile_input_lem :
      (rest : Text) (v : r.F64)
      → percentile_input r rest ≡ some (AggMode.percentile v)
      → (r.is_finite v ≡ true)
        × (r.lt v r.nought ≡ false)
        × (r.eq v r.nought ≡ false)
        × (r.le r.hundred v ≡ false)
  unfolding percentile_input
  percentile_input_lem rest v e = ground arith

  trimmed-IsScaled :
      (s : Text) (x : r.F64)
      → elim s [ [] ↦ none | c ∷ rest ↦ lookback_of r (c ∷ rest) ] ≡ some x
      → (IsScaled r.sixty x) ⊎ (IsScaled r.one x)
  trimmed-IsScaled [] x e = cc
  trimmed-IsScaled (c ∷ rest) x e = lookback_of-IsScaled (c ∷ rest) x e

  -- A finite number strictly between nought and a hundred, as the comparisons have it.
  abbrev pub IsInside : r.F64 → Type 0
  IsInside v =
      (r.is_finite v ≡ true)
      × (r.lt v r.nought ≡ false)
      × (r.eq v r.nought ≡ false)
      × (r.le r.hundred v ≡ false)

  mode_of-IsInside : (s : Text) (v : r.F64) → mode_of r s ≡ some (AggMode.percentile v) → IsInside v
  unfolding mode_of
  mode_of-IsInside [] v e = ground arith
  mode_of-IsInside (c ∷ []) v e = ground arith
  mode_of-IsInside (c ∷ d ∷ rest) v e = ground (arith, percentile_input_lem (d ∷ rest) v)

  blank_lookback :
      (s : Text) → s ≡ [] → elim s [ [] ↦ none | c ∷ rest ↦ lookback_of r (c ∷ rest) ] ≡ none
  blank_lookback [] e = refl
  blank_lookback (c ∷ rest) e = cc

  blank_mode : mode_of r (to_lower []) ≡ none
  unfolding mode_of to_lower
  blank_mode = refl

  -- A lookback that is accepted is a finite number above zero, times sixty or one. An aggregation that
  -- is accepted as a percentile is of a finite number, not below zero, not equal to zero and not from a
  -- hundred on. Blank inputs are refused by both.
  pub parse_inputs_lem :
      ((s : Text) (x : r.F64)
        → parse_lookback_input r s ≡ some x
        → (IsScaled r.sixty x) ⊎ (IsScaled r.one x))
      × ((s : Text) (v : r.F64) → parse_agg_input r s ≡ some (AggMode.percentile v) → IsInside v)
      × ((s : Text)
          → trim s ≡ []
          → (parse_lookback_input r s ≡ none) × (parse_agg_input r s ≡ none))
  parse_inputs_lem = (
    λ s x e. unfold parse_lookback_input in trimmed-IsScaled (trim s) x e,
    λ s v e. unfold parse_agg_input in mode_of-IsInside (to_lower (trim s)) v e,
    λ s blank. (
      unfold parse_lookback_input in blank_lookback (trim s) blank,
      unfold parse_agg_input in ap (λ t. mode_of r (to_lower t)) blank ∙ blank_mode,
    ),
  )
