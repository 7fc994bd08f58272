-- ===== src/Cache/Predicate/Laws.antt =====
-- What the predicates of tracing-cache/src/predicate.rs promise.
use tracing_console.Base.{
  ℕ, zero, suc, min, true, false, some, if◌then◌else◌, leb, ◌≡◌, refl, arith, Bool-cases, inl, inr,
  ◌⊎◌, ◌∙◌,
}
use tracing_console.Cache.Predicate.{
  Tracing, Attributes, Interest, EnabledPredicate, filter_to_u8, u8_to_filter, with_filter, get,
  level_predicate, Floats, clamp_pct, set_chance, get_chance, root_passes, chance_predicate,
}

module _ (t : Tracing) where
  rank-u8_to_filter : (n : ℕ) → t.rank (u8_to_filter t n) ≡ min n 5
  unfolding u8_to_filter
  rank-u8_to_filter zero = omega (arith, t.ranks)
  rank-u8_to_filter (suc zero) = omega (arith, t.ranks)
  rank-u8_to_filter (suc (suc zero)) = omega (arith, t.ranks)
  rank-u8_to_filter (suc (suc (suc zero))) = omega (arith, t.ranks)
  rank-u8_to_filter (suc (suc (suc (suc zero)))) = omega (arith, t.ranks)
  rank-u8_to_filter (suc (suc (suc (suc (suc n))))) = omega (arith, t.ranks)

  -- The byte of a filter is its place in the order.
  filter_to_u8-eq-rank : (f : t.LevelFilter) → filter_to_u8 t f ≡ t.rank f
  unfolding filter_to_u8
  filter_to_u8-eq-rank f = ground (
    arith,
    t.ranks,
    t.rank_bound f,
    t.rank_injective f t.off,
    t.rank_injective f t.error,
    t.rank_injective f t.warn,
    t.rank_injective f t.info,
    t.rank_injective f t.debug,
    t.eq.beq_iff f t.off,
    t.eq.beq_iff f t.error,
    t.eq.beq_iff f t.warn,
    t.eq.beq_iff f t.info,
    t.eq.beq_iff f t.debug,
  )

  -- A level that is set is the level that is read back, and any byte reads as the filter of that
  -- rank, from 5 on as the highest; so storing what was read changes no byte up to 5.
  pub get-with_filter :
      ((f : t.LevelFilter) → get t (with_filter t f) ≡ f)
      × ((n : ℕ) → with_filter t (get t n) ≡ min n 5)
  unfolding get with_filter
  get-with_filter = (
    λ f. t.rank_injective (u8_to_filter t (filter_to_u8 t f)) f (
        rank-u8_to_filter (filter_to_u8 t f)
        ∙ omega (arith, filter_to_u8-eq-rank f, t.rank_bound f)),
    λ n. filter_to_u8-eq-rank (u8_to_filter t n) ∙ rank-u8_to_filter n,
  )

  -- Under a stored filter a callsite is enabled exactly when its level is not above the filter in the
  -- order of verbosity; the cached interest of the callsite says the same, and is never `sometimes`;
  -- a new span of the callsite is judged alike.
  pub level_predicate_decides :
      {Meta : Type 0} (level_of : Meta → t.Level) (f : t.LevelFilter) (attrs : Attributes Meta)
      → let p = level_predicate t level_of (with_filter t f) in
        let passes = leb (t.rank (t.from_level (level_of attrs.metadata))) (t.rank f) in
        (p.enabled attrs.metadata ≡ passes)
        × (p.new_span_enabled attrs ≡ passes)
        × (p.callsite_enabled attrs.metadata ≡ (if passes then Interest.always else Interest.never))
        × (p.max_level_hint ≡ some f)
  unfolding level_predicate
  level_predicate_decides level_of f attrs = rw (get_lem f) (
      ground (
        arith,
        t.eq.beq_iff f t.off,
        t.ranks,
        t.le_rank (t.from_level (level_of attrs.metadata)) f,
        t.level_above_off (level_of attrs.metadata),
      ))
    where
      get_lem : (g : t.LevelFilter) → u8_to_filter t (with_filter t g) ≡ g
      get_lem g = unfold get in get-with_filter.0 g

module _ (fl : Floats) where
  -- The percentage that a handle reads back is the one it set, clamped to 0 to 100, and 0 for NaN.
  pub get_chance-set_chance :
      (pct : fl.F64)
      → (fl.le fl.lowest (get_chance fl (set_chance fl pct)) ≡ true)
        × (fl.le (get_chance fl (set_chance fl pct)) fl.hundred ≡ true)
        × (fl.is_nan pct ≡ true → get_chance fl (set_chance fl pct) ≡ fl.lowest)
        × (fl.is_nan pct ≡ false
            → fl.le fl.lowest pct ≡ true
            → fl.le pct fl.hundred ≡ true
            → get_chance fl (set_chance fl pct) ≡ pct)
  unfolding get_chance set_chance
  get_chance-set_chance pct = ground (
    arith,
    fl.from_bits-to_bits (clamp_pct fl pct),
    fl.clamp_ge pct,
    fl.clamp_le pct,
    fl.clamp_inside pct,
    fl.lowest_le,
  )

  module _ {Filter Meta : Type 0} (inner : EnabledPredicate Filter Meta) (random : ℕ)
      (span : Attributes Meta) where
    -- The gate at its ends, for any random number: at 0 (or NaN) no root span passes, at 100 a root
    -- span passes as the inner predicate says. At any chance a span that is no root, each event and
    -- each callsite are judged by the inner predicate alone.
    pub chance_predicate_ends :
        ((pct : fl.F64)
          → (fl.is_nan pct ≡ true) ⊎ (pct ≡ fl.lowest)
          → span.is_root ≡ true
          → (chance_predicate fl (set_chance fl pct) random inner).new_span_enabled span ≡ false)
        × ((chance_predicate fl (set_chance fl fl.hundred) random inner).new_span_enabled span
            ≡ inner.new_span_enabled span)
        × ((pct : fl.F64)
            → span.is_root ≡ false
            → (chance_predicate fl (set_chance fl pct) random inner).new_span_enabled span
              ≡ inner.new_span_enabled span)
        × ((bits : ℕ) (m : Meta)
            → ((chance_predicate fl bits random inner).enabled m ≡ inner.enabled m)
              × ((chance_predicate fl bits random inner).callsite_enabled m
                  ≡ inner.callsite_enabled m))
    unfolding chance_predicate
    chance_predicate_ends = (
      λ pct zero_or_nan root. rw (root, closed pct zero_or_nan) refl,
      rw open_gate (elim (Bool-cases span.is_root) [ inl e ↦ rw e refl | inr e ↦ rw e refl ]),
      λ pct child. rw child refl,
      λ bits m. (refl, refl),
    )
      where
        closed :
            (pct : fl.F64)
            → (fl.is_nan pct ≡ true) ⊎ (pct ≡ fl.lowest)
            → root_passes fl (set_chance fl pct) random ≡ false
        closed pct z =
            unfold root_passes set_chance in
            ground (
              arith,
              fl.from_bits-to_bits (clamp_pct fl pct),
              fl.lowest_le,
              fl.clamp_inside fl.lowest,
            )

        open_gate : root_passes fl (set_chance fl fl.hundred) random ≡ true
        open_gate =
            unfold root_passes set_chance in
            ground (
              arith,
              fl.from_bits-to_bits (clamp_pct fl fl.hundred),
              fl.lowest_le,
              fl.hundred_top,
              fl.clamp_inside fl.hundred,
            )
