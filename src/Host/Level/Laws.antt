-- ===== src/Host/Level/Laws.antt =====
-- The conversions of the levels between the wire and the tracing crate.
use tracing_console.Base.{ℕ, zero, suc, ◌≡◌, refl, ap, sym, ◌∙◌, arith}
use tracing_console.Cache.Predicate.{Tracing}
use tracing_console.Host.Protocol.{WireLevel}
use tracing_console.Host.Level.{
  Levels, WireLevelFilter, from_tracing, to_tracing, from_filter, to_filter,
}

module _ (t : Tracing) where
  abbrev rank_of : WireLevelFilter → ℕ
  rank_of WireLevelFilter.off = 0
  rank_of WireLevelFilter.error = 1
  rank_of WireLevelFilter.warn = 2
  rank_of WireLevelFilter.info = 3
  rank_of WireLevelFilter.debug = 4
  rank_of WireLevelFilter.trace = 5

  rank-to_filter : (w : WireLevelFilter) → t.rank (to_filter t w) ≡ rank_of w
  unfolding to_filter
  rank-to_filter WireLevelFilter.off = omega (arith, t.ranks)
  rank-to_filter WireLevelFilter.error = omega (arith, t.ranks)
  rank-to_filter WireLevelFilter.warn = omega (arith, t.ranks)
  rank-to_filter WireLevelFilter.info = omega (arith, t.ranks)
  rank-to_filter WireLevelFilter.debug = omega (arith, t.ranks)
  rank-to_filter WireLevelFilter.trace = omega (arith, t.ranks)

  rank_of-from_filter : (f : t.LevelFilter) → rank_of (from_filter t f) ≡ t.rank f
  unfolding from_filter
  rank_of-from_filter f = ground (
    arith,
    t.ranks,
    t.rank_bound f,
    t.rank_injective f t.off,
    t.rank_injective f t.error,
    t.rank_injective f t.warn,
    t.rank_injective f t.info,
    t.rank_injective f t.debug,
    t.eq.beq_iff f t.off,
    t.eq.beq_iff f t.error,
    t.eq.beq_iff f t.warn,
    t.eq.beq_iff f t.info,
    t.eq.beq_iff f t.debug,
  )

  pub to_filter-from_filter : (f : t.LevelFilter) → to_filter t (from_filter t f) ≡ f
  to_filter-from_filter f =
      t.rank_injective (to_filter t (from_filter t f)) f
        (rank-to_filter (from_filter t f) ∙ rank_of-from_filter f)

  abbrev wire_of : ℕ → WireLevelFilter
  wire_of zero = WireLevelFilter.off
  wire_of (suc zero) = WireLevelFilter.error
  wire_of (suc (suc zero)) = WireLevelFilter.warn
  wire_of (suc (suc (suc zero))) = WireLevelFilter.info
  wire_of (suc (suc (suc (suc zero)))) = WireLevelFilter.debug
  wire_of _ = WireLevelFilter.trace

  wire_of-rank_of : (w : WireLevelFilter) → wire_of (rank_of w) ≡ w
  wire_of-rank_of WireLevelFilter.off = refl
  wire_of-rank_of WireLevelFilter.error = refl
  wire_of-rank_of WireLevelFilter.warn = refl
  wire_of-rank_of WireLevelFilter.info = refl
  wire_of-rank_of WireLevelFilter.debug = refl
  wire_of-rank_of WireLevelFilter.trace = refl

  pub from_filter-to_filter : (w : WireLevelFilter) → from_filter t (to_filter t w) ≡ w
  from_filter-to_filter w =
      sym (wire_of-rank_of (from_filter t (to_filter t w)))
      ∙ ap wire_of (rank_of-from_filter (to_filter t w) ∙ rank-to_filter w)
      ∙ wire_of-rank_of w

module _ {t : Tracing} (l : Levels t) where
  -- A level's own filter has the rank of its name.
  abbrev pub level_rank : t.Level → ℕ
  level_rank a = t.rank (t.from_level a)

  level_rank_injective : (a b : t.Level) → level_rank a ≡ level_rank b → a ≡ b
  level_rank_injective a b e =
      l.from_level_injective a b (t.rank_injective (t.from_level a) (t.from_level b) e)

  to_tracing-from_tracing : (a : t.Level) → to_tracing l (from_tracing l a) ≡ a
  unfolding to_tracing from_tracing
  to_tracing-from_tracing a = ground (
    arith,
    l.ranks,
    t.rank_bound (t.from_level a),
    t.level_above_off a,
    level_rank_injective a l.error,
    level_rank_injective a l.warn,
    level_rank_injective a l.info,
    level_rank_injective a l.debug,
    level_rank_injective a l.trace,
    l.eq.beq_iff a l.warn,
    l.eq.beq_iff a l.info,
    l.eq.beq_iff a l.debug,
    l.eq.beq_iff a l.trace,
  )

  abbrev pub wire_rank : WireLevel → ℕ
  wire_rank WireLevel.error = 1
  wire_rank WireLevel.warn = 2
  wire_rank WireLevel.info = 3
  wire_rank WireLevel.debug = 4
  wire_rank WireLevel.trace = 5

  pub level_rank-to_tracing : (w : WireLevel) → level_rank (to_tracing l w) ≡ wire_rank w
  unfolding to_tracing
  level_rank-to_tracing WireLevel.error = omega (arith, l.ranks)
  level_rank-to_tracing WireLevel.warn = omega (arith, l.ranks)
  level_rank-to_tracing WireLevel.info = omega (arith, l.ranks)
  level_rank-to_tracing WireLevel.debug = omega (arith, l.ranks)
  level_rank-to_tracing WireLevel.trace = omega (arith, l.ranks)

  abbrev level_wire : ℕ → WireLevel
  level_wire (suc (suc zero)) = WireLevel.warn
  level_wire (suc (suc (suc zero))) = WireLevel.info
  level_wire (suc (suc (suc (suc zero)))) = WireLevel.debug
  level_wire (suc (suc (suc (suc (suc n))))) = WireLevel.trace
  level_wire _ = WireLevel.error

  level_wire-wire_rank : (w : WireLevel) → level_wire (wire_rank w) ≡ w
  level_wire-wire_rank WireLevel.error = refl
  level_wire-wire_rank WireLevel.warn = refl
  level_wire-wire_rank WireLevel.info = refl
  level_wire-wire_rank WireLevel.debug = refl
  level_wire-wire_rank WireLevel.trace = refl

  from_tracing-to_tracing : (w : WireLevel) → from_tracing l (to_tracing l w) ≡ w
  from_tracing-to_tracing w =
      sym (level_wire-wire_rank (from_tracing l (to_tracing l w)))
      ∙ ap level_wire (
          sym (level_rank-to_tracing (from_tracing l (to_tracing l w)))
          ∙ ap level_rank (to_tracing-from_tracing (to_tracing l w))
          ∙ level_rank-to_tracing w)
      ∙ level_wire-wire_rank w

  -- Levels and level filters cross the wire unchanged: each level and each filter of the tracing crate
  -- is read back from its wire form, and each wire form from the level or filter it stands for.
  pub to_tracing-from_tracing_all :
      ((a : t.Level) → to_tracing l (from_tracing l a) ≡ a)
      × ((w : WireLevel) → from_tracing l (to_tracing l w) ≡ w)
      × ((f : t.LevelFilter) → to_filter t (from_filter t f) ≡ f)
      × ((w : WireLevelFilter) → from_filter t (to_filter t w) ≡ w)
  to_tracing-from_tracing_all = (
    to_tracing-from_tracing,
    from_tracing-to_tracing,
    to_filter-from_filter t,
    from_filter-to_filter t,
  )
