-- ===== src/Host/Level.antt =====
-- The levels on the wire, of tracing-console-host/src/protocol.rs. The constants and comparisons of
-- `tracing::Level` are the tracing crate's.
pub mod Laws
use tracing_console.Base.{ℕ, Bool, if◌then◌else◌, leb, ◌≡◌, Eq}
use tracing_console.Cache.Predicate.{Tracing}
use tracing_console.Host.Protocol.{WireLevel}

-- What the code relies on of `tracing::Level`: five constants, which are all the levels there are, in
-- the documented order, which is that of the filters.
pub record Levels (t : Tracing) : Type 0 where
  pub error : t.Level
  pub warn : t.Level
  pub info : t.Level
  pub debug : t.Level
  pub trace : t.Level
  pub eq : Eq t.Level
  pub le : t.Level → t.Level → Bool
  pub from_level_injective : (a b : t.Level) → t.from_level a ≡ t.from_level b → a ≡ b
  pub ranks :
      (t.rank (t.from_level error) ≡ 1)
      × (t.rank (t.from_level warn) ≡ 2)
      × (t.rank (t.from_level info) ≡ 3)
      × (t.rank (t.from_level debug) ≡ 4)
      × (t.rank (t.from_level trace) ≡ 5)
  pub le_rank : (a b : t.Level) → le a b ≡ leb (t.rank (t.from_level a)) (t.rank (t.from_level b))

pub data WireLevelFilter : Type 0 where
  off error warn info debug trace : WireLevelFilter

module _ {t : Tracing} (l : Levels t) where
  -- `WireLevel::from_tracing`: the match is exhaustive, so what is none of the first four is ERROR.
  unfoldable pub from_tracing : t.Level → WireLevel
  from_tracing level =
      if l.eq.beq level l.trace
      then WireLevel.trace
      else if l.eq.beq level l.debug
      then WireLevel.debug
      else if l.eq.beq level l.info
      then WireLevel.info
      else if l.eq.beq level l.warn
      then WireLevel.warn
      else WireLevel.error

  unfoldable pub to_tracing : WireLevel → t.Level
  to_tracing WireLevel.trace = l.trace
  to_tracing WireLevel.debug = l.debug
  to_tracing WireLevel.info = l.info
  to_tracing WireLevel.warn = l.warn
  to_tracing WireLevel.error = l.error

-- `WireLevelFilter::from_tracing` and `to_tracing`.
module _ (t : Tracing) where
  unfoldable pub from_filter : t.LevelFilter → WireLevelFilter
  from_filter filter =
      if t.eq.beq filter t.off
      then WireLevelFilter.off
      else if t.eq.beq filter t.error
      then WireLevelFilter.error
      else if t.eq.beq filter t.warn
      then WireLevelFilter.warn
      else if t.eq.beq filter t.info
      then WireLevelFilter.info
      else if t.eq.beq filter t.debug
      then WireLevelFilter.debug
      else WireLevelFilter.trace

  unfoldable pub to_filter : WireLevelFilter → t.LevelFilter
  to_filter WireLevelFilter.off = t.off
  to_filter WireLevelFilter.error = t.error
  to_filter WireLevelFilter.warn = t.warn
  to_filter WireLevelFilter.info = t.info
  to_filter WireLevelFilter.debug = t.debug
  to_filter WireLevelFilter.trace = t.trace
