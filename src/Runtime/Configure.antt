-- ===== src/Runtime/Configure.antt =====
-- The arguments of tracing-console/src/args.rs that the loop starts with, and the requests that
-- tracing-console/src/runtime.rs makes of them before the loop.
use tracing_console.Base.{ℕ, List, [], ◌∷◌, ◌++◌, Option, none, some}
use tracing_console.Host.Level.{WireLevelFilter}

pub data LevelArg : Type 0 where
  off error warn info debug trace : LevelArg

unfoldable pub level_to_wire : LevelArg → WireLevelFilter
level_to_wire LevelArg.off = WireLevelFilter.off
level_to_wire LevelArg.error = WireLevelFilter.error
level_to_wire LevelArg.warn = WireLevelFilter.warn
level_to_wire LevelArg.info = WireLevelFilter.info
level_to_wire LevelArg.debug = WireLevelFilter.debug
level_to_wire LevelArg.trace = WireLevelFilter.trace

-- What is sent to the server.
pub data Outgoing (F64 : Type 0) : Type 0 where
  set_cache_level : WireLevelFilter → Outgoing F64
  set_cache_chance : F64 → Outgoing F64

pub record Args (F64 : Type 0) : Type 0 where
  pub history : ℕ
  pub set_level : Option LevelArg
  pub set_chance : Option F64

-- The auto-configure requests, which are queued before the loop; neither is checked.
unfoldable pub auto_configure : {F64 : Type 0} → Args F64 → List (Outgoing F64)
unfolding level_to_wire
auto_configure args =
    (elim args.set_level [
      | none ↦ []
      | some level ↦ Outgoing.set_cache_level (level_to_wire level) ∷ []
    ])
    ++ (elim args.set_chance [ none ↦ [] | some chance ↦ Outgoing.set_cache_chance chance ∷ [] ])
