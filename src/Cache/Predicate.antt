-- ===== src/Cache/Predicate.antt =====
-- tracing-cache/src/predicate.rs. The tracing crate's levels and the float operations enter as
-- interfaces; a stored byte or bit pattern is the atomic that a predicate shares with its handles.
pub mod Laws
use tracing_console.Base.{
  ℕ, zero, suc, ◌+◌, ◌≤◌, Bool, true, false, Option, none, some, if◌then◌else◌, leb, ◌≡◌, Eq,
}
use tracing_console.Base.Text.{Text}
use tracing_console.Cache.Record.{Visited}
use mathlib.Core.List.{List}

-- What the code relies on of `tracing::Level` and `LevelFilter`: six filters in the documented order,
-- of which a level's own filter is never the lowest.
pub record Tracing : Type 1 where
  pub Level : Type 0
  pub LevelFilter : Type 0
  pub off : LevelFilter
  pub error : LevelFilter
  pub warn : LevelFilter
  pub info : LevelFilter
  pub debug : LevelFilter
  pub trace : LevelFilter
  pub eq : Eq LevelFilter
  pub le : LevelFilter → LevelFilter → Bool
  pub from_level : Level → LevelFilter
  pub rank : LevelFilter → ℕ
  pub rank_injective : (a b : LevelFilter) → rank a ≡ rank b → a ≡ b
  pub rank_bound : (a : LevelFilter) → rank a ≤ 5
  pub ranks :
      (rank off ≡ 0)
      × (rank error ≡ 1)
      × (rank warn ≡ 2)
      × (rank info ≡ 3)
      × (rank debug ≡ 4)
      × (rank trace ≡ 5)
  pub le_rank : (a b : LevelFilter) → le a b ≡ leb (rank a) (rank b)
  pub level_above_off : (l : Level) → 1 ≤ rank (from_level l)

-- What the code calls on `tracing::span::Attributes`, and the fields that it visits.
pub record Attributes (Meta : Type 0) : Type 0 where
  pub is_contextual : Bool
  pub is_root : Bool
  pub parent : Option ℕ
  pub metadata : Meta
  pub values : List (Text × Visited)

pub data Interest : Type 0 where
  never sometimes always : Interest

-- The trait `EnabledPredicate`, at one moment: its answers under the state that its atomics hold.
pub record EnabledPredicate (Filter Meta : Type 0) : Type 0 where
  pub max_level_hint : Option Filter
  pub callsite_enabled : Meta → Interest
  pub enabled : Meta → Bool
  pub new_span_enabled : Attributes Meta → Bool

module _ (t : Tracing) where
  unfoldable pub filter_to_u8 : t.LevelFilter → ℕ
  filter_to_u8 f =
      if t.eq.beq f t.off
      then 0
      else if t.eq.beq f t.error
      then 1
      else if t.eq.beq f t.warn
      then 2
      else if t.eq.beq f t.info
      then 3
      else if t.eq.beq f t.debug
      then 4
      else 5

  unfoldable pub u8_to_filter : ℕ → t.LevelFilter
  u8_to_filter zero = t.off
  u8_to_filter (suc zero) = t.error
  u8_to_filter (suc (suc zero)) = t.warn
  u8_to_filter (suc (suc (suc zero))) = t.info
  u8_to_filter (suc (suc (suc (suc zero)))) = t.debug
  u8_to_filter _ = t.trace

  -- `LevelPredicate::with_filter` and `LevelHandle::set`: the byte that is stored. `set` also has
  -- the tracing crate ask each callsite again.
  unfoldable pub with_filter : t.LevelFilter → ℕ
  with_filter filter = filter_to_u8 filter

  unfoldable pub new : t.Level → ℕ
  unfolding with_filter
  new level = with_filter (t.from_level level)

  -- `LevelHandle::get`.
  unfoldable pub get : ℕ → t.LevelFilter
  get stored = u8_to_filter stored

  module _ {Meta : Type 0} (level_of : Meta → t.Level) where
    unfoldable pub level_max_hint : ℕ → Option t.LevelFilter
    level_max_hint stored = some (u8_to_filter stored)

    unfoldable pub level_callsite_enabled : ℕ → Meta → Interest
    level_callsite_enabled stored metadata =
        let filter = u8_to_filter stored in
        if t.eq.beq filter t.off
        then Interest.never
        else if t.le (t.from_level (level_of metadata)) filter
        then Interest.always
        else Interest.never

    unfoldable pub level_enabled : ℕ → Meta → Bool
    level_enabled stored metadata =
        let filter = u8_to_filter stored in
        if t.eq.beq filter t.off then false else t.le (t.from_level (level_of metadata)) filter

    -- `impl EnabledPredicate for LevelPredicate`.
    unfoldable pub level_predicate : ℕ → EnabledPredicate t.LevelFilter Meta
    unfolding level_max_hint level_callsite_enabled level_enabled
    level_predicate stored = record {
      max_level_hint = level_max_hint stored;
      callsite_enabled = level_callsite_enabled stored;
      enabled = level_enabled stored;
      new_span_enabled = λ attrs. level_enabled stored attrs.metadata;
    }

-- What the code relies on of `f64`: the operations it uses, that bits round-trip, and the documented
-- facts on `clamp` and on the comparisons of the constants.
pub record Floats : Type 1 where
  pub F64 : Type 0
  pub lowest : F64
  pub hundred : F64
  pub is_nan : F64 → Bool
  pub clamp : F64 → F64 → F64 → F64
  pub le : F64 → F64 → Bool
  pub lt : F64 → F64 → Bool
  pub to_bits : F64 → ℕ
  pub from_bits : ℕ → F64
  pub roll_of : ℕ → F64
  pub from_bits-to_bits : (x : F64) → from_bits (to_bits x) ≡ x
  pub clamp_ge : (x : F64) → is_nan x ≡ false → le lowest (clamp x lowest hundred) ≡ true
  pub clamp_le : (x : F64) → is_nan x ≡ false → le (clamp x lowest hundred) hundred ≡ true
  pub clamp_inside :
      (x : F64) → le lowest x ≡ true → le x hundred ≡ true → clamp x lowest hundred ≡ x
  pub lowest_le : (le lowest lowest ≡ true) × (le lowest hundred ≡ true)
  pub hundred_top :
      (is_nan hundred ≡ false)
      × (le hundred hundred ≡ true)
      × (le hundred lowest ≡ false)
      × (lt hundred hundred ≡ false)

module _ (fl : Floats) where
  unfoldable pub clamp_pct : fl.F64 → fl.F64
  clamp_pct pct = if fl.is_nan pct then fl.lowest else fl.clamp pct fl.lowest fl.hundred

  -- `ChancePredicate::new` and `ChanceHandle::set`: the bits that are stored.
  unfoldable pub set_chance : fl.F64 → ℕ
  unfolding clamp_pct
  set_chance pct = fl.to_bits (clamp_pct pct)

  -- `ChanceHandle::get`.
  unfoldable pub get_chance : ℕ → fl.F64
  get_chance bits = fl.from_bits bits

  -- The gate of a root span, for the random `u64` that is drawn; `roll_of` scales it by the code's
  -- float arithmetic.
  unfoldable pub root_passes : ℕ → ℕ → Bool
  root_passes bits random =
      let pct = fl.from_bits bits in
      if fl.le pct fl.lowest
      then false
      else if fl.lt pct fl.hundred
      then (if fl.le pct (fl.roll_of random) then false else true)
      else true

  -- `impl EnabledPredicate for ChancePredicate`.
  unfoldable pub chance_predicate :
      {Filter Meta : Type 0} → ℕ → ℕ → EnabledPredicate Filter Meta → EnabledPredicate Filter Meta
  unfolding root_passes
  chance_predicate bits random inner = record {
    max_level_hint = inner.max_level_hint;
    callsite_enabled = inner.callsite_enabled;
    enabled = inner.enabled;
    new_span_enabled = λ span.
        if span.is_root
        then (if root_passes bits random then inner.new_span_enabled span else false)
        else inner.new_span_enabled span;
  }
