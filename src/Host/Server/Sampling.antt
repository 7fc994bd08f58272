-- ===== src/Host/Server/Sampling.antt =====
-- The span filters of tracing-console-host/src/server.rs: the least level, and the sampling by hash.
use Prim.Native.Nat.{bit_xor}
use tracing_console.Base.{
  ℕ, ◌*◌, ◌/◌, ◌%◌, ◌^◌, ◌≡◌, refl, ap, ◌∙◌, Bool, true, false, ◌&&◌, none, some, if◌then◌else◌,
  leb, arith,
}
use tracing_console.Base.Words.{u64_mod}
use tracing_console.Cache.Record.{SpanRecord}
use tracing_console.Host.Protocol.{WireLevel}
use tracing_console.Host.Level.{to_tracing}
use tracing_console.Host.Level.Laws.{level_rank-to_tracing, wire_rank}
use tracing_console.Host.Wire.{Metadata}
use tracing_console.Host.Server.{Platform, StreamState}

-- The numbers of the hash.
abbrev pub first_factor : ℕ
first_factor = 11400714819323198485

abbrev pub second_factor : ℕ
second_factor = 14029467366897019727

-- The bucket of a span: its parent's id, or its own.
unfoldable pub bucket_id : {Meta : Type 0} → SpanRecord Meta → ℕ
bucket_id r = elim r.parent_id [ none ↦ r.id | some parent ↦ parent ]

-- The splitmix-style hash, with the products wrapped to 64 bits.
unfoldable pub mixed : ℕ → ℕ
mixed id =
    let a = id * first_factor % u64_mod in
    let b = bit_xor a (a / 2 ^ 33) in let c = b * second_factor % u64_mod in bit_xor c (c / 2 ^ 29)

module _ (p : Platform) where
  unfoldable pub level_at_least : p.tracing.Level → WireLevel → Bool
  unfolding to_tracing
  level_at_least record_level floor = p.levels.le record_level (to_tracing p.levels floor)

  unfoldable pub sampling_passes : SpanRecord (Metadata p.tracing) → p.floats.F64 → Bool
  unfolding bucket_id mixed
  sampling_passes r rate =
      if p.floats.le p.rates.one rate
      then true
      else if p.floats.le rate p.floats.lowest
      then false
      else p.floats.lt (p.rates.frac_of (mixed (bucket_id r))) rate

  -- The two `continue`s of the loop over a batch.
  unfoldable pub passes : StreamState p.floats.F64 → SpanRecord (Metadata p.tracing) → Bool
  unfolding level_at_least sampling_passes
  passes s r =
      let sampled = sampling_passes r s.sampling_rate in
      elim s.min_level [
        | none ↦ sampled
        | some floor ↦ if level_at_least r.metadata.level floor then sampled else false
      ]

  level_at_least-leb :
      (level : p.tracing.Level) (floor : WireLevel)
      → level_at_least level floor
        ≡ leb (p.tracing.rank (p.tracing.from_level level)) (wire_rank p.levels floor)
  unfolding level_at_least
  level_at_least-leb level floor =
      p.levels.le_rank level (to_tracing p.levels floor)
      ∙ ap (leb (p.tracing.rank (p.tracing.from_level level)))
          (level_rank-to_tracing p.levels floor)

  -- The filter of a connection: with a floor a span whose level is more verbose than the floor never
  -- passes, and a span at or below it, as every span without a floor, is judged by the sampling alone.
  -- At rate 1 the sampling passes every span, at rate 0 none, and at any rate it treats alike two
  -- spans under the same parent.
  pub passes_lem :
      (s : StreamState p.floats.F64) (r : SpanRecord (Metadata p.tracing))
      → ((floor : WireLevel)
          → s.min_level ≡ some floor
          → passes s r ≡ (
              leb
                (p.tracing.rank (p.tracing.from_level r.metadata.level))
                (wire_rank p.levels floor)
              && sampling_passes r s.sampling_rate))
        × (s.min_level ≡ none → passes s r ≡ sampling_passes r s.sampling_rate)
        × (sampling_passes r p.rates.one ≡ true)
        × (sampling_passes r p.floats.lowest ≡ false)
        × ((r' : SpanRecord (Metadata p.tracing)) (rate : p.floats.F64) (parent : ℕ)
            → r.parent_id ≡ some parent
            → r'.parent_id ≡ some parent
            → sampling_passes r rate ≡ sampling_passes r' rate)
  unfolding passes
  passes_lem s r = (
    λ floor e. rw (e, level_at_least-leb r.metadata.level floor) (ground arith),
    λ e. rw e refl,
    unfold sampling_passes in ground (arith, p.rates.one_top),
    unfold sampling_passes in ground (arith, p.rates.one_top, p.floats.lowest_le),
    λ r' rate parent e e'. unfold sampling_passes bucket_id in rw (e, e') refl,
  )
