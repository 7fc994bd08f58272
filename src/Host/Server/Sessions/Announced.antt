-- ===== src/Host/Server/Sessions/Announced.antt =====
-- What the sessions of tracing-console-host/src/server.rs do to the cache, and what a new stream
-- announces of it.
use tracing_console.Base.{
  ℕ, ◌<◌, ◌≡◌, ◌≢◌, refl, ◌∙◌, Bool, true, false, Bool-cases, inl, inr, some, if◌then◌else◌, arith,
}
use tracing_console.Base.Lists.{get_elem?}
use tracing_console.Base.Words.{u64_mod}
use tracing_console.Cache.Predicate.{get, set_chance, get_chance}
use tracing_console.Cache.Predicate.Laws.{get-with_filter, get_chance-set_chance}
use tracing_console.Host.Level.{WireLevelFilter, to_filter}
use tracing_console.Host.Message.{RequestBody, Request, ResponseBody}
use tracing_console.Host.Message.Responses.{error}
use tracing_console.Base.Text.{Text}
use tracing_console.Host.Server.{
  Platform, CacheLevelBroadcast, ConnectionState, Reply, new_rpc, acknowledge, enter_stream,
  drop_guard, set_level, rate_in_range, subscribe_level, subscribe_chance, immediate, stream,
  silent,
}
use tracing_console.Host.Server.Sessions.{
  remove_at, ServerState, Event, closing, step, Reach, guards, IsRate,
}
use tracing_console.Host.Server.Sessions.Invariant.{
  Reach-IsServer, guards-remove_at, rate_in_range-IsRate, rate_in_range-rejected,
}

module _ (p : Platform) where
  -- The cache records nothing, and what it would record is not thinned.
  abbrev pub IsIdle : CacheLevelBroadcast p → Type 0
  IsIdle bus =
      (get p.tracing bus.level_handle ≡ p.tracing.off)
      × (get_chance p.floats bus.chance_handle ≡ p.floats.hundred)

  abbrev pub SameHandles : CacheLevelBroadcast p → CacheLevelBroadcast p → Type 0
  SameHandles b c = (b.level_handle ≡ c.level_handle) × (b.chance_handle ≡ c.chance_handle)

  hundred_read : get_chance p.floats (set_chance p.floats p.floats.hundred) ≡ p.floats.hundred
  hundred_read =
      (get_chance-set_chance p.floats p.floats.hundred).3 p.floats.hundred_top.0
        p.floats.lowest_le.1 p.floats.hundred_top.1

  drop_guard_last :
      (bus : CacheLevelBroadcast p) → bus.active_streams ≡ 1 → IsIdle (drop_guard p bus)
  unfolding drop_guard
  drop_guard_last bus e = rw e ((get-with_filter p.tracing).0 p.tracing.off, hundred_read)

  drop_guard_other :
      (bus : CacheLevelBroadcast p) → bus.active_streams ≢ 1 → SameHandles (drop_guard p bus) bus
  unfolding drop_guard
  drop_guard_other bus h = ground arith

  closing_last :
      (b : Bool) (bus : CacheLevelBroadcast p)
      → b ≡ true
      → bus.active_streams ≡ 1
      → IsIdle (closing p b bus)
  closing_last true bus g e = drop_guard_last bus e
  closing_last false bus g e = cc

  closing_other :
      (b : Bool) (bus : CacheLevelBroadcast p)
      → b ≡ true
      → bus.active_streams ≢ 1
      → SameHandles (closing p b bus) bus
  closing_other true bus g h = drop_guard_other bus h
  closing_other false bus g h = (refl, refl)

  step-disconnect :
      (i : ℕ) (c : ConnectionState p) (s : ServerState p)
      → get_elem? s.connections i ≡ some c
      → step p (Event.disconnect i) s
        ≡ record { bus = closing p c.stream_guard s.bus; connections = remove_at s.connections i }
  unfolding step
  step-disconnect i c s e = rw (step, e) refl

  -- A guard lasts until its connection closes, whether or not its stream has ended. In a reachable server
  -- that holds fewer than 2^64 guards, a connection that closes leaves the cache
  -- at OFF and at chance 100 when it holds the last guard; when another connection still holds one, or
  -- it holds none itself, the level and chance of the cache stay as they are.
  pub disconnect_resets :
      {level : ℕ} {pct : p.floats.F64} {s : ServerState p} (i : ℕ) (c : ConnectionState p)
      → Reach p level pct s
      → get_elem? s.connections i ≡ some c
      → guards p s.connections < u64_mod
      → let s' = step p (Event.disconnect i) s in
        (c.stream_guard ≡ true → guards p s'.connections ≡ 0 → IsIdle s'.bus)
        × (c.stream_guard ≡ true → 0 < guards p s'.connections → SameHandles s'.bus s.bus)
        × (c.stream_guard ≡ false → s'.bus ≡ s.bus)
  disconnect_resets {s = s} i c r e few =
      let counted = (Reach-IsServer p r).counted in
      let left = guards-remove_at p s.connections i c e in
      rw (step-disconnect i c s e) (
        λ g z. closing_last c.stream_guard s.bus g (ground (arith, left, counted)),
        λ g z. closing_other c.stream_guard s.bus g (ground (arith, left, counted)),
        λ g. rw g refl,
      )

  -- After a SetCacheLevel of any connection and then a StartStream of any, the cache records at the
  -- level that was set. The level in the watch, which the new stream announces first, is that level if
  -- the watch had a receiver before; if it had none, it is the level that stood in the watch before.
  pub set_cache_level_announced :
      (bus : CacheLevelBroadcast p) (c d : ConnectionState p) (i j n m : ℕ)
      (filter : WireLevelFilter)
      → let asked : Request p.floats.F64 = record {
        id = i;
        control = n;
        body = RequestBody.set_cache_level filter;
      } in
        let started : Request p.floats.F64 = record {
          id = j;
          control = m;
          body = RequestBody.start_stream;
        } in
        let after = (new_rpc p started (new_rpc p asked bus c).bus d).bus in
        (get p.tracing after.level_handle ≡ to_filter p.tracing filter)
        × (p.level_watch.receivers bus.level_tx ≢ 0 → p.level_watch.value after.level_tx ≡ filter)
        × (p.level_watch.receivers bus.level_tx ≡ 0
            → p.level_watch.value after.level_tx ≡ p.level_watch.value bus.level_tx)
  unfolding new_rpc acknowledge
  set_cache_level_announced bus c d i j n m filter = (
    handle d.stream_guard,
    λ h. announced d.stream_guard ∙ p.level_watch.send_stores filter bus.level_tx h,
    λ h. announced d.stream_guard ∙ p.level_watch.send_fails filter bus.level_tx h,
  )
    where
      handle :
          (b : Bool)
          → get p.tracing
              (subscribe_chance p (
                subscribe_level p (
                  if b
                  then set_level p filter bus
                  else enter_stream p (set_level p filter bus)))).level_handle
            ≡ to_filter p.tracing filter
      handle true =
          unfold set_level enter_stream subscribe_level subscribe_chance in
          (get-with_filter p.tracing).0 (to_filter p.tracing filter)
      handle false =
          unfold set_level enter_stream subscribe_level subscribe_chance in
          (get-with_filter p.tracing).0 (to_filter p.tracing filter)

      announced :
          (b : Bool)
          → p.level_watch.value
              (subscribe_chance p (
                subscribe_level p (
                  if b
                  then set_level p filter bus
                  else enter_stream p (set_level p filter bus)))).level_tx
            ≡ p.level_watch.value (p.level_watch.send filter bus.level_tx)
      announced true =
          unfold set_level enter_stream subscribe_level subscribe_chance in
          (p.level_watch.subscribe_lem (p.level_watch.send filter bus.level_tx)).0
      announced false =
          unfold set_level enter_stream subscribe_level subscribe_chance in
          (p.level_watch.subscribe_lem (p.level_watch.send filter bus.level_tx)).0

  -- A reply is under the request's id.
  abbrev pub IsUnder : ℕ → Reply p → Type 0
  IsUnder id (immediate r) = r.id ≡ id
  IsUnder id (stream n) = n ≡ id
  IsUnder id silent = ⊥

  abbrev pub IsAck : Reply p → Type 0
  IsAck (immediate r) = r.body ≡ ResponseBody.ack
  IsAck (stream n) = ⊥
  IsAck silent = ⊥

  abbrev pub IsError : Reply p → Type 0
  IsError (immediate r) = (msg : Text) × (r.body ≡ ResponseBody.error msg)
  IsError (stream n) = ⊥
  IsError silent = ⊥

  abbrev pub asked : ℕ → ℕ → RequestBody p.floats.F64 → Request p.floats.F64
  asked id control body = record { id = id; control = control; body = body }

  answers-IsUnder :
      (bus : CacheLevelBroadcast p) (c : ConnectionState p) (id control : ℕ)
      (body : RequestBody p.floats.F64)
      → body ≢ RequestBody.noop
      → IsUnder id (new_rpc p (asked id control body) bus c).reply
  unfolding new_rpc acknowledge error
  answers-IsUnder bus c id control RequestBody.noop h = absurd (h refl)
  answers-IsUnder bus c id control (RequestBody.set_sampling_rate rate) h =
      elim (Bool-cases (rate_in_range p rate)) [ inl e ↦ rw e refl | inr e ↦ rw e refl ]
  answers-IsUnder bus c id control _ h = refl

  -- Every request but Noop is answered under its own id; Noop is not answered and changes nothing. A
  -- SetSamplingRate from 0 to 1 is acknowledged and changes that connection's rate alone; one below 0,
  -- above 1 or NaN is answered with an error, and the connection and the broadcast stay as they are.
  pub new_rpc_answers :
      (bus : CacheLevelBroadcast p) (c : ConnectionState p) (id control : ℕ)
      (body : RequestBody p.floats.F64) (rate : p.floats.F64)
      → body ≢ RequestBody.noop
      → let sampled = new_rpc p (asked id control (RequestBody.set_sampling_rate rate)) bus c in
        IsUnder id (new_rpc p (asked id control body) bus c).reply
        × (new_rpc p (asked id control RequestBody.noop) bus c
            ≡ record { bus = bus; connection = c; reply = silent })
        × (IsRate p rate
            → IsAck sampled.reply
              × (sampled.bus ≡ bus)
              × (sampled.connection
                  ≡ record c { state = record (c.state) { sampling_rate = rate } }))
        × (¬ IsRate p rate → IsError sampled.reply × (sampled.bus ≡ bus) × (sampled.connection ≡ c))
  unfolding new_rpc acknowledge error
  new_rpc_answers bus c id control body rate h = elim (Bool-cases (rate_in_range p rate)) [
    | inl e ↦ (
      answers-IsUnder bus c id control body h,
      refl,
      λ fine. rw e (refl, refl, refl),
      λ bad. absurd (bad (rate_in_range-IsRate p rate e)),
    )
    | inr e ↦ (
      answers-IsUnder bus c id control body h,
      refl,
      λ fine. absurd (rate_in_range-rejected p rate e fine),
      λ bad. rw e ((_, refl), refl, refl),
    )
  ]
