-- ===== src/Host/Server/Sessions/Invariant.antt =====
-- The invariant of the sessions of tracing-console-host/src/server.rs.
use tracing_console.Base.{
  ℕ, zero, suc, ◌+◌, ◌%◌, ◌≡◌, refl, ◌∙◌, ap, sym, Bool, true, false, Bool-cases, Option-cases, inl,
  inr, some, List, [], ◌∷◌, ◌++◌, if◌then◌else◌, ◌==◌, arith,
}
use tracing_console.Base.Lists.{get_elem?, set, All, All-append, All-set, All-get_elem?}
use tracing_console.Base.Words.{u64_mod}
use tracing_console.Cache.Predicate.{set_chance, clamp_pct}
use tracing_console.Cache.Predicate.Laws.{get_chance-set_chance}
use tracing_console.Host.Message.{RequestBody, Request}
use tracing_console.Host.Server.{
  Platform, CacheLevelBroadcast, ConnectionState, Served, new_broadcast, new_connection,
  new_stream_state, new_rpc, acknowledge, enter_stream, drop_guard, set_level, set_chance_pct,
  rate_in_range, subscribe_level, subscribe_chance,
}
use tracing_console.Host.Server.Sessions.{
  remove_at, ServerState, Event, closing, step, start, Reach, holds, guards, IsPercent, IsRate,
  IsRated, IsServer, here, next,
}

module _ {ℓ} {A : Type ℓ} where
  All-remove_at {κ} : (P : A → Type κ) (xs : List A) (i : ℕ) → All P xs → All P (remove_at xs i)
  All-remove_at P [] i h = h
  All-remove_at P (x ∷ xs) zero h = h.1
  All-remove_at P (x ∷ xs) (suc i) h = (h.0, All-remove_at P xs i h.1)

module _ (p : Platform) where
  guards-append :
      (cs : List (ConnectionState p)) (c : ConnectionState p)
      → guards p (cs ++ c ∷ []) ≡ guards p cs + holds p c
  guards-append [] c = omega arith
  guards-append (d ∷ cs) c = omega (arith, guards-append cs c)

  guards-set :
      (cs : List (ConnectionState p)) (i : ℕ) (c d : ConnectionState p)
      → get_elem? cs i ≡ some c
      → guards p (set cs i d) + holds p c ≡ guards p cs + holds p d
  guards-set [] i c d e = cc
  guards-set (x ∷ cs) zero c d e = ground arith
  guards-set (x ∷ cs) (suc i) c d e = omega (arith, guards-set cs i c d e)

  pub guards-remove_at :
      (cs : List (ConnectionState p)) (i : ℕ) (c : ConnectionState p)
      → get_elem? cs i ≡ some c
      → guards p (remove_at cs i) + holds p c ≡ guards p cs
  guards-remove_at [] i c e = cc
  guards-remove_at (x ∷ cs) zero c e = ground arith
  guards-remove_at (x ∷ cs) (suc i) c e = omega (arith, guards-remove_at cs i c e)

  set_chance-IsPercent : (pct : p.floats.F64) → IsPercent p (set_chance p.floats pct)
  set_chance-IsPercent pct = let r = get_chance-set_chance p.floats pct in (r.0, r.1)

  pub rate_in_range-IsRate : (rate : p.floats.F64) → rate_in_range p rate ≡ true → IsRate p rate
  unfolding rate_in_range
  rate_in_range-IsRate rate e = ground arith

  pub rate_in_range-rejected :
      (rate : p.floats.F64) → rate_in_range p rate ≡ false → ¬ IsRate p rate
  unfolding rate_in_range
  rate_in_range-rejected rate e h = ground arith

  -- What one request does to the counter, the chance and the rate.
  record Kept (bus : CacheLevelBroadcast p) (c : ConnectionState p) (v : Served p) : Type 0 where
    entered :
        (g : ℕ)
        → bus.active_streams ≡ (g + holds p c) % u64_mod
        → v.bus.active_streams ≡ (g + holds p v.connection) % u64_mod
    percent : IsPercent p bus.chance_handle → IsPercent p v.bus.chance_handle
    rated : IsRated p c → IsRated p v.connection

  new_rpc-Kept :
      (bus : CacheLevelBroadcast p) (c : ConnectionState p) (id control : ℕ)
      (body : RequestBody p.floats.F64)
      → Kept bus c (new_rpc p (record { id = id; control = control; body = body }) bus c)
  unfolding new_rpc acknowledge
  new_rpc-Kept bus c id control RequestBody.start_stream = record {
    entered = λ g e. unfold enter_stream subscribe_level subscribe_chance in ground arith;
    percent = λ h. unfold enter_stream subscribe_level subscribe_chance in ground arith;
    rated = λ h. h;
  }
  new_rpc-Kept bus c id control RequestBody.stop_stream = record {
    entered = λ g e. e;
    percent = λ h. h;
    rated = λ h. h;
  }
  new_rpc-Kept bus c id control (RequestBody.set_level level) = record {
    entered = λ g e. e;
    percent = λ h. h;
    rated = λ h. h;
  }
  new_rpc-Kept bus c id control (RequestBody.set_cache_level filter) =
      unfold set_level in record { entered = λ g e. e; percent = λ h. h; rated = λ h. h }
  new_rpc-Kept bus c id control (RequestBody.set_cache_chance pct) =
      unfold set_chance_pct in
      record {
        entered = λ g e. e;
        percent = λ h. set_chance-IsPercent (clamp_pct p.floats pct);
        rated = λ h. h;
      }
  new_rpc-Kept bus c id control (RequestBody.set_sampling_rate rate) =
      elim (Bool-cases (rate_in_range p rate)) [
        | inl e ↦ rw e (record {
          entered = λ g e. e;
          percent = λ h. h;
          rated = λ h. rate_in_range-IsRate rate e;
        })
        | inr e ↦ rw e (record { entered = λ g e. e; percent = λ h. h; rated = λ h. h })
      ]
  new_rpc-Kept bus c id control RequestBody.noop = record {
    entered = λ g e. e;
    percent = λ h. h;
    rated = λ h. h;
  }

  one-IsRate : IsRate p p.rates.one
  one-IsRate = ground (arith, p.rates.one_top, p.rates.one_inside)

  -- Dropping a guard takes one from the counter.
  drop_guard-counted :
      (g : ℕ) (bus : CacheLevelBroadcast p)
      → bus.active_streams ≡ (g + 1) % u64_mod
      → (drop_guard p bus).active_streams ≡ g % u64_mod
  unfolding drop_guard
  drop_guard-counted g bus e = ground arith

  drop_guard-IsPercent :
      (bus : CacheLevelBroadcast p)
      → IsPercent p bus.chance_handle
      → IsPercent p (drop_guard p bus).chance_handle
  unfolding drop_guard
  drop_guard-IsPercent bus h = elim (Bool-cases (bus.active_streams == 1)) [
    | inl e ↦ rw e (set_chance-IsPercent p.floats.hundred)
    | inr e ↦ rw e h
  ]

  rpc-IsServer :
      (s : ServerState p) (i : ℕ) (c : ConnectionState p) (msg : Request p.floats.F64)
      → get_elem? s.connections i ≡ some c
      → IsServer p s
      → IsServer p (record {
        bus = (new_rpc p msg s.bus c).bus;
        connections = set s.connections i (new_rpc p msg s.bus c).connection;
      })
  rpc-IsServer s i c msg e v =
      let kept = new_rpc-Kept s.bus c msg.id msg.control msg.body in
      let d = (new_rpc p msg s.bus c).connection in
      let others = guards p (remove_at s.connections i) in
      let before : s.bus.active_streams
          ≡ (guards p (remove_at s.connections i) + holds p c) % u64_mod =
        v.counted ∙ ap (λ n. n % u64_mod) (sym (guards-remove_at s.connections i c e)) in
      let same : guards p (remove_at s.connections i) + holds p d
          ≡ guards p (set s.connections i d) =
        omega (arith, guards-set s.connections i c d e, guards-remove_at s.connections i c e) in
      record {
        counted =
            kept.entered (guards p (remove_at s.connections i)) before ∙ ap (λ n. n % u64_mod) same;
        percent = kept.percent v.percent;
        rated =
            All-set (IsRated p) s.connections i d v.rated
              (kept.rated (All-get_elem? (IsRated p) s.connections i c v.rated e));
      }

  closing-counted :
      (b : Bool) (g : ℕ) (bus : CacheLevelBroadcast p)
      → bus.active_streams ≡ (g + (if b then 1 else 0)) % u64_mod
      → (closing p b bus).active_streams ≡ g % u64_mod
  closing-counted true g bus e = drop_guard-counted g bus e
  closing-counted false g bus e = omega arith

  closing-IsPercent :
      (b : Bool) (bus : CacheLevelBroadcast p)
      → IsPercent p bus.chance_handle
      → IsPercent p (closing p b bus).chance_handle
  closing-IsPercent true bus h = drop_guard-IsPercent bus h
  closing-IsPercent false bus h = h

  holds_new : holds p (new_connection p) ≡ 0
  unfolding new_connection
  holds_new = refl

  step-IsServer : (e : Event p) (s : ServerState p) → IsServer p s → IsServer p (step p e s)
  unfolding step
  step-IsServer Event.connect s v = record {
    counted =
        v.counted
        ∙ ap (λ n. n % u64_mod)
            (omega (arith, guards-append s.connections (new_connection p), holds_new));
    percent = v.percent;
    rated =
        All-append (IsRated p) s.connections (new_connection p ∷ []) v.rated
          ((unfold new_connection new_stream_state in one-IsRate), tt);
  }
  step-IsServer (Event.rpc i msg) s v = elim (Option-cases (get_elem? s.connections i)) [
    | inl none_there ↦ rw (step, none_there) v
    | inr (c, e) ↦ rw (step, e) (rpc-IsServer s i c msg e v)
  ]
  step-IsServer Event.stream_ended s v = record {
    counted = v.counted;
    percent = v.percent;
    rated = v.rated;
  }
  step-IsServer (Event.disconnect i) s v = elim (Option-cases (get_elem? s.connections i)) [
    | inl none_there ↦ rw (step, none_there) v
    | inr (c, e) ↦
        rw (step, e)
          (record {
            counted =
                closing-counted c.stream_guard (guards p (remove_at s.connections i)) s.bus
                  (v.counted ∙ ap (λ n. n % u64_mod) (sym (guards-remove_at s.connections i c e)));
            percent = closing-IsPercent c.stream_guard s.bus v.percent;
            rated = All-remove_at (IsRated p) s.connections i v.rated;
          })
  ]

  -- In every state that a server reaches by connections, requests, ended streams and disconnections in
  -- any order: the stream counter is the number of connections that hold a guard, which each keeps
  -- until it closes even when its stream has ended, modulo 2^64; the
  -- chance that the cache reads is between 0 and 100; and each connection's sampling rate lies in 0
  -- to 1 and is no NaN.
  pub Reach-IsServer :
      {level : ℕ} {pct : p.floats.F64} {s : ServerState p} → Reach p level pct s → IsServer p s
  Reach-IsServer {pct = pct} here =
      unfold start new_broadcast in
      record { counted = refl; percent = set_chance-IsPercent pct; rated = tt }
  Reach-IsServer (next {s = s} r e) = step-IsServer e s (Reach-IsServer r)
