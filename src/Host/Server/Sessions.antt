-- ===== src/Host/Server/Sessions.antt =====
-- The connections of one server of tracing-console-host/src/server.rs: connecting, requests, streams
-- that end, and disconnecting, in any order.
pub mod Invariant
pub mod Announced
use tracing_console.Base.{
  ℕ, zero, suc, ◌+◌, ◌-◌, ◌%◌, ◌<◌, ◌≤◌, ◌≡◌, ◌≢◌, refl, ◌∙◌, ap, sym, Bool, true, false,
  Bool-cases, Option-cases, inl, inr, Option, none, some, List, [], ◌∷◌, ◌++◌, if◌then◌else◌, ◌==◌,
  ==_iff, arith,
}
use tracing_console.Base.Lists.{get_elem?, set, All, All-append, All-set, All-get_elem?}
use tracing_console.Base.Words.{u64_mod}
use tracing_console.Cache.Predicate.{
  Tracing, Floats, get, with_filter, set_chance, get_chance, clamp_pct,
}
use tracing_console.Cache.Predicate.Laws.{get-with_filter, get_chance-set_chance}
use tracing_console.Host.Message.{RequestBody, Request}
use tracing_console.Host.Server.{
  Platform, CacheLevelBroadcast, ConnectionState, Served, Reply, new_broadcast, new_connection,
  new_stream_state, new_rpc, acknowledge, enter_stream, drop_guard, set_level, set_chance_pct,
  rate_in_range, subscribe_level, subscribe_chance,
}

module _ {ℓ} {A : Type ℓ} where
  abbrev pub remove_at : List A → ℕ → List A
  remove_at [] i = []
  remove_at (x ∷ xs) zero = xs
  remove_at (x ∷ xs) (suc i) = x ∷ remove_at xs i

module _ (p : Platform) where
  pub record ServerState : Type 0 where
    pub bus : CacheLevelBroadcast p
    pub connections : List (ConnectionState p)

  -- A connection opens; one sends a request; a stream ends and drops its two receivers; one closes and
  -- drops its guard, if it has one.
  pub data Event : Type 0 where
    connect : Event
    rpc : ℕ → Request p.floats.F64 → Event
    stream_ended : Event
    disconnect : ℕ → Event

  abbrev pub closing : Bool → CacheLevelBroadcast p → CacheLevelBroadcast p
  closing guard bus = if guard then drop_guard p bus else bus

  unfoldable pub step : Event → ServerState → ServerState
  unfolding new_connection new_rpc drop_guard
  step connect s = record s { connections = s.connections ++ new_connection p ∷ [] }
  step (rpc i msg) s = elim (get_elem? s.connections i) [
    | none ↦ s
    | some c ↦
        let served = new_rpc p msg s.bus c in
        record { bus = served.bus; connections = set s.connections i served.connection }
  ]
  step stream_ended s = record s {
    bus = record (s.bus) {
      level_tx = p.level_watch.drop_receiver s.bus.level_tx;
      chance_tx = p.chance_watch.drop_receiver s.bus.chance_tx;
    };
  }
  step (disconnect i) s = elim (get_elem? s.connections i) [
    | none ↦ s
    | some c ↦ record {
      bus = closing c.stream_guard s.bus;
      connections = remove_at s.connections i;
    }
  ]

  -- `serve` on a level handle and on the handle of a chance predicate of that percentage.
  unfoldable pub start : ℕ → p.floats.F64 → ServerState
  unfolding new_broadcast
  start level pct = record {
    bus = new_broadcast p level (set_chance p.floats pct);
    connections = [];
  }

  pub data Reach (level : ℕ) (pct : p.floats.F64) : ServerState → Type 0 where
    here : Reach level pct (start level pct)
    next : {s : ServerState} → Reach level pct s → (e : Event) → Reach level pct (step e s)

  abbrev pub holds : ConnectionState p → ℕ
  holds c = if c.stream_guard then 1 else 0

  -- The connections that hold a guard.
  abbrev pub guards : List (ConnectionState p) → ℕ
  guards [] = 0
  guards (c ∷ cs) = holds c + guards cs

  abbrev pub IsPercent : ℕ → Type 0
  IsPercent bits =
      (p.floats.le p.floats.lowest (get_chance p.floats bits) ≡ true)
      × (p.floats.le (get_chance p.floats bits) p.floats.hundred ≡ true)

  -- A number from 0 to 1, and no NaN.
  abbrev pub IsRate : p.floats.F64 → Type 0
  IsRate rate =
      (p.floats.le p.floats.lowest rate ≡ true)
      × (p.floats.le rate p.rates.one ≡ true)
      × (p.floats.is_nan rate ≡ false)

  abbrev pub IsRated : ConnectionState p → Type 0
  IsRated c = IsRate c.state.sampling_rate

  -- The counter is that of the guards, the chance is a percentage, and each connection's sampling rate
  -- lies in 0 to 1.
  pub record IsServer (s : ServerState) : Type 0 where
    pub counted : s.bus.active_streams ≡ guards s.connections % u64_mod
    pub percent : IsPercent s.bus.chance_handle
    pub rated : All IsRated s.connections
