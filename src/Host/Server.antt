-- ===== src/Host/Server.antt =====
-- tracing-console-host/src/server.rs: the broadcast of the cache's level and chance, and the service
-- of one connection. The watch channels, the floats and the levels are interfaces; what a method
-- changes, it returns.
pub mod Sampling
pub mod Stream
pub mod Sessions
use tracing_console.Base.{
  ℕ, ◌+◌, ◌-◌, ◌%◌, ◌≡◌, ◌≢◌, Bool, true, false, not, ◌&&◌, ◌||◌, Option, none, some, List, [], ◌∷◌,
  ◌++◌, if◌then◌else◌, ◌==◌,
}
use tracing_console.Base.Text.{Text}
use tracing_console.Base.Words.{u64_mod}
use tracing_console.Cache.Predicate.{
  Tracing, Floats, with_filter, get, set_chance, get_chance, clamp_pct,
}
use tracing_console.Host.Protocol.{WireLevel}
use tracing_console.Host.Level.{Levels, WireLevelFilter, from_filter, to_filter}
use tracing_console.Host.Message.{ControlCodes, RequestBody, Request, Response}
use tracing_console.Host.Message.Responses.{ack, error, with_id}
use tracing_console.Host.Wire.{Metadata, Unfilled}

-- What the code relies on of `tokio::sync::watch`, as its documentation has it: `send` fails and keeps
-- the value when there is no receiver, and `channel` makes one receiver, which the code drops at once.
pub record Watch (A : Type 0) : Type 1 where
  pub Sender : Type 0
  pub value : Sender → A
  pub receivers : Sender → ℕ
  pub channel : A → Sender
  pub send : A → Sender → Sender
  pub subscribe : Sender → Sender
  pub drop_receiver : Sender → Sender
  pub channel_lem : (a : A) → (value (channel a) ≡ a) × (receivers (channel a) ≡ 1)
  pub receivers-send : (a : A) (s : Sender) → receivers (send a s) ≡ receivers s
  pub send_stores : (a : A) (s : Sender) → receivers s ≢ 0 → value (send a s) ≡ a
  pub send_fails : (a : A) (s : Sender) → receivers s ≡ 0 → value (send a s) ≡ value s
  pub subscribe_lem :
      (s : Sender) → (value (subscribe s) ≡ value s) × (receivers (subscribe s) ≡ receivers s + 1)
  pub drop_receiver_lem :
      (s : Sender)
      → (value (drop_receiver s) ≡ value s) × (receivers (drop_receiver s) ≡ receivers s - 1)

-- The float 1.0, the fraction of `u64::MAX` that a number is, and the printing of a float; with the
-- documented order of 1.0.
pub record Rates (fl : Floats) : Type 0 where
  pub one : fl.F64
  pub frac_of : ℕ → fl.F64
  pub show : fl.F64 → Text
  pub one_top : (fl.le one one ≡ true) × (fl.le one fl.lowest ≡ false)
  pub one_inside : (fl.le fl.lowest one ≡ true) × (fl.is_nan one ≡ false)

-- What the server is built on; `version` is the crate's.
pub record Platform : Type 1 where
  pub tracing : Tracing
  pub levels : Levels tracing
  pub floats : Floats
  pub rates : Rates floats
  pub level_watch : Watch WireLevelFilter
  pub chance_watch : Watch floats.F64
  pub codes : ControlCodes
  pub version : Text
  pub unfilled : Unfilled (Metadata tracing)

pub record StreamState (F64 : Type 0) : Type 0 where
  pub streaming : Bool
  pub min_level : Option WireLevel
  pub sampling_rate : F64

-- The handles hold what the predicates' atomics hold.
pub record CacheLevelBroadcast (p : Platform) : Type 0 where
  pub level_handle : ℕ
  pub level_tx : p.level_watch.Sender
  pub chance_handle : ℕ
  pub chance_tx : p.chance_watch.Sender
  pub active_streams : ℕ

-- The connection's own part of `ConnectionState`: the cache, the time base and the broadcast are
-- shared. `stream_guard` tells whether the connection holds a `StreamGuard`.
pub record ConnectionState (p : Platform) : Type 0 where
  pub state : StreamState p.floats.F64
  pub stream_guard : Bool

-- What a request is answered with: one response, the stream of that request id, or nothing.
pub data Reply (p : Platform) : Type 0 where
  immediate : Response p.floats.F64 → Reply p
  stream : ℕ → Reply p
  silent : Reply p

pub record Served (p : Platform) : Type 0 where
  pub bus : CacheLevelBroadcast p
  pub connection : ConnectionState p
  pub reply : Reply p

abbrev pub out_of_range_before : Text
out_of_range_before =
    115 ∷ 97 ∷ 109 ∷ 112 ∷ 108 ∷ 105 ∷ 110 ∷ 103 ∷ 32 ∷ 114 ∷ 97 ∷ 116 ∷ 101 ∷ 32 ∷ []

abbrev pub out_of_range_after : Text
out_of_range_after =
    32 ∷ 111 ∷ 117 ∷ 116 ∷ 32 ∷ 111 ∷ 102 ∷ 32 ∷ 114 ∷ 97 ∷ 110 ∷ 103 ∷ 101 ∷ 32 ∷ 91 ∷ 48 ∷ 46 ∷ 48
    ∷ 44 ∷ 32 ∷ 49 ∷ 46 ∷ 48 ∷ 93 ∷ []

module _ (p : Platform) where
  abbrev pub F64 : Type 0
  F64 = p.floats.F64

  unfoldable pub new_stream_state : StreamState F64
  new_stream_state = record { streaming = false; min_level = none; sampling_rate = p.rates.one }

  -- `CacheLevelBroadcast::new`: the receivers of the new channels are dropped.
  unfoldable pub new_broadcast : ℕ → ℕ → CacheLevelBroadcast p
  new_broadcast level_handle chance_handle = record {
    level_handle = level_handle;
    level_tx =
        p.level_watch.drop_receiver
          (p.level_watch.channel (from_filter p.tracing (get p.tracing level_handle)));
    chance_handle = chance_handle;
    chance_tx =
        p.chance_watch.drop_receiver (p.chance_watch.channel (get_chance p.floats chance_handle));
    active_streams = 0;
  }

  unfoldable pub set_level : WireLevelFilter → CacheLevelBroadcast p → CacheLevelBroadcast p
  set_level filter bus = record bus {
    level_handle = with_filter p.tracing (to_filter p.tracing filter);
    level_tx = p.level_watch.send filter bus.level_tx;
  }

  -- The handle clamps again what is clamped here.
  unfoldable pub set_chance_pct : F64 → CacheLevelBroadcast p → CacheLevelBroadcast p
  set_chance_pct pct bus =
      let clamped = clamp_pct p.floats pct in
      record bus {
        chance_handle = set_chance p.floats clamped;
        chance_tx = p.chance_watch.send clamped bus.chance_tx;
      }

  unfoldable pub subscribe_level : CacheLevelBroadcast p → CacheLevelBroadcast p
  subscribe_level bus = record bus { level_tx = p.level_watch.subscribe bus.level_tx }

  unfoldable pub subscribe_chance : CacheLevelBroadcast p → CacheLevelBroadcast p
  subscribe_chance bus = record bus { chance_tx = p.chance_watch.subscribe bus.chance_tx }

  unfoldable pub enter_stream : CacheLevelBroadcast p → CacheLevelBroadcast p
  enter_stream bus = record bus { active_streams = (bus.active_streams + 1) % u64_mod }

  -- `Drop for StreamGuard`.
  unfoldable pub drop_guard : CacheLevelBroadcast p → CacheLevelBroadcast p
  drop_guard bus =
      let prev = bus.active_streams in
      let left = record bus { active_streams = (prev + (u64_mod - 1)) % u64_mod } in
      if prev == 1
      then record left {
        level_handle = with_filter p.tracing p.tracing.off;
        level_tx = p.level_watch.send WireLevelFilter.off bus.level_tx;
        chance_handle = set_chance p.floats p.floats.hundred;
        chance_tx = p.chance_watch.send p.floats.hundred bus.chance_tx;
      }
      else left

  unfoldable pub new_connection : ConnectionState p
  unfolding new_stream_state
  new_connection = record { state = new_stream_state; stream_guard = false }

  unfoldable pub rate_in_range : F64 → Bool
  rate_in_range rate = not (
      not (p.floats.le p.floats.lowest rate && p.floats.le rate p.rates.one)
      || p.floats.is_nan rate)

  unfoldable pub acknowledge : ℕ → CacheLevelBroadcast p → ConnectionState p → Served p
  unfolding ack with_id
  acknowledge request_id bus connection = record {
    bus = bus;
    connection = connection;
    reply = Reply.immediate (with_id request_id (ack p.codes));
  }

  -- `ConnectionState::new_rpc`.
  unfoldable pub new_rpc : Request F64 → CacheLevelBroadcast p → ConnectionState p → Served p
  unfolding acknowledge rate_in_range error with_id set_level set_chance_pct enter_stream
      subscribe_level subscribe_chance
  new_rpc msg bus c = elim msg.body [
    | RequestBody.start_stream ↦
        let entered = if c.stream_guard then bus else enter_stream bus in
        record {
          bus = subscribe_chance (subscribe_level entered);
          connection = record {
            state = record (c.state) { streaming = true };
            stream_guard = true;
          };
          reply = Reply.stream msg.id;
        }
    | RequestBody.stop_stream ↦
        acknowledge msg.id bus (record c { state = record (c.state) { streaming = false } })
    | RequestBody.set_level level ↦
        acknowledge msg.id bus (record c { state = record (c.state) { min_level = some level } })
    | RequestBody.set_cache_level filter ↦ acknowledge msg.id (set_level filter bus) c
    | RequestBody.set_cache_chance pct ↦ acknowledge msg.id (set_chance_pct pct bus) c
    | RequestBody.set_sampling_rate rate ↦
        if rate_in_range rate
        then acknowledge msg.id bus (record c { state = record (c.state) { sampling_rate = rate } })
        else record {
          bus = bus;
          connection = c;
          reply = Reply.immediate (
              with_id msg.id
                (error p.codes (out_of_range_before ++ p.rates.show rate ++ out_of_range_after)));
        }
    | RequestBody.noop ↦ record { bus = bus; connection = c; reply = Reply.silent }
  ]
