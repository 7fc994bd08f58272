-- ===== src/Tests/Host.antt =====
-- Examples of the wire and of the server.
use tracing_console.Base.{
  ℕ, ◌<◌, ◌≡◌, ◌≢◌, refl, true, false, Option, none, some, List, [], ◌∷◌, map, arith,
}
use tracing_console.Base.Int.{pos}
use tracing_console.Base.Text.{Text, show_nat}
use tracing_console.Cache.Record.{
  FieldValue, SpanRecord, field_get, to_display_string, contains as record_contains,
}
use tracing_console.Host.Protocol.{WireLevel, to_string_value, contains, field}
use tracing_console.Host.Level.{WireLevelFilter, to_filter}
use tracing_console.Host.Message.{RequestBody, ResponseBody, Request}
use tracing_console.Host.Wire.{Metadata, field_to_wire, TimeBase, span_to_wire}
use tracing_console.Host.Wire.Laws.{field-span_to_wire, to_wire_field}
use tracing_console.Host.Server.{
  StreamState, CacheLevelBroadcast, ConnectionState, Reply, new_rpc, new_broadcast, new_connection,
  new_stream_state,
}
use tracing_console.Host.Server.Stream.{
  Wakeup, level_changed, next_batch, watch_closed, span_stream, frame, news, span_stream-news,
}
use tracing_console.Host.Server.Sessions.{
  ServerState, connect, rpc, disconnect, step, start, Reach, here, next, guards, IsRate, IsServer,
}
use tracing_console.Host.Server.Sessions.Invariant.{Reach-IsServer}
use tracing_console.Host.Server.Sessions.Announced.{
  IsIdle, SameHandles, IsUnder, IsAck, IsError, asked, disconnect_resets, set_cache_level_announced,
  new_rpc_answers,
}
use tracing_console.Base.Lists.{get_elem?}
use tracing_console.Base.Words.{u64_mod}
use tracing_console.Cache.Predicate.{get}
use tracing_console.Tests.Platforms.{severities, five_levels, platform}

-- A child span of level INFO with one field, open from 15 to 40.
abbrev span_record : SpanRecord (Metadata severities)
span_record = record {
  id = 9;
  parent_id = some 4;
  metadata = record { name = 97 ∷ []; target = 98 ∷ []; level = WireLevel.info };
  fields = (99 ∷ [], FieldValue.shared_string (100 ∷ [])) ∷ [];
  events = [];
  opened_at = 15;
  closed_at = some 40;
}

field-span_to_wire_example :
    (field
        (span_to_wire five_levels platform.unfilled
          (record { instant_at_start = 10; systime_at_start = pos 1000 })
          span_record).fields
        (99 ∷ [])
      ≡ to_wire_field (field_get span_record.fields (99 ∷ [])))
    × ((v : FieldValue) → to_string_value show_nat (field_to_wire v) ≡ to_display_string show_nat v)
    × ((v : FieldValue) (needle : Text)
        → contains show_nat (field_to_wire v) needle ≡ record_contains show_nat v needle)
field-span_to_wire_example =
    field-span_to_wire show_nat five_levels platform.unfilled
      (record { instant_at_start = 10; systime_at_start = pos 1000 }) span_record (99 ∷ [])

-- A connection that streams, with a floor at WARN.
abbrev warnings : StreamState (Option ℕ)
warnings = record { streaming = true; min_level = some WireLevel.warn; sampling_rate = some 1 }

abbrev base : TimeBase
base = record { instant_at_start = 10; systime_at_start = pos 1000 }

-- A batch that is filtered, a change of level, and what comes after the end.
abbrev wakeups : List (Wakeup platform)
wakeups =
    next_batch (some (span_record ∷ [])) warnings
    ∷ level_changed WireLevelFilter.info
    ∷ next_batch (some (span_record ∷ [])) (record warnings { min_level = none })
    ∷ watch_closed
    ∷ level_changed WireLevelFilter.off
    ∷ []

span_stream-news_example :
    span_stream platform base WireLevelFilter.trace (some 100) 5 wakeups
    ≡ map (frame platform 5) (
        ResponseBody.server_info (record { version = 49 ∷ [] })
        ∷ ResponseBody.cache_level WireLevelFilter.trace
        ∷ ResponseBody.cache_chance (some 100)
        ∷ news platform base wakeups)
span_stream-news_example = span_stream-news platform base WireLevelFilter.trace (some 100) 5 wakeups

-- A server on TRACE, one connection, its StartStream.
abbrev connected : ServerState platform
connected = step platform connect (start platform 5 (some 100))

abbrev start_request : Request (Option ℕ)
start_request = record { id = 3; control = 0; body = RequestBody.start_stream }

abbrev streaming : ServerState platform
streaming = step platform (rpc 0 start_request) connected

streaming-Reach : Reach platform 5 (some 100) streaming
streaming-Reach = next (next here connect) (rpc 0 start_request)

Reach-IsServer_example : IsServer platform streaming
Reach-IsServer_example = Reach-IsServer platform streaming-Reach

abbrev streamer : ConnectionState platform
streamer = record {
  state = record { streaming = true; min_level = none; sampling_rate = some 1 };
  stream_guard = true;
}

streaming_found : get_elem? streaming.connections 0 ≡ some streamer
unfolding step start new_broadcast new_connection new_stream_state new_rpc
streaming_found = refl

streaming_few : guards platform streaming.connections < u64_mod
unfolding step start new_broadcast new_connection new_stream_state new_rpc
streaming_few = omega arith

disconnect_resets_example :
    let s' = step platform (disconnect 0) streaming in
    (true ≡ true → guards platform s'.connections ≡ 0 → IsIdle platform s'.bus)
    × (true ≡ true → 0 < guards platform s'.connections → SameHandles platform s'.bus streaming.bus)
    × (true ≡ false → s'.bus ≡ streaming.bus)
disconnect_resets_example =
    disconnect_resets platform 0 streamer streaming-Reach streaming_found streaming_few

abbrev idle_bus : CacheLevelBroadcast platform
idle_bus = record {
  level_handle = 0;
  level_tx = (WireLevelFilter.off, 0);
  chance_handle = 101;
  chance_tx = (some 100, 0);
  active_streams = 0;
}

abbrev set_debug : Request (Option ℕ)
set_debug = record { id = 4; control = 0; body = RequestBody.set_cache_level WireLevelFilter.debug }

set_cache_level_announced_example :
    let after =
      (new_rpc platform start_request
        (new_rpc platform set_debug idle_bus streamer).bus
        streamer).bus in
    (get severities after.level_handle ≡ to_filter severities WireLevelFilter.debug)
    × (idle_bus.level_tx.1 ≢ 0 → after.level_tx.0 ≡ WireLevelFilter.debug)
    × (idle_bus.level_tx.1 ≡ 0 → after.level_tx.0 ≡ WireLevelFilter.off)
set_cache_level_announced_example =
    set_cache_level_announced platform idle_bus streamer streamer 4 3 0 0 WireLevelFilter.debug

abbrev too_high : RequestBody (Option ℕ)
too_high = RequestBody.set_sampling_rate (some 2)

not_noop : too_high ≢ RequestBody.noop
not_noop e = cc

new_rpc_answers_example :
    let sampled = new_rpc platform (asked platform 6 0 too_high) idle_bus streamer in
    IsUnder platform 6 sampled.reply
    × (new_rpc platform (asked platform 6 0 RequestBody.noop) idle_bus streamer
        ≡ record { bus = idle_bus; connection = streamer; reply = Reply.silent })
    × (IsRate platform (some 2)
        → IsAck platform sampled.reply
          × (sampled.bus ≡ idle_bus)
          × (sampled.connection
              ≡ record streamer { state = record (streamer.state) { sampling_rate = some 2 } }))
    × (¬ IsRate platform (some 2)
        → IsError platform sampled.reply
          × (sampled.bus ≡ idle_bus)
          × (sampled.connection ≡ streamer))
new_rpc_answers_example = new_rpc_answers platform idle_bus streamer 6 0 too_high (some 2) not_noop
