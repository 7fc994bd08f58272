-- ===== src/Host/Message.antt =====
-- Requests and responses, of tracing-console-host/src/protocol.rs. The bytes of the control codes are
-- those of the rpc crate.
pub mod Requests
pub mod Responses
use tracing_console.Base.{ℕ, List}
use tracing_console.Base.Text.{Text}
use tracing_console.Host.Protocol.{WireLevel, WireSpan}
use tracing_console.Host.Level.{WireLevelFilter}

-- `ProtosocketControlCode::as_u8` of its three values.
pub record ControlCodes : Type 0 where
  pub normal : ℕ
  pub cancel : ℕ
  pub end_code : ℕ

module _ (F64 : Type 0) where
  pub data RequestBody : Type 0 where
    noop start_stream stop_stream : RequestBody
    set_level : WireLevel → RequestBody
    set_cache_level : WireLevelFilter → RequestBody
    set_cache_chance : F64 → RequestBody
    set_sampling_rate : F64 → RequestBody

  pub record Request : Type 0 where
    pub id : ℕ
    pub control : ℕ
    pub body : RequestBody

pub record WireServerInfo : Type 0 where
  pub version : Text

module _ (F64 : Type 0) where
  pub data ResponseBody : Type 0 where
    noop ack : ResponseBody
    server_info : WireServerInfo → ResponseBody
    span : WireSpan → ResponseBody
    cache_level : WireLevelFilter → ResponseBody
    cache_chance : F64 → ResponseBody
    error : Text → ResponseBody

  pub record Response : Type 0 where
    pub id : ℕ
    pub control : ℕ
    pub body : ResponseBody
