-- ===== src/Host/Message/Responses.antt =====
-- `Response::new`, its constructors, the frames of `impl Message for Response` and `with_id`, in
-- tracing-console-host/src/protocol.rs.
use tracing_console.Base.{ℕ}
use tracing_console.Base.Text.{Text}
use tracing_console.Host.Protocol.{WireSpan}
use tracing_console.Host.Level.{WireLevelFilter}
use tracing_console.Host.Message.{ControlCodes, ResponseBody, Response}

module _ {F64 : Type 0} (codes : ControlCodes) where
  unfoldable pub new_response : ResponseBody F64 → Response F64
  new_response body = record { id = 0; control = codes.normal; body = body }

  unfoldable pub ack : Response F64
  unfolding new_response
  ack = new_response ResponseBody.ack

  unfoldable pub error : Text → Response F64
  unfolding new_response
  error msg = new_response (ResponseBody.error msg)

  unfoldable pub span : WireSpan → Response F64
  unfolding new_response
  span s = new_response (ResponseBody.span s)

  unfoldable pub cache_level : WireLevelFilter → Response F64
  unfolding new_response
  cache_level level = new_response (ResponseBody.cache_level level)

  unfoldable pub cache_chance : F64 → Response F64
  unfolding new_response
  cache_chance pct = new_response (ResponseBody.cache_chance pct)

  unfoldable pub server_info : Text → Response F64
  unfolding new_response
  server_info version = new_response (ResponseBody.server_info (record { version = version }))

  unfoldable pub cancelled : ℕ → Response F64
  cancelled id = record { id = id; control = codes.cancel; body = ResponseBody.noop }

  unfoldable pub ended : ℕ → Response F64
  ended id = record { id = id; control = codes.end_code; body = ResponseBody.noop }

unfoldable pub with_id : {F64 : Type 0} → ℕ → Response F64 → Response F64
with_id id r = record r { id = id }
