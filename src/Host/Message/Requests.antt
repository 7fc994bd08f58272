-- ===== src/Host/Message/Requests.antt =====
-- `Request::new` and the frames of `impl Message for Request`, in
-- tracing-console-host/src/protocol.rs.
use tracing_console.Base.{ℕ}
use tracing_console.Host.Message.{ControlCodes, RequestBody, Request}

module _ {F64 : Type 0} (codes : ControlCodes) where
  unfoldable pub new_request : RequestBody F64 → Request F64
  new_request body = record { id = 0; control = codes.normal; body = body }

  unfoldable pub set_message_id : ℕ → Request F64 → Request F64
  set_message_id id r = record r { id = id }

  unfoldable pub cancelled_request : ℕ → Request F64
  cancelled_request id = record { id = id; control = codes.cancel; body = RequestBody.noop }

  unfoldable pub ended_request : ℕ → Request F64
  ended_request id = record { id = id; control = codes.end_code; body = RequestBody.noop }
