-- ===== src/Host.antt =====
-- tracing-console-host/src.
pub mod Protocol
pub mod Level
pub mod Message
pub mod Wire
pub mod Server
