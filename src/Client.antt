-- ===== src/Client.antt =====
-- The client of rust/grpcuds-core/src/client.rs: header text, and the state of a call.
pub mod Text
pub mod Call
pub mod Conn
mod Tests
