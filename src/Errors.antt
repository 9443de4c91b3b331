-- ===== src/Errors.antt =====
-- `ConnError` of rust/grpcuds-core/src/conn/state.rs.
use grpc_uds.Prelude.{Result, ℤ}

-- `SessionError` of rust/grpcuds-core/src/session.rs.
pub data SessionError : Type 0 where
  alloc : SessionError

pub data ConnError : Type 0 where
  session_error : SessionError → ConnError
  out_of_memory stream_not_found stream_finished queue_full : ConnError
  nghttp2_error : ℤ → ConnError

-- `Result<(), ConnError>`.
abbrev pub Reply : Type 0
Reply = Result (Unit {0}) ConnError
