-- ===== src/Types/Codes.antt =====
-- The status codes on the wire.
use grpc_uds.Prelude.{◌≡◌, refl, pos}
use grpc_uds.Headers.{GrpcStatus, discriminant}
use grpc_uds.Types.{code_from_wire}

-- The Rust client reads the code of each status as that status.
pub code_from_wire-discriminant : (s : GrpcStatus) → code_from_wire (pos (discriminant s)) ≡ s
unfolding code_from_wire discriminant
code_from_wire-discriminant GrpcStatus.status_ok = refl
code_from_wire-discriminant _ = refl
