-- ===== src/Types.antt =====
-- The types that the Rust server and client share, rust/grpcuds/src/lib.rs. A text is its bytes.
pub mod Codes
use grpc_uds.Prelude.{
  ℕ, Bool, true, false, List, Option, none, some, ℤ, pos, negsuc, ◌==◌, if◌then◌else◌,
}
use grpc_uds.Headers.{GrpcStatus}

-- An `io::Error` is its errno, or none for those that have only a text.
pub data Error : Type 0 where
  missing_bind_path : Error
  invalid_path : List ℕ → Error
  bind : List ℕ → Option ℕ → Error
  io : Option ℕ → Error
  connect : List ℕ → Option ℕ → Error
  session : Error

pub record Status : Type 0 where
  pub code : GrpcStatus
  pub message : Option (List ℕ)

unfoldable pub ok_status : Status
ok_status = record { code = GrpcStatus.status_ok; message = none }

unfoldable pub with_message : GrpcStatus → List ℕ → Status
with_message code message = record { code = code; message = some message }

unfoldable pub code_only : GrpcStatus → Status
code_only code = record { code = code; message = none }

abbrev is_ok_code : GrpcStatus → Bool
is_ok_code GrpcStatus.status_ok = true
is_ok_code _ = false

unfoldable pub is_ok : Status → Bool
is_ok s = is_ok_code s.code

-- The arms of the `match` from 0 on.
abbrev of_number : ℕ → GrpcStatus
of_number n =
    if n == 0
    then GrpcStatus.status_ok
    else if n == 1
    then GrpcStatus.cancelled
    else if n == 2
    then GrpcStatus.unknown
    else if n == 3
    then GrpcStatus.invalid_argument
    else if n == 4
    then GrpcStatus.deadline_exceeded
    else if n == 5
    then GrpcStatus.not_found
    else if n == 6
    then GrpcStatus.already_exists
    else if n == 7
    then GrpcStatus.permission_denied
    else if n == 8
    then GrpcStatus.resource_exhausted
    else if n == 9
    then GrpcStatus.failed_precondition
    else if n == 10
    then GrpcStatus.aborted
    else if n == 11
    then GrpcStatus.out_of_range
    else if n == 12
    then GrpcStatus.unimplemented
    else if n == 13
    then GrpcStatus.internal
    else if n == 14
    then GrpcStatus.unavailable
    else if n == 15
    then GrpcStatus.data_loss
    else if n == 16
    then GrpcStatus.unauthenticated
    else GrpcStatus.unknown

unfoldable pub code_from_wire : ℤ → GrpcStatus
code_from_wire (pos n) = of_number n
code_from_wire (negsuc n) = GrpcStatus.unknown

unfoldable pub from_wire : ℤ → Option (List ℕ) → Status
unfolding code_from_wire
from_wire code message = record { code = code_from_wire code; message = message }
