-- ===== src/Headers.antt =====
-- Status codes and header lists of rust/grpcuds-core/src/headers.rs, and the conversion of a
-- handler's return value in rust/grpcuds-core/src/conn/dispatch.rs.
pub mod Percent
pub mod Timeout
mod Codes
mod Tests
use grpc_uds.Prelude.{
  ℕ, zero, suc, ◌≡◌, List, [], ◌∷◌, ℤ, pos, negsuc, leb, ◌==◌, if◌then◌else◌, get_or, codes,
}

pub data GrpcStatus : Type 0 where
  status_ok cancelled unknown invalid_argument deadline_exceeded not_found : GrpcStatus
  already_exists permission_denied resource_exhausted failed_precondition : GrpcStatus
  aborted out_of_range unimplemented internal unavailable data_loss unauthenticated : GrpcStatus

-- `status as usize`: the discriminants of the enum.
unfoldable pub discriminant : GrpcStatus → ℕ
discriminant status_ok = 0
discriminant cancelled = 1
discriminant unknown = 2
discriminant invalid_argument = 3
discriminant deadline_exceeded = 4
discriminant not_found = 5
discriminant already_exists = 6
discriminant permission_denied = 7
discriminant resource_exhausted = 8
discriminant failed_precondition = 9
discriminant aborted = 10
discriminant out_of_range = 11
discriminant unimplemented = 12
discriminant internal = 13
discriminant unavailable = 14
discriminant data_loss = 15
discriminant unauthenticated = 16

-- The `match` of headers.rs, an arm for each literal.
small_code : ℕ → GrpcStatus
small_code n =
    if n == 0
    then status_ok
    else if n == 1
    then cancelled
    else if n == 2
    then unknown
    else if n == 3
    then invalid_argument
    else if n == 4
    then deadline_exceeded
    else if n == 5
    then not_found
    else if n == 6
    then already_exists
    else if n == 7
    then permission_denied
    else if n == 8
    then resource_exhausted
    else if n == 9
    then failed_precondition
    else if n == 10
    then aborted
    else if n == 11
    then out_of_range
    else if n == 12
    then unimplemented
    else if n == 13
    then internal
    else if n == 14
    then unavailable
    else if n == 15
    then data_loss
    else if n == 16
    then unauthenticated
    else unknown

-- Negative numbers meet the last arm.
unfoldable pub grpc_status_from_i32 : ℤ → GrpcStatus
unfolding small_code
grpc_status_from_i32 (pos n) = small_code n
grpc_status_from_i32 (negsuc n) = unknown

-- The variants in the order of their discriminants: what `transmute` makes of a byte up to 16.
abbrev variants : List GrpcStatus
variants =
    status_ok ∷ cancelled ∷ unknown ∷ invalid_argument ∷ deadline_exceeded ∷ not_found
    ∷ already_exists ∷ permission_denied ∷ resource_exhausted ∷ failed_precondition ∷ aborted
    ∷ out_of_range ∷ unimplemented ∷ internal ∷ unavailable ∷ data_loss ∷ unauthenticated ∷ []

-- dispatch.rs has a conversion of its own: a range check, then a transmute.
unfoldable pub status_of_return : ℤ → GrpcStatus
status_of_return (pos n) = if leb n 16 then get_or variants n unknown else unknown
status_of_return (negsuc n) = unknown

-- `nghttp2_nv`, with the flags as the two bits that they are made of.
pub record Header : Type 0 where
  pub name : List ℕ
  pub value : List ℕ
  pub flags : ℕ

-- NGHTTP2_NV_FLAG_NO_COPY_NAME and NGHTTP2_NV_FLAG_NO_COPY_VALUE.
abbrev pub no_copy_name : ℕ
no_copy_name = 2

abbrev pub no_copy_both : ℕ
no_copy_both = 6

abbrev pub grpc_status_name : List ℕ
grpc_status_name = codes "grpc-status"

abbrev pub grpc_message_name : List ℕ
grpc_message_name = codes "grpc-message"

-- `V_GRPC_STATUS`: the digits of 0 to 16.
abbrev status_digits : List (List ℕ)
status_digits =
    codes "0"
    ∷ codes "1"
    ∷ codes "2"
    ∷ codes "3"
    ∷ codes "4"
    ∷ codes "5"
    ∷ codes "6"
    ∷ codes "7"
    ∷ codes "8"
    ∷ codes "9"
    ∷ codes "10"
    ∷ codes "11"
    ∷ codes "12"
    ∷ codes "13"
    ∷ codes "14"
    ∷ codes "15"
    ∷ codes "16"
    ∷ []

nv_static : List ℕ → List ℕ → Header
nv_static n v = record { name = n; value = v; flags = no_copy_both }

nv_dyn_value : List ℕ → List ℕ → Header
nv_dyn_value n v = record { name = n; value = v; flags = no_copy_name }

unfoldable pub response_headers : List Header
unfolding nv_static
response_headers =
    nv_static (codes ":status") (codes "200")
    ∷ nv_static (codes "content-type") (codes "application/grpc")
    ∷ []

unfoldable pub trailer : GrpcStatus → List Header
unfolding nv_static discriminant
trailer s = nv_static grpc_status_name (get_or status_digits (discriminant s) []) ∷ []

unfoldable pub trailer_with_message : GrpcStatus → List ℕ → List Header
unfolding nv_static nv_dyn_value discriminant
trailer_with_message s msg =
    nv_static grpc_status_name (get_or status_digits (discriminant s) [])
    ∷ nv_dyn_value grpc_message_name msg
    ∷ []
