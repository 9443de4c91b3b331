-- ===== src/Framing.antt =====
-- The message framing of rust/grpcuds-core/src/framing.rs. A byte is a number below 256.
pub mod RoundTrip
mod Tests
use grpc_uds.Prelude.{
  ℕ, ◌+◌, ◌*◌, ◌/◌, ◌%◌, ◌^◌, ◌<◌, Bool, true, false, List, [], ◌∷◌, Result, ok, err, ltb, ◌==◌,
  if◌then◌else◌,
}

abbrev pub frame_header_len : ℕ
frame_header_len = 5

abbrev pub default_max_message_len : ℕ
default_max_message_len = 16 * 1024 * 1024

abbrev pub IsByte : ℕ → Type 0
IsByte b = b < 256

abbrev pub IsU32 : ℕ → Type 0
IsU32 n = n < 2 ^ 32

pub record FrameHeader : Type 0 where
  pub compressed : Bool
  pub payload_len : ℕ

pub data FrameError : Type 0 where
  need_more too_large compressed_flag : FrameError

-- `compressed as u8`.
abbrev flag_byte : Bool → ℕ
flag_byte true = 1
flag_byte false = 0

-- The five bytes that are written to `out`: the flag, then `payload_len.to_be_bytes()`.
unfoldable pub encode_header : Bool → ℕ → List ℕ
encode_header compressed n =
    flag_byte compressed
    ∷ (n / 2 ^ 24 % 256)
    ∷ (n / 2 ^ 16 % 256)
    ∷ (n / 2 ^ 8 % 256)
    ∷ (n % 256)
    ∷ []

-- `u32::from_be_bytes`.
abbrev pub from_be_bytes : ℕ → ℕ → ℕ → ℕ → ℕ
from_be_bytes a b c d = a * 2 ^ 24 + b * 2 ^ 16 + c * 2 ^ 8 + d

abbrev checked : ℕ → ℕ → ℕ → Result FrameHeader FrameError
checked flag n max =
    if flag == 0
    then (if ltb max n then err too_large else ok (record { compressed = false; payload_len = n }))
    else err compressed_flag

-- The clauses but the last are those where `buf.get(..5)` is `None`.
unfoldable pub decode_header : List ℕ → ℕ → Result FrameHeader FrameError
decode_header [] max = err need_more
decode_header (a ∷ []) max = err need_more
decode_header (a ∷ b ∷ []) max = err need_more
decode_header (a ∷ b ∷ c ∷ []) max = err need_more
decode_header (a ∷ b ∷ c ∷ d ∷ []) max = err need_more
decode_header (a ∷ b ∷ c ∷ d ∷ e ∷ rest) max = checked a (from_be_bytes b c d e) max
