-- ===== src/Blocking/Call.antt =====
-- `CallState` of rust/grpcuds/src/client.rs and the nghttp2 callbacks that fill it. A String is its
-- bytes; `parse_u32` and `parse_i32` are `str::parse`, `hex_value` is `to_digit(16)`, and `is_utf8`
-- is what `from_utf8` tests.
pub mod Deframes
use grpc_uds.Prelude.{
  ℕ, zero, suc, ◌+◌, ◌-◌, ◌*◌, min, Bool, true, false, List, [], ◌∷◌, ◌++◌, Option, none, some,
  Result, ok, err, ℤ, codes, same_bytes, ltb, ◌==◌, if◌then◌else◌, length, take, drop,
}
use grpc_uds.Framing.{FrameHeader, FrameError, frame_header_len, decode_header}
use grpc_uds.Client.Text.{parse_u32, parse_i32, hex_value, is_utf8}

abbrev pub max_message_len : ℕ
max_message_len = 4 * 1024 * 1024

pub record CallState : Type 0 where
  pub req : List ℕ
  pub req_off : ℕ
  pub http_status : Option ℕ
  pub grpc_status : Option ℤ
  pub grpc_message : Option (List ℕ)
  pub inbuf : List ℕ
  pub messages : List (List ℕ)
  pub closed : Bool
  pub close_error : ℕ

unfoldable pub reset : List ℕ → CallState → CallState
reset req st = record {
  req = req;
  req_off = 0;
  http_status = none;
  grpc_status = none;
  grpc_message = none;
  inbuf = [];
  messages = [];
  closed = false;
  close_error = 0;
}

-- A round of the loop: the messages pushed from here on, and what is left of `inbuf`.
abbrev pub Deframed : Type 0
Deframed = List (List ℕ) × List ℕ

abbrev pub also : List ℕ → Deframed → Deframed
also msg (more, rest) = (msg ∷ more, rest)

abbrev pub cut : (List ℕ → Deframed) → List ℕ → ℕ → Bool → Deframed
cut next buf n true = ([], buf)
cut next buf n false =
    also (take n (drop frame_header_len buf)) (next (drop (frame_header_len + n) buf))

abbrev pub on_decoded : (List ℕ → Deframed) → List ℕ → Result FrameHeader FrameError → Deframed
on_decoded next buf (err e) = ([], buf)
on_decoded next buf (ok h) =
    cut next buf h.payload_len (ltb (length buf) (frame_header_len + h.payload_len))

-- The number bounds the rounds, each of which takes five bytes at least.
unfoldable pub deframe_loop : ℕ → List ℕ → Deframed
deframe_loop zero buf = ([], buf)
deframe_loop (suc rounds) buf =
    on_decoded (deframe_loop rounds) buf (decode_header buf max_message_len)

unfoldable pub deframe_bytes : List ℕ → Deframed
unfolding deframe_loop
deframe_bytes buf = deframe_loop (suc (length buf)) buf

unfoldable pub deframe : CallState → CallState
unfolding deframe_bytes
deframe st =
    let (msgs, rest) = deframe_bytes st.inbuf in
    record st { inbuf = rest; messages = st.messages ++ msgs }

unfoldable pub on_data : List ℕ → CallState → CallState
unfolding deframe
on_data chunk st = deframe (record st { inbuf = st.inbuf ++ chunk })

-- The byte of an escape, where both of its characters are hexadecimal digits.
abbrev escape_byte : Option ℕ → Option ℕ → Option ℕ
escape_byte none _ = none
escape_byte (some h) none = none
escape_byte (some h) (some l) = some (h * 16 + l)

abbrev unescaped : List ℕ → List ℕ → ℕ → Option ℕ → List ℕ
unescaped after here c none = c ∷ here
unescaped after here c (some b) = b ∷ after

-- The loop over `v` from index `i`, as the list of what is left. Two bytes must follow a `%`.
unfoldable pub percent_decode_bytes : List ℕ → List ℕ
percent_decode_bytes [] = []
percent_decode_bytes (c ∷ []) = c ∷ []
percent_decode_bytes (c ∷ h ∷ []) = c ∷ h ∷ []
percent_decode_bytes (c ∷ h ∷ l ∷ rest) =
    let here = percent_decode_bytes (h ∷ l ∷ rest) in
    let after = percent_decode_bytes rest in
    if c == b'%' then unescaped after here c (escape_byte (hex_value h) (hex_value l)) else c ∷ here

unfoldable pub percent_decode : List ℕ → Option (List ℕ)
unfolding percent_decode_bytes
percent_decode v = let out = percent_decode_bytes v in if is_utf8 out then some out else none

unfoldable pub on_header : List ℕ → List ℕ → CallState → CallState
unfolding percent_decode
on_header name value st =
    if same_bytes name (codes ":status")
    then record st { http_status = parse_u32 value }
    else if same_bytes name (codes "grpc-status")
    then record st { grpc_status = parse_i32 value }
    else if same_bytes name (codes "grpc-message")
    then record st { grpc_message = percent_decode value }
    else st

unfoldable pub on_close : ℕ → CallState → CallState
on_close error_code st = record st { closed = true; close_error = error_code }

-- The bytes copied to `buf`, whether the EOF flag is set, and the new state.
unfoldable pub data_read : ℕ → CallState → List ℕ × Bool × CallState
data_read len st =
    let n = min (length st.req - st.req_off) len in
    let off = st.req_off + n in
    (take n (drop st.req_off st.req), off == length st.req, record st { req_off = off })
