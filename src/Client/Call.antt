-- ===== src/Client/Call.antt =====
-- The state of a call and the nghttp2 callbacks that fill it, of rust/grpcuds-core/src/client.rs.
-- `grants n` is the allocator's answer to a reservation of `n` bytes.
pub mod Frames
pub mod Chunks
pub mod Trailers
use grpc_uds.Prelude.{
  ℕ, zero, suc, ◌+◌, ◌-◌, ◌*◌, min, Bool, true, false, List, [], ◌∷◌, ◌++◌, Option, none, some,
  Result, ok, err, ℤ, pos, codes, same_bytes, ltb, ◌==◌, if◌then◌else◌, length, take, drop,
}
use grpc_uds.Framing.{FrameHeader, FrameError, frame_header_len, decode_header}
use grpc_uds.Headers.{GrpcStatus, grpc_status_from_i32}
use grpc_uds.Client.Text.{parse_u32, parse_i32, percent_decode}

abbrev pub max_message_len : ℕ
max_message_len = 4 * 1024 * 1024

pub record CallState : Type 0 where
  pub req : List ℕ
  pub req_off : ℕ
  pub http_status : Option ℕ
  pub grpc_status : Option ℤ
  pub grpc_message : Option (List ℕ)
  pub inbuf : List ℕ
  pub messages : List (List ℕ)
  pub closed : Bool

-- Every field is given anew.
unfoldable pub reset : List ℕ → CallState → CallState
reset req st = record {
  req = req;
  req_off = 0;
  http_status = none;
  grpc_status = none;
  grpc_message = none;
  inbuf = [];
  messages = [];
  closed = false;
}

abbrev pub Deframed : Type 0
Deframed = List (List ℕ) × List ℕ

abbrev pub also : List ℕ → Deframed → Deframed
also msg (more, rest) = (msg ∷ more, rest)

-- A round of the loop on an accepted header; `next` is the loop again on the bytes left.
unfoldable pub deframe_one : (ℕ → Bool) → (List ℕ → Deframed) → List ℕ → ℕ → Deframed
deframe_one grants next buf n = elim (ltb (length buf) (frame_header_len + n)) [
  | true ↦ ([], buf)
  | false ↦ elim (grants n) [
    | true ↦ also (take n (drop frame_header_len buf)) (next (drop (frame_header_len + n) buf))
    | false ↦ ([], buf)
  ]
]

abbrev pub on_decoded :
    (ℕ → Bool) → (List ℕ → Deframed) → List ℕ → Result FrameHeader FrameError → Deframed
on_decoded grants next buf (ok h) = deframe_one grants next buf h.payload_len
on_decoded grants next buf (err e) = ([], buf)

-- The loop over `inbuf`: the messages it pushes, and what it leaves. The number bounds the rounds.
unfoldable pub deframe_loop : ℕ → (ℕ → Bool) → List ℕ → Deframed
unfolding deframe_one
deframe_loop zero grants buf = ([], buf)
deframe_loop (suc rounds) grants buf =
    on_decoded grants (deframe_loop rounds grants) buf (decode_header buf max_message_len)

-- A round takes five bytes at least.
unfoldable pub deframe_bytes : (ℕ → Bool) → List ℕ → Deframed
deframe_bytes grants buf = deframe_loop (suc (length buf)) grants buf

unfoldable pub deframe : (ℕ → Bool) → CallState → CallState
deframe grants st =
    let (msgs, rest) = deframe_bytes grants st.inbuf in
    record st { inbuf = rest; messages = st.messages ++ msgs }

unfoldable pub on_data : (ℕ → Bool) → List ℕ → CallState → CallState
unfolding deframe
on_data grants chunk st = deframe grants (record st { inbuf = st.inbuf ++ chunk })

-- The `match` on the name of a response header.
unfoldable pub on_header : List ℕ → List ℕ → CallState → CallState
on_header name value st =
    if same_bytes name (codes ":status")
    then record st { http_status = parse_u32 value }
    else if same_bytes name (codes "grpc-status")
    then record st { grpc_status = parse_i32 value }
    else if same_bytes name (codes "grpc-message")
    then record st { grpc_message = percent_decode value }
    else st

-- `ClientCall::status`: a call with no status of its own is `Unknown`.
unfoldable pub status : CallState → GrpcStatus
status st = grpc_status_from_i32 (elim st.grpc_status [ none ↦ pos 2 | some code ↦ code ])

unfoldable pub on_close : CallState → CallState
on_close st = record st { closed = true }

-- The bytes copied to `buf`, whether the EOF flag is set, and the new state.
unfoldable pub data_read : ℕ → CallState → List ℕ × Bool × CallState
data_read len st =
    let n = min (length st.req - st.req_off) len in
    let off = st.req_off + n in
    (take n (drop st.req_off st.req), off == length st.req, record st { req_off = off })
