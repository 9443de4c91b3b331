-- ===== src/Conn/Receive.antt =====
-- The receive-side callbacks of rust/grpcuds-core/src/conn/callbacks.rs, and the buffer of pending
-- bytes of rust/grpcuds-core/src/conn/state.rs. A callback returns `true` for 0 and `false` for
-- NGHTTP2_ERR_CALLBACK_FAILURE.
pub mod Valid
pub mod Removal
use grpc_uds.Prelude.{
  ℕ, zero, suc, ◌+◌, ◌-◌, ◌^◌, min, Bool, true, false, ◌&&◌, List, [], ◌∷◌, ◌++◌, Option, none,
  some, Result, ok, err, ltb, leb, ◌==◌, if◌then◌else◌, length, drop, same_bytes, codes,
}
use mathlib.Core.Option
use grpc_uds.Headers.{status_ok}
use grpc_uds.Headers.Timeout.{parse_grpc_timeout_ms}
use grpc_uds.Errors.{Reply, out_of_memory}
use grpc_uds.OutQueue.{new}
use grpc_uds.Conn.{Conn, StreamCtx, StreamState, CancelHook, find_stream, update_stream, on_stream}

-- `(*frame).hd` with the category of a HEADERS frame.
pub record FrameInfo : Type 0 where
  pub stream_id : ℕ
  pub is_headers : Bool
  pub is_request : Bool
  pub end_stream : Bool

new_stream : ℕ → StreamCtx
new_stream i = record {
  id = i;
  state = StreamState.headers_in;
  request = [];
  path = [];
  out = new;
  status = status_ok;
  cancel_hook = none;
  deadline_ms = none;
}

-- `room` is the allocator's answer.
unfoldable pub on_begin_headers : Bool → FrameInfo → Conn → Conn × Bool
unfolding new_stream
on_begin_headers room frame c =
    if frame.is_headers && frame.is_request
    then (if room
        then (record c { streams = c.streams ++ (new_stream frame.stream_id ∷ []) }, true)
        else (c, false))
    else (c, true)

-- A header of a stream that is there, at the time `now`.
abbrev header_found : Bool → ℕ → List ℕ → List ℕ → Conn → Option StreamCtx → Conn × Bool
header_found room now name value c none = (c, true)
header_found room now name value c (some s) =
    if same_bytes name (codes ":path")
    then (if room
        then (on_stream s.id (λ t. record t { path = t.path ++ value }) c, true)
        else (c, false))
    else if same_bytes name (codes "grpc-timeout")
    then (
      on_stream s.id
          (λ t. record t { deadline_ms = Option.map (λ d. now + d) (parse_grpc_timeout_ms value) })
          c,
      true,
    )
    else (c, true)

unfoldable pub on_header : Bool → ℕ → ℕ → List ℕ → List ℕ → Conn → Conn × Bool
on_header room now i name value c = header_found room now name value c (find_stream i c.streams)

abbrev received : FrameInfo → StreamCtx → StreamCtx
received frame s =
    if frame.end_stream
    then record s { state = StreamState.complete }
    else if frame.is_headers
    then record s { state = StreamState.body_in }
    else s

abbrev frame_found : FrameInfo → Conn → Option StreamCtx → Conn
frame_found frame c none = c
frame_found frame c (some s) = on_stream s.id (received frame) c

unfoldable pub on_frame_recv : FrameInfo → Conn → Conn
on_frame_recv frame c = frame_found frame c (find_stream frame.stream_id c.streams)

-- The sum is saturating in u64.
abbrev chunk_found : Bool → List ℕ → Conn → Option StreamCtx → Conn × Bool
chunk_found room chunk c none = (c, true)
chunk_found room chunk c (some s) =
    if ltb c.max_message_len (min (length s.request + length chunk) (2 ^ 64 - 1))
    then (c, false)
    else if room
    then (on_stream s.id (λ t. record t { request = t.request ++ chunk }) c, true)
    else (c, false)

unfoldable pub on_data_chunk_recv : Bool → ℕ → List ℕ → Conn → Conn × Bool
on_data_chunk_recv room i chunk c = chunk_found room chunk c (find_stream i c.streams)

-- `swap_remove` at the first stream of the id: the last stream takes its place.
last_or : StreamCtx → List StreamCtx → StreamCtx
last_or s [] = s
last_or s (t ∷ ts) = last_or t ts

init_of : StreamCtx → List StreamCtx → List StreamCtx
init_of s [] = []
init_of s (t ∷ ts) = s ∷ init_of t ts

abbrev fill_gap : List StreamCtx → List StreamCtx
fill_gap [] = []
fill_gap (t ∷ ts) = last_or t ts ∷ init_of t ts

unfoldable pub swap_remove : ℕ → List StreamCtx → List StreamCtx
unfolding last_or init_of
swap_remove i [] = []
swap_remove i (s ∷ ss) = if s.id == i then fill_gap ss else s ∷ swap_remove i ss

-- The hook of a removed stream, if it was closed with an error.
abbrev hooks_of : Bool → Option CancelHook → List CancelHook
hooks_of cancelled none = []
hooks_of cancelled (some hook) = if cancelled then hook ∷ [] else []

abbrev close_found : Bool → ℕ → Conn → Option StreamCtx → Conn
close_found failed i c none = c
close_found failed i c (some s) = record c {
  streams = swap_remove i c.streams;
  fired = c.fired ++ hooks_of failed s.cancel_hook;
}

-- `failed` is `error_code != 0`.
unfoldable pub on_stream_close : Bool → ℕ → Conn → Conn
unfolding swap_remove
on_stream_close failed i c = close_found failed i c (find_stream i c.streams)

unfoldable pub consume_pending : ℕ → Conn → Conn
consume_pending n c =
    if leb (length c.out_pending) n
    then record c { out_pending = [] }
    else record c { out_pending = drop n c.out_pending }

unfoldable pub stash_pending : Bool → List ℕ → Conn → Conn × Reply
stash_pending room bytes c =
    if room
    then (record c { out_pending = c.out_pending ++ bytes }, ok tt)
    else (c, err out_of_memory)
