-- ===== src/Conn/Dispatch.antt =====
-- `Conn::dispatch` and `finalize_error` of rust/grpcuds-core/src/conn/dispatch.rs.
pub mod Progress
pub mod States
pub mod Serves
use grpc_uds.Prelude.{
  ℕ, zero, suc, ◌+◌, Bool, true, false, not, ◌&&◌, List, [], ◌∷◌, Option, none, some, Result, ok,
  err, ℤ, ltb, ◌==◌, if◌then◌else◌, length, take, drop, get_elem?, same_bytes,
}
use grpc_uds.Framing.{FrameHeader, FrameError, frame_header_len, decode_header}
use grpc_uds.Headers.{GrpcStatus, internal, unimplemented, status_of_return}
use grpc_uds.Errors.{ConnError, Reply}
use grpc_uds.OutQueue.{OutQueue, Backpressure}
use grpc_uds.Conn.{
  Conn, StreamCtx, StreamState, MethodEntry, Answers, is_zero, find_stream, submit_response_for,
}
use grpc_uds.Conn.Calls.{run_script}

-- `streams[i].f = ...`.
unfoldable pub update_at : ℕ → (StreamCtx → StreamCtx) → List StreamCtx → List StreamCtx
update_at i f [] = []
update_at zero f (s ∷ ss) = f s ∷ ss
update_at (suc i) f (s ∷ ss) = s ∷ update_at i f ss

abbrev pub at_index : ℕ → (StreamCtx → StreamCtx) → Conn → Conn
at_index i f c = record c { streams = update_at i f c.streams }

unfoldable pub finalize_error : GrpcStatus → StreamCtx → StreamCtx
finalize_error e s = record s {
  status = e;
  out = record (s.out) { finished = true; final_status = e };
  state = StreamState.dispatched;
}

-- A call that fails before its handler: the result of the submission is ignored.
unfoldable pub refuse : Answers → GrpcStatus → ℕ → StreamCtx → Conn → Conn
unfolding finalize_error
refuse answers e i s c = (submit_response_for answers s.id (at_index i (finalize_error e) c)).0

unfoldable pub find_method : List ℕ → List MethodEntry → Option MethodEntry
find_method path [] = none
find_method path (m ∷ ms) = if same_bytes m.path path then some m else find_method path ms

abbrev with_policy : Option Backpressure → StreamCtx → StreamCtx
with_policy none s = s
with_policy (some bp) s = record s { out = record (s.out) { backpressure = bp } }

-- After the handler returned `rc`.
unfoldable pub returned : ℤ → StreamCtx → StreamCtx
returned rc s = record s {
  state = StreamState.dispatched;
  out =
      if not (is_zero rc) && not s.out.finished
      then record (s.out) { finished = true; final_status = status_of_return rc }
      else s.out;
}

abbrev or_cancel : ℕ → Conn × Reply → Conn
or_cancel i (c, ok _) = c
or_cancel i (c, err e) = at_index i (λ s. record s { state = StreamState.cancelled }) c

-- `if !streams[i].out.response_started`.
abbrev start_response : Answers → ℕ → ℕ → Conn → Option StreamCtx → Conn
start_response answers i id c none = c
start_response answers i id c (some s) =
    if s.out.response_started then c else or_cancel i (submit_response_for answers id c)

abbrev after_handler : Answers → ℕ → ℕ → Conn × ℤ → Conn
after_handler answers i id (c, rc) =
    let c' = at_index i (returned rc) c in start_response answers i id c' (get_elem? c'.streams i)

unfoldable pub invoke : Answers → ℕ → ℕ → StreamCtx → ℕ → MethodEntry → Conn → Conn
unfolding returned update_at
invoke answers now i s len m c = after_handler answers i s.id (
    run_script now (m.handler s.id (take len (drop frame_header_len s.request)) m.user_data)
      (at_index i (with_policy m.backpressure) c))

abbrev resolve : Answers → ℕ → ℕ → StreamCtx → ℕ → Conn → Option MethodEntry → Conn
resolve answers now i s len c none = refuse answers unimplemented i s c
resolve answers now i s len c (some m) = invoke answers now i s len m c

abbrev framed : Answers → ℕ → ℕ → StreamCtx → Conn → Result FrameHeader FrameError → Conn
framed answers now i s c (err e) = refuse answers internal i s c
framed answers now i s c (ok h) =
    if ltb (length s.request) (frame_header_len + h.payload_len)
    then refuse answers internal i s c
    else resolve answers now i s h.payload_len c (find_method s.path c.methods)

abbrev pub is_complete : StreamState → Bool
is_complete StreamState.complete = true
is_complete _ = false

-- The body of the loop at a stream that is complete.
unfoldable pub dispatch_stream : Answers → ℕ → ℕ → StreamCtx → Conn → Conn
unfolding refuse invoke find_method
dispatch_stream answers now i s c =
    framed answers now i s c (decode_header s.request c.max_message_len)

-- One round of the loop: the new connection, and 1 if a stream was dispatched.
abbrev pub dispatch_at : Answers → ℕ → ℕ → Conn → Option StreamCtx → Conn × ℕ
dispatch_at answers now i c none = (c, 0)
dispatch_at answers now i c (some s) =
    if is_complete s.state then (dispatch_stream answers now i s c, 1) else (c, 0)

-- The loop from index `i`, over so many streams more.
unfoldable pub dispatch_from : Answers → ℕ → ℕ → ℕ → Conn → Conn × ℕ
unfolding dispatch_stream
dispatch_from answers now i zero c = (c, 0)
dispatch_from answers now i (suc left) c =
    let (c', n) = dispatch_at answers now i c (get_elem? c.streams i) in
    let (c'', count) = dispatch_from answers now (suc i) left c' in (c'', n + count)

unfoldable pub dispatch : Answers → ℕ → Conn → Conn × ℕ
unfolding dispatch_from
dispatch answers now c = dispatch_from answers now 0 (length c.streams) c
