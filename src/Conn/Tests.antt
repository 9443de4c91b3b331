-- ===== src/Conn/Tests.antt =====
-- The theorems on a connection at one with two streams: stream 1, dispatched, with a message of
-- two bytes to send, and stream 3, whose request is there.
use grpc_uds.Prelude.{
  ℕ, ◌≡◌, ◌++◌, refl, true, false, List, [], ◌∷◌, none, some, pos, arith, take, ◌==◌, if◌then◌else◌,
}
use grpc_uds.Framing.{encode_header}
use grpc_uds.Headers.{status_ok}
use grpc_uds.OutQueue.{unbounded}
use grpc_uds.Conn.{
  Conn, StreamCtx, StreamState, Script, returns, calls, writes, finishes, find_stream, Answers,
}
use grpc_uds.Conn.Calls.{api_call}
use grpc_uds.Conn.Calls.Valid.{Acts, api_call-Acts}
use grpc_uds.Conn.Receive.{on_stream_close}
use grpc_uds.Conn.Receive.Valid.{data_chunk_recv, callback, AllBounded, callback-AllBounded}
use grpc_uds.Conn.Receive.Removal.{closed_hooks, on_stream_close_lem}
use grpc_uds.Conn.Deadlines.{expire_deadlines}
use mathlib.Core.Option
use grpc_uds.Conn.Deadlines.Ended.{among, ended, overdue_ids, overdue_hooks, expire_deadlines-Ended}
use grpc_uds.Conn.Provider.{accepted, interrupted, send_data}
use grpc_uds.Conn.Provider.Ordered.{Outcome, send_data_lem}

abbrev stream_1 : StreamCtx
stream_1 = record {
  id = 1;
  state = StreamState.dispatched;
  request = [];
  path = [];
  out = record {
    messages = record { hdr = encode_header false 2; body = 7 ∷ 8 ∷ [] } ∷ [];
    front_offset = 0;
    front_committed = true;
    finished = false;
    final_status = status_ok;
    final_message = none;
    response_started = true;
    backpressure = unbounded;
  };
  status = status_ok;
  cancel_hook = some (record { callback = 1; user_data = 2 });
  deadline_ms = some 100;
}

abbrev stream_3 : StreamCtx
stream_3 = record stream_1 {
  id = 3;
  state = StreamState.complete;
  request = encode_header false 0;
  cancel_hook = none;
}

abbrev two_streams : Conn
two_streams = record {
  commands = [];
  streams = stream_1 ∷ stream_3 ∷ [];
  methods = [];
  max_message_len = 100;
  fd = pos 4;
  out_pending = [];
  fired = [];
  sent = [];
}

-- The session takes every command.
abbrev taken : Answers
taken _ _ = pos 0

api_call-Acts_example : Acts 1 two_streams (api_call (writes true true 1 (9 ∷ [])) two_streams).0
api_call-Acts_example = api_call-Acts (writes true true 1 (9 ∷ [])) two_streams

-- Writes a byte, and finishes the call whatever the answer.
abbrev handler_run : Script
handler_run =
    calls (writes true true 3 (9 ∷ [])) (λ _. calls (finishes 3 status_ok) (λ _. returns (pos 0)))

on_stream_close_lem_example :
    let c' = on_stream_close true 1 two_streams in
    (find_stream 3 c'.streams ≡ (if 1 == 3 then none else find_stream 3 two_streams.streams))
    × (c'.fired ≡ two_streams.fired ++ closed_hooks true (find_stream 1 two_streams.streams))
unfolding find_stream
on_stream_close_lem_example = on_stream_close_lem true 1 3 two_streams (refl, (refl, tt))

callback-AllBounded_example :
    AllBounded (callback (data_chunk_recv true 3 (1 ∷ 2 ∷ [])) two_streams)
unfolding encode_header
callback-AllBounded_example =
    callback-AllBounded (data_chunk_recv true 3 (1 ∷ 2 ∷ [])) two_streams (omega arith)
      (omega arith, (omega arith, tt))

abbrev frame_header : List ℕ
frame_header = 0 ∷ 0 ∷ 7 ∷ 0 ∷ 0 ∷ 0 ∷ 0 ∷ 0 ∷ 1 ∷ []

-- A call is interrupted, then the socket takes eleven bytes of sixteen.
send_data_lem_example :
    let (c', code) =
      send_data true (interrupted ∷ accepted 11 ∷ []) 0 1 frame_header 7 two_streams in
    Outcome 1 frame_header 7 stream_1 two_streams c' code
unfolding find_stream
send_data_lem_example =
    send_data_lem true (interrupted ∷ accepted 11 ∷ []) 0 1 frame_header 7 stream_1 two_streams refl
      (record { framed = ((refl, omega arith), tt); offset_in = omega arith }) refl

expire_deadlines-Ended_example :
    let c' = expire_deadlines 150 two_streams in
    (find_stream 1 c'.streams
      ≡ Option.map
          (λ s. if among 1 (take 8 (overdue_ids 150 two_streams.streams)) then ended s else s)
          (find_stream 1 two_streams.streams))
    × (c'.fired ≡ two_streams.fired ++ overdue_hooks 150 8 two_streams.streams)
unfolding find_stream
expire_deadlines-Ended_example = expire_deadlines-Ended 150 1 two_streams (refl, (refl, tt))
