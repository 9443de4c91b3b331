-- ===== src/Conn/Calls.antt =====
-- The calls that a handler or a producer makes on a connection: writes, finishes, hooks and
-- policies, rust/grpcuds-core/src/conn/state.rs.
pub mod Laws
pub mod Valid
use grpc_uds.Prelude.{
  ℕ, ◌-◌, Bool, true, false, ◌&&◌, List, [], ◌∷◌, Option, none, some, Result, ok, err, ◌==◌,
  if◌then◌else◌, length, ℤ,
}
use mathlib.Core.Option
use grpc_uds.Headers.{GrpcStatus}
use grpc_uds.Headers.Percent.{percent_encode_message}
use grpc_uds.Errors.{ConnError, Reply, stream_not_found, stream_finished}
use grpc_uds.OutQueue.{OutQueue, Backpressure, enqueue_owned, enqueue_framed}
use grpc_uds.Conn.{
  Conn, StreamCtx, StreamState, CancelHook, ApiCall, writes, writes_owned, finishes, finishes_msg,
  sets_hook, sets_policy, Script, returns, calls, asks_time, command, resume_data, find_stream,
  update_stream, on_stream, set_out,
}

abbrev pub is_dispatched : StreamState → Bool
is_dispatched StreamState.dispatched = true
is_dispatched _ = false

-- The nudge after a change: only a stream past dispatch has a deferred DATA frame.
abbrev pub resume_if : StreamCtx → Conn → Conn
resume_if s c =
    if is_dispatched s.state && s.out.response_started then command (resume_data s.id) c else c

abbrev enqueued : StreamCtx → Conn → OutQueue × Reply → Conn × Reply
enqueued s c (q, ok _) = (resume_if s (on_stream s.id (set_out q) c), ok tt)
enqueued s c (q, err e) = (on_stream s.id (set_out q) c, err e)

abbrev write_found : (OutQueue → OutQueue × Reply) → Conn → Option StreamCtx → Conn × Reply
write_found enqueue c none = (c, err stream_not_found)
write_found enqueue c (some s) =
    if s.out.finished then (c, err stream_finished) else enqueued s c (enqueue s.out)

unfoldable pub write_call_with : ℕ → (OutQueue → OutQueue × Reply) → Conn → Conn × Reply
unfolding command
write_call_with i enqueue c = write_found enqueue c (find_stream i c.streams)

unfoldable pub write_call : Bool → Bool → ℕ → List ℕ → Conn → Conn × Reply
unfolding write_call_with
write_call copy room i payload c = write_call_with i (enqueue_framed copy room payload) c

unfoldable pub write_call_owned : Bool → ℕ → List ℕ → Conn → Conn × Reply
unfolding write_call_with
write_call_owned room i payload c = write_call_with i (enqueue_owned room payload) c

-- The message to ship, if there is one and it is not empty.
abbrev encoded : Option (List ℕ) → Option (List ℕ) → Option (List ℕ)
encoded none old = old
encoded (some []) old = old
encoded (some (b ∷ msg)) old = some (percent_encode_message (b ∷ msg) [])

-- What `finish_call_inner` does to the queue.
unfoldable pub finish_queue : GrpcStatus → Option (List ℕ) → OutQueue → OutQueue
finish_queue code msg q = if q.finished then q else record q {
  finished = true;
  final_status = code;
  final_message = encoded msg q.final_message;
}

abbrev pub finish_found : GrpcStatus → Option (List ℕ) → Conn → Option StreamCtx → Conn × Reply
finish_found code msg c none = (c, err stream_not_found)
finish_found code msg c (some s) =
    (resume_if s (on_stream s.id (set_out (finish_queue code msg s.out)) c), ok tt)

unfoldable pub finish_call_inner : ℕ → GrpcStatus → Option (List ℕ) → Conn → Conn × Reply
unfolding finish_queue command
finish_call_inner i code msg c = finish_found code msg c (find_stream i c.streams)

unfoldable pub finish_call : ℕ → GrpcStatus → Conn → Conn × Reply
unfolding finish_call_inner
finish_call i code c = finish_call_inner i code none c

unfoldable pub finish_call_msg : ℕ → GrpcStatus → List ℕ → Conn → Conn × Reply
unfolding finish_call_inner
finish_call_msg i code msg c = finish_call_inner i code (some msg) c

abbrev changed : (StreamCtx → StreamCtx) → Conn → Option StreamCtx → Conn × Reply
changed f c none = (c, err stream_not_found)
changed f c (some s) = (on_stream s.id f c, ok tt)

unfoldable pub set_cancel_hook : ℕ → CancelHook → Conn → Conn × Reply
set_cancel_hook i hook c =
    changed (λ s. record s { cancel_hook = some hook }) c (find_stream i c.streams)

unfoldable pub set_stream_policy : ℕ → Backpressure → Conn → Conn × Reply
set_stream_policy i bp c =
    changed (λ s. record s { out = record (s.out) { backpressure = bp } }) c
      (find_stream i c.streams)

abbrev remaining : ℕ → Option StreamCtx → Result (Option ℕ) ConnError
remaining now none = err stream_not_found
remaining now (some s) = ok (Option.map (λ d. d - now) s.deadline_ms)

unfoldable pub call_time_remaining_ms : ℕ → ℕ → Conn → Result (Option ℕ) ConnError
call_time_remaining_ms now i c = remaining now (find_stream i c.streams)

unfoldable pub api_call : ApiCall → Conn → Conn × Reply
api_call (writes copy room i payload) c = write_call copy room i payload c
api_call (writes_owned room i payload) c = write_call_owned room i payload c
api_call (finishes i code) c = finish_call i code c
api_call (finishes_msg i code msg) c = finish_call_msg i code msg c
api_call (sets_hook i hook) c = set_cancel_hook i hook c
api_call (sets_policy i bp) c = set_stream_policy i bp c

-- A run of a handler at the time `now`, and what it returns.
unfoldable pub run_script : ℕ → Script → Conn → Conn × ℤ
run_script now (returns rc) c = (c, rc)
run_script now (calls op next) c = let (c', r) = api_call op c in run_script now (next r) c'
run_script now (asks_time i next) c = run_script now (next (call_time_remaining_ms now i c)) c
