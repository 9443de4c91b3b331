-- ===== src/Conn/Calls/Laws.antt =====
-- How a finish of a call acts on the finishes and the writes after it.
use grpc_uds.Prelude.{ℕ, ◌≡◌, refl, ◌∙◌, ap, sym, true, List, Option, some, ok, err, arith}
use grpc_uds.Headers.{GrpcStatus}
use grpc_uds.Errors.{Reply, stream_finished}
use grpc_uds.OutQueue.{OutQueue}
use grpc_uds.Conn.{Conn, StreamCtx, command, find_stream, update_stream, set_out}
use grpc_uds.Conn.Streams.{
  find_stream-update_stream_self, update_stream-update_stream, id-find_stream,
}
use grpc_uds.Conn.Calls.{resume_if, write_call_with, finish_queue, finish_call_inner}

pub streams-resume_if : (s : StreamCtx) (c : Conn) → (resume_if s c).streams ≡ c.streams
unfolding command
streams-resume_if s c = ground arith

-- The streams after a finish of a call that is there.
pub streams-finish_call_inner :
    (i : ℕ) (e : GrpcStatus) (msg : Option (List ℕ)) (c : Conn) {s : StreamCtx}
    → find_stream i c.streams ≡ some s
    → (finish_call_inner i e msg c).0.streams
      ≡ update_stream i (set_out (finish_queue e msg s.out)) c.streams
unfolding finish_call_inner
streams-finish_call_inner i e msg c {s} h =
    rw (h, streams-resume_if s _, id-find_stream i c.streams h)

pub finish_queue_twice :
    (e e' : GrpcStatus) (msg msg' : Option (List ℕ)) (q : OutQueue)
    → finish_queue e' msg' (finish_queue e msg q) ≡ finish_queue e msg q
unfolding finish_queue
finish_queue_twice e e' msg msg' q = ground arith

pub finished-finish_queue :
    (e : GrpcStatus) (msg : Option (List ℕ)) (q : OutQueue) → (finish_queue e msg q).finished ≡ true
unfolding finish_queue
finished-finish_queue e msg q = ground arith

find_stream-finish_call_inner :
    (i : ℕ) (e : GrpcStatus) (msg : Option (List ℕ)) (c : Conn) {s : StreamCtx}
    → find_stream i c.streams ≡ some s
    → find_stream i (finish_call_inner i e msg c).0.streams
      ≡ some (set_out (finish_queue e msg s.out) s)
find_stream-finish_call_inner i e msg c {s} h =
    ap (find_stream i) (streams-finish_call_inner i e msg c h)
    ∙ find_stream-update_stream_self i (set_out (finish_queue e msg s.out)) c.streams (λ _. refl) h

-- A second finish of a call, with any status and message, leaves the streams as the first one
-- left them, and is answered with success.
pub finish_call_inner_twice :
    (i : ℕ) (e e' : GrpcStatus) (msg msg' : Option (List ℕ)) (c : Conn) {s : StreamCtx}
    → find_stream i c.streams ≡ some s
    → let c' = (finish_call_inner i e msg c).0 in
      ((finish_call_inner i e' msg' c').0.streams ≡ c'.streams)
      × ((finish_call_inner i e' msg' c').1 ≡ ok tt)
unfolding finish_call_inner
finish_call_inner_twice i e e' msg msg' c {s} h = (
  streams-finish_call_inner i e' msg' c' h'
      ∙ ap (λ q. update_stream i (set_out q) c'.streams) (finish_queue_twice e e' msg msg' s.out)
      ∙ ap (update_stream i (set_out q)) once
      ∙ update_stream-update_stream i (set_out q) (set_out q) c.streams (λ _. refl)
      ∙ sym once,
  rw h' refl,
)
  where
    c' : Conn
    c' = (finish_call_inner i e msg c).0

    q : OutQueue
    q = finish_queue e msg s.out

    once : c'.streams ≡ update_stream i (set_out q) c.streams
    once = streams-finish_call_inner i e msg c h

    h' : find_stream i c'.streams ≡ some (set_out q s)
    h' = find_stream-finish_call_inner i e msg c h

-- After a finish of a call every write to it is refused as finished, and changes nothing.
pub write_call_with-finish_call_inner :
    (i : ℕ) (e : GrpcStatus) (msg : Option (List ℕ)) (enqueue : OutQueue → OutQueue × Reply)
    (c : Conn) {s : StreamCtx}
    → find_stream i c.streams ≡ some s
    → write_call_with i enqueue (finish_call_inner i e msg c).0
      ≡ ((finish_call_inner i e msg c).0, err stream_finished)
unfolding write_call_with
write_call_with-finish_call_inner i e msg enqueue c {s} h =
    rw (find_stream-finish_call_inner i e msg c h, finished-finish_queue e msg s.out)
