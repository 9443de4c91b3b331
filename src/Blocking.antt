-- ===== src/Blocking.antt =====
-- The blocking client of rust/grpcuds/src/client.rs: its connection, and one round of I/O. Times
-- are nanoseconds. The session of nghttp2 is the list of the commands that it was given; what the
-- system, the clock and nghttp2 answer to one call of `pump` is a `Turn`.
pub mod Call
pub mod Dial
pub mod Calls
pub mod Hears
pub mod Deadline
pub mod Ends
pub mod Heard
pub mod Unary
pub mod Stream
mod Tests
use grpc_uds.Prelude.{
  ℕ, ◌+◌, ◌-◌, Bool, true, false, List, [], ◌∷◌, ◌++◌, Option, none, some, Result, ok, err, pos,
  ltb, ◌==◌, if◌then◌else◌, codes,
}
use grpc_uds.Headers.{GrpcStatus, discriminant}
use grpc_uds.Uds.{SendAnswer, ReadAnswer, reads, read_eintr, read_eagain, read_fails}
use grpc_uds.Types.{Status, with_message}
use grpc_uds.Client.Conn.{
  Command, submit_rst, Written, write_all, PollAnswer, ready, timed_out, poll_eintr, poll_fails,
}
use grpc_uds.Blocking.Call.{CallState, on_header, on_data, on_close}

-- `wire` are the bytes that the socket took, and `received` those of the bodies that nghttp2 handed
-- over since the last submission, of whatever stream: the streams of a connection share the state.
pub record Client : Type 0 where
  pub fd : ℕ
  pub commands : List Command
  pub wire : List ℕ
  pub received : List ℕ
  pub state : CallState
  pub timeout : Option ℕ
  pub deadline_at : Option ℕ
  pub current_sid : ℕ
  pub path : List ℕ
  pub broken : Bool

abbrev put_wire : List ℕ → Client → Client
put_wire bytes c = record c { wire = c.wire ++ bytes }

abbrev wrote : (List SendAnswer → Client → Client × Bool) → Written → Client → Client × Bool
wrote next w c = if w.complete then next w.left (put_wire w.out c) else (put_wire w.out c, false)

-- The chunks are those that `mem_send` gives; an empty one ends the loop. `write_all` is that of
-- the standard library. The result is `true` for `Ok`.
unfoldable pub flush_send : List (List ℕ) → List SendAnswer → Client → Client × Bool
unfolding write_all
flush_send [] answers c = (c, true)
flush_send ([] ∷ chunks) answers c = (c, true)
flush_send ((b ∷ bs) ∷ chunks) answers c = wrote (flush_send chunks) (write_all answers (b ∷ bs)) c

-- A callback that nghttp2 makes, for a stream that it does not tell apart here.
pub data Event : Type 0 where
  header : List ℕ → List ℕ → Event
  body : List ℕ → Event
  closes : ℕ → Event

unfoldable pub apply_event : Event → CallState → CallState
apply_event (header name value) st = on_header name value st
apply_event (body bytes) st = on_data bytes st
apply_event (closes error_code) st = on_close error_code st

unfoldable pub apply_events : List Event → CallState → CallState
unfolding apply_event
apply_events [] st = st
apply_events (e ∷ es) st = apply_events es (apply_event e st)

abbrev pub bodies : List Event → List ℕ
bodies [] = []
bodies (header name value ∷ es) = bodies es
bodies (body bytes ∷ es) = bytes ++ bodies es
bodies (closes error_code ∷ es) = bodies es

abbrev pub hear : List Event → Client → Client
hear es c = record c { state = apply_events es c.state; received = c.received ++ bodies es }

-- `text` is that of the system's error, and `idle` what `is_idle` answers before the turn.
pub record Turn : Type 0 where
  pub idle : Bool
  pub chunks : List (List ℕ)
  pub answers : List SendAnswer
  pub now : ℕ
  pub poll : PollAnswer
  pub read : ReadAnswer
  pub text : List ℕ
  pub events : List Event
  pub accepted : Bool
  pub rst_chunks : List (List ℕ)
  pub rst_answers : List SendAnswer

abbrev expired_state : CallState → CallState
expired_state st = record st {
  grpc_status = some (pos (discriminant GrpcStatus.deadline_exceeded));
  grpc_message = some (codes "deadline exceeded (client-side)");
  closed = true;
}

abbrev pub expired : Client → Client
expired c = record c { state = expired_state c.state; deadline_at = none }

-- The result of the flush is ignored.
unfoldable pub expire_call : Turn → Client → Client
unfolding flush_send
expire_call t c =
    if ltb 0 c.current_sid
    then (flush_send t.rst_chunks t.rst_answers
        (record (expired c) { commands = c.commands ++ (submit_rst c.current_sid ∷ []) })).0
    else expired c

abbrev pub mark_broken : Client → Client
mark_broken c = record c { broken = true }

abbrev pub close_broken : Client → Client
close_broken c = record c { state = record (c.state) { closed = true }; broken = true }

abbrev pub Pumped : Type 0
Pumped = Client × Result (Unit {0}) Status

abbrev pub unavailable : Turn → Status
unavailable t = with_message GrpcStatus.unavailable t.text

abbrev pub read_phase : Turn → Client → ReadAnswer → Pumped
read_phase t c (reads []) = (close_broken c, ok tt)
read_phase t c (reads (b ∷ bs)) =
    let c' = hear t.events c in
    if t.accepted
    then (c', ok tt)
    else (mark_broken c', err (with_message GrpcStatus.internal (codes "nghttp2 mem_recv failed")))
read_phase t c read_eintr = (c, ok tt)
read_phase t c read_eagain = (close_broken c, err (unavailable t))
read_phase t c (read_fails e) = (close_broken c, err (unavailable t))

abbrev pub poll_phase : Turn → Client → PollAnswer → Pumped
poll_phase t c ready = read_phase t c t.read
poll_phase t c timed_out = (expire_call t c, ok tt)
poll_phase t c poll_eintr = (c, ok tt)
poll_phase t c poll_fails = (close_broken c, err (unavailable t))

abbrev pub wait_phase : Turn → Client → Option ℕ → Pumped
wait_phase t c none = read_phase t c t.read
wait_phase t c (some d) = if d - t.now == 0 then (expire_call t c, ok tt) else poll_phase t c t.poll

abbrev pub after_flush : Turn → Client × Bool → Pumped
after_flush t (c, false) = (mark_broken c, err (unavailable t))
after_flush t (c, true) = wait_phase t c c.deadline_at

unfoldable pub pump : Turn → Client → Client × Result (Unit {0}) Status
unfolding flush_send expire_call apply_events with_message
pump t c = after_flush t (flush_send t.chunks t.answers c)
