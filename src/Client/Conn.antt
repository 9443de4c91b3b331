-- ===== src/Client/Conn.antt =====
-- The blocking client connection, `ClientConn` of rust/grpcuds-core/src/client.rs. The session of
-- nghttp2 is the list of the commands that it was given. The answers of the socket, of the clock
-- and of nghttp2 to one call of `pump` are a `Turn`.
pub mod Submit
pub mod Wait
pub mod Receive
pub mod Recv
pub mod Expiry
pub mod Sends
mod Tests
use grpc_uds.Prelude.{
  ℕ, ◌+◌, ◌-◌, Bool, true, false, List, [], ◌∷◌, ◌++◌, Option, none, some, Result, ok, err, ℤ, pos,
  ltb, ◌==◌, ◌&&◌, ◌||◌, if◌then◌else◌, length, drop, take, codes,
}
use grpc_uds.Headers.{Header, discriminant, deadline_exceeded}
use grpc_uds.Uds.{
  SendAnswer, sends, eintr, eagain, send_fails, ReadAnswer, reads, read_eintr, read_eagain,
  read_fails,
}
use grpc_uds.Client.Call.{CallState, on_data, on_header, on_close}

pub data ClientError : Type 0 where
  connect session io protocol : ClientError

-- The calls of the session that submit something. A request has its headers.
pub data Command : Type 0 where
  submit_settings : Command
  submit_request : List Header → Command
  submit_rst : ℕ → Command

-- `wire` are the bytes that `send` took, and `received` the bytes of the bodies that nghttp2 handed
-- over since the last submission, of whatever stream: the streams of a connection share the state.
pub record ClientConn : Type 0 where
  pub fd : ℕ
  pub commands : List Command
  pub wire : List ℕ
  pub received : List ℕ
  pub state : CallState
  pub timeout_ms : Option ℕ
  pub deadline_ms : Option ℕ
  pub current_sid : ℕ
  pub path : List ℕ
  pub broken : Bool

-- What `write_all` put on the socket, the answers left, and whether all of it is there.
pub record Written : Type 0 where
  pub out : List ℕ
  pub left : List SendAnswer
  pub complete : Bool

abbrev more_out : List ℕ → Written → Written
more_out bytes w = record w { out = bytes ++ w.out }

-- The socket blocks, so EAGAIN is an error like the others. Where the answers run out it fails.
unfoldable pub write_all : List SendAnswer → List ℕ → Written
write_all answers [] = record { out = []; left = answers; complete = true }
write_all [] (b ∷ bs) = record { out = []; left = []; complete = false }
write_all (sends n ∷ answers) (b ∷ bs) = elim (n == 0) [
  | true ↦ record { out = []; left = answers; complete = false }
  | false ↦ more_out (take n (b ∷ bs)) (write_all answers (drop n (b ∷ bs)))
]
write_all (eintr ∷ answers) (b ∷ bs) = write_all answers (b ∷ bs)
write_all (eagain ∷ answers) (b ∷ bs) = record { out = []; left = answers; complete = false }
write_all (send_fails e ∷ answers) (b ∷ bs) = record { out = []; left = answers; complete = false }

abbrev put_wire : List ℕ → ClientConn → ClientConn
put_wire bytes c = record c { wire = c.wire ++ bytes }

abbrev mark_broken : ClientConn → ClientConn
mark_broken c = record c { broken = true }

abbrev wrote :
    (List SendAnswer → ClientConn → ClientConn × Bool) → Written → ClientConn → ClientConn × Bool
wrote next w c =
    if w.complete then next w.left (put_wire w.out c) else (mark_broken (put_wire w.out c), false)

-- The chunks are those that `mem_send` gives; an empty one ends the loop. The result is `true` for
-- `Ok`.
unfoldable pub flush_send : List (List ℕ) → List SendAnswer → ClientConn → ClientConn × Bool
unfolding write_all
flush_send [] answers c = (c, true)
flush_send ([] ∷ chunks) answers c = (c, true)
flush_send ((b ∷ bs) ∷ chunks) answers c = wrote (flush_send chunks) (write_all answers (b ∷ bs)) c

-- A callback that nghttp2 makes, for a stream that has the call's state as its user data.
pub data Event : Type 0 where
  header : List ℕ → List ℕ → Event
  body : List ℕ → Event
  closes : Event

unfoldable pub apply_event : (ℕ → Bool) → Event → CallState → CallState
apply_event grants (header name value) st = on_header name value st
apply_event grants (body bytes) st = on_data grants bytes st
apply_event grants closes st = on_close st

unfoldable pub apply_events : (ℕ → Bool) → List Event → CallState → CallState
unfolding apply_event
apply_events grants [] st = st
apply_events grants (e ∷ es) st = apply_events grants es (apply_event grants e st)

abbrev pub bodies : List Event → List ℕ
bodies [] = []
bodies (header name value ∷ es) = bodies es
bodies (body bytes ∷ es) = bytes ++ bodies es
bodies (closes ∷ es) = bodies es

abbrev hear : (ℕ → Bool) → List Event → ClientConn → ClientConn
hear grants es c = record c {
  state = apply_events grants es c.state;
  received = c.received ++ bodies es;
}

pub data PollAnswer : Type 0 where
  ready timed_out poll_eintr poll_fails : PollAnswer

-- The answers to one `pump`: the chunks and the sends of its flush, the clock, poll, read, what
-- nghttp2 makes of the bytes that were read and whether it accepts them, and the chunks and sends
-- of the flush on expiry. `idle` is what the session answers to want_read and want_write before it.
pub record Turn : Type 0 where
  pub idle : Bool
  pub chunks : List (List ℕ)
  pub answers : List SendAnswer
  pub now : ℕ
  pub poll : PollAnswer
  pub read : ReadAnswer
  pub events : List Event
  pub accepted : Bool
  pub rst_chunks : List (List ℕ)
  pub rst_answers : List SendAnswer

abbrev pub deadline_message : List ℕ
deadline_message = codes "deadline exceeded (client-side)"

abbrev expired_state : CallState → CallState
expired_state st = record st {
  grpc_status = some (pos (discriminant deadline_exceeded));
  grpc_message = some deadline_message;
  closed = true;
}

abbrev expired : ClientConn → ClientConn
expired c = record c { state = expired_state c.state; deadline_ms = none }

unfoldable pub expire_call : Turn → ClientConn → ClientConn
unfolding flush_send
expire_call t c =
    if ltb 0 c.current_sid
    then (flush_send t.rst_chunks t.rst_answers
        (record (expired c) { commands = c.commands ++ (submit_rst c.current_sid ∷ []) })).0
    else expired c

abbrev close_broken : ClientConn → ClientConn
close_broken c = record c { state = record (c.state) { closed = true }; broken = true }

abbrev pub Pumped : Type 0
Pumped = ClientConn × Result (Unit {0}) ClientError

abbrev read_phase : (ℕ → Bool) → Turn → ClientConn → ReadAnswer → Pumped
read_phase grants t c (reads []) = (close_broken c, ok tt)
read_phase grants t c (reads (b ∷ bs)) =
    let c' = hear grants t.events c in
    if t.accepted then (c', ok tt) else (mark_broken c', err ClientError.protocol)
read_phase grants t c read_eintr = (c, ok tt)
read_phase grants t c read_eagain = (close_broken c, err ClientError.io)
read_phase grants t c (read_fails e) = (close_broken c, err ClientError.io)

abbrev poll_phase : (ℕ → Bool) → Turn → ClientConn → PollAnswer → Pumped
poll_phase grants t c ready = read_phase grants t c t.read
poll_phase grants t c timed_out = (expire_call t c, ok tt)
poll_phase grants t c poll_eintr = (c, ok tt)
poll_phase grants t c poll_fails = (close_broken c, err ClientError.io)

abbrev wait_phase : (ℕ → Bool) → Turn → ClientConn → Option ℕ → Pumped
wait_phase grants t c none = read_phase grants t c t.read
wait_phase grants t c (some d) =
    if d - t.now == 0 then (expire_call t c, ok tt) else poll_phase grants t c t.poll

abbrev after_flush : (ℕ → Bool) → Turn → ClientConn × Bool → Pumped
after_flush grants t (c, false) = (c, err ClientError.io)
after_flush grants t (c, true) = wait_phase grants t c c.deadline_ms

unfoldable pub pump : (ℕ → Bool) → Turn → ClientConn → ClientConn × Result (Unit {0}) ClientError
unfolding flush_send expire_call apply_events
pump grants t c = after_flush grants t (flush_send t.chunks t.answers c)
