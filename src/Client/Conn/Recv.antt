-- ===== src/Client/Conn/Recv.antt =====
-- The loops of a client's connection over `pump`: `recv` of `ClientCall`, `recv_current`, and the
-- loop of `unary`, of rust/grpcuds-core/src/client.rs.
pub mod Order
use grpc_uds.Prelude.{
  ℕ, ◌+◌, ◌-◌, Bool, true, false, List, [], ◌∷◌, ◌++◌, Option, none, some, Result, ok, err, ℤ, pos,
  ltb, ◌==◌, ◌&&◌, ◌||◌, if◌then◌else◌, length, drop, take, codes,
}
use grpc_uds.Headers.{Header, discriminant, deadline_exceeded}
use grpc_uds.Uds.{
  SendAnswer, sends, eintr, eagain, send_fails, ReadAnswer, reads, read_eintr, read_eagain,
  read_fails,
}
use grpc_uds.Client.Call.{CallState, on_data, on_header, on_close}
use grpc_uds.Client.Conn.{ClientConn, ClientError, Turn, Pumped, pump}

-- What a receive comes to. `waiting` is where the turns run out.
pub data Received : Type 0 where
  message : List ℕ → Received
  ended waiting : Received
  failed : ClientError → Received

abbrev pub Outcome : Type 0
Outcome = ClientConn × List Turn × Received

abbrev pub set_messages : List (List ℕ) → ClientConn → ClientConn
set_messages ms c = record c { state = record (c.state) { messages = ms } }

abbrev pub has_status : Option ℤ → Bool
has_status none = false
has_status (some code) = true

abbrev pub recv_next : (ClientConn → Outcome) → List Turn → Pumped → Outcome
recv_next next ts (c, ok _) = next c
recv_next next ts (c, err e) = (c, ts, failed e)

-- A round of the loop: a message that is there, the end of the stream, or a call of `pump`.
abbrev pub recv_round :
    (ℕ → Bool) → (ClientConn → Outcome) → Turn → List Turn → ClientConn → List (List ℕ) → Outcome
recv_round grants next t ts c (m ∷ ms) = (set_messages ms c, t ∷ ts, message m)
recv_round grants next t ts c [] =
    if c.state.closed || (t.idle && has_status c.state.grpc_status)
    then (c, t ∷ ts, ended)
    else recv_next next ts (pump grants t c)

abbrev pub recv_last : ClientConn → List (List ℕ) → Outcome
recv_last c (m ∷ ms) = (set_messages ms c, [], message m)
recv_last c [] = if c.state.closed then (c, [], ended) else (c, [], waiting)

-- `recv`, and `recv_current`, which is the same loop.
unfoldable pub recv : (ℕ → Bool) → List Turn → ClientConn → Outcome
unfolding pump
recv grants [] c = recv_last c c.state.messages
recv grants (t ∷ ts) c = recv_round grants (recv grants ts) t ts c c.state.messages

-- The loop of `unary` after its submission.
unfoldable pub unary_loop : (ℕ → Bool) → List Turn → ClientConn → Outcome
unfolding pump
unary_loop grants [] c = (c, [], if c.state.closed then ended else waiting)
unary_loop grants (t ∷ ts) c =
    if c.state.closed
    then (c, t ∷ ts, ended)
    else recv_next (unary_loop grants ts) ts (pump grants t c)
