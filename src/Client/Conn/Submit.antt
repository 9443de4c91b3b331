-- ===== src/Client/Conn/Submit.antt =====
-- A call's submission, `ClientConn::submit`, and the calls over it, of
-- rust/grpcuds-core/src/client.rs. What the system answers to one submission is a `Reply`.
pub mod Request
pub mod Descriptors
use grpc_uds.Prelude.{
  ℕ, suc, zero, ◌+◌, ◌%◌, ◌^◌, Bool, true, false, List, [], ◌∷◌, ◌++◌, Option, none, some, Result,
  ok, err, ℤ, pos, negsuc, codes, ◌==◌, if◌then◌else◌, length,
}
use grpc_uds.Framing.{encode_header}
use grpc_uds.Headers.{Header}
use grpc_uds.Uds.{SendAnswer}
use grpc_uds.Client.Text.{fmt_ms_value}
use grpc_uds.Client.Call.{CallState, reset}
use grpc_uds.Client.Conn.{ClientConn, ClientError, Turn, submit_request, flush_send, pump}
use grpc_uds.Client.Conn.Recv.{Received, ended, waiting, failed, message, unary_loop}
use grpc_uds.Client.Conn.Wait.{Attempt, connect}

unfoldable pub set_timeout_ms : ℕ → ClientConn → ClientConn
set_timeout_ms ms c = record c { timeout_ms = if ms == 0 then none else some ms }

-- A connection, the descriptors that were closed, and a result.
abbrev pub Made : Type 0 → Type 0
Made A = ClientConn × List ℕ × Result A ClientError

abbrev replaced : ClientConn → List ℕ × Result ClientConn ClientError → Made (Unit {0})
replaced c (closed, ok fresh) =
    (record fresh { timeout_ms = c.timeout_ms }, closed ++ (c.fd ∷ []), ok tt)
replaced c (closed, err e) = (c, closed, err e)

unfoldable pub reconnect_once :
    Attempt → ClientConn → ClientConn × List ℕ × Result (Unit {0}) ClientError
unfolding connect
reconnect_once a c = replaced c (connect a c.path)

-- `nv`: nghttp2 copies both.
abbrev pub nv : List ℕ → List ℕ → Header
nv name value = record { name = name; value = value; flags = 0 }

abbrev pub timeout_header : Option ℕ → List Header
timeout_header none = []
timeout_header (some t) = nv (codes "grpc-timeout") (fmt_ms_value t) ∷ []

-- `nva`, as far as `nva_len`.
abbrev pub request_headers : List ℕ → Option ℕ → List Header
request_headers path timeout =
    nv (codes ":method") (codes "POST")
    ∷ nv (codes ":scheme") (codes "http")
    ∷ nv (codes ":path") path
    ∷ nv (codes ":authority") (codes "localhost")
    ∷ nv (codes "te") (codes "trailers")
    ∷ nv (codes "content-type") (codes "application/grpc")
    ∷ timeout_header timeout

-- The length is cast to u32.
abbrev pub framed : List ℕ → List ℕ
framed req = encode_header false (length req % 2 ^ 32) ++ req

-- `redial` is used where the connection is broken, `now` where a timeout is set. `sid` is what
-- nghttp2 returns.
pub record Reply : Type 0 where
  pub redial : Attempt
  pub reserves : Bool
  pub sid : ℤ
  pub now : ℕ
  pub chunks : List (List ℕ)
  pub answers : List SendAnswer

abbrev deadline_from : ℕ → Option ℕ → Option ℕ
deadline_from now none = none
deadline_from now (some t) = some (now + t)

abbrev sent : ℕ → List ℕ → ClientConn × Bool → Made ℕ
sent sid closed (c, true) = (c, closed, ok sid)
sent sid closed (c, false) = (c, closed, err ClientError.io)

-- From `sid` on. A request that nghttp2 refuses is not in the session.
abbrev on_sid : Reply → List ℕ → List ℕ → ClientConn → ℤ → Made ℕ
on_sid r path closed c (negsuc n) = (c, closed, err ClientError.protocol)
on_sid r path closed c (pos zero) = (c, closed, err ClientError.protocol)
on_sid r path closed c (pos (suc n)) = sent (suc n) closed (
    flush_send r.chunks r.answers (record c {
      commands = c.commands ++ (submit_request (request_headers path c.timeout_ms) ∷ []);
      current_sid = suc n;
      deadline_ms = deadline_from r.now c.timeout_ms;
    }))

-- From the buffer on, for a connection that is not broken or was made again.
abbrev on_dialed : Reply → List ℕ → List ℕ → Made (Unit {0}) → Made ℕ
on_dialed r path req (c, closed, err e) = (c, closed, err e)
on_dialed r path req (c, closed, ok _) =
    if r.reserves
    then on_sid r path closed (record c { state = reset (framed req) c.state; received = [] }) r.sid
    else (c, closed, err ClientError.protocol)

unfoldable pub submit :
    Reply → List ℕ → List ℕ → ClientConn → ClientConn × List ℕ × Result ℕ ClientError
unfolding reconnect_once flush_send
submit r path req c =
    on_dialed r path req (if c.broken then reconnect_once r.redial c else (c, [], ok tt))

-- A unary call: what it comes to, the connection, the descriptors closed, and the turns left.
abbrev pub CallEnd : Type 0
CallEnd = ClientConn × List ℕ × List Turn × Received

abbrev pub on_submitted : (ℕ → Bool) → List Turn → Made ℕ → CallEnd
on_submitted grants ts (c, closed, err e) = (c, closed, ts, failed e)
on_submitted grants ts (c, closed, ok sid) =
    let (c', left, got) = unary_loop grants ts c in (c', closed, left, got)

unfoldable pub unary : (ℕ → Bool) → Reply → List Turn → List ℕ → List ℕ → ClientConn → CallEnd
unfolding submit unary_loop
unary grants r ts path req c = on_submitted grants ts (submit r path req c)
