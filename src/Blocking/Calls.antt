-- ===== src/Blocking/Calls.antt =====
-- The calls of the blocking client of rust/grpcuds/src/client.rs: `submit` with its reconnection,
-- `final_status`, `unary` and `ServerStreaming::message`, with the typed calls over them.
use grpc_uds.Prelude.{
  ℕ, suc, zero, not, ◌+◌, ◌-◌, ◌/◌, ◌%◌, ◌^◌, min, max, Bool, true, false, List, [], ◌∷◌, ◌++◌,
  Option, none, some, Result, ok, err, ℤ, pos, negsuc, codes, ◌==◌, ◌&&◌, ◌||◌, if◌then◌else◌,
  length,
}
use grpc_uds.Framing.{encode_header}
use grpc_uds.Headers.{Header, GrpcStatus}
use grpc_uds.Uds.{SendAnswer}
use grpc_uds.Types.{Error, Status, with_message, from_wire}
use grpc_uds.Client.Text.{fmt_ms_value}
use grpc_uds.Client.Conn.{submit_request}
use grpc_uds.Blocking.{Client, Turn, Pumped, flush_send, pump}
use grpc_uds.Blocking.Call.{CallState, reset}
use grpc_uds.Blocking.Dial.{Attempt, connect}

-- What the system and nghttp2 answer to a submission. The texts are those of the errors.
pub record Reply : Type 0 where
  pub redial : Attempt
  pub redial_text : List ℕ
  pub sid : ℤ
  pub now : ℕ
  pub chunks : List (List ℕ)
  pub answers : List SendAnswer
  pub text : List ℕ

-- The client, the descriptors that were closed, and the result.
abbrev pub Made : Type 0 → Type 0
Made A = Client × List ℕ × Result A Status

abbrev pub replaced : Client → List ℕ → List ℕ × Result Client Error → Made (Unit {0})
replaced c text (closed, ok fresh) =
    (record fresh { timeout = c.timeout }, closed ++ (c.fd ∷ []), ok tt)
replaced c text (closed, err e) = (c, closed, err (with_message GrpcStatus.unavailable text))

unfoldable pub reconnect_once : Reply → Client → Client × List ℕ × Result (Unit {0}) Status
unfolding connect with_message
reconnect_once r c = replaced c r.redial_text (connect r.redial c.path)

-- The length is cast to u32.
abbrev pub framed : List ℕ → List ℕ
framed request = encode_header false (length request % 2 ^ 32) ++ request

abbrev nv : List ℕ → List ℕ → Header
nv name value = record { name = name; value = value; flags = 0 }

-- The whole milliseconds, from 1 to u32::MAX, which have ten digits at most, and the unit.
unfoldable pub timeout_value : ℕ → List ℕ
timeout_value t = fmt_ms_value (min (max (t / 10 ^ 6) 1) (2 ^ 32 - 1))

abbrev timeout_header : Option ℕ → List Header
timeout_header none = []
timeout_header (some t) = nv (codes "grpc-timeout") (timeout_value t) ∷ []

abbrev pub request_headers : List ℕ → Option ℕ → List Header
request_headers path timeout =
    nv (codes ":method") (codes "POST")
    ∷ nv (codes ":scheme") (codes "http")
    ∷ nv (codes ":path") path
    ∷ nv (codes ":authority") (codes "localhost")
    ∷ nv (codes "te") (codes "trailers")
    ∷ nv (codes "content-type") (codes "application/grpc")
    ∷ timeout_header timeout

abbrev pub deadline_from : ℕ → Option ℕ → Option ℕ
deadline_from now none = none
deadline_from now (some t) = some (now + t)

abbrev pub sent : Reply → ℕ → List ℕ → Client × Bool → Made ℕ
sent r sid closed (c, true) = (c, closed, ok sid)
sent r sid closed (c, false) =
    (record c { broken = true }, closed, err (with_message GrpcStatus.unavailable r.text))

abbrev refused : List ℕ → Client → Made ℕ
refused closed c =
    (c, closed, err (with_message GrpcStatus.internal (codes "nghttp2 submit_request failed")))

-- From `sid` on. A request that nghttp2 refuses is not in the session.
abbrev pub on_sid : Reply → List ℕ → List ℕ → Client → ℤ → Made ℕ
on_sid r path closed c (negsuc n) = refused closed c
on_sid r path closed c (pos zero) = refused closed c
on_sid r path closed c (pos (suc n)) = sent r (suc n) closed (
    flush_send r.chunks r.answers (record c {
      commands = c.commands ++ (submit_request (request_headers path c.timeout) ∷ []);
      current_sid = suc n;
      deadline_at = deadline_from r.now c.timeout;
    }))

abbrev pub on_dialed : Reply → List ℕ → List ℕ → Made (Unit {0}) → Made ℕ
on_dialed r path request (c, closed, err e) = (c, closed, err e)
on_dialed r path request (c, closed, ok _) =
    on_sid r path closed (record c { state = reset (framed request) c.state; received = [] }) r.sid

unfoldable pub submit : Reply → List ℕ → List ℕ → Client → Client × List ℕ × Result ℕ Status
unfolding reconnect_once flush_send timeout_value with_message
submit r path request c =
    on_dialed r path request (if c.broken then reconnect_once r c else (c, [], ok tt))

-- `Duration` is in nanoseconds.
unfoldable pub set_timeout : Option ℕ → Client → Client
set_timeout t c = record c { timeout = t }

abbrev pub is_200 : Option ℕ → Bool
is_200 none = false
is_200 (some n) = n == 200

-- `no_status` is the text that is made of the HTTP status and the close error.
abbrev pub status_result : (ℕ → Option ℕ → List ℕ) → CallState → Option ℤ → Result (Unit {0}) Status
status_result no_status st (some (pos zero)) = ok tt
status_result no_status st (some (pos (suc n))) = err (from_wire (pos (suc n)) st.grpc_message)
status_result no_status st (some (negsuc n)) = err (from_wire (negsuc n) st.grpc_message)
status_result no_status st none =
    if is_200 st.http_status
    then ok tt
    else err (with_message GrpcStatus.unavailable (no_status st.close_error st.http_status))

unfoldable pub final_status : (ℕ → Option ℕ → List ℕ) → CallState → Result (Unit {0}) Status
unfolding from_wire with_message
final_status no_status st = status_result no_status st st.grpc_status

-- What a call comes to, with the client and the turns left; none where the turns run out.
abbrev pub Outcome : Type 0 → Type 0
Outcome A = Client × List Turn × Option (Result A Status)

abbrev pub has_status : Option ℤ → Bool
has_status none = false
has_status (some code) = true

abbrev pub is_empty : List (List ℕ) → Bool
is_empty [] = true
is_empty (m ∷ ms) = false

abbrev pub set_messages : List (List ℕ) → Client → Client
set_messages ms c = record c { state = record (c.state) { messages = ms } }

abbrev pub popped : Client → List Turn → List (List ℕ) → Outcome (List ℕ)
popped c ts [] =
    (c, ts, some (err (with_message GrpcStatus.internal (codes "unary response had no message"))))
popped c ts (m ∷ ms) = (set_messages ms c, ts, some (ok m))

abbrev pub on_final : Client → List Turn → Result (Unit {0}) Status → Outcome (List ℕ)
on_final c ts (err e) = (c, ts, some (err e))
on_final c ts (ok _) = popped c ts c.state.messages

abbrev pub pumped {ℓ} :
    {A : Type ℓ}
    → (Client → Client × List Turn × Option (Result A Status))
    → List Turn
    → Pumped
    → Client × List Turn × Option (Result A Status)
pumped next ts (c, ok _) = next c
pumped next ts (c, err e) = (c, ts, some (err e))

abbrev pub unary_done : CallState → Bool
unary_done st = st.closed || (not (is_empty st.messages) && has_status st.grpc_status)

-- The loop of `unary`, and what follows it.
unfoldable pub unary_loop : (ℕ → Option ℕ → List ℕ) → List Turn → Client → Outcome (List ℕ)
unfolding pump final_status
unary_loop no_status [] c =
    if unary_done c.state then on_final c [] (final_status no_status c.state) else (c, [], none)
unary_loop no_status (t ∷ ts) c =
    if unary_done c.state
    then on_final c (t ∷ ts) (final_status no_status c.state)
    else pumped (unary_loop no_status ts) ts (pump t c)

abbrev pub on_submitted :
    (ℕ → Option ℕ → List ℕ)
    → List Turn
    → Made ℕ
    → Client × List ℕ × List Turn × Option (Result (List ℕ) Status)
on_submitted no_status ts (c, closed, err e) = (c, closed, ts, some (err e))
on_submitted no_status ts (c, closed, ok sid) =
    let (c', left, got) = unary_loop no_status ts c in (c', closed, left, got)

unfoldable pub unary :
    (ℕ → Option ℕ → List ℕ)
    → Reply
    → List Turn
    → List ℕ
    → List ℕ
    → Client
    → Client × List ℕ × List Turn × Option (Result (List ℕ) Status)
unfolding submit unary_loop
unary no_status r ts path request c = on_submitted no_status ts (submit r path request c)

-- The end of a stream, `none` for a clean one.
abbrev pub on_end : Client → List Turn → Result (Unit {0}) Status → Outcome (Option (List ℕ))
on_end c ts (ok _) = (c, ts, some (ok none))
on_end c ts (err e) = (c, ts, some (err e))

abbrev pub message_last :
    (ℕ → Option ℕ → List ℕ) → Client → List (List ℕ) → Outcome (Option (List ℕ))
message_last no_status c (m ∷ ms) = (set_messages ms c, [], some (ok (some m)))
message_last no_status c [] =
    if c.state.closed then on_end c [] (final_status no_status c.state) else (c, [], none)

abbrev pub message_round :
    (ℕ → Option ℕ → List ℕ)
    → (Client → Outcome (Option (List ℕ)))
    → Turn
    → List Turn
    → Client
    → List (List ℕ)
    → Outcome (Option (List ℕ))
message_round no_status next t ts c (m ∷ ms) = (set_messages ms c, t ∷ ts, some (ok (some m)))
message_round no_status next t ts c [] =
    if c.state.closed || (t.idle && has_status c.state.grpc_status)
    then on_end c (t ∷ ts) (final_status no_status c.state)
    else pumped next ts (pump t c)

unfoldable pub message : (ℕ → Option ℕ → List ℕ) → List Turn → Client → Outcome (Option (List ℕ))
unfolding pump final_status
message no_status [] c = message_last no_status c c.state.messages
message no_status (t ∷ ts) c =
    message_round no_status (message no_status ts) t ts c c.state.messages
