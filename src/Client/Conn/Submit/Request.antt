-- ===== src/Client/Conn/Submit/Request.antt =====
-- What `submit` leaves in a client's connection, and what it does with descriptors.
use mathlib.Core.Path.{subst}
use grpc_uds.Prelude.{
  ℕ, suc, zero, ◌+◌, ◌≡◌, ◌≢◌, refl, sym, Bool, true, false, List, [], ◌∷◌, ◌++◌, Option, none,
  some, Result, ok, err, ℤ, pos, negsuc, if◌then◌else◌,
}
use grpc_uds.Client.Call.{CallState, reset}
use grpc_uds.Client.Conn.{ClientConn, ClientError, Turn, submit_request, flush_send}
use grpc_uds.Client.Conn.Recv.{waiting}
use grpc_uds.Client.Conn.Sends.{WireOnly, flush_send-WireOnly}
use grpc_uds.Client.Conn.Expiry.{Reaches, unary_loop_by_deadline}
use grpc_uds.Client.Conn.Wait.{Attempt, connect}
use grpc_uds.Client.Conn.Submit.{
  Made, reconnect_once, replaced, request_headers, framed, Reply, deadline_from, sent, on_sid,
  on_dialed, submit, on_submitted, unary,
}

-- A call of which nothing but its request is there.
abbrev pub new_call : List ℕ → CallState
new_call req = record {
  req = req;
  req_off = 0;
  http_status = none;
  grpc_status = none;
  grpc_message = none;
  inbuf = [];
  messages = [];
  closed = false;
}

-- The connection is ready for the responses to one request.
abbrev pub Fresh : List ℕ → ℕ → Option ℕ → Option ℕ → ClientConn → Type 0
Fresh req sid timeout deadline c =
    (c.received ≡ [])
    × (c.state ≡ record (new_call (framed req)) { req_off = c.state.req_off })
    × (c.current_sid ≡ sid)
    × (c.timeout_ms ≡ timeout)
    × (c.deadline_ms ≡ deadline)

abbrev pub Submitted : Reply → List ℕ → Option ℕ → Made ℕ → Type 0
Submitted r req timeout (c, closed, ok sid) = Fresh req sid timeout (deadline_from r.now timeout) c
Submitted r req timeout (c, closed, err e) = c.timeout_ms ≡ timeout

WireOnly-Fresh :
    (req : List ℕ) (sid : ℕ) (timeout deadline : Option ℕ) (c c' : ClientConn)
    → WireOnly c c'
    → Fresh req sid timeout deadline c
    → Fresh req sid timeout deadline c'
WireOnly-Fresh req sid timeout deadline c c' (w, b, e) h =
    subst (Fresh req sid timeout deadline) (sym e) h

sent-Submitted :
    (r : Reply) (req : List ℕ) (timeout : Option ℕ) (sid : ℕ) (closed : List ℕ)
    (p : ClientConn × Bool)
    → Fresh req sid timeout (deadline_from r.now timeout) p.0
    → Submitted r req timeout (sent sid closed p)
sent-Submitted r req timeout sid closed (c, true) h = h
sent-Submitted r req timeout sid closed (c, false) (f, s, i, t, d) = t

on_sid-Submitted :
    (r : Reply) (path req closed : List ℕ) (c : ClientConn) (z : ℤ)
    → c.received ≡ []
    → c.state ≡ record (new_call (framed req)) { req_off = c.state.req_off }
    → Submitted r req c.timeout_ms (on_sid r path closed c z)
on_sid-Submitted r path req closed c (negsuc n) e s = refl
on_sid-Submitted r path req closed c (pos zero) e s = refl
on_sid-Submitted r path req closed c (pos (suc n)) e s =
    let c' : ClientConn = record c {
      commands = c.commands ++ (submit_request (request_headers path c.timeout_ms) ∷ []);
      current_sid = suc n;
      deadline_ms = deadline_from r.now c.timeout_ms;
    } in
    sent-Submitted r req c.timeout_ms (suc n) closed (flush_send r.chunks r.answers c') (
      WireOnly-Fresh req (suc n) c.timeout_ms (deadline_from r.now c.timeout_ms) c'
        (flush_send r.chunks r.answers c').0 (flush_send-WireOnly r.chunks r.answers c')
        (e, s, refl, refl, refl))

on_dialed-Submitted :
    (r : Reply) (path req : List ℕ) (m : Made (Unit {0}))
    → Submitted r req m.0.timeout_ms (on_dialed r path req m)
unfolding reset
on_dialed-Submitted r path req (c, closed, err e) = refl
on_dialed-Submitted r path req (c, closed, ok _) = go r.reserves
  where
    go :
        (b : Bool)
        → Submitted r req c.timeout_ms (
            if b
            then on_sid r path closed
                (record c { state = reset (framed req) c.state; received = [] })
                r.sid
            else (c, closed, err ClientError.protocol))
    go true =
        on_sid-Submitted r path req closed
          (record c { state = reset (framed req) c.state; received = [] }) r.sid refl refl
    go false = refl

replaced-timeout :
    (c : ClientConn) (o : List ℕ × Result ClientConn ClientError)
    → (replaced c o).0.timeout_ms ≡ c.timeout_ms
replaced-timeout c (closed, ok fresh) = refl
replaced-timeout c (closed, err e) = refl

redialed-timeout :
    (a : Attempt) (c : ClientConn) (broken : Bool)
    → (if broken then reconnect_once a c else (c, [], ok tt)).0.timeout_ms ≡ c.timeout_ms
unfolding reconnect_once
redialed-timeout a c true = replaced-timeout c (connect a c.path)
redialed-timeout a c false = refl

pub submit-Submitted :
    (r : Reply) (path req : List ℕ) (c : ClientConn)
    → Submitted r req c.timeout_ms (submit r path req c)
unfolding submit
submit-Submitted r path req c =
    let m = if c.broken then reconnect_once r.redial c else (c, [], ok tt) in
    subst (λ t. Submitted r req t (on_dialed r path req m)) (redialed-timeout r.redial c c.broken)
      (on_dialed-Submitted r path req m)

on_submitted_settles :
    (grants : ℕ → Bool) (r : Reply) (req : List ℕ) (t : ℕ) (ts : List Turn) (m : Made ℕ)
    → Submitted r req (some t) m
    → Reaches (r.now + t) ts
    → (on_submitted grants ts m).3 ≢ waiting
on_submitted_settles grants r req t ts (c, closed, err e) h reach = λ bad. absurd (cc)
on_submitted_settles grants r req t ts (c, closed, ok sid) (f, s, i, t', d) reach =
    unary_loop_by_deadline grants (r.now + t) ts c d reach

-- A unary call of a client with a timeout set, be the connection broken before it or not, is over
-- by the first turn whose clock is the timeout past that of the submission.
pub unary_in_time :
    (grants : ℕ → Bool) (r : Reply) (ts : List Turn) (path req : List ℕ) (c : ClientConn) (t : ℕ)
    → c.timeout_ms ≡ some t
    → Reaches (r.now + t) ts
    → (unary grants r ts path req c).3 ≢ waiting
unfolding unary
unary_in_time grants r ts path req c t e reach =
    on_submitted_settles grants r req t ts (submit r path req c)
      (subst (λ o. Submitted r req o (submit r path req c)) e (submit-Submitted r path req c)) reach
