-- ===== src/Blocking/Unary.antt =====
-- A unary call of the blocking client, from its submission on.
use grpc_uds.Prelude.{
  ℕ, zero, suc, ◌+◌, ◌≡◌, refl, ◌∙◌, ap, Bool, true, false, List, [], ◌∷◌, ◌++◌, Option, none, some,
  Result, ok, err, ℤ, pos, negsuc, both_ways, if◌then◌else◌,
}
use grpc_uds.Framing.{decode_header}
use grpc_uds.Types.{Error, Status}
use grpc_uds.Blocking.{Client, Turn, Pumped, flush_send, pump}
use grpc_uds.Blocking.Call.{CallState, deframe_bytes, deframe_loop, reset}
use grpc_uds.Blocking.Calls.{
  Reply, Made, replaced, reconnect_once, sent, on_sid, on_dialed, submit, final_status, Outcome,
  pumped, on_final, popped, unary_done, unary_loop, on_submitted, unary, request_headers,
  deadline_from, framed,
}
use grpc_uds.Blocking.Dial.{connect}
use grpc_uds.Client.Conn.{submit_request}
use grpc_uds.Blocking.Hears.{HearsAll, pump-HearsAll}
use grpc_uds.Blocking.Deadline.{
  SameCall, flush_send-SameCall, Reaches, Returns, unary_loop_by_deadline,
}
use grpc_uds.Blocking.Heard.{Heard, unary_loop-Heard}
use mathlib.Core.Path.{subst}
use grpc_uds.Blocking.Ends.{IsClean, final_status-IsClean}

-- A result that is a message is the first of those in the bytes handed over since the submission,
-- and the status is OK.
abbrev pub IsFirst : Client → Option (Result (List ℕ) Status) → Type 0
IsFirst c none = Unit
IsFirst c (some (err e)) = Unit
IsFirst c (some (ok m)) =
    (deframe_bytes c.received ≡ (m ∷ c.state.messages, c.state.inbuf)) × IsClean c.state

module _ (no_status : ℕ → Option ℕ → List ℕ) where
  on_final-IsFirst :
      (c : Client) (ts : List Turn) (r : Result (Unit {0}) Status)
      → final_status no_status c.state ≡ r
      → HearsAll [] c
      → IsFirst (on_final c ts r).0 (on_final c ts r).2
  on_final-IsFirst c ts (err e) f h = tt
  on_final-IsFirst c ts (ok _) f h = go c.state.messages refl
    where
      go :
          (ms : List (List ℕ))
          → c.state.messages ≡ ms
          → IsFirst (popped c ts ms).0 (popped c ts ms).2
      go [] e = tt
      go (m ∷ ms) e =
          (h ∙ ap (λ x. (x, c.state.inbuf)) e, (final_status-IsClean no_status c.state).0 f)

  unary_loop-IsFirst :
      (ts : List Turn) (c : Client)
      → HearsAll [] c
      → IsFirst (unary_loop no_status ts c).0 (unary_loop no_status ts c).2
  unfolding unary_loop
  unary_loop-IsFirst [] c h =
      both_ways (λ (o : Outcome (List ℕ)). IsFirst o.0 o.2) (unary_done c.state)
        (on_final c [] (final_status no_status c.state)) (c, [], none)
        (on_final-IsFirst c [] (final_status no_status c.state) refl h) tt
  unary_loop-IsFirst (t ∷ ts) c h =
      both_ways (λ (o : Outcome (List ℕ)). IsFirst o.0 o.2) (unary_done c.state)
        (on_final c (t ∷ ts) (final_status no_status c.state))
        (pumped (unary_loop no_status ts) ts (pump t c))
        (on_final-IsFirst c (t ∷ ts) (final_status no_status c.state) refl h)
        (go (pump t c) (pump-HearsAll [] t c h) (unary_loop-IsFirst ts))
    where
      go :
          (p : Pumped)
          → HearsAll [] p.0
          → ((c' : Client)
              → HearsAll [] c'
              → IsFirst (unary_loop no_status ts c').0 (unary_loop no_status ts c').2)
          → IsFirst
              (pumped (unary_loop no_status ts) ts p).0
              (pumped (unary_loop no_status ts) ts p).2
      go (c', ok _) k later = later c' k
      go (c', err e) k later = tt

-- A call of which nothing but its request is there.
abbrev pub new_call : List ℕ → CallState
new_call req = record {
  req = req;
  req_off = 0;
  http_status = none;
  grpc_status = none;
  grpc_message = none;
  inbuf = [];
  messages = [];
  closed = false;
  close_error = 0;
}

-- What a submission leaves: a new call with its deadline, with nothing heard.
abbrev Fresh : List ℕ → ℕ → Made ℕ → Type 0
Fresh request d (c, closed, err e) = Unit
Fresh request d (c, closed, ok sid) =
    (c.deadline_at ≡ some d) × HearsAll [] c × (c.state ≡ new_call (framed request))

pub deframe_bytes-nil : deframe_bytes [] ≡ ([], [])
unfolding deframe_bytes deframe_loop decode_header
deframe_bytes-nil = refl

sent-Fresh :
    (request : List ℕ) (r : Reply) (sid d : ℕ) (closed : List ℕ) (c : Client) (f : Client × Bool)
    → SameCall c f.0
    → c.deadline_at ≡ some d
    → HearsAll [] c
    → c.state ≡ new_call (framed request)
    → Fresh request d (sent r sid closed f)
sent-Fresh request r sid d closed c (c', false) same e h new = tt
sent-Fresh request r sid d closed c (c', true) same e h new =
    (same.0 ∙ e, rw (same.1, same.2) h, same.1 ∙ new)

abbrev TimesOut : ℕ → Client → Type 0
TimesOut t c = c.timeout ≡ some t

reset-HearsAll :
    (req : List ℕ) (c : Client)
    → HearsAll [] (record c { state = reset req c.state; received = [] })
unfolding reset
reset-HearsAll req c = deframe_bytes-nil

on_sid-Fresh :
    (request : List ℕ) (r : Reply) (path closed : List ℕ) (t : ℕ) (c : Client) (sid : ℤ)
    → TimesOut t c
    → HearsAll [] c
    → c.state ≡ new_call (framed request)
    → Fresh request (r.now + t) (on_sid r path closed c sid)
on_sid-Fresh request r path closed t c (negsuc n) e h new = tt
on_sid-Fresh request r path closed t c (pos zero) e h new = tt
on_sid-Fresh request r path closed t c (pos (suc n)) e h new =
    sent-Fresh request r (suc n) (r.now + t) closed at_sid (flush_send r.chunks r.answers at_sid)
      (flush_send-SameCall r.chunks r.answers at_sid) (ap (deadline_from r.now) e) h new
  where
    at_sid : Client
    at_sid = record c {
      commands = c.commands ++ (submit_request (request_headers path c.timeout) ∷ []);
      current_sid = suc n;
      deadline_at = deadline_from r.now c.timeout;
    }

on_dialed-Fresh :
    (r : Reply) (path request : List ℕ) (t : ℕ) (m : Made (Unit {0}))
    → TimesOut t m.0
    → Fresh request (r.now + t) (on_dialed r path request m)
unfolding reset
on_dialed-Fresh r path request t (c, closed, err e) x = tt
on_dialed-Fresh r path request t (c, closed, ok _) x =
    on_sid-Fresh request r path closed t
      (record c { state = reset (framed request) c.state; received = [] }) r.sid x
      (reset-HearsAll (framed request) c) refl

replaced-TimesOut :
    (c : Client) (text : List ℕ) (t : ℕ) (made : List ℕ × Result Client Error)
    → TimesOut t c
    → TimesOut t (replaced c text made).0
replaced-TimesOut c text t (closed, ok fresh) e = e
replaced-TimesOut c text t (closed, err x) e = e

submit-Fresh :
    (r : Reply) (path request : List ℕ) (t : ℕ) (c : Client)
    → TimesOut t c
    → Fresh request (r.now + t) (submit r path request c)
unfolding submit reconnect_once
submit-Fresh r path request t c e =
    on_dialed-Fresh r path request t (if c.broken then reconnect_once r c else (c, [], ok tt)) (
      both_ways (λ (m : Made (Unit {0})). TimesOut t m.0) c.broken (reconnect_once r c)
        (c, [], ok tt) (replaced-TimesOut c r.redial_text t (connect r.redial c.path) e) e)

-- `ts` are the turns that there were for the call with the request.
abbrev pub Answers :
    List ℕ → List Turn → Client × List ℕ × List Turn × Option (Result (List ℕ) Status) → Type 0
Answers request ts (c, closed, left, got) =
    Returns got × IsFirst c got × Heard ts (new_call (framed request)) (c, left, got)

-- A unary call of a client that has a timeout returns within turns of which one reaches the
-- deadline, whatever the socket, nghttp2 and a reconnection answer. When it returns a message, that
-- is the first message of the body bytes that nghttp2 handed over since the submission, of whatever
-- stream, and the status is 0, or there is none and HTTP 200. Message and status come from what
-- nghttp2 told in the turns of this call: those callbacks, from a state with nothing of an earlier
-- call in it, make that message the first that is queued, and that status.
pub unary-Answers :
    (no_status : ℕ → Option ℕ → List ℕ) (r : Reply) (ts : List Turn) (path request : List ℕ) (t : ℕ)
    (c : Client)
    → c.timeout ≡ some t
    → Reaches (r.now + t) ts
    → Answers request ts (unary no_status r ts path request c)
unfolding unary
unary-Answers no_status r ts path request t c e reaches =
    go (submit r path request c) (submit-Fresh r path request t c e)
  where
    heard :
        (c' : Client)
        → c'.state ≡ new_call (framed request)
        → let (c1, left, got) = unary_loop no_status ts c' in
          Heard ts (new_call (framed request)) (c1, left, got)
    heard c' new =
        subst (λ st. Heard ts st (unary_loop no_status ts c')) new
          (unary_loop-Heard no_status ts c')

    go :
        (m : Made ℕ)
        → Fresh request (r.now + t) m
        → Answers request ts (on_submitted no_status ts m)
    go (c', closed, err x) f = (tt, tt, tt)
    go (c', closed, ok sid) (due, h, new) = (
      unary_loop_by_deadline (r.now + t) no_status ts c' due reaches,
      unary_loop-IsFirst no_status ts c' h,
      heard c' new,
    )
