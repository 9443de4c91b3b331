-- ===== src/Client/Conn/Submit/Descriptors.antt =====
-- The descriptors of a client's connection over `submit`.
use mathlib.Core.Path.{subst}
use grpc_uds.Prelude.{
  ℕ, suc, zero, ◌≡◌, ◌⊎◌, inl, inr, refl, sym, Bool, true, false, List, [], ◌∷◌, ◌++◌, ok, err, ℤ,
  pos, negsuc, if◌then◌else◌,
}
use grpc_uds.Client.Call.{reset}
use grpc_uds.Client.Conn.{ClientConn, ClientError, submit_request, flush_send}
use grpc_uds.Client.Conn.Sends.{flush_send-WireOnly}
use grpc_uds.Client.Conn.Wait.{Attempted, connect}
use grpc_uds.Client.Conn.Wait.Ends.{Accounts, opened, connect-Accounts}
use grpc_uds.Client.Conn.Submit.{
  Made, reconnect_once, replaced, request_headers, framed, Reply, deadline_from, sent, on_sid,
  on_dialed, submit,
}

-- `given` is what was opened. The connection keeps its descriptor, and what was opened is closed;
-- or it has the one that was opened, and its old one is closed.
abbrev pub Owns : ClientConn → List ℕ → ClientConn → List ℕ → Type 0
Owns c given c' closed =
    ((c'.fd ≡ c.fd) × (closed ≡ given)) ⊎ ((given ≡ c'.fd ∷ []) × (closed ≡ c.fd ∷ []))

abbrev pub OwnsMade : {A : Type 0} → ClientConn → List ℕ → Made A → Type 0
OwnsMade c given (c', closed, r) = Owns c given c' closed

sent-Owns :
    (c : ClientConn) (given : List ℕ) (sid : ℕ) (closed : List ℕ) (p : ClientConn × Bool)
    → Owns c given p.0 closed
    → OwnsMade c given (sent sid closed p)
sent-Owns c given sid closed (c', true) h = h
sent-Owns c given sid closed (c', false) h = h

on_sid-Owns :
    (c : ClientConn) (given : List ℕ) (r : Reply) (path closed : List ℕ) (c' : ClientConn) (z : ℤ)
    → Owns c given c' closed
    → OwnsMade c given (on_sid r path closed c' z)
on_sid-Owns c given r path closed c' (negsuc n) h = h
on_sid-Owns c given r path closed c' (pos zero) h = h
on_sid-Owns c given r path closed c' (pos (suc n)) h =
    let c1 : ClientConn = record c' {
      commands = c'.commands ++ (submit_request (request_headers path c'.timeout_ms) ∷ []);
      current_sid = suc n;
      deadline_ms = deadline_from r.now c'.timeout_ms;
    } in
    let (w, b, e) = flush_send-WireOnly r.chunks r.answers c1 in
    sent-Owns c given (suc n) closed (flush_send r.chunks r.answers c1)
      (subst (λ k. Owns c given k closed) (sym e) h)

on_dialed-Owns :
    (c : ClientConn) (given : List ℕ) (r : Reply) (path req : List ℕ) (m : Made (Unit {0}))
    → OwnsMade c given m
    → OwnsMade c given (on_dialed r path req m)
on_dialed-Owns c given r path req (c', closed, err e) h = h
on_dialed-Owns c given r path req (c', closed, ok _) h = go r.reserves
  where
    go :
        (b : Bool)
        → OwnsMade c given (
            if b
            then on_sid r path closed
                (record c' { state = reset (framed req) c'.state; received = [] })
                r.sid
            else (c', closed, err ClientError.protocol))
    go true =
        on_sid-Owns c given r path closed
          (record c' { state = reset (framed req) c'.state; received = [] }) r.sid h
    go false = h

replaced-Owns :
    (c : ClientConn) (given : List ℕ) (o : Attempted ClientConn)
    → Accounts (λ c. c.fd) given o
    → OwnsMade c given (replaced c o)
replaced-Owns c given (closed, ok fresh) (e, none_closed) = inr (e, rw none_closed refl)
replaced-Owns c given (closed, err x) e = inl (refl, e)

-- The descriptor that a submission opens.
abbrev pub redialed : Reply → ClientConn → List ℕ
redialed r c = if c.broken then opened r.redial c.path else []

-- Over a submission, successful or not, a connection that is not broken keeps its descriptor, and
-- none is opened or closed. A broken one keeps its descriptor, and the one that the attempt to
-- reconnect opened, if any, is closed; or it has the one that the attempt opened, and then its old
-- one is closed, once, and no other.
pub submit-Owns :
    (r : Reply) (path req : List ℕ) (c : ClientConn)
    → OwnsMade c (redialed r c) (submit r path req c)
unfolding submit reconnect_once
submit-Owns r path req c = on_dialed-Owns c (redialed r c) r path req _ (go c.broken)
  where
    go :
        (b : Bool)
        → OwnsMade c
            (if b then opened r.redial c.path else [])
            (if b then reconnect_once r.redial c else (c, [], ok tt))
    go true =
        replaced-Owns c (opened r.redial c.path) (connect r.redial c.path)
          (connect-Accounts r.redial c.path)
    go false = inl (refl, refl)
