-- ===== src/Client/Conn/Expiry.antt =====
-- The turns of a client's receiving loops, against the deadline of the call.
use grpc_uds.Prelude.{
  ℕ, arith, ◌-◌, ◌++◌, ◌≤◌, ◌<◌, ◌≡◌, ◌≢◌, ◌⊎◌, inl, inr, refl, ◌∙◌, Bool, true, false, List, [],
  ◌∷◌, Option, none, some, ok, err, ◌==◌, ◌&&◌, ◌||◌, both_ways, Bool-cases,
}
use mathlib.Core.Option.{some-injective}
use grpc_uds.Uds.{SendAnswer, ReadAnswer, reads, read_eintr, read_eagain, read_fails}
use grpc_uds.Client.Conn.{
  ClientConn, ClientError, flush_send, PollAnswer, ready, timed_out, poll_eintr, hear, poll_fails,
  Turn, expired, expire_call, submit_rst, Pumped, read_phase, poll_phase, wait_phase, after_flush,
  pump, mark_broken,
}
use grpc_uds.Client.Conn.Recv.{
  ended, waiting, Outcome, has_status, recv_next, recv_round, recv_last, recv, unary_loop,
}

-- A flush touches neither the deadline nor the state of the call.
abbrev pub SameCall : ClientConn → ClientConn → Type 0
SameCall c c' = (c'.deadline_ms ≡ c.deadline_ms) × (c'.state ≡ c.state)

pub flush_send-SameCall :
    (chunks : List (List ℕ)) (answers : List SendAnswer) (c : ClientConn)
    → SameCall c (flush_send chunks answers c).0
unfolding flush_send
flush_send-SameCall [] answers c = (refl, refl)
flush_send-SameCall ([] ∷ chunks) answers c = (refl, refl)
flush_send-SameCall ((b ∷ bs) ∷ chunks) answers c =
    both_ways (λ (r : ClientConn × Bool). SameCall c r.0) _ _ _ (flush_send-SameCall chunks _ _)
      (refl, refl)

pub expire_call-closed : (t : Turn) (c : ClientConn) → (expire_call t c).state.closed ≡ true
unfolding expire_call
expire_call-closed t c =
    let sent =
      flush_send-SameCall t.rst_chunks t.rst_answers
        (record (expired c) { commands = c.commands ++ (submit_rst c.current_sid ∷ []) }) in
    let closed : (flush_send t.rst_chunks t.rst_answers (record (expired c) {
      commands = c.commands ++ (submit_rst c.current_sid ∷ []);
    })).0.state.closed
        ≡ true =
      rw (sent.1) refl in
    ground (arith, closed)

-- The turns reach the deadline.
abbrev pub Reaches : ℕ → List Turn → Type 0
Reaches d [] = ⊥
Reaches d (t ∷ ts) = (d ≤ t.now) ⊎ Reaches d ts

module _ (grants : ℕ → Bool) (d : ℕ) where
  -- After a turn the loop ends, or the deadline stands and is not reached.
  abbrev Advances : Turn → Pumped → Type 0
  Advances t (c, ok _) = (c.state.closed ≡ true) ⊎ ((c.deadline_ms ≡ some d) × (t.now < d))
  Advances t (c, err e) = Unit

  read_phase-Advances :
      (t : Turn) (c : ClientConn) (r : ReadAnswer)
      → c.deadline_ms ≡ some d
      → t.now < d
      → Advances t (read_phase grants t c r)
  read_phase-Advances t c (reads []) e h = inl refl
  read_phase-Advances t c (reads (b ∷ bs)) e h =
      both_ways (Advances t) t.accepted (hear grants t.events c, ok tt)
        (mark_broken (hear grants t.events c), err ClientError.protocol) (inr (e, h)) tt
  read_phase-Advances t c read_eintr e h = inr (e, h)
  read_phase-Advances t c read_eagain e h = tt
  read_phase-Advances t c (read_fails x) e h = tt

  poll_phase-Advances :
      (t : Turn) (c : ClientConn) (p : PollAnswer)
      → c.deadline_ms ≡ some d
      → t.now < d
      → Advances t (poll_phase grants t c p)
  poll_phase-Advances t c ready e h = read_phase-Advances t c t.read e h
  poll_phase-Advances t c timed_out e h = inl (expire_call-closed t c)
  poll_phase-Advances t c poll_eintr e h = inr (e, h)
  poll_phase-Advances t c poll_fails e h = tt

  wait_phase-Advances :
      (t : Turn) (c : ClientConn) (o : Option ℕ)
      → o ≡ some d
      → c.deadline_ms ≡ some d
      → Advances t (wait_phase grants t c o)
  wait_phase-Advances t c none e e' = absurd (cc)
  wait_phase-Advances t c (some d') e e' = elim (Bool-cases (d' - t.now == 0)) [
    | inl z ↦ rw z (inl (expire_call-closed t c))
    | inr z ↦ rw z (
        poll_phase-Advances t c t.poll e' (let same = some-injective _ _ e in ground (arith, same)))
  ]

  after_flush-Advances :
      (t : Turn) (r : ClientConn × Bool)
      → r.0.deadline_ms ≡ some d
      → Advances t (after_flush grants t r)
  after_flush-Advances t (c, false) e = tt
  after_flush-Advances t (c, true) e = wait_phase-Advances t c c.deadline_ms e e

  pump-Advances :
      (t : Turn) (c : ClientConn) → c.deadline_ms ≡ some d → Advances t (pump grants t c)
  unfolding pump
  pump-Advances t c e =
      after_flush-Advances t (flush_send t.chunks t.answers c)
        ((flush_send-SameCall t.chunks t.answers c).0 ∙ e)

  -- What a closed call does is known before any turn.
  recv-closed :
      (ts : List Turn) (c : ClientConn) → c.state.closed ≡ true → (recv grants ts c).2 ≢ waiting
  unfolding recv
  recv-closed [] c e = go c.state.messages
    where
      go : (ms : List (List ℕ)) → (recv_last c ms).2 ≢ waiting
      go (m ∷ ms) = λ bad. absurd (cc)
      go [] = rw e (λ bad. absurd (cc))
  recv-closed (t ∷ ts) c e = go c.state.messages
    where
      go : (ms : List (List ℕ)) → (recv_round grants (recv grants ts) t ts c ms).2 ≢ waiting
      go (m ∷ ms) = λ bad. absurd (cc)
      go [] = rw e (λ bad. absurd (cc))

  unary_loop-closed :
      (ts : List Turn) (c : ClientConn)
      → c.state.closed ≡ true
      → (unary_loop grants ts c).2 ≢ waiting
  unfolding unary_loop
  unary_loop-closed [] c e = rw e (λ bad. absurd (cc))
  unary_loop-closed (t ∷ ts) c e = rw e (λ bad. absurd (cc))

  -- A turn that leaves the deadline ahead leaves it to the turns after it.
  recv_next-Advances :
      (next : ClientConn → Outcome) (t : Turn) (ts : List Turn) (p : Pumped)
      → Reaches d (t ∷ ts)
      → ((c : ClientConn) → c.state.closed ≡ true → (next c).2 ≢ waiting)
      → ((c : ClientConn) → c.deadline_ms ≡ some d → Reaches d ts → (next c).2 ≢ waiting)
      → Advances t p
      → (recv_next next ts p).2 ≢ waiting
  recv_next-Advances next t ts (c, ok _) r closed later (inl e) = closed c e
  recv_next-Advances next t ts (c, ok _) (inl h) closed later (inr (e, lt)) = absurd (omega arith)
  recv_next-Advances next t ts (c, ok _) (inr h) closed later (inr (e, lt)) = later c e h
  recv_next-Advances next t ts (c, err x) r closed later a = λ bad. absurd (cc)

  recv_round_settles :
      (next : ClientConn → Outcome) (t : Turn) (ts : List Turn) (c : ClientConn)
      (ms : List (List ℕ))
      → (recv_next next ts (pump grants t c)).2 ≢ waiting
      → (recv_round grants next t ts c ms).2 ≢ waiting
  recv_round_settles next t ts c (m ∷ ms) h = λ bad. absurd (cc)
  recv_round_settles next t ts c [] h =
      both_ways (λ (o : Outcome). o.2 ≢ waiting)
        (c.state.closed || (t.idle && has_status c.state.grpc_status)) (c, t ∷ ts, ended)
        (recv_next next ts (pump grants t c)) (λ bad. absurd (cc)) h

  -- When a call has a deadline and the clock of some turn has reached it, receiving returns within
  -- those turns: with a message, with the end of the stream or with an error.
  pub recv_by_deadline :
      (ts : List Turn) (c : ClientConn)
      → c.deadline_ms ≡ some d
      → Reaches d ts
      → (recv grants ts c).2 ≢ waiting
  unfolding recv
  recv_by_deadline [] c e r = elim r [ ]
  recv_by_deadline (t ∷ ts) c e r = recv_round_settles (recv grants ts) t ts c c.state.messages (
      recv_next-Advances (recv grants ts) t ts (pump grants t c) r (recv-closed ts)
        (recv_by_deadline ts) (pump-Advances t c e))

  -- When a unary call has a deadline and the clock of some turn has reached it, its loop ends
  -- within those turns.
  pub unary_loop_by_deadline :
      (ts : List Turn) (c : ClientConn)
      → c.deadline_ms ≡ some d
      → Reaches d ts
      → (unary_loop grants ts c).2 ≢ waiting
  unfolding unary_loop
  unary_loop_by_deadline [] c e r = elim r [ ]
  unary_loop_by_deadline (t ∷ ts) c e r =
      both_ways (λ (o : Outcome). o.2 ≢ waiting) c.state.closed (c, t ∷ ts, ended)
        (recv_next (unary_loop grants ts) ts (pump grants t c)) (λ bad. absurd (cc))
        (recv_next-Advances (unary_loop grants ts) t ts (pump grants t c) r (unary_loop-closed ts)
          (unary_loop_by_deadline ts) (pump-Advances t c e))
