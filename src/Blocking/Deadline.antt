-- ===== src/Blocking/Deadline.antt =====
-- The turns of the blocking client's loops, against the deadline of the call.
use grpc_uds.Prelude.{
  ℕ, arith, ◌-◌, ◌++◌, ◌≤◌, ◌<◌, ◌≡◌, ◌⊎◌, inl, inr, refl, ◌∙◌, Bool, true, false, List, [], ◌∷◌,
  Option, none, some, Result, ok, err, ◌==◌, if◌then◌else◌, both_ways, Bool-cases,
}
use mathlib.Core.Option.{some-injective}
use grpc_uds.Uds.{SendAnswer, ReadAnswer, reads, read_eintr, read_eagain, read_fails}
use grpc_uds.Types.{Status}
use grpc_uds.Client.Conn.{submit_rst, PollAnswer, ready, timed_out, poll_eintr, poll_fails}
use grpc_uds.Blocking.{
  Client, flush_send, Turn, expired, expire_call, Pumped, read_phase, poll_phase, wait_phase,
  after_flush, pump, hear,
}
use grpc_uds.Blocking.Calls.{
  Outcome, pumped, final_status, on_final, popped, unary_loop, unary_done,
}

-- A flush touches neither the deadline, nor the state of the call, nor what it was given.
abbrev pub SameCall : Client → Client → Type 0
SameCall c c' = (c'.deadline_at ≡ c.deadline_at) × (c'.state ≡ c.state) × (c'.received ≡ c.received)

pub flush_send-SameCall :
    (chunks : List (List ℕ)) (answers : List SendAnswer) (c : Client)
    → SameCall c (flush_send chunks answers c).0
unfolding flush_send
flush_send-SameCall [] answers c = (refl, refl, refl)
flush_send-SameCall ([] ∷ chunks) answers c = (refl, refl, refl)
flush_send-SameCall ((b ∷ bs) ∷ chunks) answers c =
    both_ways (λ (r : Client × Bool). SameCall c r.0) _ _ _ (flush_send-SameCall chunks _ _)
      (refl, refl, refl)

expire_call-closed : (t : Turn) (c : Client) → (expire_call t c).state.closed ≡ true
unfolding expire_call
expire_call-closed t c =
    let sent =
      flush_send-SameCall t.rst_chunks t.rst_answers
        (record (expired c) { commands = c.commands ++ (submit_rst c.current_sid ∷ []) }) in
    let closed : (flush_send t.rst_chunks t.rst_answers (record (expired c) {
      commands = c.commands ++ (submit_rst c.current_sid ∷ []);
    })).0.state.closed
        ≡ true =
      rw (sent.1) refl in
    ground (arith, closed)

-- The turns reach the deadline.
abbrev pub Reaches : ℕ → List Turn → Type 0
Reaches d [] = ⊥
Reaches d (t ∷ ts) = (d ≤ t.now) ⊎ Reaches d ts

-- The loop returned.
abbrev pub Returns {ℓ} : {A : Type ℓ} → Option A → Type 0
Returns none = ⊥
Returns (some a) = Unit

if_so {ℓ} :
    {A : Type ℓ} (b : Bool) (x y : Client × List Turn × Option A)
    → b ≡ true
    → Returns x.2
    → Returns (if b then x else y).2
if_so true x y e h = h
if_so false x y e h = absurd (cc)

module _ (d : ℕ) where
  -- After a turn the loop ends, or the deadline stands and is not reached.
  abbrev Advances : Turn → Pumped → Type 0
  Advances t (c, ok _) = (c.state.closed ≡ true) ⊎ ((c.deadline_at ≡ some d) × (t.now < d))
  Advances t (c, err e) = Unit

  read_phase-Advances :
      (t : Turn) (c : Client) (r : ReadAnswer)
      → c.deadline_at ≡ some d
      → t.now < d
      → Advances t (read_phase t c r)
  read_phase-Advances t c (reads []) e h = inl refl
  read_phase-Advances t c (reads (b ∷ bs)) e h =
      both_ways (Advances t) t.accepted (hear t.events c, ok tt) _ (inr (e, h)) tt
  read_phase-Advances t c read_eintr e h = inr (e, h)
  read_phase-Advances t c read_eagain e h = tt
  read_phase-Advances t c (read_fails x) e h = tt

  poll_phase-Advances :
      (t : Turn) (c : Client) (p : PollAnswer)
      → c.deadline_at ≡ some d
      → t.now < d
      → Advances t (poll_phase t c p)
  poll_phase-Advances t c ready e h = read_phase-Advances t c t.read e h
  poll_phase-Advances t c timed_out e h = inl (expire_call-closed t c)
  poll_phase-Advances t c poll_eintr e h = inr (e, h)
  poll_phase-Advances t c poll_fails e h = tt

  wait_phase-Advances :
      (t : Turn) (c : Client) (o : Option ℕ)
      → o ≡ some d
      → c.deadline_at ≡ some d
      → Advances t (wait_phase t c o)
  wait_phase-Advances t c none e e' = absurd (cc)
  wait_phase-Advances t c (some d') e e' = elim (Bool-cases (d' - t.now == 0)) [
    | inl z ↦ rw z (inl (expire_call-closed t c))
    | inr z ↦ rw z (
        poll_phase-Advances t c t.poll e' (let same = some-injective _ _ e in ground (arith, same)))
  ]

  after_flush-Advances :
      (t : Turn) (r : Client × Bool) → r.0.deadline_at ≡ some d → Advances t (after_flush t r)
  after_flush-Advances t (c, false) e = tt
  after_flush-Advances t (c, true) e = wait_phase-Advances t c c.deadline_at e e

  pump-Advances : (t : Turn) (c : Client) → c.deadline_at ≡ some d → Advances t (pump t c)
  unfolding pump
  pump-Advances t c e =
      after_flush-Advances t (flush_send t.chunks t.answers c)
        ((flush_send-SameCall t.chunks t.answers c).0 ∙ e)

  -- A turn that leaves the deadline ahead leaves it to the turns after it.
  pumped-Returns {ℓ} :
      {A : Type ℓ} (next : Client → Client × List Turn × Option (Result A Status)) (t : Turn)
      (ts : List Turn) (p : Pumped)
      → Reaches d (t ∷ ts)
      → ((c : Client) → c.state.closed ≡ true → Returns (next c).2)
      → ((c : Client) → c.deadline_at ≡ some d → Reaches d ts → Returns (next c).2)
      → Advances t p
      → Returns (pumped next ts p).2
  pumped-Returns next t ts (c, ok _) r closed later (inl e) = closed c e
  pumped-Returns next t ts (c, ok _) (inl h) closed later (inr (e, lt)) = absurd (omega arith)
  pumped-Returns next t ts (c, ok _) (inr h) closed later (inr (e, lt)) = later c e h
  pumped-Returns next t ts (c, err x) r closed later a = tt

  module _ (no_status : ℕ → Option ℕ → List ℕ) where
    on_final-Returns :
        (c : Client) (ts : List Turn) (r : Result (Unit {0}) Status) → Returns (on_final c ts r).2
    on_final-Returns c ts (err e) = tt
    on_final-Returns c ts (ok _) = go c.state.messages
      where
        go : (ms : List (List ℕ)) → Returns (popped c ts ms).2
        go [] = tt
        go (m ∷ ms) = tt

    unary_loop-closed :
        (ts : List Turn) (c : Client)
        → c.state.closed ≡ true
        → Returns (unary_loop no_status ts c).2
    unfolding unary_loop
    unary_loop-closed [] c e =
        if_so (unary_done c.state) _ (c, [], none) (rw e refl)
          (on_final-Returns c [] (final_status no_status c.state))
    unary_loop-closed (t ∷ ts) c e =
        if_so (unary_done c.state) _ (pumped (unary_loop no_status ts) ts (pump t c)) (rw e refl)
          (on_final-Returns c (t ∷ ts) (final_status no_status c.state))

    -- When a unary call has a deadline and the clock of some turn has reached it, its loop returns
    -- within those turns.
    pub unary_loop_by_deadline :
        (ts : List Turn) (c : Client)
        → c.deadline_at ≡ some d
        → Reaches d ts
        → Returns (unary_loop no_status ts c).2
    unfolding unary_loop
    unary_loop_by_deadline [] c e r = elim r [ ]
    unary_loop_by_deadline (t ∷ ts) c e r =
        both_ways (λ (o : Outcome (List ℕ)). Returns o.2) (unary_done c.state)
          (on_final c (t ∷ ts) (final_status no_status c.state))
          (pumped (unary_loop no_status ts) ts (pump t c))
          (on_final-Returns c (t ∷ ts) (final_status no_status c.state))
          (pumped-Returns (unary_loop no_status ts) t ts (pump t c) r (unary_loop-closed ts)
            (unary_loop_by_deadline ts) (pump-Advances t c e))
