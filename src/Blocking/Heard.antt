-- ===== src/Blocking/Heard.antt =====
-- The state of a unary call of the blocking client, against the callbacks of the turns.
use mathlib.Core.Path.{subst}
use grpc_uds.Prelude.{
  ℕ, ◌-◌, ◌≡◌, inl, inr, refl, sym, ◌∙◌, ap, Bool, true, false, List, [], ◌∷◌, ◌++◌, Option, none,
  some, Result, ok, err, pos, both_ways, if◌then◌else◌, ltb, ◌==◌, ◌||◌, ◌&&◌, not,
}
use grpc_uds.Uds.{ReadAnswer, reads, read_eintr, read_eagain, read_fails}
use grpc_uds.Types.{Status}
use grpc_uds.Headers.{discriminant}
use grpc_uds.Client.Conn.{submit_rst, PollAnswer, ready, timed_out, poll_eintr, poll_fails}
use grpc_uds.Blocking.{
  Client, Turn, Event, flush_send, apply_events, expired, expire_call, Pumped, read_phase,
  poll_phase, wait_phase, after_flush, pump,
}
use grpc_uds.Blocking.Call.{CallState}
use grpc_uds.Blocking.Calls.{
  Outcome, pumped, final_status, on_final, popped, unary_loop, unary_done, is_empty, has_status,
}
use grpc_uds.Blocking.Deadline.{SameCall, flush_send-SameCall}
use grpc_uds.Blocking.Ends.{IsClean, final_status-IsClean}

-- The callbacks of the turns that are marked.
abbrev pub marked : List Bool → List Turn → List Event
marked [] ts = []
marked (b ∷ bs) [] = []
marked (true ∷ bs) (t ∷ ts) = t.events ++ marked bs ts
marked (false ∷ bs) (t ∷ ts) = marked bs ts

-- When the result is a message: of `ts`, some turns were made, and the rest is left. The callbacks
-- of some of those that were made, in order, turn the state `st` into one with the call's status,
-- and with the message that is returned before those that the client still has.
abbrev pub Heard :
    List Turn → CallState → Client × List Turn × Option (Result (List ℕ) Status) → Type 0
Heard ts st (c, left, none) = Unit
Heard ts st (c, left, some (err e)) = Unit
Heard ts st (c, left, some (ok m)) =
    (made : List Turn) × (marks : List Bool) × (ts ≡ made ++ left)
    × ((apply_events (marked marks made) st).messages ≡ m ∷ c.state.messages)
    × IsClean (apply_events (marked marks made) st)

-- What a turn that comes to its end leaves of the state.
data Next (t : Turn) (st : CallState) : CallState → Type 0 where
  as_before : {st' : CallState} → st' ≡ st → Next t st st'
  given : {st' : CallState} → st' ≡ apply_events t.events st → Next t st st'
  shut : {st' : CallState} → st' ≡ record st { closed = true } → Next t st st'
  late : {st' : CallState} → st'.closed ≡ true → st'.grpc_status ≡ some (pos 4) → Next t st st'

abbrev Steps : Turn → CallState → Pumped → Type 0
Steps t st (c, ok _) = Next t st c.state
Steps t st (c, err e) = Unit

expire_call-Steps : (t : Turn) (st : CallState) (c : Client) → Next t st (expire_call t c).state
unfolding expire_call discriminant
expire_call-Steps t st c =
    both_ways (λ (c' : Client). Next t st c'.state) (ltb 0 c.current_sid)
      (flush_send t.rst_chunks t.rst_answers reset_sent).0 (expired c)
      (late (ap (λ s. s.closed) same) (ap (λ s. s.grpc_status) same)) (late refl refl)
  where
    reset_sent : Client
    reset_sent = record (expired c) { commands = c.commands ++ (submit_rst c.current_sid ∷ []) }

    same : (flush_send t.rst_chunks t.rst_answers reset_sent).0.state ≡ reset_sent.state
    same = (flush_send-SameCall t.rst_chunks t.rst_answers reset_sent).1

read_phase-Steps : (t : Turn) (c : Client) (r : ReadAnswer) → Steps t c.state (read_phase t c r)
read_phase-Steps t c (reads []) = shut refl
read_phase-Steps t c (reads (b ∷ bs)) = both_ways (Steps t c.state) t.accepted _ _ (given refl) tt
read_phase-Steps t c read_eintr = as_before refl
read_phase-Steps t c read_eagain = tt
read_phase-Steps t c (read_fails e) = tt

poll_phase-Steps : (t : Turn) (c : Client) (p : PollAnswer) → Steps t c.state (poll_phase t c p)
poll_phase-Steps t c ready = read_phase-Steps t c t.read
poll_phase-Steps t c timed_out = expire_call-Steps t c.state c
poll_phase-Steps t c poll_eintr = as_before refl
poll_phase-Steps t c poll_fails = tt

wait_phase-Steps : (t : Turn) (c : Client) (d : Option ℕ) → Steps t c.state (wait_phase t c d)
wait_phase-Steps t c none = read_phase-Steps t c t.read
wait_phase-Steps t c (some d) =
    both_ways (Steps t c.state) (d - t.now == 0) (expire_call t c, ok tt) (poll_phase t c t.poll)
      (expire_call-Steps t c.state c) (poll_phase-Steps t c t.poll)

pump-Steps : (t : Turn) (c : Client) → Steps t c.state (pump t c)
unfolding pump
pump-Steps t c = go (flush_send t.chunks t.answers c) (flush_send-SameCall t.chunks t.answers c)
  where
    go : (r : Client × Bool) → SameCall c r.0 → Steps t c.state (after_flush t r)
    go (c', false) same = tt
    go (c', true) same =
        subst (λ st. Steps t st (wait_phase t c' c'.deadline_at)) (same.1)
          (wait_phase-Steps t c' c'.deadline_at)

apply_events-append :
    (es fs : List Event) (st : CallState)
    → apply_events (es ++ fs) st ≡ apply_events fs (apply_events es st)
unfolding apply_events
apply_events-append [] fs st = refl
apply_events-append (e ∷ es) fs st = apply_events-append es fs _

-- A turn before those that lead to a result.
more :
    (t : Turn) (b : Bool) (ts : List Turn) (st : CallState) (o : Outcome (List ℕ))
    → Heard ts (if b then apply_events t.events st else st) o
    → Heard (t ∷ ts) st o
more t b ts st (c, left, none) h = tt
more t b ts st (c, left, some (err e)) h = tt
more t true ts st (c, left, some (ok m)) (made, marks, e, ms, clean) =
    let k = apply_events-append t.events (marked marks made) st in
    (t ∷ made, true ∷ marks, ap (◌∷◌ t) e, rw k ms, rw k clean)
more t false ts st (c, left, some (ok m)) (made, marks, e, ms, clean) =
    (t ∷ made, false ∷ marks, ap (◌∷◌ t) e, ms, clean)

if_shut :
    (P : Outcome (List ℕ) → Type 0) (b d : Bool) (x y : Outcome (List ℕ))
    → b ≡ true
    → P x
    → P (if b || d then x else y)
if_shut P true d x y e h = h
if_shut P false d x y e h = absurd (cc)

module _ (no_status : ℕ → Option ℕ → List ℕ) where
  on_final-Heard :
      (ts : List Turn) (st : CallState) (c : Client)
      → (IsClean c.state → (st.messages ≡ c.state.messages) × IsClean st)
      → (r : Result (Unit {0}) Status) → final_status no_status c.state ≡ r
      → Heard ts st (on_final c ts r)
  unfolding apply_events
  on_final-Heard ts st c same (err e) f = tt
  on_final-Heard ts st c same (ok _) f = go c.state.messages refl
    where
      go : (ms : List (List ℕ)) → c.state.messages ≡ ms → Heard ts st (popped c ts ms)
      go [] e = tt
      go (m ∷ ms) e =
          let (at, clean) = same ((final_status-IsClean no_status c.state).0 f) in
          ([], [], refl, at ∙ e, clean)

  -- A call that is closed makes no more turns.
  closed-Heard :
      (ts : List Turn) (st : CallState) (c : Client)
      → c.state.closed ≡ true
      → (IsClean c.state → (st.messages ≡ c.state.messages) × IsClean st)
      → Heard ts st (unary_loop no_status ts c)
  unfolding unary_loop
  closed-Heard [] st c e same =
      if_shut (Heard [] st) c.state.closed
        (not (is_empty c.state.messages) && has_status c.state.grpc_status)
        (on_final c [] (final_status no_status c.state)) (c, [], none) e
        (on_final-Heard [] st c same (final_status no_status c.state) refl)
  closed-Heard (t ∷ ts) st c e same =
      if_shut (Heard (t ∷ ts) st) c.state.closed
        (not (is_empty c.state.messages) && has_status c.state.grpc_status)
        (on_final c (t ∷ ts) (final_status no_status c.state))
        (pumped (unary_loop no_status ts) ts (pump t c)) e
        (on_final-Heard (t ∷ ts) st c same (final_status no_status c.state) refl)

  not_clean : (st : CallState) → st.grpc_status ≡ some (pos 4) → IsClean st → ⊥
  not_clean st e (inl h) = absurd (cc)
  not_clean st e (inr (h, g)) = absurd (cc)

  next-Heard :
      (t : Turn) (ts : List Turn) (st : CallState) (c : Client)
      → Next t st c.state
      → Heard ts c.state (unary_loop no_status ts c)
      → Heard (t ∷ ts) st (unary_loop no_status ts c)
  next-Heard t ts st c (as_before e) h =
      more t false ts st (unary_loop no_status ts c)
        (subst (λ s. Heard ts s (unary_loop no_status ts c)) e h)
  next-Heard t ts st c (given e) h =
      more t true ts st (unary_loop no_status ts c)
        (subst (λ s. Heard ts s (unary_loop no_status ts c)) e h)
  next-Heard t ts st c (shut e) h = more t false ts st (unary_loop no_status ts c) (
      closed-Heard ts st c (ap (λ s. s.closed) e)
        λ k. (sym (ap (λ s. s.messages) e), subst IsClean e k))
  next-Heard t ts st c (late closed e) h =
      more t false ts st (unary_loop no_status ts c)
        (closed-Heard ts st c closed λ k. absurd (not_clean c.state e k))

  -- The loop of a unary call, over whatever turns.
  pub unary_loop-Heard :
      (ts : List Turn) (c : Client) → Heard ts c.state (unary_loop no_status ts c)
  unfolding unary_loop
  unary_loop-Heard [] c =
      both_ways (Heard [] c.state) (unary_done c.state)
        (on_final c [] (final_status no_status c.state)) (c, [], none)
        (on_final-Heard [] c.state c (λ k. (refl, k)) _ refl) tt
  unary_loop-Heard (t ∷ ts) c =
      both_ways (Heard (t ∷ ts) c.state) (unary_done c.state)
        (on_final c (t ∷ ts) (final_status no_status c.state))
        (pumped (unary_loop no_status ts) ts (pump t c))
        (on_final-Heard (t ∷ ts) c.state c (λ k. (refl, k)) _ refl)
        (go (pump t c) (pump-Steps t c) (unary_loop-Heard ts))
    where
      go :
          (p : Pumped)
          → Steps t c.state p
          → ((c' : Client) → Heard ts c'.state (unary_loop no_status ts c'))
          → Heard (t ∷ ts) c.state (pumped (unary_loop no_status ts) ts p)
      go (c', ok _) step later = next-Heard t ts c.state c' step (later c')
      go (c', err e) step later = tt
