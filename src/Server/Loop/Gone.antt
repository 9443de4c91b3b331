-- ===== src/Server/Loop/Gone.antt =====
-- What is queued for a connection that is gone.
use grpc_uds.Prelude.{
  ℕ, ◌<◌, ◌≡◌, ◌≢◌, refl, sym, ap, ◌∙◌, Bool, true, false, List, [], ◌∷◌, none, some, ok, err, All,
  All-append, arith, both_ways,
}
use mathlib.Core.Path.{subst}
use grpc_uds.Conn.{Conn}
use grpc_uds.Uds.Listener.{Accepted, accept}
use grpc_uds.Server.{OutOp, ConnSlot, find_slot, apply_found, apply_op, tell, die, Flags}
use grpc_uds.Server.Loop.{
  Method, Arrival, Round, Serving, PollAnswer, interrupted, poll_fails, polls, add_slot, on_accept,
  register_each, accept_all, retain_live, round, serve,
}
use grpc_uds.Server.Loop.Tokens.{tokens, map-append, round-from}

abbrev Absent : ℕ → List ℕ → Type 0
Absent t ts = All (λ k. k ≢ t) ts

Absent-retain_live :
    (t : ℕ) (ss : List ConnSlot) → Absent t (tokens ss) → Absent t (tokens (retain_live ss))
unfolding retain_live
Absent-retain_live t [] h = h
Absent-retain_live t (s ∷ ss) (h, hs) =
    let rest = Absent-retain_live t ss hs in
    both_ways (λ (x : List ConnSlot). Absent t (tokens x)) s.dead _ _ rest (h, rest)

-- A token that was given out and has no connection.
abbrev pub IsGone : ℕ → Serving → Type 0
IsGone t st = (t < st.next_token) × All (λ k. k ≢ t) (tokens st.slots)

add_slot-IsGone :
    (t : ℕ) (made : Conn × Bool) (st : Serving) → IsGone t st → IsGone t (add_slot made st)
add_slot-IsGone t (c, false) st h = h
add_slot-IsGone t (c, true) st (below, absent) = (
  omega arith,
  subst (Absent t)
      (sym (map-append st.slots (record { token = st.next_token; conn = c; dead = false } ∷ [])))
      (All-append (λ k. k ≢ t) (tokens st.slots) (st.next_token ∷ []) absent
        (λ e. absurd (omega arith), tt)),
)

accept_all-IsGone :
    (t : ℕ) (ms : List Method) (arrivals : List Arrival) (st : Serving)
    → IsGone t st
    → IsGone t (accept_all ms arrivals st)
unfolding accept_all
accept_all-IsGone t ms [] st h = h
accept_all-IsGone t ms (a ∷ arrivals) st h = go (accept a.session a.created a.answer) (λ c.
    accept_all-IsGone t ms arrivals (add_slot (register_each a.grants ms c) st)
      (add_slot-IsGone t (register_each a.grants ms c) st h))
  where
    go :
        (got : Accepted)
        → ((c : Conn)
            → IsGone t (accept_all ms arrivals (add_slot (register_each a.grants ms c) st)))
        → IsGone t (on_accept (accept_all ms arrivals) ms a.grants st got)
    go (fx, ok (some c)) next = next c
    go (fx, ok none) next = h
    go (fx, err e) next = h

round-IsGone :
    (t : ℕ) (ms : List Method) (r : Round) (st : Serving) → IsGone t st → IsGone t (round ms r st)
round-IsGone t ms r st h =
    round-from ms r st (λ ts high. (t < high) × Absent t ts)
      (both_ways (IsGone t) r.listener_ready (accept_all ms r.arrivals st) st
        (accept_all-IsGone t ms r.arrivals st h) h)
      (λ ss high (below, absent). (below, Absent-retain_live t ss absent))

serve-IsGone :
    (t : ℕ) (ms : List Method) (steps : List (Bool × PollAnswer)) (st : Serving)
    → IsGone t st
    → IsGone t (serve ms steps st).0
unfolding serve
serve-IsGone t ms [] st h = h
serve-IsGone t ms ((true, answer) ∷ rest) st h = h
serve-IsGone t ms ((false, interrupted) ∷ rest) st h = serve-IsGone t ms rest st h
serve-IsGone t ms ((false, poll_fails e) ∷ rest) st h = h
serve-IsGone t ms ((false, polls r) ∷ rest) st h =
    serve-IsGone t ms rest (round ms r st) (round-IsGone t ms r st h)

find_slot-Absent : (t : ℕ) (ss : List ConnSlot) → Absent t (tokens ss) → find_slot t ss ≡ none
unfolding find_slot
find_slot-Absent t [] h = refl
find_slot-Absent t (s ∷ ss) (h, hs) = let rest = find_slot-Absent t ss hs in ground (arith, rest)

-- Once no connection has a token that was given out, none ever has it again, whatever poll, the
-- sockets, nghttp2 and other threads do: an operation that still carries the token changes no
-- connection, and tells its writer that the call is dead.
pub serve-Bounces :
    (t : ℕ) (ms : List Method) (steps : List (Bool × PollAnswer)) (st : Serving) (room : Bool)
    (op : OutOp) (flags : Flags)
    → IsGone t st
    → op.token ≡ t
    → let slots = (serve ms steps st).0.slots in
      apply_op room op (record { slots = slots; flags = flags })
      ≡ record { slots = slots; flags = tell op.shared die flags }
unfolding apply_op
serve-Bounces t ms steps st room op flags gone e =
    ap (apply_found room op (record { slots = slots; flags = flags }))
      (ap (λ k. find_slot k slots) e ∙ find_slot-Absent t slots (serve-IsGone t ms steps st gone).1)
  where
    slots : List ConnSlot
    slots = (serve ms steps st).0.slots
