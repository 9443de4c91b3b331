-- ===== src/Server/Loop/Tokens.antt =====
-- The tokens of the connections that the loop holds.
use grpc_uds.Prelude.{
  ℕ, zero, suc, ◌+◌, ◌≤◌, ◌≡◌, refl, sym, ap, ◌∙◌, Bool, true, false, not, List, [], ◌∷◌, ◌++◌, map,
  Option, none, some, ok, err, ◌==◌, ◌&&◌, if◌then◌else◌, length, All, arith, both_ways,
}
use mathlib.Core.Path.{subst}
use grpc_uds.Conn.{Conn}
use grpc_uds.Uds.Listener.{Accepted, accept}
use grpc_uds.Server.{
  OutOp, ConnSlot, Io, find_slot, put_slot, apply_kind, apply_found, apply_op, apply_ops,
}
use grpc_uds.Server.Loop.{
  Method, Polled, Arrival, Round, Serving, PollAnswer, interrupted, poll_fails, polls, add_slot,
  on_accept, register_each, accept_all, tick_slot, tick_first, granted, apply_mailbox, flush_slot,
  flush_each, retain_live, tick_all, round, serve, arrived, woken,
}

abbrev pub tokens : List ConnSlot → List ℕ
tokens ss = map (λ (s : ConnSlot). s.token) ss

tick_slot-token : (p : Polled) (s : ConnSlot) → (tick_slot p s).token ≡ s.token
unfolding tick_slot
tick_slot-token p s = ground arith

flush_slot-token : (p : Polled) (s : ConnSlot) → (flush_slot p s).token ≡ s.token
unfolding flush_slot
flush_slot-token p s = ground arith

tokens-tick_first :
    (n : ℕ) (polled : ℕ → Polled) (ss : List ConnSlot) → tokens (tick_first n polled ss) ≡ tokens ss
unfolding tick_first
tokens-tick_first zero polled ss = refl
tokens-tick_first (suc n) polled [] = refl
tokens-tick_first (suc n) polled (s ∷ ss) =
    rw (tick_slot-token (polled s.token) s, tokens-tick_first n polled ss) refl

tokens-flush_each :
    (polled : ℕ → Polled) (ss : List ConnSlot) → tokens (flush_each polled ss) ≡ tokens ss
unfolding flush_each
tokens-flush_each polled [] = refl
tokens-flush_each polled (s ∷ ss) =
    rw (flush_slot-token (polled s.token) s, tokens-flush_each polled ss) refl

tokens-put_slot : (t : ℕ) (c : Conn) (ss : List ConnSlot) → tokens (put_slot t c ss) ≡ tokens ss
unfolding put_slot
tokens-put_slot t c [] = refl
tokens-put_slot t c (s ∷ ss) =
    both_ways (λ (x : List ConnSlot). tokens x ≡ tokens (s ∷ ss)) (s.token == t && not s.dead) _ _
      refl (ap (◌∷◌ s.token) (tokens-put_slot t c ss))

tokens-apply_found :
    (room : Bool) (op : OutOp) (io : Io) (found : Option Conn)
    → tokens (apply_found room op io found).slots ≡ tokens io.slots
tokens-apply_found room op io none = refl
tokens-apply_found room op io (some c) =
    tokens-put_slot op.token (apply_kind room op.call_id op.kind c).0 io.slots

tokens-apply_ops :
    (ops : List (Bool × OutOp)) (io : Io) → tokens (apply_ops ops io).slots ≡ tokens io.slots
unfolding apply_ops apply_op
tokens-apply_ops [] io = refl
tokens-apply_ops ((room, op) ∷ ops) io =
    tokens-apply_ops ops (apply_op room op io)
    ∙ tokens-apply_found room op io (find_slot op.token io.slots)

-- The tokens ascend, from at least `low`, and stay below `high`.
abbrev pub Ascending : ℕ → List ℕ → ℕ → Type 0
Ascending low [] high = low ≤ high
Ascending low (t ∷ ts) high = (low ≤ t) × Ascending (t + 1) ts high

Ascending-weaken :
    (low low' : ℕ) (ts : List ℕ) (high : ℕ)
    → low' ≤ low
    → Ascending low ts high
    → Ascending low' ts high
Ascending-weaken low low' [] high le h = omega arith
Ascending-weaken low low' (t ∷ ts) high le (h, hs) = (omega arith, hs)

Ascending-append :
    (low : ℕ) (ts : List ℕ) (high : ℕ)
    → Ascending low ts high
    → Ascending low (ts ++ (high ∷ [])) (high + 1)
Ascending-append low [] high h = (h, omega arith)
Ascending-append low (t ∷ ts) high (h, hs) = (h, Ascending-append (t + 1) ts high hs)

Ascending-retain_live :
    (low : ℕ) (ss : List ConnSlot) (high : ℕ)
    → Ascending low (tokens ss) high
    → Ascending low (tokens (retain_live ss)) high
unfolding retain_live
Ascending-retain_live low [] high h = h
Ascending-retain_live low (s ∷ ss) high (h, hs) =
    let rest = Ascending-retain_live (s.token + 1) ss high hs in
    both_ways (λ (x : List ConnSlot). Ascending low (tokens x) high) s.dead _ _
      (Ascending-weaken (s.token + 1) low _ high (omega arith) rest) (h, rest)

AllLive-retain_live : (ss : List ConnSlot) → All (λ (s : ConnSlot). s.dead ≡ false) (retain_live ss)
unfolding retain_live
AllLive-retain_live [] = tt
AllLive-retain_live (s ∷ ss) = kept s.dead refl (AllLive-retain_live ss)
  where
    kept :
        (b : Bool)
        → s.dead ≡ b
        → All (λ (x : ConnSlot). x.dead ≡ false) (retain_live ss)
        → All (λ (x : ConnSlot). x.dead ≡ false) (if b then retain_live ss else s ∷ retain_live ss)
    kept true e rest = rest
    kept false e rest = (e, rest)

-- The tokens differ and were given out, and no connection is dead.
abbrev pub IsOrderly : Serving → Type 0
IsOrderly st =
    Ascending 0 (tokens st.slots) st.next_token × All (λ (s : ConnSlot). s.dead ≡ false) st.slots

abbrev HasTokens : Serving → Type 0
HasTokens st = Ascending 0 (tokens st.slots) st.next_token

pub map-append : (ss rest : List ConnSlot) → tokens (ss ++ rest) ≡ tokens ss ++ tokens rest
map-append [] rest = refl
map-append (s ∷ ss) rest = ap (◌∷◌ s.token) (map-append ss rest)

add_slot-HasTokens :
    (made : Conn × Bool) (st : Serving) → HasTokens st → HasTokens (add_slot made st)
add_slot-HasTokens (c, false) st h = h
add_slot-HasTokens (c, true) st h =
    subst (λ ts. Ascending 0 ts (st.next_token + 1))
      (sym (map-append st.slots (record { token = st.next_token; conn = c; dead = false } ∷ [])))
      (Ascending-append 0 (tokens st.slots) st.next_token h)

accept_all-HasTokens :
    (ms : List Method) (arrivals : List Arrival) (st : Serving)
    → HasTokens st
    → HasTokens (accept_all ms arrivals st)
unfolding accept_all
accept_all-HasTokens ms [] st h = h
accept_all-HasTokens ms (a ∷ arrivals) st h = go (accept a.session a.created a.answer) (λ c.
    accept_all-HasTokens ms arrivals (add_slot (register_each a.grants ms c) st)
      (add_slot-HasTokens (register_each a.grants ms c) st h))
  where
    go :
        (got : Accepted)
        → ((c : Conn)
            → HasTokens (accept_all ms arrivals (add_slot (register_each a.grants ms c) st)))
        → HasTokens (on_accept (accept_all ms arrivals) ms a.grants st got)
    go (fx, ok (some c)) next = next c
    go (fx, ok none) next = h
    go (fx, err e) next = h

-- What a round keeps of the tokens before the dead are removed.
tokens-apply_mailbox :
    (grants : ℕ → Bool) (st : Serving) → tokens (apply_mailbox grants st).slots ≡ tokens st.slots
unfolding apply_mailbox
tokens-apply_mailbox grants st = tokens-apply_ops (granted grants st.world.mailbox.ops) _

tokens-before_retain :
    (r : Round) (n : ℕ) (st : Serving)
    → tokens (flush_each r.polled (apply_mailbox r.grants (tick_all r n st)).slots)
      ≡ tokens st.slots
unfolding tick_all
tokens-before_retain r n st =
    tokens-flush_each r.polled (apply_mailbox r.grants (tick_all r n st)).slots
    ∙ tokens-apply_mailbox r.grants (tick_all r n st)
    ∙ tokens-tick_first n r.polled st.slots

pub round-from :
    (ms : List Method) (r : Round) (st : Serving) (P : List ℕ → ℕ → Type 0)
    → P (tokens (arrived ms r st).slots) (arrived ms r st).next_token
    → ((ss : List ConnSlot) (high : ℕ) → P (tokens ss) high → P (tokens (retain_live ss)) high)
    → P (tokens (round ms r st).slots) (round ms r st).next_token
unfolding round apply_mailbox tick_all
round-from ms r st P h retains = retains _ _ (
    subst (λ ts. P ts (arrived ms r st).next_token)
      (sym (tokens-before_retain r (length st.slots) (woken r (arrived ms r st)))) h)

round-IsOrderly :
    (ms : List Method) (r : Round) (st : Serving) → IsOrderly st → IsOrderly (round ms r st)
unfolding round
round-IsOrderly ms r st (ascends, alive) = (
  round-from ms r st (Ascending 0)
      (both_ways HasTokens r.listener_ready (accept_all ms r.arrivals st) st
        (accept_all-HasTokens ms r.arrivals st ascends) ascends)
      (Ascending-retain_live 0),
  AllLive-retain_live (
      flush_each r.polled
        (apply_mailbox r.grants (tick_all r (length st.slots) (woken r (arrived ms r st)))).slots),
)

-- Whatever poll, the sockets, nghttp2 and other threads do, the loop keeps its connections with
-- different tokens, in ascending order and all below the next one, and none of them dead, if it
-- starts so.
pub serve-IsOrderly :
    (ms : List Method) (steps : List (Bool × PollAnswer)) (st : Serving)
    → IsOrderly st
    → IsOrderly (serve ms steps st).0
unfolding serve
serve-IsOrderly ms [] st h = h
serve-IsOrderly ms ((true, answer) ∷ rest) st h = h
serve-IsOrderly ms ((false, interrupted) ∷ rest) st h = serve-IsOrderly ms rest st h
serve-IsOrderly ms ((false, poll_fails e) ∷ rest) st h = h
serve-IsOrderly ms ((false, polls r) ∷ rest) st h =
    serve-IsOrderly ms rest (round ms r st) (round-IsOrderly ms r st h)
