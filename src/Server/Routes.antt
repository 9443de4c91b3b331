-- ===== src/Server/Routes.antt =====
-- What the pass of the I/O thread does to each connection.
use mathlib.Core.Path.{subst}
use grpc_uds.Prelude.{
  ℕ, arith, ◌≡◌, refl, ap, ◌∙◌, Bool, List, [], ◌∷◌, Option, none, some, ◌==◌, if◌then◌else◌,
  Bool-cases, inl, inr, ==_iff,
}
use grpc_uds.Conn.{Conn}
use grpc_uds.Conn.Calls.{write_call_owned, finish_call, finish_call_msg, set_stream_policy}
use grpc_uds.Server.{
  OutOp, ConnSlot, Io, OpKind, write, finish, policy, find_slot, put_slot, apply_kind, apply_found,
  apply_op, apply_ops,
}

-- The core's call for an operation; `room` is the allocator's answer to a write.
abbrev pub called : Bool → ℕ → OpKind → Conn → Conn
called room call_id (write bytes) c = (write_call_owned room call_id bytes c).0
called room call_id (finish code none) c = (finish_call call_id code c).0
called room call_id (finish code (some msg)) c = (finish_call_msg call_id code msg c).0
called room call_id (policy bp) c = (set_stream_policy call_id bp c).0

apply_kind-called :
    (room : Bool) (call_id : ℕ) (kind : OpKind) (c : Conn)
    → (apply_kind room call_id kind c).0 ≡ called room call_id kind c
unfolding apply_kind
apply_kind-called room call_id (write bytes) c = refl
apply_kind-called room call_id (finish code none) c = refl
apply_kind-called room call_id (finish code (some msg)) c = refl
apply_kind-called room call_id (policy bp) c = refl

-- The operations of one connection, done one after the other and no others.
abbrev pub own_ops : ℕ → List (Bool × OutOp) → Conn → Conn
own_ops t [] c = c
own_ops t ((room, op) ∷ ops) c =
    own_ops t ops (if op.token == t then called room op.call_id op.kind c else c)

abbrev pub on_conn : (Conn → Conn) → Option Conn → Option Conn
on_conn f none = none
on_conn f (some c) = some (f c)

find_slot-put_slot :
    (t t' : ℕ) (c : Conn) (slots : List ConnSlot)
    → find_slot t (put_slot t' c slots)
      ≡ on_conn (λ old. if t' == t then c else old) (find_slot t slots)
unfolding find_slot put_slot
find_slot-put_slot t t' c [] = refl
find_slot-put_slot t t' c (s ∷ ss) = let rest = find_slot-put_slot t t' c ss in ground (arith, rest)

on_conn_same : (found : Option Conn) → found ≡ on_conn (λ c. c) found
on_conn_same none = refl
on_conn_same (some c) = refl

apply_found-own :
    (t : ℕ) (room : Bool) (op : OutOp) (io : Io) (found : Option Conn)
    → find_slot op.token io.slots ≡ found
    → find_slot t (apply_found room op io found).slots
      ≡ on_conn
          (λ c. if op.token == t then called room op.call_id op.kind c else c)
          (find_slot t io.slots)
apply_found-own t room op io none e = elim (Bool-cases (op.token == t)) [
  | inl same ↦
      let here : op.token ≡ t = (==_iff op.token t).0 same in
      let gone : find_slot t io.slots ≡ none = subst (λ k. find_slot k io.slots ≡ none) here e in
      rw gone refl
  | inr other ↦ rw other (on_conn_same (find_slot t io.slots))
]
apply_found-own t room op io (some c) e = elim (Bool-cases (op.token == t)) [
  | inl same ↦
      let here : op.token ≡ t = (==_iff op.token t).0 same in
      let at : find_slot t io.slots ≡ some c = subst (λ k. find_slot k io.slots ≡ some c) here e in
      find_slot-put_slot t op.token (apply_kind room op.call_id op.kind c).0 io.slots
      ∙ rw (same, at) (ap some (apply_kind-called room op.call_id op.kind c))
  | inr other ↦
      find_slot-put_slot t op.token (apply_kind room op.call_id op.kind c).0 io.slots
      ∙ rw other refl
]

on_conn_twice :
    (f g : Conn → Conn) (found : Option Conn)
    → on_conn g (on_conn f found) ≡ on_conn (λ c. g (f c)) found
on_conn_twice f g none = refl
on_conn_twice f g (some c) = refl

-- After the pass, the live connection with a token is in the state that the queued operations of
-- that token lead to in the order of the queue: a write is the core's
-- `write_call_owned`, a finish its `finish_call`, or `finish_call_msg` with the message, and a
-- policy its `set_stream_policy`. Operations of other tokens do nothing to it.
pub apply_ops-own :
    (t : ℕ) (ops : List (Bool × OutOp)) (io : Io)
    → find_slot t (apply_ops ops io).slots ≡ on_conn (own_ops t ops) (find_slot t io.slots)
unfolding apply_ops apply_op
apply_ops-own t [] io = on_conn_same (find_slot t io.slots)
apply_ops-own t ((room, op) ∷ ops) io =
    apply_ops-own t ops (apply_op room op io)
    ∙ ap (on_conn (own_ops t ops)) (apply_found-own t room op io (find_slot op.token io.slots) refl)
    ∙ on_conn_twice (λ c. if op.token == t then called room op.call_id op.kind c else c)
        (own_ops t ops) (find_slot t io.slots)
