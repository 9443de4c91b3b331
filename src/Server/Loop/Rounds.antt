-- ===== src/Server/Loop/Rounds.antt =====
-- A unary call within one round of the loop.
use grpc_uds.Prelude.{
  ℕ, ◌≡◌, refl, ap, ◌∙◌, Bool, List, [], ◌∷◌, ◌++◌, Option, none, some, Result, ok, err, ==_iff,
}
use grpc_uds.Headers.{GrpcStatus}
use grpc_uds.Conn.{Conn}
use grpc_uds.Conn.Calls.{write_call_owned, finish_call, finish_call_msg}
use grpc_uds.Server.{World, Status, unary, find_slot}
use grpc_uds.Server.Routes.{on_conn, own_ops, apply_ops-own}
use grpc_uds.Server.Unary.{unary_kinds, ops_of, trampoline-unary}
use grpc_uds.Server.Loop.{Serving, handles, event, granted, apply_mailbox}

-- What the core is to do with a unary result, on the call's own connection.
abbrev pub answered : (ℕ → Bool) → ℕ → Result (List ℕ) Status → Conn → Conn
answered grants call_id (ok resp) c =
    (finish_call call_id GrpcStatus.status_ok (write_call_owned (grants 1) call_id resp c).0).0
answered grants call_id (err (code, none)) c = (finish_call call_id code c).0
answered grants call_id (err (code, some [])) c = (finish_call call_id code c).0
answered grants call_id (err (code, some (b ∷ msg))) c =
    (finish_call_msg call_id code (b ∷ msg) c).0

own_ops-unary :
    (grants : ℕ → Bool) (shared t call_id : ℕ) (r : Result (List ℕ) Status) (c : Conn)
    → own_ops t (granted grants (ops_of shared t call_id (unary_kinds r))) c
      ≡ answered grants call_id r c
own_ops-unary grants shared t call_id (ok resp) c = rw ((==_iff t t).1 refl) refl
own_ops-unary grants shared t call_id (err (code, none)) c = rw ((==_iff t t).1 refl) refl
own_ops-unary grants shared t call_id (err (code, some [])) c = rw ((==_iff t t).1 refl) refl
own_ops-unary grants shared t call_id (err (code, some (b ∷ msg))) c = rw ((==_iff t t).1 refl) refl

on_conn_ext :
    (f g : Conn → Conn) (found : Option Conn)
    → ((c : Conn) → f c ≡ g c)
    → on_conn f found ≡ on_conn g found
on_conn_ext f g none h = refl
on_conn_ext f g (some c) h = ap some (h c)

-- A unary handler runs on a connection with nothing queued before it. Once the loop has applied
-- what is queued, the live connection with that token, if there is one, has had the handler's
-- message written to the call and the call finished with OK, or the call finished with the code of
-- the handler's error, and with its message unless that is empty, and nothing written; and nothing
-- is queued any more.
pub apply_mailbox-unary :
    (grants : ℕ → Bool) (shared t call_id : ℕ) (deadline_at : Option ℕ) (req : List ℕ)
    (h : List ℕ → Result (List ℕ) Status) (st : Serving)
    → st.world.mailbox.ops ≡ []
    → let world = event t (handles shared call_id deadline_at req (unary h)) st.world in
      let st' = apply_mailbox grants (record st { world = world }) in
      (find_slot t st'.slots ≡ on_conn (answered grants call_id (h req)) (find_slot t st.slots))
      × (st'.world.mailbox.ops ≡ [])
unfolding apply_mailbox event
apply_mailbox-unary grants shared t call_id deadline_at req h st empty = (
  apply_ops-own t (granted grants world.mailbox.ops)
        (record { slots = st.slots; flags = world.flags })
      ∙ ap (λ ops. on_conn (own_ops t (granted grants ops)) (find_slot t st.slots)) queued
      ∙ on_conn_ext _ _ (find_slot t st.slots) (own_ops-unary grants shared t call_id (h req)),
  refl,
)
  where
    world : World
    world = event t (handles shared call_id deadline_at req (unary h)) st.world

    queued : world.mailbox.ops ≡ ops_of shared t call_id (unary_kinds (h req))
    queued =
        (trampoline-unary shared t call_id deadline_at req h st.world).0
        ∙ ap (λ ops. ops ++ ops_of shared t call_id (unary_kinds (h req))) empty
