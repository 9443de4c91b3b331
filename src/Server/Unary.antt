-- ===== src/Server/Unary.antt =====
-- What a unary handler of the Rust server queues.
use grpc_uds.Prelude.{
  ℕ, arith, ◌≡◌, refl, true, List, [], ◌∷◌, ◌++◌, append_assoc, Option, none, Result, ok, err, ◌==◌,
  ==_iff,
}
use grpc_uds.Headers.{GrpcStatus}
use grpc_uds.Server.{
  OpKind, write, finish, OutOp, World, Status, unary, closed, push, write_bytes, finish_with,
  shipped, trampoline,
}

-- The operations that a unary result stands for.
abbrev pub unary_kinds : Result (List ℕ) Status → List OpKind
unary_kinds (ok resp) = write resp ∷ finish GrpcStatus.status_ok none ∷ []
unary_kinds (err (code, msg)) = finish code (shipped msg) ∷ []

abbrev pub ops_of : ℕ → ℕ → ℕ → List OpKind → List OutOp
ops_of shared token call_id [] = []
ops_of shared token call_id (kind ∷ kinds) =
    record { token = token; call_id = call_id; kind = kind; shared = shared }
    ∷ ops_of shared token call_id kinds

own_address : (k : ℕ) → (k == k) ≡ true
own_address k = (==_iff k k).1 refl

-- A unary handler that returns queues, after what is there and for its own call, one message and
-- the final status OK, or the status it failed with and no message; and its writer is finished.
pub trampoline-unary :
    (shared token call_id : ℕ) (deadline_at : Option ℕ) (req : List ℕ)
    (h : List ℕ → Result (List ℕ) Status) (world : World)
    → let world' = trampoline shared token call_id deadline_at req (unary h) world in
      (world'.mailbox.ops ≡ world.mailbox.ops ++ ops_of shared token call_id (unary_kinds (h req)))
      × ((world'.flags shared).finished ≡ true)
unfolding trampoline write_bytes finish_with closed push
trampoline-unary shared token call_id deadline_at req h world = go (h req)
  where
    go :
        (r : Result (List ℕ) Status)
        → let world' = trampoline shared token call_id deadline_at req (unary (λ _. r)) world in
          (world'.mailbox.ops ≡ world.mailbox.ops ++ ops_of shared token call_id (unary_kinds r))
          × ((world'.flags shared).finished ≡ true)
    go (ok resp) =
        let joined =
          append_assoc world.mailbox.ops (ops_of shared token call_id (write resp ∷ []))
            (ops_of shared token call_id (finish GrpcStatus.status_ok none ∷ [])) in
        ground (arith, joined)
    go (err (code, msg)) = ground arith
