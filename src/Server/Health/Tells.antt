-- ===== src/Server/Health/Tells.antt =====
-- What a change of status tells to whom.
use grpc_uds.Prelude.{
  same_bytes_self, ℕ, ◌≡◌, refl, ap, ◌∙◌, Bool, not, List, [], ◌∷◌, ◌++◌, ◌||◌, Option, none, some,
  same_bytes, if◌then◌else◌, append_assoc, append-nil, Bool-cases, inl, inr,
}
use grpc_uds.Server.{OutOp, ServerWriter, World, Flags, write, closed, push, write_bytes}
use grpc_uds.Server.Health.{
  ServingStatus, Inner, Health, get, insert, retain_sent, notify, set_status, check, watchers_of,
}

-- The writers whose call is still open, and a message to each.
abbrev pub is_open : Flags → ServerWriter → Bool
is_open flags w = not ((flags w.shared).finished || (flags w.shared).dead)

abbrev pub open_ones : Flags → List ServerWriter → List ServerWriter
open_ones flags [] = []
open_ones flags (w ∷ ws) =
    let rest = open_ones flags ws in if is_open flags w then w ∷ rest else rest

abbrev pub told_ops : List ℕ → List ServerWriter → List OutOp
told_ops bytes [] = []
told_ops bytes (w ∷ ws) =
    record { token = w.token; call_id = w.call_id; kind = write bytes; shared = w.shared }
    ∷ told_ops bytes ws

-- What was queued and kept.
abbrev Sent : List ℕ → List ServerWriter → World → World × List ServerWriter → Type 0
Sent bytes ws world (world', rest) =
    (world'.mailbox.ops ≡ world.mailbox.ops ++ told_ops bytes (open_ones world.flags ws))
    × (world'.flags ≡ world.flags)
    × (rest ≡ open_ones world.flags ws)

retain_sent-Sent :
    (on_io : Bool) (bytes : List ℕ) (ws : List ServerWriter) (world : World)
    → Sent bytes ws world (retain_sent on_io bytes ws world)
unfolding retain_sent write_bytes closed push
retain_sent-Sent on_io bytes [] world = (rw (append-nil world.mailbox.ops) refl, refl, refl)
retain_sent-Sent on_io bytes (w ∷ ws) world =
    elim (Bool-cases ((world.flags w.shared).finished || (world.flags w.shared).dead)) [
      | inl shut ↦ rw shut (retain_sent-Sent on_io bytes ws world)
      | inr running ↦
          let (ops, flags, rest) =
            retain_sent-Sent on_io bytes ws (push on_io w (write bytes) world) in
          rw running (
            ops
                ∙ append_assoc world.mailbox.ops (told_ops bytes (w ∷ []))
                    (told_ops bytes (open_ones world.flags ws)),
            flags,
            ap (◌∷◌ w) rest,
          )
    ]

get-insert {ℓ} :
    {A : Type ℓ} (key : List ℕ) (a : A) (entries : List (List ℕ × A))
    → get key (insert key a entries) ≡ some a
unfolding get insert
get-insert key a [] = rw (same_bytes_self key) refl
get-insert key a ((k, old) ∷ entries) = elim (Bool-cases (same_bytes k key)) [
  | inl hit ↦ rw (hit, hit) refl
  | inr miss ↦ rw (miss, miss) (get-insert key a entries)
]

-- Who watches a service.
abbrev pub watching : List ℕ → Inner → List ServerWriter
watching service inner = watchers_of (get service inner.watchers)

-- What a new status of a service comes to.
abbrev pub Published :
    (ServingStatus → List ℕ) → List ℕ → ServingStatus → Inner → World → Health → Type 0
Published encode service status inner world (inner', world') =
    (check service inner' ≡ some status)
    × (world'.mailbox.ops
        ≡ world.mailbox.ops
          ++ told_ops (encode status) (open_ones world.flags (watching service inner)))
    × (watching service inner' ≡ open_ones world.flags (watching service inner))
    × (world'.flags ≡ world.flags)

-- Setting the status of a service makes it what Check answers, and queues it, once and in the order
-- of their registration, for every watcher of the service whose call is still open; these remain
-- its watchers, and the others are dropped.
pub set_status-Published :
    (encode : ServingStatus → List ℕ) (on_io : Bool) (service : List ℕ) (status : ServingStatus)
    (inner : Inner) (world : World)
    → Published encode service status inner world
        (set_status encode on_io service status inner world)
unfolding set_status check
set_status-Published encode on_io service status inner world = go (get service inner.watchers) refl
  where
    inner' : Inner
    inner' = record inner { statuses = insert service status inner.statuses }

    go :
        (found : Option (List ServerWriter))
        → get service inner.watchers ≡ found
        → Published encode service status inner world
            (notify on_io (encode status) service inner' world found)
    go none e = (
      get-insert service status inner.statuses,
      rw (e, append-nil world.mailbox.ops) refl,
      rw e refl,
      refl,
    )
    go (some ws) e =
        let (ops, flags, rest) = retain_sent-Sent on_io (encode status) ws world in
        (
          get-insert service status inner.statuses,
          rw e ops,
          ap watchers_of (get-insert service _ inner.watchers) ∙ rw e rest,
          flags,
        )
