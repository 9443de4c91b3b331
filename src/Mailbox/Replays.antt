-- ===== src/Mailbox/Replays.antt =====
-- A drain of items whose handles are safe to follow.
use grpc_uds.Prelude.{
  ℕ, ◌+◌, ◌*◌, ◌≡◌, refl, Bool, true, false, List, [], ◌∷◌, Option, some, ◌==◌, length, All, arith,
  Bool-cases, inl, inr, ◌⊎◌,
}
use grpc_uds.Conn.{Conn}
use grpc_uds.Mailbox.{
  Item, Mailbox, Heap, contains, is_dead, apply_item, store, deref, replay, drain_items,
}

-- A connection stands at the address.
abbrev pub IsLive : Heap → ℕ → Type 0
IsLive heap a = (c : Conn) × (heap a ≡ some c)

-- The address is null, tombstoned or live.
abbrev pub IsSafe : List ℕ → Heap → ℕ → Type 0
IsSafe dead heap a = (a ≡ 0) ⊎ (contains a dead ≡ true) ⊎ IsLive heap a

abbrev pub AllSafe : Mailbox → Heap → Type 0
AllSafe m heap = All (λ (item : Item). IsSafe m.dead heap item.call) m.queue

pub IsLive-store : (a b : ℕ) (c : Conn) (heap : Heap) → IsLive heap b → IsLive (store a c heap) b
IsLive-store a b c heap (d, e) = elim (Bool-cases (a == b)) [
  | inl hit ↦ (c, rw hit refl)
  | inr miss ↦ (d, rw miss e)
]

pub All-IsSafe-store :
    (dead : List ℕ) (a : ℕ) (c : Conn) (heap : Heap) (items : List Item)
    → All (λ (item : Item). IsSafe dead heap item.call) items
    → All (λ (item : Item). IsSafe dead (store a c heap) item.call) items
All-IsSafe-store dead a c heap [] h = tt
All-IsSafe-store dead a c heap (item ∷ items) (h, hs) =
    (there h, All-IsSafe-store dead a c heap items hs)
  where
    there : IsSafe dead heap item.call → IsSafe dead (store a c heap) item.call
    there (inl z) = inl z
    there (inr (inl d)) = inr (inl d)
    there (inr (inr l)) = inr (inr (IsLive-store a item.call c heap l))

-- What a replay of a safe item leaves.
pub record Replays (heap : Heap) (r : Option Heap) : Type 0 where
  pub after : Heap
  pub done : r ≡ some after
  pub keeps : (a : ℕ) → IsLive heap a → IsLive after a
  known :
      (dead : List ℕ) (items : List Item)
      → All (λ (item : Item). IsSafe dead heap item.call) items
      → All (λ (item : Item). IsSafe dead after item.call) items

pub skipped : (heap : Heap) → Replays heap (some heap)
skipped heap = record { after = heap; done = refl; keeps = λ a l. l; known = λ dead items h. h }

pub deref-Replays :
    (copy room : Bool) (item : Item) (heap : Heap) {c : Conn}
    → heap item.call ≡ some c
    → Replays heap (deref copy room item heap (heap item.call))
deref-Replays copy room item heap {c} e = rw e (record {
  after = store item.call (apply_item copy room item c) heap;
  done = refl;
  keeps = λ a l. IsLive-store item.call a (apply_item copy room item c) heap l;
  known =
      λ dead items h. All-IsSafe-store dead item.call (apply_item copy room item c) heap items h;
})

pub is_dead-IsSafe :
    (dead : List ℕ) (heap : Heap) (item : Item)
    → IsSafe dead heap item.call
    → (is_dead dead item ≡ true) ⊎ IsLive heap item.call
unfolding is_dead
is_dead-IsSafe dead heap item (inl z) = inl (rw z refl)
is_dead-IsSafe dead heap item (inr (inl d)) = inl (ground (arith, d))
is_dead-IsSafe dead heap item (inr (inr l)) = inr l

pub replay-Replays :
    (copy room : Bool) (dead : List ℕ) (item : Item) (heap : Heap)
    → IsSafe dead heap item.call
    → Replays heap (replay copy room dead item heap)
unfolding replay
replay-Replays copy room dead item heap h = elim (Bool-cases (is_dead dead item)) [
  | inl d ↦ rw d (skipped heap)
  | inr d ↦ rw d (live d (is_dead-IsSafe dead heap item h))
]
  where
    live :
        is_dead dead item ≡ false
        → (is_dead dead item ≡ true) ⊎ IsLive heap item.call
        → Replays heap (deref copy room item heap (heap item.call))
    live d (inl d') = absurd (cc)
    live d (inr (c, e)) = deref-Replays copy room item heap e

-- A drain of safe items comes through, and keeps what is live.
pub record Drains (heap : Heap) (r : Option Heap) : Type 0 where
  pub after : Heap
  pub done : r ≡ some after
  pub keeps : (a : ℕ) → IsLive heap a → IsLive after a

pub drain_items-Drains :
    (grants : ℕ → Bool) (dead : List ℕ) (items : List Item) (heap : Heap)
    → All (λ (item : Item). IsSafe dead heap item.call) items
    → Drains heap (drain_items grants dead items heap)
unfolding drain_items
drain_items-Drains grants dead [] heap h = record { after = heap; done = refl; keeps = λ a l. l }
drain_items-Drains grants dead (item ∷ items) heap (h, hs) =
    let copy = grants (2 * length items) in
    let room = grants (2 * length items + 1) in
    let r = replay-Replays copy room dead item heap h in
    let d = drain_items-Drains grants dead items r.after (r.known dead items hs) in
    record { after = d.after; done = rw r.done d.done; keeps = λ a l. d.keeps a (r.keeps a l) }
