-- ===== src/Mailbox/Safety.antt =====
-- The histories of accepts, frees, enqueues and drains, and the handles that a drain follows.
use grpc_uds.Prelude.{
  ℕ, ◌≡◌, ◌≢◌, refl, ◌∙◌, sym, Bool, true, false, List, [], ◌∷◌, ◌++◌, map, none, some, ◌==◌,
  ==_iff, if◌then◌else◌, All, All-append, arith, Bool-cases, both_ways, inl, inr, ◌⊎◌,
}
use mathlib.Core.Option.{some-injective}
use mathlib.Core.Path.{subst}
use grpc_uds.Headers.{GrpcStatus}
use grpc_uds.Conn.{Conn}
use grpc_uds.Mailbox.{
  Item, Mailbox, Heap, new, push, enqueue_write, enqueue_finish, contains, store, drain_items,
  drain, last_or, init_of, remove_key, register_call, scrub, unregister_call,
}
use grpc_uds.Mailbox.Replays.{IsLive, IsSafe, AllSafe, IsLive-store, Drains, drain_items-Drains}

-- The memory after a free.
abbrev pub erase : ℕ → Heap → Heap
erase a heap b = if a == b then none else heap b

abbrev pub forget : ℕ → List ℕ → List ℕ
forget a [] = []
forget a (b ∷ bs) = if b == a then forget a bs else b ∷ forget a bs

-- The states that the program can reach: `known` are the handles of which an enqueue takes one,
-- those that an accept gave out, freed or not. A handle whose free finds no memory for its
-- tombstone is not used any more, until an accept gives it out again.
pub data Reachable : List ℕ → Mailbox → Heap → Type 0 where
  start : Reachable [] new (λ _. none)
  accepts :
      {known : List ℕ} {m : Mailbox} {heap : Heap} (a : ℕ) (c : Conn)
      → heap a ≡ none
      → Reachable known m heap
      → Reachable (a ∷ known) (register_call a m) (store a c heap)
  frees :
      {known : List ℕ} {m : Mailbox} {heap : Heap} (a : ℕ)
      → IsLive heap a
      → Reachable known m heap
      → Reachable known (unregister_call true a m) (erase a heap)
  loses :
      {known : List ℕ} {m : Mailbox} {heap : Heap} (a : ℕ)
      → IsLive heap a
      → Reachable known m heap
      → Reachable (forget a known) (unregister_call false a m) (erase a heap)
  writes :
      {known : List ℕ} {m : Mailbox} {heap : Heap} (copy room : Bool) (a i : ℕ) (bytes : List ℕ)
      → contains a known ≡ true
      → Reachable known m heap
      → Reachable known (enqueue_write copy room a i bytes m).0 heap
  finishes :
      {known : List ℕ} {m : Mailbox} {heap : Heap} (copy room : Bool) (a i : ℕ) (code : GrpcStatus)
      (msg : List ℕ)
      → contains a known ≡ true
      → Reachable known m heap
      → Reachable known (enqueue_finish copy room a i code msg m).0 heap
  drains :
      {known : List ℕ} {m : Mailbox} {heap heap' : Heap} (grants : ℕ → Bool)
      → (drain grants m heap).1 ≡ some heap'
      → Reachable known m heap
      → Reachable known (drain grants m heap).0 heap'

-- A handle that was given out is tombstoned or live.
record Sound (known : List ℕ) (m : Mailbox) (heap : Heap) : Type 0 where
  queued : AllSafe m heap
  handles : (a : ℕ) → contains a known ≡ true → (contains a m.dead ≡ true) ⊎ IsLive heap a

push-Sound :
    (room : Bool) (item : Item) {known : List ℕ} {m : Mailbox} {heap : Heap}
    → contains item.call known ≡ true
    → Sound known m heap
    → Sound known (push room item m).0 heap
unfolding push
push-Sound false item k s = s
push-Sound true item {known} {m} {heap} k s = record {
  queued =
      All-append (λ (it : Item). IsSafe m.dead heap it.call) m.queue _ s.queued
        (inr (s.handles item.call k), tt);
  handles = s.handles;
}

contains-last :
    (b d : ℕ) (ds : List ℕ) → contains b (last_or d ds ∷ init_of d ds) ≡ contains b (d ∷ ds)
unfolding contains last_or init_of
contains-last b d [] = refl
contains-last b d (e ∷ es) = ground (arith, contains-last b e es)

contains-remove_key : (a b : ℕ) (ds : List ℕ) → a ≢ b → contains b (remove_key a ds) ≡ contains b ds
unfolding contains remove_key
contains-remove_key a b [] ne = refl
contains-remove_key a b (d ∷ []) ne = ground arith
contains-remove_key a b (d ∷ e ∷ es) ne =
    ground (arith, contains-last b e es, contains-remove_key a b (e ∷ es) ne)

contains-append : (b : ℕ) (ds es : List ℕ) → contains b ds ≡ true → contains b (ds ++ es) ≡ true
unfolding contains
contains-append b [] es h = absurd (cc)
contains-append b (d ∷ ds) es h = ground (arith, contains-append b ds es)

contains-last_one : (b : ℕ) (ds : List ℕ) → contains b (ds ++ (b ∷ [])) ≡ true
unfolding contains
contains-last_one b [] = ground arith
contains-last_one b (d ∷ ds) = ground (arith, contains-last_one b ds)

All-map-IsSafe :
    (f : Item → Item) (items : List Item) (dead dead' : List ℕ) (heap heap' : Heap)
    → ((item : Item) → IsSafe dead heap item.call → IsSafe dead' heap' (f item).call)
    → All (λ (item : Item). IsSafe dead heap item.call) items
    → All (λ (item : Item). IsSafe dead' heap' item.call) (map f items)
All-map-IsSafe f [] dead dead' heap heap' k h = tt
All-map-IsSafe f (item ∷ items) dead dead' heap heap' k (h, hs) =
    (k item h, All-map-IsSafe f items dead dead' heap heap' k hs)

All-imp-IsSafe :
    (items : List Item) (dead dead' : List ℕ) (heap heap' : Heap)
    → ((a : ℕ) → IsSafe dead heap a → IsSafe dead' heap' a)
    → All (λ (item : Item). IsSafe dead heap item.call) items
    → All (λ (item : Item). IsSafe dead' heap' item.call) items
All-imp-IsSafe [] dead dead' heap heap' k h = tt
All-imp-IsSafe (item ∷ items) dead dead' heap heap' k (h, hs) =
    (k item.call h, All-imp-IsSafe items dead dead' heap heap' k hs)

-- What a handle is after the accept at `a`.
after_accept :
    (a b : ℕ) (c : Conn) (dead : List ℕ) (heap : Heap)
    → (contains b dead ≡ true) ⊎ IsLive heap b
    → (contains b (remove_key a dead) ≡ true) ⊎ IsLive (store a c heap) b
after_accept a b c dead heap h = elim (Bool-cases (a == b)) [
  | inl hit ↦ inr (c, rw hit refl)
  | inr miss ↦ other (ground arith) h
]
  where
    other :
        a ≢ b
        → (contains b dead ≡ true) ⊎ IsLive heap b
        → (contains b (remove_key a dead) ≡ true) ⊎ IsLive (store a c heap) b
    other ne (inl d) = inl (contains-remove_key a b dead ne ∙ d)
    other ne (inr l) = inr (IsLive-store a b c heap l)

accept-Sound :
    (a : ℕ) (c : Conn) {known : List ℕ} {m : Mailbox} {heap : Heap}
    → Sound known m heap
    → Sound (a ∷ known) (register_call a m) (store a c heap)
unfolding register_call contains
accept-Sound a c {known} {m} {heap} s = record {
  queued =
      All-imp-IsSafe m.queue _ _ _ _
        (λ b h. elim h [ inl z ↦ inl z | inr r ↦ inr (after_accept a b c m.dead heap r) ]) s.queued;
  handles = λ b k. elim (Bool-cases (a == b)) [
    | inl hit ↦ inr (c, rw hit refl)
    | inr miss ↦ after_accept a b c m.dead heap (s.handles b (rw miss at k))
  ];
}

-- The tombstones after a free.
abbrev entombed : ℕ → List ℕ → List ℕ
entombed a dead = if contains a dead then dead else dead ++ (a ∷ [])

contains-entombed :
    (a b : ℕ) (dead : List ℕ) → contains b dead ≡ true → contains b (entombed a dead) ≡ true
contains-entombed a b dead h = elim (Bool-cases (contains a dead)) [
  | inl there ↦ rw there h
  | inr fresh ↦ rw fresh (contains-append b dead (a ∷ []) h)
]

contains-entombed_self : (a : ℕ) (dead : List ℕ) → contains a (entombed a dead) ≡ true
contains-entombed_self a dead = elim (Bool-cases (contains a dead)) [
  | inl there ↦ rw there there
  | inr fresh ↦ rw fresh (contains-last_one a dead)
]

after_free :
    (a b : ℕ) (dead : List ℕ) (heap : Heap)
    → (contains b dead ≡ true) ⊎ IsLive heap b
    → (contains b (entombed a dead) ≡ true) ⊎ IsLive (erase a heap) b
after_free a b dead heap (inl d) = inl (contains-entombed a b dead d)
after_free a b dead heap (inr (c, e)) = elim (Bool-cases (a == b)) [
  | inl hit ↦ inl (
      subst (λ k. contains k (entombed a dead) ≡ true) ((==_iff a b).0 hit)
        (contains-entombed_self a dead))
  | inr miss ↦ inr (c, rw miss e)
]

scrub-IsSafe :
    (a : ℕ) (item : Item) (dead : List ℕ) (heap : Heap)
    → IsSafe dead heap item.call
    → IsSafe (entombed a dead) (erase a heap) (scrub a item).call
scrub-IsSafe a item dead heap h =
    both_ways (λ (it : Item). IsSafe (entombed a dead) (erase a heap) it.call) (item.call == a) _ _
      (inl refl) (elim h [ inl z ↦ inl z | inr r ↦ inr (after_free a item.call dead heap r) ])

free-Sound :
    (a : ℕ) {known : List ℕ} {m : Mailbox} {heap : Heap}
    → Sound known m heap
    → Sound known (unregister_call true a m) (erase a heap)
unfolding unregister_call
free-Sound a {known} {m} {heap} s = record {
  queued =
      All-map-IsSafe (scrub a) m.queue _ _ _ _ (λ item h. scrub-IsSafe a item m.dead heap h)
        s.queued;
  handles = λ b k. after_free a b m.dead heap (s.handles b k);
}

contains-forget :
    (a b : ℕ) (known : List ℕ)
    → contains b (forget a known) ≡ true
    → ((a == b) ≡ false) × (contains b known ≡ true)
unfolding contains
contains-forget a b [] h = absurd (cc)
contains-forget a b (c ∷ known) h = ground (arith, contains-forget a b known)

-- No tombstone is made.
abbrev kept_dead : ℕ → List ℕ → List ℕ
kept_dead a dead = if contains a dead then dead else if false then dead ++ (a ∷ []) else dead

after_loss :
    (a b : ℕ) (dead : List ℕ) (heap : Heap)
    → (a == b) ≡ false
    → (contains b dead ≡ true) ⊎ IsLive heap b
    → (contains b (kept_dead a dead) ≡ true) ⊎ IsLive (erase a heap) b
after_loss a b dead heap miss (inl d) =
    inl (both_ways (λ (ds : List ℕ). contains b ds ≡ true) (contains a dead) dead dead d d)
after_loss a b dead heap miss (inr (c, e)) = inr (c, rw miss e)

scrub-lost :
    (a : ℕ) (item : Item) (dead : List ℕ) (heap : Heap)
    → IsSafe dead heap item.call
    → IsSafe (kept_dead a dead) (erase a heap) (scrub a item).call
scrub-lost a item dead heap h = elim (Bool-cases (item.call == a)) [
  | inl hit ↦ rw hit (inl refl)
  | inr miss ↦
      let other : (a == item.call) ≡ false = ground arith in
      rw miss (elim h [ inl z ↦ inl z | inr r ↦ inr (after_loss a item.call dead heap other r) ])
]

loss-Sound :
    (a : ℕ) {known : List ℕ} {m : Mailbox} {heap : Heap}
    → Sound known m heap
    → Sound (forget a known) (unregister_call false a m) (erase a heap)
unfolding unregister_call
loss-Sound a {known} {m} {heap} s = record {
  queued =
      All-map-IsSafe (scrub a) m.queue _ _ _ _ (λ item h. scrub-lost a item m.dead heap h) s.queued;
  handles = λ b k.
      let (miss, there) = contains-forget a b known k in
      after_loss a b m.dead heap miss (s.handles b there);
}

drain-Sound :
    (grants : ℕ → Bool) {known : List ℕ} {m : Mailbox} {heap heap' : Heap}
    → (drain grants m heap).1 ≡ some heap'
    → Sound known m heap
    → Sound known (drain grants m heap).0 heap'
unfolding drain
drain-Sound grants {known} {m} {heap} {heap'} e s = record { queued = tt; handles = kept }
  where
    d : Drains heap (drain_items grants m.dead m.queue heap)
    d = drain_items-Drains grants m.dead m.queue heap s.queued

    here : d.after ≡ heap'
    here = some-injective d.after heap' (sym d.done ∙ e)

    kept : (a : ℕ) → contains a known ≡ true → (contains a m.dead ≡ true) ⊎ IsLive heap' a
    kept a k = elim (s.handles a k) [
      | inl dead ↦ inl dead
      | inr l ↦ inr (subst (λ h. IsLive h a) here (d.keeps a l))
    ]

Reachable-Sound :
    {known : List ℕ} {m : Mailbox} {heap : Heap} → Reachable known m heap → Sound known m heap
unfolding new enqueue_write enqueue_finish contains
Reachable-Sound start = record { queued = tt; handles = λ a k. absurd (cc) }
Reachable-Sound (accepts a c e r) = accept-Sound a c (Reachable-Sound r)
Reachable-Sound (frees a l r) = free-Sound a (Reachable-Sound r)
Reachable-Sound (loses a l r) = loss-Sound a (Reachable-Sound r)
Reachable-Sound (writes {known} {m} {heap} copy room a i bytes k r) =
    let s = Reachable-Sound r in
    both_ways (λ (x : Mailbox × Bool). Sound known x.0 heap) copy _ _ (push-Sound room _ k s) s
Reachable-Sound (finishes {known} {m} {heap} copy room a i code msg k r) =
    let s = Reachable-Sound r in
    both_ways (λ (x : Mailbox × Bool). Sound known x.0 heap) copy _ _ (push-Sound room _ k s) s
Reachable-Sound (drains grants e r) = drain-Sound grants e (Reachable-Sound r)

-- In every state that the program can reach by accepts, frees, enqueues from any thread with any
-- handle given out before, freed or not, and drains, a drain comes through without touching freed
-- memory, and every connection that was live still is. The condition: a handle whose free found no
-- memory for its tombstone is not enqueued again before an accept gives it out again.
pub drain_lem :
    {known : List ℕ} {m : Mailbox} {heap : Heap} (grants : ℕ → Bool)
    → Reachable known m heap
    → (heap' : Heap) × ((drain grants m heap).1 ≡ some heap')
      × ((a : ℕ) → IsLive heap a → IsLive heap' a)
unfolding drain
drain_lem {known} {m} {heap} grants r =
    let d = drain_items-Drains grants m.dead m.queue heap (Reachable-Sound r).queued in
    (d.after, d.done, d.keeps)
