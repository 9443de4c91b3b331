-- ===== src/Mailbox/Order.antt =====
-- The order in which a drain replays the items.
use grpc_uds.Prelude.{
  ℕ, ◌+◌, ◌*◌, ◌≡◌, refl, ◌∙◌, ap, sym, Bool, not, ◌&&◌, List, [], ◌∷◌, Option, none, some, ◌==◌,
  ==_iff, if◌then◌else◌, length, Bool-cases, inl, inr,
}
use mathlib.Core.Option.{some-injective}
use grpc_uds.Conn.{Conn}
use grpc_uds.Mailbox.{Item, Heap, is_dead, apply_item, store, deref, replay, and_then, drain_items}

-- What one connection sees of a list of items: those that name it, in order.
unfoldable pub seen : (ℕ → Bool) → List ℕ → ℕ → List Item → Conn → Conn
seen grants dead a [] c = c
seen grants dead a (item ∷ items) c = seen grants dead a items (
    if not (is_dead dead item) && (item.call == a)
    then apply_item (grants (2 * length items)) (grants (2 * length items + 1)) item c
    else c)

-- A write through the item's handle, as the connection at `a` sees it.
deref_seen :
    (copy room : Bool) (a : ℕ) (item : Item) (heap heap' : Heap) (c : Conn) (o : Option Conn)
    → heap item.call ≡ o
    → deref copy room item heap o ≡ some heap'
    → heap a ≡ some c
    → heap' a ≡ some (if item.call == a then apply_item copy room item c else c)
deref_seen copy room a item heap heap' c none e f l = absurd (cc)
deref_seen copy room a item heap heap' c (some d) e f l = elim (Bool-cases (item.call == a)) [
  | inl hit ↦
      let here : d ≡ c = some-injective d c (sym e ∙ ap heap ((==_iff item.call a).0 hit) ∙ l) in
      stored ∙ rw (hit, here) refl
  | inr miss ↦ stored ∙ rw (miss, l) refl
]
  where
    stored : heap' a ≡ store item.call (apply_item copy room item d) heap a
    stored = ap (λ h. h a) (sym (some-injective _ heap' f))

-- A replay, as the connection at `a` sees it.
replay_seen :
    (copy room : Bool) (dead : List ℕ) (a : ℕ) (item : Item) (heap heap' : Heap) (c : Conn)
    → replay copy room dead item heap ≡ some heap'
    → heap a ≡ some c
    → heap' a
      ≡ some
          (if not (is_dead dead item) && (item.call == a) then apply_item copy room item c else c)
unfolding replay
replay_seen copy room dead a item heap heap' c e l = elim (Bool-cases (is_dead dead item)) [
  | inl d ↦ ap (λ h. h a) (sym (some-injective heap heap' (rw (d, replay) at e))) ∙ l ∙ rw d refl
  | inr d ↦
      deref_seen copy room a item heap heap' c (heap item.call) refl (rw (d, replay) at e) l
      ∙ rw d refl
]

then_seen :
    (grants : ℕ → Bool) (dead : List ℕ) (a : ℕ) (item : Item) (items : List Item)
    (heap heap' : Heap) (c : Conn) (r : Option Heap)
    → replay (grants (2 * length items)) (grants (2 * length items + 1)) dead item heap ≡ r
    → and_then r (drain_items grants dead items) ≡ some heap'
    → heap a ≡ some c
    → ((h h' : Heap) (d : Conn)
        → drain_items grants dead items h ≡ some h'
        → h a ≡ some d
        → h' a ≡ some (seen grants dead a items d))
    → heap' a ≡ some (seen grants dead a (item ∷ items) c)
unfolding seen
then_seen grants dead a item items heap heap' c none e f l next = absurd (cc)
then_seen grants dead a item items heap heap' c (some h) e f l next = next h heap' _ f (
    replay_seen (grants (2 * length items)) (grants (2 * length items + 1)) dead a item heap h c e
      l)

-- After a drain that comes through, a connection is as if the items that name it and are not
-- dropped had been applied to it alone, in the order in which they were enqueued.
pub drain_items-seen :
    (grants : ℕ → Bool) (dead : List ℕ) (a : ℕ) (items : List Item) (heap heap' : Heap) (c : Conn)
    → drain_items grants dead items heap ≡ some heap'
    → heap a ≡ some c
    → heap' a ≡ some (seen grants dead a items c)
unfolding drain_items seen
drain_items-seen grants dead a [] heap heap' c e l =
    ap (λ h. h a) (sym (some-injective heap heap' e)) ∙ l
drain_items-seen grants dead a (item ∷ items) heap heap' c e l =
    then_seen grants dead a item items heap heap' c
      (replay (grants (2 * length items)) (grants (2 * length items + 1)) dead item heap) refl e l
      (drain_items-seen grants dead a items)
