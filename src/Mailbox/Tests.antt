-- ===== src/Mailbox/Tests.antt =====
-- The theorems on the mailbox at a history: an accept, a write, a free, and a late write.
use grpc_uds.Prelude.{ℕ, ◌≡◌, refl, true, [], ◌∷◌, none, some, negsuc}
use grpc_uds.Headers.{status_ok}
use grpc_uds.Conn.{Conn}
use grpc_uds.Mailbox.{
  Item, Mailbox, Heap, new, apply_item, store, drain, drain_items, replay, is_dead, contains,
  register_call, unregister_call, enqueue_write,
}
use grpc_uds.Mailbox.Replays.{IsLive}
use grpc_uds.Mailbox.Safety.{erase, Reachable, start, accepts, frees, writes, drain_lem}
use grpc_uds.Mailbox.Order.{seen, drain_items-seen}

abbrev bare : Conn
bare = record {
  commands = [];
  streams = [];
  methods = [];
  max_message_len = 100;
  fd = negsuc 0;
  out_pending = [];
  fired = [];
  sent = [];
}

abbrev nothing : Heap
nothing _ = none

abbrev mailbox : Mailbox
mailbox =
    (enqueue_write true true 16 1 []
      (unregister_call true 16 (enqueue_write true true 16 1 [] (register_call 16 new)).0)).0

history : Reachable (16 ∷ []) mailbox (erase 16 (store 16 bare nothing))
unfolding contains
history =
    writes true true 16 1 [] refl
      (frees 16 (bare, refl) (writes true true 16 1 [] refl (accepts 16 bare refl start)))

drain_lem_example :
    (heap' : Heap) × ((drain (λ _. true) mailbox (erase 16 (store 16 bare nothing))).1 ≡ some heap')
    × ((a : ℕ) → IsLive (erase 16 (store 16 bare nothing)) a → IsLive heap' a)
drain_lem_example = drain_lem (λ _. true) history

abbrev item : Item
item = record { call = 16; call_id = 1; payload = []; finish = true; status = status_ok }

drain_items-seen_example :
    store 16 (apply_item true true item bare) (store 16 bare nothing) 16
    ≡ some (seen (λ _. true) [] 16 (item ∷ []) bare)
unfolding drain_items replay is_dead contains
drain_items-seen_example =
    drain_items-seen (λ _. true) [] 16 (item ∷ []) (store 16 bare nothing)
      (store 16 (apply_item true true item bare) (store 16 bare nothing)) bare refl refl
