-- ===== src/Mailbox.antt =====
-- The process-global mailbox of rust/grpcuds-ffi-impl/src/mailbox.rs, by which other threads reach
-- the connections of the I/O thread. Each operation is one step: it holds the lock for its whole
-- effect, but for `drain`, which holds it to take the queue and for each look at the tombstones,
-- and replays the items outside of it. That is a step too, since only the I/O thread, which drains,
-- changes the tombstones and the connections, and what another thread enqueues meanwhile goes to
-- the new queue, as if after the drain. The result of an enqueue is `true` for `Ok`. An address is
-- a number, 0 for null; the memory is what stands at each address.
pub mod Safety
pub mod Replays
pub mod Order
mod Tests
use grpc_uds.Prelude.{
  ℕ, zero, suc, ◌+◌, ◌-◌, ◌*◌, ◌^◌, min, Bool, true, false, ◌||◌, List, [], ◌∷◌, ◌++◌, map, Option,
  none, some, ◌==◌, if◌then◌else◌, length,
}
use grpc_uds.Headers.{GrpcStatus, status_ok}
use grpc_uds.Conn.{Conn}
use grpc_uds.Conn.Calls.{write_call, finish_call_msg}

pub record Item : Type 0 where
  pub call : ℕ
  pub call_id : ℕ
  pub payload : List ℕ
  pub finish : Bool
  pub status : GrpcStatus

-- `wakeup` is the eventfd's counter, if there is one; `io_thread` the thread, once registered.
pub record Mailbox : Type 0 where
  pub queue : List Item
  pub dead : List ℕ
  pub wakeup : Option ℕ
  pub io_thread : Option ℕ

abbrev pub Heap : Type 0
Heap = ℕ → Option Conn

unfoldable pub new : Mailbox
new = record { queue = []; dead = []; wakeup = none; io_thread = none }

abbrev is_thread : ℕ → Option ℕ → Bool
is_thread me none = true
is_thread me (some io) = io == me

unfoldable pub on_io_thread : ℕ → Mailbox → Bool
on_io_thread me m = is_thread me m.io_thread

-- `created` is whether the eventfd was made.
abbrev or_create : Bool → Option ℕ → Option ℕ
or_create created (some n) = some n
or_create true none = some 0
or_create false none = none

unfoldable pub ensure_wakeup : Bool → Mailbox → Mailbox
ensure_wakeup created m = record m { wakeup = or_create created m.wakeup }

unfoldable pub register_io_thread : Bool → ℕ → Mailbox → Mailbox
unfolding ensure_wakeup
register_io_thread created me m = record (ensure_wakeup created m) { io_thread = some me }

-- The counter stops at its largest value.
abbrev poked : Option ℕ → Option ℕ
poked none = none
poked (some n) = some (min (n + 1) (2 ^ 64 - 2))

unfoldable pub push : Bool → Item → Mailbox → Mailbox × Bool
push room item m =
    if room
    then (record m { queue = m.queue ++ (item ∷ []); wakeup = poked m.wakeup }, true)
    else (m, false)

unfoldable pub enqueue_write : Bool → Bool → ℕ → ℕ → List ℕ → Mailbox → Mailbox × Bool
unfolding push
enqueue_write copy room call call_id bytes m =
    if copy
    then push room
        (record {
          call = call;
          call_id = call_id;
          payload = bytes;
          finish = false;
          status = status_ok;
        })
        m
    else (m, false)

unfoldable pub enqueue_finish : Bool → Bool → ℕ → ℕ → GrpcStatus → List ℕ → Mailbox → Mailbox × Bool
unfolding push
enqueue_finish copy room call call_id code msg m =
    if copy
    then push room
        (record { call = call; call_id = call_id; payload = msg; finish = true; status = code }) m
    else (m, false)

unfoldable pub contains : ℕ → List ℕ → Bool
contains k [] = false
contains k (d ∷ ds) = if d == k then true else contains k ds

unfoldable pub is_dead : List ℕ → Item → Bool
unfolding contains
is_dead dead item = item.call == 0 || contains item.call dead

-- The operation of an item on its connection; its error is ignored.
unfoldable pub apply_item : Bool → Bool → Item → Conn → Conn
apply_item copy room item c =
    if item.finish
    then (finish_call_msg item.call_id item.status item.payload c).0
    else (write_call copy room item.call_id item.payload c).0

abbrev pub store : ℕ → Conn → Heap → Heap
store a c heap b = if a == b then some c else heap b

-- The connection at the item's address; without one the code would touch freed memory.
abbrev pub deref : Bool → Bool → Item → Heap → Option Conn → Option Heap
deref copy room item heap none = none
deref copy room item heap (some c) = some (store item.call (apply_item copy room item c) heap)

unfoldable pub replay : Bool → Bool → List ℕ → Item → Heap → Option Heap
unfolding is_dead apply_item
replay copy room dead item heap =
    if is_dead dead item then some heap else deref copy room item heap (heap item.call)

abbrev pub and_then : Option Heap → (Heap → Option Heap) → Option Heap
and_then none next = none
and_then (some heap) next = next heap

-- The loop over the items; `grants` are the allocator's answers, two for each item.
unfoldable pub drain_items : (ℕ → Bool) → List ℕ → List Item → Heap → Option Heap
unfolding replay
drain_items grants dead [] heap = some heap
drain_items grants dead (item ∷ items) heap =
    and_then (replay (grants (2 * length items)) (grants (2 * length items + 1)) dead item heap)
      (drain_items grants dead items)

abbrev cleared : Option ℕ → Option ℕ
cleared none = none
cleared (some n) = some 0

-- `none` where the code would touch freed memory.
unfoldable pub drain : (ℕ → Bool) → Mailbox → Heap → Mailbox × Option Heap
unfolding drain_items
drain grants m heap =
    (record m { queue = []; wakeup = cleared m.wakeup }, drain_items grants m.dead m.queue heap)

-- `swap_remove` at the first place of a key.
last_or : ℕ → List ℕ → ℕ
last_or d [] = d
last_or d (e ∷ es) = last_or e es

init_of : ℕ → List ℕ → List ℕ
init_of d [] = []
init_of d (e ∷ es) = d ∷ init_of e es

abbrev fill_gap : List ℕ → List ℕ
fill_gap [] = []
fill_gap (d ∷ ds) = last_or d ds ∷ init_of d ds

unfoldable pub remove_key : ℕ → List ℕ → List ℕ
unfolding last_or init_of
remove_key k [] = []
remove_key k (d ∷ ds) = if d == k then fill_gap ds else d ∷ remove_key k ds

unfoldable pub register_call : ℕ → Mailbox → Mailbox
unfolding remove_key
register_call call m = record m { dead = remove_key call m.dead }

abbrev scrub : ℕ → Item → Item
scrub call item = if item.call == call then record item { call = 0 } else item

unfoldable pub unregister_call : Bool → ℕ → Mailbox → Mailbox
unfolding contains
unregister_call room call m = record m {
  queue = map (scrub call) m.queue;
  dead = if contains call m.dead then m.dead else if room then m.dead ++ (call ∷ []) else m.dead;
}
