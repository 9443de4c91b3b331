-- ===== src/Capi/Routing.antt =====
-- A call of the C interface from another thread, once drained, against the call on the I/O thread.
use grpc_uds.Prelude.{
  ℕ, ◌≡◌, refl, ap, Bool, true, false, List, [], Option, none, some, ℤ, ◌==◌, take,
}
use grpc_uds.Errors.{Reply}
use grpc_uds.Headers.{GrpcStatus, status_ok}
use grpc_uds.Conn.{Conn, find_stream}
use grpc_uds.Conn.Calls.{
  write_call, finish_call, finish_call_msg, finish_call_inner, finish_found, finish_queue,
}
use grpc_uds.Mailbox.{
  Item, Mailbox, Heap, store, on_io_thread, push, enqueue_write, enqueue_finish, apply_item,
  is_dead, replay, drain_items, drain, contains, and_then, deref,
}
use grpc_uds.Capi.{
  World, slice, on_conn, grpcuds_call_write, grpcuds_call_finish, grpcuds_call_finish_msg,
  status_from_c,
}

-- The calls that go through the mailbox from other threads, with their arguments after the handle.
pub data Op : Type 0 where
  write : ℕ → Option (List ℕ) → ℕ → Op
  finish : ℕ → ℤ → Op
  finish_msg : ℕ → ℤ → Option (List ℕ) → ℕ → Op

abbrev pub run : Bool → Bool → ℕ → ℕ → Op → World → Option (World × ℤ)
run copy room me call (write i bytes len) w = grpcuds_call_write copy room me call i bytes len w
run copy room me call (finish i code) w = grpcuds_call_finish copy room me call i code w
run copy room me call (finish_msg i code msg len) w =
    grpcuds_call_finish_msg copy room me call i code msg len w

-- The memory after a call.
abbrev pub heap_of : Option (World × ℤ) → Option Heap
heap_of none = none
heap_of (some (w, rc)) = some w.heap

-- The memory after a call and a drain.
abbrev pub drained : (ℕ → Bool) → Option (World × ℤ) → Option Heap
drained grants none = none
drained grants (some (w, rc)) = (drain grants w.mailbox w.heap).1

-- The pointer and the length that are accepted.
abbrev pub Accepts : Op → Type 0
Accepts (write i none len) = len ≡ 0
Accepts (write i (some bytes) len) = Unit
Accepts (finish i code) = Unit
Accepts (finish_msg i code msg len) = Unit

finish_call_msg-nil :
    (i : ℕ) (code : GrpcStatus) (c : Conn) → finish_call_msg i code [] c ≡ finish_call i code c
unfolding finish_call_msg finish_call finish_call_inner finish_queue
finish_call_msg-nil i code c = go (find_stream i c.streams)
  where
    go :
        (s : Option grpc_uds.Conn.StreamCtx)
        → finish_found code (some []) c s ≡ finish_found code none c s
    go none = refl
    go (some s) = refl

-- A replayed item does what the call does, when they do the same to the connection.
replayed-direct :
    (copy room : Bool) (item : Item) (m : Mailbox) (heap : Heap) (op : Conn → Conn × Reply)
    (c? : Option Conn)
    → ((c : Conn) → apply_item copy room item c ≡ (op c).0)
    → and_then (deref copy room item heap c?) (λ heap. some heap)
      ≡ heap_of (on_conn (record { mailbox = m; heap = heap }) item.call op c?)
replayed-direct copy room item m heap op none same = refl
replayed-direct copy room item m heap op (some c) same =
    ap (λ c'. some (store item.call c' heap)) (same c)

-- With an empty queue and all memory granted to the enqueue, a call from another thread followed by
-- a drain leaves the memory as the same call on the I/O thread does, for a handle that is not
-- freed.
pub run-drained :
    (grants : ℕ → Bool) (me io call : ℕ) (op : Op) (w : World)
    → (call == 0) ≡ false
    → contains call w.mailbox.dead ≡ false
    → w.mailbox.queue ≡ []
    → on_io_thread me w.mailbox ≡ false
    → on_io_thread io w.mailbox ≡ true
    → Accepts op
    → drained grants (run true true me call op w) ≡ heap_of (run (grants 0) (grants 1) io call op w)
unfolding grpcuds_call_write grpcuds_call_finish grpcuds_call_finish_msg enqueue_write
    enqueue_finish push drain drain_items replay is_dead apply_item
run-drained grants me io call (write i none len) w live fresh empty off on acc =
    rw (live, acc, off, on, empty, live, fresh)
      (replayed-direct (grants 0) (grants 1)
        (record { call = call; call_id = i; payload = []; finish = false; status = status_ok })
        (record (w.mailbox) { queue = [] }) w.heap (write_call (grants 0) (grants 1) i [])
        (w.heap call) (λ c. refl))
run-drained grants me io call (write i (some bytes) len) w live fresh empty off on acc =
    rw (live, off, on, empty, live, fresh)
      (replayed-direct (grants 0) (grants 1)
        (record {
          call = call;
          call_id = i;
          payload = take len bytes;
          finish = false;
          status = status_ok;
        })
        (record (w.mailbox) { queue = [] }) w.heap
        (write_call (grants 0) (grants 1) i (take len bytes)) (w.heap call) (λ c. refl))
run-drained grants me io call (finish i code) w live fresh empty off on acc =
    rw (live, off, on, empty, live, fresh)
      (replayed-direct (grants 0) (grants 1)
        (record {
          call = call;
          call_id = i;
          payload = [];
          finish = true;
          status = status_from_c code;
        })
        (record (w.mailbox) { queue = [] }) w.heap (finish_call i (status_from_c code))
        (w.heap call) (λ c. ap (λ r. r.0) (finish_call_msg-nil i (status_from_c code) c)))
run-drained grants me io call (finish_msg i code msg len) w live fresh empty off on acc =
    rw (live, off, on, empty, live, fresh)
      (replayed-direct (grants 0) (grants 1)
        (record {
          call = call;
          call_id = i;
          payload = slice msg len;
          finish = true;
          status = status_from_c code;
        })
        (record (w.mailbox) { queue = [] }) w.heap
        (finish_call_msg i (status_from_c code) (slice msg len)) (w.heap call) (λ c. refl))
