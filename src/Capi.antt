-- ===== src/Capi.antt =====
-- The C interface of a call, of rust/grpcuds-ffi-impl/src/server.rs: error codes, and the routing
-- of each call to the core or to the mailbox. An address is a number, 0 for null.
pub mod Routing
pub mod Health
pub mod Client
pub mod Server
mod Tests
use grpc_uds.Prelude.{
  ℕ, zero, suc, ◌+◌, ◌-◌, ◌^◌, min, Bool, true, false, List, [], ◌∷◌, Option, none, some, Result,
  ok, err, ℤ, pos, negsuc, ltb, leb, ◌==◌, ◌&&◌, ◌||◌, if◌then◌else◌, take, get_or,
}
use grpc_uds.Errors.{
  ConnError, session_error, out_of_memory, stream_not_found, stream_finished, queue_full,
  nghttp2_error, Reply,
}
use grpc_uds.Headers.{GrpcStatus, grpc_status_from_i32}
use grpc_uds.Uds.{IoError, errno, invalid_path, conn_error, TickStatus}
use grpc_uds.OutQueue.{Backpressure, OverflowPolicy}
use grpc_uds.Conn.{Conn, CancelHook}
use grpc_uds.Conn.Calls.{
  write_call, finish_call, finish_call_msg, set_cancel_hook, set_stream_policy,
  call_time_remaining_ms,
}
use grpc_uds.Mailbox.{Mailbox, Heap, store, on_io_thread, enqueue_write, enqueue_finish}

-- The negative of a number.
abbrev pub minus : ℕ → ℤ
minus zero = pos 0
minus (suc n) = negsuc n

abbrev pub err_noent : ℤ
err_noent = minus 2

abbrev pub err_again : ℤ
err_again = minus 11

abbrev pub err_nomem : ℤ
err_nomem = minus 12

abbrev pub err_inval : ℤ
err_inval = minus 22

abbrev pub err_pipe : ℤ
err_pipe = minus 32

unfoldable pub conn_err_to_c : ConnError → ℤ
conn_err_to_c out_of_memory = err_nomem
conn_err_to_c stream_not_found = err_noent
conn_err_to_c stream_finished = err_pipe
conn_err_to_c queue_full = err_again
conn_err_to_c (nghttp2_error rc) = rc
conn_err_to_c (session_error e) = minus 1

unfoldable pub io_err_to_c : IoError → ℤ
unfolding conn_err_to_c
io_err_to_c (errno n) = if ltb 0 n then minus n else minus 1
io_err_to_c invalid_path = err_inval
io_err_to_c (conn_error e) = conn_err_to_c e

-- The range is tested, then the number is the discriminant.
unfoldable pub status_from_c : ℤ → GrpcStatus
status_from_c (pos n) = if leb n 16 then grpc_status_from_i32 (pos n) else GrpcStatus.unknown
status_from_c (negsuc n) = GrpcStatus.unknown

abbrev reply_to_c : Reply → ℤ
reply_to_c (ok _) = pos 0
reply_to_c (err e) = conn_err_to_c e

-- What the functions share: the mailbox and the memory.
pub record World : Type 0 where
  pub mailbox : Mailbox
  pub heap : Heap

-- The world after a call and its result; `none` where it would touch freed memory.
abbrev pub Answered : Type 0
Answered = Option (World × ℤ)

abbrev pub on_conn : World → ℕ → (Conn → Conn × Reply) → Option Conn → Answered
on_conn w call op none = none
on_conn w call op (some c) =
    let (c', r) = op c in some (record w { heap = store call c' w.heap }, reply_to_c r)

abbrev pub direct : World → ℕ → (Conn → Conn × Reply) → Answered
direct w call op = on_conn w call op (w.heap call)

abbrev queued : World → Mailbox × Bool → Answered
queued w (m, true) = some (record w { mailbox = m }, pos 0)
queued w (m, false) = some (record w { mailbox = m }, err_nomem)

abbrev invalid : World → Answered
invalid w = some (w, err_inval)

-- A pointer to bytes, with the length beside it.
abbrev null_data : Option (List ℕ) → Bool
null_data none = true
null_data (some bytes) = false

abbrev pub slice : Option (List ℕ) → ℕ → List ℕ
slice none len = []
slice (some bytes) len = take len bytes

-- `me` is the calling thread; `copy` and `room` are the allocator's answers.
unfoldable pub grpcuds_call_write :
    Bool → Bool → ℕ → ℕ → ℕ → Option (List ℕ) → ℕ → World → Option (World × ℤ)
unfolding conn_err_to_c
grpcuds_call_write copy room me call call_id data_ptr len w =
    if call == 0 || (null_data data_ptr && ltb 0 len)
    then invalid w
    else if on_io_thread me w.mailbox
    then direct w call (write_call copy room call_id (slice data_ptr len))
    else queued w (enqueue_write copy room call call_id (slice data_ptr len) w.mailbox)

unfoldable pub grpcuds_call_finish : Bool → Bool → ℕ → ℕ → ℕ → ℤ → World → Option (World × ℤ)
unfolding conn_err_to_c status_from_c
grpcuds_call_finish copy room me call call_id code w =
    if call == 0
    then invalid w
    else if on_io_thread me w.mailbox
    then direct w call (finish_call call_id (status_from_c code))
    else queued w (enqueue_finish copy room call call_id (status_from_c code) [] w.mailbox)

unfoldable pub grpcuds_call_finish_msg :
    Bool → Bool → ℕ → ℕ → ℕ → ℤ → Option (List ℕ) → ℕ → World → Option (World × ℤ)
unfolding conn_err_to_c status_from_c
grpcuds_call_finish_msg copy room me call call_id code msg len w =
    if call == 0
    then invalid w
    else if on_io_thread me w.mailbox
    then direct w call (finish_call_msg call_id (status_from_c code) (slice msg len))
    else queued w
        (enqueue_finish copy room call call_id (status_from_c code) (slice msg len) w.mailbox)

abbrev hook_on : World → ℕ → ℕ → Option CancelHook → Answered
hook_on w call call_id none = invalid w
hook_on w call call_id (some hook) = direct w call (set_cancel_hook call_id hook)

unfoldable pub grpcuds_call_set_cancel_hook : ℕ → ℕ → Option CancelHook → World → Option (World × ℤ)
unfolding conn_err_to_c
grpcuds_call_set_cancel_hook call call_id hook w =
    if call == 0 then invalid w else hook_on w call call_id hook

unfoldable pub grpcuds_call_set_backpressure_unbounded : ℕ → ℕ → World → Option (World × ℤ)
unfolding conn_err_to_c
grpcuds_call_set_backpressure_unbounded call call_id w =
    if call == 0
    then invalid w
    else direct w call (set_stream_policy call_id Backpressure.unbounded)

abbrev policy_of : ℤ → Option OverflowPolicy
policy_of (pos zero) = some OverflowPolicy.reject
policy_of (pos (suc zero)) = some OverflowPolicy.drop_oldest
policy_of (pos (suc (suc n))) = none
policy_of (negsuc n) = none

abbrev bounded_by : World → ℕ → ℕ → ℕ → Option OverflowPolicy → Answered
bounded_by w call call_id capacity none = invalid w
bounded_by w call call_id capacity (some policy) =
    direct w call (set_stream_policy call_id (Backpressure.bounded capacity policy))

unfoldable pub grpcuds_call_set_backpressure_bounded : ℕ → ℕ → ℕ → ℤ → World → Option (World × ℤ)
unfolding conn_err_to_c
grpcuds_call_set_backpressure_bounded call call_id capacity policy_kind w =
    if call == 0 || capacity == 0
    then invalid w
    else bounded_by w call call_id capacity (policy_of policy_kind)

abbrev time_to_c : Result (Option ℕ) ConnError → ℤ
time_to_c (ok (some ms)) = pos (min ms (2 ^ 63 - 1))
time_to_c (ok none) = minus 1
time_to_c (err e) = err_noent

abbrev time_of : ℕ → ℕ → Option Conn → Option ℤ
time_of now call_id none = none
time_of now call_id (some c) = some (time_to_c (call_time_remaining_ms now call_id c))

unfoldable pub grpcuds_call_time_remaining_ms : ℕ → ℕ → ℕ → World → Option ℤ
grpcuds_call_time_remaining_ms now call call_id w =
    if call == 0 then some err_inval else time_of now call_id (w.heap call)
