-- ===== src/Server.antt =====
-- The writers of the Rust server and the pass of its I/O thread over what they queued, of
-- rust/grpcuds/src/server.rs. A call's shared flags stand at an address.
pub mod Builder
pub mod Health
pub mod Loop
pub mod Routes
pub mod Unary
mod Tests
use grpc_uds.Prelude.{
  ℕ, ◌+◌, ◌-◌, Bool, true, false, not, List, [], ◌∷◌, ◌++◌, Option, none, some, Result, ok, err,
  ◌==◌, ◌&&◌, ◌||◌, if◌then◌else◌,
}
use grpc_uds.Errors.{
  ConnError, session_error, out_of_memory, stream_not_found, stream_finished, queue_full,
  nghttp2_error, Reply,
}
use grpc_uds.Headers.{GrpcStatus}
use grpc_uds.OutQueue.{Backpressure}
use grpc_uds.Conn.{Conn}
use grpc_uds.Conn.Calls.{write_call_owned, finish_call, finish_call_msg, set_stream_policy}

pub data OpKind : Type 0 where
  write : List ℕ → OpKind
  finish : GrpcStatus → Option (List ℕ) → OpKind
  policy : Backpressure → OpKind

pub record OutOp : Type 0 where
  pub token : ℕ
  pub call_id : ℕ
  pub kind : OpKind
  pub shared : ℕ

pub record CallShared : Type 0 where
  pub finished : Bool
  pub dead : Bool
  pub overflow : Bool

abbrev pub Flags : Type 0
Flags = ℕ → CallShared

-- `pokes` is the counter of the eventfd.
pub record Mailbox : Type 0 where
  pub ops : List OutOp
  pub pokes : ℕ

abbrev is_empty : List OutOp → Bool
is_empty [] = true
is_empty (op ∷ ops) = false

pub record ServerWriter : Type 0 where
  pub token : ℕ
  pub call_id : ℕ
  pub shared : ℕ
  pub deadline_at : Option ℕ

-- What the writers of all threads share.
pub record World : Type 0 where
  pub mailbox : Mailbox
  pub flags : Flags

abbrev pub set_flags : ℕ → CallShared → Flags → Flags
set_flags k s flags j = if k == j then s else flags j

unfoldable pub closed : ServerWriter → World → Bool
closed w world = (world.flags w.shared).finished || (world.flags w.shared).dead

-- `on_io` is whether the thread runs the loop with this mailbox.
unfoldable pub push : Bool → ServerWriter → OpKind → World → World
push on_io w kind world = record world {
  mailbox = record {
    ops =
        world.mailbox.ops
        ++ (record { token = w.token; call_id = w.call_id; kind = kind; shared = w.shared } ∷ []);
    pokes =
        if is_empty world.mailbox.ops && not on_io
        then world.mailbox.pokes + 1
        else world.mailbox.pokes;
  };
}

-- The result is `true` for `Ok`, `false` for `Err(Closed)`. `write_owned` is the same on its bytes.
unfoldable pub write_bytes : Bool → ServerWriter → List ℕ → World → World × Bool
unfolding closed push
write_bytes on_io w msg world =
    if closed w world then (world, false) else (push on_io w (write msg) world, true)

abbrev shipped : Option (List ℕ) → Option (List ℕ)
shipped none = none
shipped (some []) = none
shipped (some (b ∷ msg)) = some (b ∷ msg)

-- The swap of `finished` is not made for a call that is dead.
unfoldable pub finish_with :
    Bool → ServerWriter → GrpcStatus → Option (List ℕ) → World → World × Bool
unfolding push
finish_with on_io w code msg world =
    let s = world.flags w.shared in
    let world' = record world {
      flags = set_flags w.shared (record s { finished = true }) world.flags;
    } in
    if s.dead
    then (world, false)
    else if s.finished
    then (world', false)
    else (push on_io w (finish code (shipped msg)) world', true)

unfoldable pub set_backpressure : Bool → ServerWriter → Backpressure → World → World × Bool
unfolding closed push
set_backpressure on_io w bp world =
    if closed w world then (world, false) else (push on_io w (policy bp) world, true)

abbrev time_left : ℕ → Option ℕ → Option ℕ
time_left now none = none
time_left now (some d) = some (d - now)

unfoldable pub time_remaining : ℕ → ServerWriter → Option ℕ
time_remaining now w = time_left now w.deadline_at

-- Its `Connection` is the core's state.
pub record ConnSlot : Type 0 where
  pub token : ℕ
  pub conn : Conn
  pub dead : Bool

-- The first connection with a token that is not dead, and a write through it.
unfoldable pub find_slot : ℕ → List ConnSlot → Option Conn
find_slot t [] = none
find_slot t (s ∷ ss) = if s.token == t && not s.dead then some s.conn else find_slot t ss

unfoldable pub put_slot : ℕ → Conn → List ConnSlot → List ConnSlot
put_slot t c [] = []
put_slot t c (s ∷ ss) =
    if s.token == t && not s.dead then record s { conn = c } ∷ ss else s ∷ put_slot t c ss

-- `room` is the allocator's answer to a write.
unfoldable pub apply_kind : Bool → ℕ → OpKind → Conn → Conn × Reply
apply_kind room call_id (write bytes) c = write_call_owned room call_id bytes c
apply_kind room call_id (finish code (some msg)) c = finish_call_msg call_id code msg c
apply_kind room call_id (finish code none) c = finish_call call_id code c
apply_kind room call_id (policy bp) c = set_stream_policy call_id bp c

abbrev pub die : CallShared → CallShared
die s = record s { dead = true }

-- What the writer of an operation gets to know of its result.
abbrev pub told : Reply → CallShared → CallShared
told (ok _) s = s
told (err queue_full) s = record s { overflow = true }
told (err out_of_memory) s = die s
told (err stream_not_found) s = die s
told (err stream_finished) s = die s
told (err (nghttp2_error rc)) s = die s
told (err (session_error e)) s = die s

pub record Io : Type 0 where
  pub slots : List ConnSlot
  pub flags : Flags

abbrev pub tell : ℕ → (CallShared → CallShared) → Flags → Flags
tell k f flags = set_flags k (f (flags k)) flags

abbrev pub apply_found : Bool → OutOp → Io → Option Conn → Io
apply_found room op io none = record io { flags = tell op.shared die io.flags }
apply_found room op io (some c) =
    let (c', r) = apply_kind room op.call_id op.kind c in
    record { slots = put_slot op.token c' io.slots; flags = tell op.shared (told r) io.flags }

unfoldable pub apply_op : Bool → OutOp → Io → Io
unfolding apply_kind put_slot find_slot
apply_op room op io = apply_found room op io (find_slot op.token io.slots)

-- The loop of `serve` over what `take` gave, each operation with the allocator's answer to it.
unfoldable pub apply_ops : List (Bool × OutOp) → Io → Io
unfolding apply_op
apply_ops [] io = io
apply_ops ((room, op) ∷ ops) io = apply_ops ops (apply_op room op io)

-- `Status`: its code and its message.
abbrev pub Status : Type 0
Status = GrpcStatus × Option (List ℕ)

-- A run of a streaming handler: its calls of the writer, each with what it does next for each
-- answer, and the status it returns.
pub data WriterCall : Type 0 where
  writes : List ℕ → WriterCall
  finishes : GrpcStatus → Option (List ℕ) → WriterCall
  bounds : Backpressure → WriterCall

pub data WriterScript : Type 0 where
  returns : Status → WriterScript
  calls : WriterCall → (Bool → WriterScript) → WriterScript

pub data Handler : Type 0 where
  unary : (List ℕ → Result (List ℕ) Status) → Handler
  server_streaming : (List ℕ → WriterScript) → Handler

unfoldable pub writer_call : Bool → ServerWriter → WriterCall → World → World × Bool
writer_call on_io w (writes msg) world = write_bytes on_io w msg world
writer_call on_io w (finishes code msg) world = finish_with on_io w code msg world
writer_call on_io w (bounds bp) world = set_backpressure on_io w bp world

unfoldable pub run_writer : Bool → ServerWriter → WriterScript → World → World × Status
unfolding writer_call
run_writer on_io w (returns status) world = (world, status)
run_writer on_io w (calls op next) world =
    let (world', answer) = writer_call on_io w op world in run_writer on_io w (next answer) world'

abbrev is_ok : GrpcStatus → Bool
is_ok GrpcStatus.status_ok = true
is_ok _ = false

abbrev unary_done : ServerWriter → World → Result (List ℕ) Status → World
unary_done w world (ok resp) =
    (finish_with true w GrpcStatus.status_ok none (write_bytes true w resp world).0).0
unary_done w world (err (code, msg)) = (finish_with true w code msg world).0

abbrev streaming_done : ServerWriter → World × Status → World
streaming_done w (world, (code, msg)) =
    if not (is_ok code) && not (world.flags w.shared).finished
    then (finish_with true w code msg world).0
    else world

-- The call's flags are new at an address that the allocator gives.
abbrev new_shared : CallShared
new_shared = record { finished = false; dead = false; overflow = false }

abbrev on_handler : ServerWriter → List ℕ → World → Handler → World
on_handler w req world (unary h) = unary_done w world (h req)
on_handler w req world (server_streaming h) = streaming_done w (run_writer true w (h req) world)

-- Run on the I/O thread; `deadline_at` is from the core's time left and the clock.
unfoldable pub trampoline : ℕ → ℕ → ℕ → Option ℕ → List ℕ → Handler → World → World
unfolding finish_with write_bytes run_writer
trampoline shared token call_id deadline_at req handler world =
    on_handler
      (record { token = token; call_id = call_id; shared = shared; deadline_at = deadline_at }) req
      (record world { flags = set_flags shared new_shared world.flags }) handler
