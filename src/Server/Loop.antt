-- ===== src/Server/Loop.antt =====
-- `Server::serve` of rust/grpcuds/src/server.rs, the loop of the I/O thread. What the system,
-- nghttp2 and the other threads do in a round are a `Round`, by the token of a connection.
pub mod Tokens
pub mod Gone
pub mod Rounds
mod Tests
use grpc_uds.Prelude.{
  ℤ, ℕ, zero, suc, pos, ◌==◌, ◌+◌, Bool, true, false, not, List, [], ◌∷◌, ◌++◌, Option, none, some,
  Result, ok, err, ◌||◌, ◌&&◌, if◌then◌else◌, length,
}
use grpc_uds.Errors.{Reply}
use grpc_uds.Conn.{Conn, Answers, HandlerFn, returns, asks_time, register_method}
use grpc_uds.Conn.Deadlines.{next_deadline_ms}
use grpc_uds.Uds.{
  IoError, TickStatus, live, closed, wants_write, tick_read, tick_write, Recv, ReadAnswer, Pull,
  SendAnswer,
}
use grpc_uds.Uds.Listener.{AcceptAnswer, accept, Accepted}
use grpc_uds.Server.{
  OutOp, Mailbox, ServerWriter, World, ConnSlot, Io, apply_ops, WriterCall, writer_call, Handler,
  trampoline,
}

-- A method of the server: its path, and the address of its entry.
pub record Method : Type 0 where
  pub path : List ℕ
  pub entry : ℕ

-- `trampoline` to the core: it asks for the time left, and returns 0. What it does to the world is
-- an `Event`.
unfoldable pub core_handler : HandlerFn
core_handler call_id req entry = asks_time call_id (λ answer. returns (pos 0))

pub record Revents : Type 0 where
  pub pollin : Bool
  pub pollout : Bool
  pub pollhup : Bool
  pub pollerr : Bool
  pub pollnval : Bool

-- In a tick: a run of a handler, or a call that another thread makes meanwhile.
pub data Event : Type 0 where
  handles : ℕ → ℕ → Option ℕ → List ℕ → Handler → Event
  off_thread : ServerWriter → WriterCall → Event

-- The arguments of `tick_read` and `tick_write`.
pub record TickAnswers : Type 0 where
  pub session : Answers
  pub now : ℕ
  pub recv : Recv
  pub inputs : List ReadAnswer
  pub room : Bool
  pub stash : Bool
  pub wants : Bool
  pub pulls : List Pull
  pub answers : List SendAnswer

-- `wants_to_write` is nghttp2's answer when the loop asks whether to flush.
pub record Polled : Type 0 where
  pub revents : Revents
  pub tick : TickAnswers
  pub events : List Event
  pub wants_to_write : Bool
  pub flush : TickAnswers

-- An accept, with the answers to the creation and the allocator's to each method.
pub record Arrival : Type 0 where
  pub session : Answers
  pub created : Reply
  pub answer : AcceptAnswer
  pub grants : List (Bool × Bool)

pub record Round : Type 0 where
  pub listener_ready : Bool
  pub arrivals : List Arrival
  pub woken : Bool
  pub polled : ℕ → Polled
  pub late : List (ServerWriter × WriterCall)
  pub grants : ℕ → Bool

pub record Serving : Type 0 where
  pub slots : List ConnSlot
  pub next_token : ℕ
  pub world : World

-- The loop over the methods, `false` if a registration fails.
abbrev and_register : (Conn → Conn × Bool) → Conn × Reply → Conn × Bool
and_register next (c, ok _) = next c
and_register next (c, err e) = (c, false)

unfoldable pub register_each : List (Bool × Bool) → List Method → Conn → Conn × Bool
unfolding register_method core_handler
register_each grants [] c = (c, true)
register_each [] (m ∷ ms) c = (c, false)
register_each ((copy, room) ∷ grants) (m ∷ ms) c =
    and_register (register_each grants ms) (register_method copy room m.path core_handler m.entry c)

abbrev pub add_slot : Conn × Bool → Serving → Serving
add_slot (c, false) st = st
add_slot (c, true) st = record st {
  slots = st.slots ++ (record { token = st.next_token; conn = c; dead = false } ∷ []);
  next_token = st.next_token + 1;
}

abbrev pub on_accept :
    (Serving → Serving) → List Method → List (Bool × Bool) → Serving → Accepted → Serving
on_accept next ms grants st (fx, ok (some c)) = next (add_slot (register_each grants ms c) st)
on_accept next ms grants st (fx, ok none) = st
on_accept next ms grants st (fx, err e) = st

-- The accept loop; after the arrivals it would block.
unfoldable pub accept_all : List Method → List Arrival → Serving → Serving
unfolding accept register_each
accept_all ms [] st = st
accept_all ms (a ∷ arrivals) st =
    on_accept (accept_all ms arrivals) ms a.grants st (accept a.session a.created a.answer)

-- The entries of `pfds` for the connections: the descriptor, and whether POLLOUT is asked for.
unfoldable pub interests : (ℕ → Bool) → List ConnSlot → List (ℤ × Bool)
unfolding wants_write
interests wants [] = []
interests wants (s ∷ ss) = (s.conn.fd, wants_write (wants s.token) s.conn) ∷ interests wants ss

unfoldable pub drain_wakeup : World → World
drain_wakeup world = record world { mailbox = record (world.mailbox) { pokes = 0 } }

unfoldable pub event : ℕ → Event → World → World
unfolding trampoline writer_call
event token (handles shared call_id deadline_at req handler) world =
    trampoline shared token call_id deadline_at req handler world
event token (off_thread w op) world = (writer_call false w op world).0

unfoldable pub events : ℕ → List Event → World → World
unfolding event
events token [] world = world
events token (e ∷ es) world = events token es (event token e world)

abbrev is_due : Option ℕ → Bool
is_due (some ms) = ms == 0
is_due none = false

abbrev is_live : Result TickStatus IoError → Bool
is_live (ok live) = true
is_live (ok closed) = false
is_live (err e) = false

abbrev pub read_with : TickAnswers → Conn → Conn × Result TickStatus IoError
read_with a c = tick_read a.session a.now a.recv a.inputs a.room a.stash a.wants a.pulls a.answers c

abbrev pub write_with : TickAnswers → Conn → Conn × Result TickStatus IoError
write_with a c = tick_write a.now a.room a.stash a.wants a.pulls a.answers c

abbrev pub ticked : ConnSlot → Conn × Result TickStatus IoError → ConnSlot
ticked s (c, r) = record s { conn = c; dead = s.dead || not (is_live r) }

-- A connection at its turn in the round.
unfoldable pub tick_slot : Polled → ConnSlot → ConnSlot
unfolding tick_read tick_write next_deadline_ms
tick_slot p s =
    let re = p.revents in
    let any = re.pollin || (re.pollout || (re.pollhup || (re.pollerr || re.pollnval))) in
    let due = not any && is_due (next_deadline_ms p.tick.now s.conn) in
    if not any && not due
    then s
    else if due || (re.pollin || (re.pollhup || re.pollerr))
    then ticked s (read_with p.tick s.conn)
    else if re.pollout
    then ticked s (write_with p.tick s.conn)
    else s

-- The first `n` connections are those that were polled.
unfoldable pub tick_first : ℕ → (ℕ → Polled) → List ConnSlot → List ConnSlot
unfolding tick_slot
tick_first zero polled ss = ss
tick_first (suc n) polled [] = []
tick_first (suc n) polled (s ∷ ss) = tick_slot (polled s.token) s ∷ tick_first n polled ss

-- What happens to the world while the first `n` are ticked.
unfoldable pub world_during : ℕ → (ℕ → Polled) → List ConnSlot → World → World
unfolding events
world_during zero polled ss world = world
world_during (suc n) polled [] world = world
world_during (suc n) polled (s ∷ ss) world =
    world_during n polled ss (events s.token (polled s.token).events world)

-- The operations, each with the allocator's answer.
abbrev pub granted : (ℕ → Bool) → List OutOp → List (Bool × OutOp)
granted grants [] = []
granted grants (op ∷ ops) = (grants (length ops), op) ∷ granted grants ops

-- `take`, and the pass over what it gave.
unfoldable pub apply_mailbox : (ℕ → Bool) → Serving → Serving
unfolding apply_ops
apply_mailbox grants st =
    let world = st.world in
    let io =
      apply_ops (granted grants world.mailbox.ops)
        (record { slots = st.slots; flags = world.flags }) in
    record st {
      slots = io.slots;
      world = record { mailbox = record (world.mailbox) { ops = [] }; flags = io.flags };
    }

unfoldable pub flush_slot : Polled → ConnSlot → ConnSlot
unfolding tick_write wants_write
flush_slot p s =
    if s.dead
    then s
    else if wants_write p.wants_to_write s.conn
    then ticked s (write_with p.flush s.conn)
    else s

unfoldable pub flush_each : (ℕ → Polled) → List ConnSlot → List ConnSlot
unfolding flush_slot
flush_each polled [] = []
flush_each polled (s ∷ ss) = flush_slot (polled s.token) s ∷ flush_each polled ss

-- `retain`.
unfoldable pub retain_live : List ConnSlot → List ConnSlot
retain_live [] = []
retain_live (s ∷ ss) = if s.dead then retain_live ss else s ∷ retain_live ss

-- The calls of other threads between the last tick and the `take`.
unfoldable pub off_threads : List (ServerWriter × WriterCall) → World → World
unfolding writer_call
off_threads [] world = world
off_threads ((w, op) ∷ ops) world = off_threads ops (writer_call false w op world).0

-- The ticks of the `n` connections that were polled.
unfoldable pub tick_all : Round → ℕ → Serving → Serving
unfolding tick_first world_during off_threads
tick_all r n st = record st {
  slots = tick_first n r.polled st.slots;
  world = off_threads r.late (world_during n r.polled st.slots st.world);
}

abbrev pub arrived : List Method → Round → Serving → Serving
arrived ms r st = if r.listener_ready then accept_all ms r.arrivals st else st

abbrev pub woken : Round → Serving → Serving
woken r st = record st { world = if r.woken then drain_wakeup st.world else st.world }

unfoldable pub round : List Method → Round → Serving → Serving
unfolding accept_all drain_wakeup tick_all apply_mailbox flush_each retain_live
round ms r st =
    let applied =
      apply_mailbox r.grants (tick_all r (length st.slots) (woken r (arrived ms r st))) in
    record applied { slots = retain_live (flush_each r.polled applied.slots) }

-- What poll(2) answers.
pub data PollAnswer : Type 0 where
  interrupted : PollAnswer
  poll_fails : ℕ → PollAnswer
  polls : Round → PollAnswer

-- Where the loop stands: at work, or returned, with its result.
pub data Ended : Type 0 where
  serving stopped : Ended
  failed : ℕ → Ended

-- The loop over the shutdown flag, read at the top of each round, and the answers of poll.
unfoldable pub serve : List Method → List (Bool × PollAnswer) → Serving → Serving × Ended
unfolding round
serve ms [] st = (st, serving)
serve ms ((true, answer) ∷ rest) st = (st, stopped)
serve ms ((false, interrupted) ∷ rest) st = serve ms rest st
serve ms ((false, poll_fails e) ∷ rest) st = (st, failed e)
serve ms ((false, polls r) ∷ rest) st = serve ms rest (round ms r st)
