-- ===== src/OutQueue.antt =====
-- The outbound queue of a stream, rust/grpcuds-core/src/conn/out_queue.rs. An operation on
-- `&mut self` returns the new queue beside its result. The allocator's answer to a `try_reserve`
-- is an argument.
pub mod Wire
pub mod Drain
pub mod Enqueue
pub mod Bounds
pub mod Send
mod Tests
use grpc_uds.Prelude.{
  ℕ, zero, suc, ◌+◌, ◌-◌, ◌^◌, min, max, Bool, true, false, ◌||◌, List, [], ◌∷◌, ◌++◌, Option, none,
  Result, ok, err, ltb, leb, ◌==◌, if◌then◌else◌, length, take, drop,
}
use grpc_uds.Framing.{frame_header_len, encode_header}
use grpc_uds.Headers.{GrpcStatus, status_ok}
use grpc_uds.Errors.{ConnError, Reply, queue_full, out_of_memory}

pub data OverflowPolicy : Type 0 where
  reject drop_oldest : OverflowPolicy

-- The source's capacity is a `NonZeroUsize`; a theorem that needs it says so.
pub data Backpressure : Type 0 where
  unbounded : Backpressure
  bounded : ℕ → OverflowPolicy → Backpressure

pub record OutMsg : Type 0 where
  pub hdr : List ℕ
  pub body : List ℕ

abbrev pub msg_len : OutMsg → ℕ
msg_len m = frame_header_len + length m.body

pub record OutQueue : Type 0 where
  pub messages : List OutMsg
  pub front_offset : ℕ
  pub front_committed : Bool
  pub finished : Bool
  pub final_status : GrpcStatus
  pub final_message : Option (List ℕ)
  pub response_started : Bool
  pub backpressure : Backpressure

unfoldable pub new : OutQueue
new = record {
  messages = [];
  front_offset = 0;
  front_committed = false;
  finished = false;
  final_status = status_ok;
  final_message = none;
  response_started = false;
  backpressure = unbounded;
}

-- `self.front_offset > 0 || self.front_committed`.
abbrev pub in_flight : OutQueue → Bool
in_flight q = ltb 0 q.front_offset || q.front_committed

-- `saturating_sub` is the subtraction of ℕ.
unfoldable pub unstarted_count : OutQueue → ℕ
unstarted_count q = if in_flight q then length q.messages - 1 else length q.messages

abbrev remaining_at : List OutMsg → ℕ → ℕ
remaining_at [] offset = 0
remaining_at (m ∷ _) offset = msg_len m - offset

unfoldable pub front_remaining : OutQueue → ℕ
front_remaining q = remaining_at q.messages q.front_offset

unfoldable pub promise_front : ℕ → OutQueue → ℕ × OutQueue
unfolding front_remaining
promise_front max q =
    let n = min (front_remaining q) max in
    (n, if ltb 0 n then record q { front_committed = true } else q)

-- `&xs[from..to]`.
abbrev slice : List ℕ → ℕ → ℕ → List ℕ
slice xs from to = take (to - from) (drop from xs)

abbrev regions_of : OutMsg → ℕ → ℕ → List ℕ × List ℕ
regions_of m offset n =
    let k = min n (msg_len m - offset) in
    let end = offset + k in
    (
      (if ltb offset frame_header_len then slice m.hdr offset (min end frame_header_len) else []),
      slice m.body (max offset frame_header_len - frame_header_len)
          (max end frame_header_len - frame_header_len),
    )

abbrev regions_at : List OutMsg → ℕ → ℕ → List ℕ × List ℕ
regions_at [] offset n = ([], [])
regions_at (m ∷ _) offset n = regions_of m offset n

unfoldable pub front_regions : ℕ → OutQueue → List ℕ × List ℕ
front_regions n q = regions_at q.messages q.front_offset n

-- A queue whose front is `m`, after its offset is moved to `offset`.
abbrev settle : OutMsg → List OutMsg → ℕ → OutQueue → OutQueue
settle m ms offset q =
    if offset == msg_len m
    then record q { messages = ms; front_offset = 0 }
    else record q { front_offset = offset }

abbrev consumed : List OutMsg → ℕ → OutQueue → OutQueue
consumed [] n q = q
consumed (m ∷ ms) n q = settle m ms (q.front_offset + min n (msg_len m - q.front_offset)) q

unfoldable pub consume_front : ℕ → OutQueue → OutQueue
consume_front n q = record (consumed q.messages n q) { front_committed = false }

abbrev remove : ℕ → List OutMsg → List OutMsg
remove i [] = []
remove zero (m ∷ ms) = ms
remove (suc i) (m ∷ ms) = m ∷ remove i ms

unfoldable pub drop_one : OutQueue → OutQueue
drop_one q = record q { messages = remove (if in_flight q then 1 else 0) q.messages }

abbrev at_capacity : OverflowPolicy → OutQueue → Result OutQueue ConnError
at_capacity reject q = err queue_full
at_capacity drop_oldest q = ok (drop_one q)

-- The queue that is pushed to under a policy, or the refusal.
unfoldable pub room_under : Backpressure → OutQueue → Result OutQueue ConnError
unfolding unstarted_count
room_under unbounded q = ok q
room_under (bounded capacity policy) q =
    if leb capacity (unstarted_count q) then at_capacity policy q else ok q

abbrev make_room : OutQueue → Result OutQueue ConnError
make_room q = room_under q.backpressure q

-- The last step: the slot is reserved, then the framed message is pushed.
abbrev push_back : Bool → List ℕ → OutQueue → OutQueue × Reply
push_back room body q =
    if room
    then (
      record q {
        messages =
            q.messages ++ (record { hdr = encode_header false (length body); body = body } ∷ []);
      },
      ok tt,
    )
    else (q, err out_of_memory)

abbrev after_room : Bool → List ℕ → OutQueue → Result OutQueue ConnError → OutQueue × Reply
after_room room body q (ok q') = push_back room body q'
after_room room body q (err e) = (q, err e)

unfoldable pub enqueue_owned : Bool → List ℕ → OutQueue → OutQueue × Reply
unfolding room_under
enqueue_owned room body q =
    if ltb (2 ^ 32 - 1) (length body)
    then (q, err queue_full)
    else after_room room body q (make_room q)

-- `copy` is the allocator's answer for the copy of the payload.
unfoldable pub enqueue_framed : Bool → Bool → List ℕ → OutQueue → OutQueue × Reply
unfolding enqueue_owned
enqueue_framed copy room payload q =
    if copy then enqueue_owned room payload q else (q, err out_of_memory)

abbrev Drained : Type 0
Drained = List ℕ × OutQueue

abbrev with_copied : List ℕ → Drained → Drained
with_copied bytes (more, q) = (bytes ++ more, q)

-- The second half of a round: the body, then the pop of a message that is done.
drain_body : (ℕ → OutQueue → Drained) → OutMsg → List OutMsg → ℕ → OutQueue → Drained
drain_body next m ms room q =
    let part = take room (drop (q.front_offset - frame_header_len) m.body) in
    with_copied part (next (room - length part) (settle m ms (q.front_offset + length part) q))

-- A round of the loop at the front message `m`; `next` is the loop again.
drain_front : (ℕ → OutQueue → Drained) → OutMsg → List OutMsg → ℕ → OutQueue → Drained
unfolding drain_body
drain_front next m ms room q =
    if ltb q.front_offset frame_header_len
    then (let part = take room (drop q.front_offset m.hdr) in
        let q' : OutQueue = record q { front_offset = q.front_offset + length part } in
        if room - length part == 0
        then (part, q')
        else with_copied part (drain_body next m ms (room - length part) q'))
    else drain_body next m ms room q

-- The front of the queue, or the `break` where there is none.
drain_round : (ℕ → OutQueue → Drained) → List OutMsg → ℕ → OutQueue → Drained
unfolding drain_front
drain_round next [] room q = ([], q)
drain_round next (m ∷ ms) room q = drain_front next m ms room q

-- `room` is `dst.len() - written`. The first number bounds the rounds.
drain_loop : ℕ → ℕ → OutQueue → Drained
unfolding drain_round
drain_loop zero room q = ([], q)
drain_loop (suc rounds) room q = elim (room == 0) [
  | true ↦ ([], q)
  | false ↦ drain_round (drain_loop rounds) q.messages room q
]

-- The bytes that are copied to `dst`, of `room` bytes. Each round but the last pops a message.
unfoldable pub drain_into : ℕ → OutQueue → List ℕ × OutQueue
unfolding drain_loop
drain_into room q = drain_loop (length q.messages + 2) room q
