-- ===== src/OutQueue/Tests.antt =====
-- The theorems on the queue at a queue of two messages, the first shipped up to its third byte.
use grpc_uds.Prelude.{ℕ, ◌≡◌, refl, true, false, [], ◌∷◌, none, arith}
use grpc_uds.Framing.{encode_header}
use grpc_uds.Headers.{status_ok}
use grpc_uds.OutQueue.{OutMsg, OutQueue, bounded, drop_oldest, unbounded, drain_into, enqueue_owned}
use grpc_uds.OutQueue.Wire.{IsValid}
use grpc_uds.OutQueue.Drain.{Drains, drain_into_lem}
use grpc_uds.OutQueue.Enqueue.{HasFront, unstarted, bodies, offer, enqueue_owned_refines}

abbrev message : ℕ → OutMsg
message b = record { hdr = encode_header false 2; body = b ∷ b ∷ [] }

abbrev two_messages : OutQueue
two_messages = record {
  messages = message 7 ∷ message 8 ∷ [];
  front_offset = 3;
  front_committed = false;
  finished = false;
  final_status = status_ok;
  final_message = none;
  response_started = true;
  backpressure = bounded 1 drop_oldest;
}

two_messages-IsValid : IsValid two_messages
two_messages-IsValid = record {
  framed = ((refl, omega arith), ((refl, omega arith), tt));
  offset_in = omega arith;
}

two_messages-HasFront : HasFront two_messages
two_messages-HasFront _ e = absurd (cc)

-- Six bytes: two of the header, the body, and two of the next header.
drain_into_lem_example : Drains 6 two_messages (drain_into 6 two_messages)
drain_into_lem_example = drain_into_lem 6 two_messages two_messages-IsValid

enqueue_owned_refines_example :
    (let (q', r) = enqueue_owned true (9 ∷ []) two_messages in (bodies (unstarted q'), r))
    ≡ offer two_messages.backpressure (bodies (unstarted two_messages)) (9 ∷ [])
enqueue_owned_refines_example =
    enqueue_owned_refines (9 ∷ []) two_messages two_messages-HasFront (omega arith)

abbrev roomy : OutQueue
roomy = record two_messages { backpressure = unbounded }

roomy-IsValid : IsValid roomy
roomy-IsValid = record {
  framed = two_messages-IsValid.framed;
  offset_in = two_messages-IsValid.offset_in;
}
