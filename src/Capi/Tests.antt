-- ===== src/Capi/Tests.antt =====
-- The theorems on the C interface at concrete inputs.
use grpc_uds.Prelude.{◌≡◌, refl, true, false, List, [], ◌∷◌, some, pos, negsuc, arith}
use grpc_uds.Conn.{Conn}
use grpc_uds.Mailbox.{on_io_thread, contains}
use grpc_uds.Capi.{World}
use grpc_uds.Capi.Routing.{Op, finish_msg, run, heap_of, drained, run-drained}
use grpc_uds.Capi.Health.{HealthState, decode_check_request, find, grpcuds_health_set_status}
use grpc_uds.Capi.Health.Wire.{varint, decode_check_request-request}
use grpc_uds.Capi.Health.Watchers.{
  Event, watches, cancels, apply_events, wanted, all_room, status_message, written_to,
  set_status-Notified,
}

-- A connection with no streams.
abbrev bare : Conn
bare = record {
  commands = [];
  streams = [];
  methods = [];
  max_message_len = 100;
  fd = negsuc 0;
  out_pending = [];
  fired = [];
  sent = [];
}

-- Thread 1 does the I/O.
abbrev world : World
world = record {
  mailbox = record { queue = []; dead = 9 ∷ []; wakeup = some 0; io_thread = some 1 };
  heap = λ a. some bare;
}

abbrev op : Op
op = finish_msg 3 (pos 5) (some (b'n' ∷ b'o' ∷ [])) 2

run-drained_example :
    drained (λ _. true) (run true true 2 7 op world) ≡ heap_of (run true true 1 7 op world)
unfolding on_io_thread contains
run-drained_example = run-drained (λ _. true) 2 1 7 op world refl refl refl refl refl tt

decode_check_request-request_example :
    decode_check_request (0x0a ∷ 1 ∷ b'a' ∷ 0x0a ∷ 2 ∷ b'b' ∷ b'c' ∷ []) ≡ some (b'b' ∷ b'c' ∷ [])
unfolding varint
decode_check_request-request_example =
    decode_check_request-request ((b'a' ∷ []) ∷ (b'b' ∷ b'c' ∷ []) ∷ [])
      (omega arith, (omega arith, tt))

abbrev empty_registry : HealthState
empty_registry = record { statuses = []; watchers = []; seeded = false }

-- Two calls watch "a", one of them is cancelled.
abbrev history : List Event
history =
    watches 50 7 1 (0x0a ∷ 1 ∷ b'a' ∷ [])
    ∷ watches 60 8 3 (0x0a ∷ 1 ∷ b'a' ∷ [])
    ∷ watches 70 8 5 (0x0a ∷ 1 ∷ b'b' ∷ [])
    ∷ cancels 50
    ∷ []

set_status-Notified_example :
    let (h', w') =
      grpcuds_health_set_status all_room 1
        (b'a' ∷ [])
        (pos 2)
        (apply_events 1 history empty_registry)
        world in
    (find (b'a' ∷ []) h'.statuses ≡ some (pos 2))
    × (w' ≡ written_to 1 (status_message 2) (wanted (b'a' ∷ []) history) world)
set_status-Notified_example =
    set_status-Notified 1 1 2 (b'a' ∷ []) history empty_registry world refl (omega arith)
