-- ===== src/Capi/Health.antt =====
-- The health service of rust/grpcuds-ffi-impl/src/health.rs. Each operation on the registry holds
-- its lock for its whole effect. The handlers are runs of calls on their connection.
pub mod Wire
pub mod Watchers
pub mod Statuses
use grpc_uds.Prelude.{
  ℕ, zero, suc, ◌+◌, ◌-◌, ◌*◌, ◌%◌, ◌^◌, Bool, true, false, List, [], ◌∷◌, ◌++◌, map, Option, none,
  some, ok, err, ℤ, pos, negsuc, ltb, leb, ◌==◌, ◌&&◌, if◌then◌else◌, length, take, drop,
  same_bytes, codes,
}
use grpc_uds.Headers.{GrpcStatus, status_ok, invalid_argument, not_found, internal}
use grpc_uds.Conn.{Script, returns, calls, writes, finishes_msg, sets_hook, CancelHook}
use grpc_uds.Mailbox.{Mailbox}
use grpc_uds.Capi.{World, grpcuds_call_write}

abbrev pub unknown_status : ℤ
unknown_status = pos 0

abbrev pub serving : ℤ
serving = pos 1

abbrev pub service_unknown : ℤ
service_unknown = pos 3

-- `as u8`.
abbrev low_byte : ℤ → ℕ
low_byte (pos n) = n % 256
low_byte (negsuc n) = 255 - n % 256

abbrev is_zero : ℤ → Bool
is_zero (pos n) = n == 0
is_zero (negsuc n) = false

unfoldable pub encode_response : Bool → ℤ → List ℕ
encode_response room code =
    if is_zero code then [] else if room then 0x08 ∷ low_byte code ∷ [] else []

-- The inner loop of `decode_check_request`: the length and the bytes after it. The groups of seven
-- bits do not overlap, so the disjunction is a sum; what a shift pushes past 64 bits is lost.
unfoldable pub read_varint : ℕ → ℕ → List ℕ → Option (ℕ × List ℕ)
read_varint shift len [] = none
read_varint shift len (b ∷ rest) =
    let len' = len + b % 128 * 2 ^ shift % 2 ^ 64 in
    let more = read_varint (shift + 7) len' rest in
    if leb 64 shift then none else if ltb b 128 then some (len', rest) else more

-- After the length: the service is the bytes that it counts, if they are there.
abbrev pub field : (List ℕ → List ℕ → Option (List ℕ)) → Option (ℕ × List ℕ) → Option (List ℕ)
field next none = none
field next (some (len, rest)) =
    if ltb (length rest) len then none else next (take len rest) (drop len rest)

-- The outer loop. Each round takes a byte at least, so the number of rounds is that of the bytes.
unfoldable pub decode_loop : ℕ → List ℕ → List ℕ → Option (List ℕ)
unfolding read_varint
decode_loop rounds service [] = some service
decode_loop zero service (b ∷ bs) = none
decode_loop (suc rounds) service (b ∷ bs) = elim (b == 0x0a) [
  | true ↦ field (decode_loop rounds) (read_varint 0 0 bs)
  | false ↦ none
]

unfoldable pub decode_check_request : List ℕ → Option (List ℕ)
unfolding decode_loop
decode_check_request d = decode_loop (length d) [] d

-- `address` is that of the box.
pub record Watcher : Type 0 where
  pub address : ℕ
  pub call : ℕ
  pub call_id : ℕ
  pub service : List ℕ
  pub live : Bool

pub record HealthState : Type 0 where
  pub statuses : List (List ℕ × ℤ)
  pub watchers : List Watcher
  pub seeded : Bool

unfoldable pub find : List ℕ → List (List ℕ × ℤ) → Option ℤ
find service [] = none
find service ((name, code) ∷ entries) =
    if same_bytes name service then some code else find service entries

-- An entry that does not fit is not made; `room` is whether both reservations succeed.
unfoldable pub set_entry : Bool → List ℕ → ℤ → List (List ℕ × ℤ) → List (List ℕ × ℤ)
set_entry room service code [] = if room then (service, code) ∷ [] else []
set_entry room service code ((name, old) ∷ entries) =
    if same_bytes name service
    then (name, code) ∷ entries
    else (name, old) ∷ set_entry room service code entries

unfoldable pub set : Bool → List ℕ → ℤ → HealthState → HealthState
unfolding set_entry
set room service code h = record h { statuses = set_entry room service code h.statuses }

-- The calls of a handler on its own connection, whose answers it ignores. `copy` and `room` are the
-- allocator's answers to the write.
abbrev then_write : Bool → Bool → ℕ → List ℕ → Script → Script
then_write copy room call_id msg next = calls (writes copy room call_id msg) (λ r. next)

abbrev then_finish : ℕ → GrpcStatus → List ℕ → Script → Script
then_finish call_id code msg next = calls (finishes_msg call_id code msg) (λ r. next)

abbrev refuse : ℕ → GrpcStatus → List ℕ → Script
refuse call_id code msg = then_finish call_id code msg (returns (pos 0))

-- The allocator's answers to a handler: the response, the copy and the queue of its write, the name
-- and the list of watchers.
pub record Room : Type 0 where
  pub response : Bool
  pub copy : Bool
  pub queue : Bool
  pub name : Bool
  pub watcher : Bool

abbrev malformed : List ℕ
malformed = codes "malformed HealthCheckRequest"

abbrev pub check_found : Room → ℕ → Option ℤ → Script
check_found m call_id none = refuse call_id not_found (codes "unknown service")
check_found m call_id (some code) =
    then_write m.copy m.queue call_id (encode_response m.response code)
      (refuse call_id status_ok [])

abbrev pub check_service : Room → ℕ → HealthState → Option (List ℕ) → Script
check_service m call_id h none = refuse call_id invalid_argument malformed
check_service m call_id h (some service) = check_found m call_id (find service h.statuses)

unfoldable pub check_tr : Room → ℕ → List ℕ → HealthState → Script
unfolding encode_response find decode_check_request
check_tr m call_id req h = check_service m call_id h (decode_check_request req)

abbrev pub live_ones : List Watcher → List Watcher
live_ones [] = []
live_ones (w ∷ ws) = if w.live then w ∷ live_ones ws else live_ones ws

-- The part of `watch_tr` under the lock: dead watchers are dropped, and the new one is added.
unfoldable pub subscribe : Bool → Watcher → HealthState → HealthState
subscribe room w h = record h {
  watchers = if room then live_ones h.watchers ++ (w ∷ []) else live_ones h.watchers;
}

abbrev current : Option ℤ → ℤ
current none = service_unknown
current (some code) = code

-- `hook` is the address of `on_cancel`.
abbrev watch_run : Room → ℕ → ℕ → ℕ → ℤ → Script
watch_run m hook address call_id code =
    let answer =
      then_write m.copy m.queue call_id (encode_response m.response code) (returns (pos 0)) in
    if m.watcher
    then calls (sets_hook call_id (record { callback = hook; user_data = address })) (λ r. answer)
    else answer

abbrev watch_service : Room → ℕ → ℕ → ℕ → ℕ → HealthState → Option (List ℕ) → HealthState × Script
watch_service m hook address call call_id h none = (h, refuse call_id invalid_argument malformed)
watch_service m hook address call call_id h (some service) =
    if m.name
    then (
      subscribe m.watcher
          (record {
            address = address;
            call = call;
            call_id = call_id;
            service = service;
            live = true;
          })
          h,
      watch_run m hook address call_id (current (find service h.statuses)),
    )
    else (h, refuse call_id internal [])

unfoldable pub watch_tr : Room → ℕ → ℕ → ℕ → ℕ → List ℕ → HealthState → HealthState × Script
unfolding encode_response find decode_check_request subscribe
watch_tr m hook address call call_id req h =
    watch_service m hook address call call_id h (decode_check_request req)

abbrev bury : ℕ → Watcher → Watcher
bury address w = if w.address == address then record w { live = false } else w

-- `user_data` is the address of the watcher, null at 0.
unfoldable pub on_cancel : ℕ → HealthState → HealthState
on_cancel user_data h =
    if user_data == 0 then h else record h { watchers = map (bury user_data) h.watchers }

-- The loop over the watchers in `grpcuds_health_set_status`: it stops where the list of targets
-- cannot grow; `room` are the answers, by what is left.
unfoldable pub targets : (ℕ → Bool) → List ℕ → List Watcher → List (ℕ × ℕ)
targets room name [] = []
targets room name (w ∷ ws) =
    let rest = targets room name ws in
    if w.live && same_bytes w.service name
    then (if room (length ws) then (w.call, w.call_id) ∷ rest else [])
    else rest

-- The writes to the targets, each by the C interface, whose result is ignored.
abbrev after_write : (World → Option World) → Option (World × ℤ) → Option World
after_write next none = none
after_write next (some (w, rc)) = next w

unfoldable pub notify : (ℕ → Bool) → ℕ → List ℕ → List (ℕ × ℕ) → World → Option World
notify grants me msg [] w = some w
notify grants me msg ((call, call_id) ∷ more) w = after_write (notify grants me msg more) (
    grpcuds_call_write (grants (2 * length more)) (grants (2 * length more + 1)) me call call_id
      (some msg) (length msg) w)

pub record SetRoom : Type 0 where
  pub entry : Bool
  pub list : ℕ → Bool
  pub response : Bool
  pub writes : ℕ → Bool

unfoldable pub grpcuds_health_set_status :
    SetRoom → ℕ → List ℕ → ℤ → HealthState → World → HealthState × Option World
unfolding set targets encode_response notify
grpcuds_health_set_status m me name code h w = (
  set m.entry name code h,
  notify m.writes me (encode_response m.response code) (targets m.list name h.watchers) w,
)

-- The seeding in `grpcuds_health_register`.
unfoldable pub seed : Bool → HealthState → HealthState
unfolding set
seed room h = if h.seeded then h else record (set room [] serving h) { seeded = true }
