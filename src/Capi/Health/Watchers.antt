-- ===== src/Capi/Health/Watchers.antt =====
-- Who hears of a change of status: the registry of watchers against the history of the calls of
-- `Watch`, of the cancellations and of the changes.
use grpc_uds.Prelude.{
  ℕ, arith, ◌≡◌, refl, sym, ap, ◌∙◌, Bool, true, false, not, List, [], ◌∷◌, ◌++◌, map, Option, none,
  some, ℤ, pos, length, ◌<◌, ◌==◌, ◌&&◌, ◌||◌, if◌then◌else◌, same_bytes, same_bytes_self,
  append_assoc, append-nil, Bool-cases, inl, inr,
}
use grpc_uds.Capi.Health.{
  Watcher, HealthState, Room, decode_check_request, live_ones, subscribe, watch_tr, watch_service,
  on_cancel, bury, targets, set, find, encode_response, after_write, notify, SetRoom,
  grpcuds_health_set_status,
}
use grpc_uds.Capi.Health.Statuses.{find-set_entry}
use grpc_uds.Capi.{World, grpcuds_call_write}

-- A call of `Watch` with the address of its watcher, its handle, its id and its request; the cancel
-- hook of a watcher; a change of a status.
pub data Event : Type 0 where
  watches : ℕ → ℕ → ℕ → List ℕ → Event
  cancels : ℕ → Event
  sets : List ℕ → ℤ → Event

abbrev pub ample : Room
ample = record { response = true; copy = true; queue = true; name = true; watcher = true }

unfoldable pub apply_event : ℕ → Event → HealthState → HealthState
apply_event hook (watches a call i req) h = (watch_tr ample hook a call i req h).0
apply_event hook (cancels a) h = on_cancel a h
apply_event hook (sets name code) h = set true name code h

unfoldable pub apply_events : ℕ → List Event → HealthState → HealthState
unfolding apply_event
apply_events hook [] h = h
apply_events hook (e ∷ es) h = apply_events hook es (apply_event hook e h)

-- The watcher at an address is cancelled by one of the events.
abbrev pub cancelled : ℕ → List Event → Bool
cancelled a [] = false
cancelled a (watches b call i req ∷ es) = cancelled a es
cancelled a (cancels b ∷ es) = (a == b && not (b == 0)) || cancelled a es
cancelled a (sets name code ∷ es) = cancelled a es

abbrev pub asks : List ℕ → Option (List ℕ) → Bool
asks name none = false
asks name (some service) = same_bytes service name

-- The calls that asked for a service and were not cancelled since, in their order.
abbrev pub wanted : List ℕ → List Event → List (ℕ × ℕ)
wanted name [] = []
wanted name (watches a call i req ∷ es) =
    (if asks name (decode_check_request req) && not (cancelled a es) then (call, i) ∷ [] else [])
    ++ wanted name es
wanted name (cancels a ∷ es) = wanted name es
wanted name (sets other code ∷ es) = wanted name es

-- The watchers of a service that the events to come do not cancel.
abbrev survivors : List ℕ → List Event → List Watcher → List (ℕ × ℕ)
survivors name es [] = []
survivors name es (w ∷ ws) =
    if w.live && (same_bytes w.service name && not (cancelled w.address es))
    then (w.call, w.call_id) ∷ survivors name es ws
    else survivors name es ws

survivors-live_ones :
    (name : List ℕ) (es : List Event) (ws : List Watcher)
    → survivors name es (live_ones ws) ≡ survivors name es ws
survivors-live_ones name es [] = refl
survivors-live_ones name es (w ∷ ws) =
    let rest = survivors-live_ones name es ws in
    elim (Bool-cases w.live) [ inl e ↦ ground (arith, rest) | inr e ↦ ground (arith, rest) ]

survivors-append :
    (name : List ℕ) (es : List Event) (xs ys : List Watcher)
    → survivors name es (xs ++ ys) ≡ survivors name es xs ++ survivors name es ys
survivors-append name es [] ys = refl
survivors-append name es (w ∷ ws) ys =
    let rest = survivors-append name es ws ys in ground (arith, rest)

survivors-bury :
    (name : List ℕ) (es : List Event) (b : ℕ) (ws : List Watcher)
    → (b == 0) ≡ false
    → survivors name es (map (bury b) ws) ≡ survivors name (cancels b ∷ es) ws
survivors-bury name es b [] h = refl
survivors-bury name es b (w ∷ ws) h =
    let rest = survivors-bury name es b ws h in ground (arith, rest)

targets-survivors :
    (name : List ℕ) (ws : List Watcher) → targets (λ _. true) name ws ≡ survivors name [] ws
unfolding targets
targets-survivors name [] = refl
targets-survivors name (w ∷ ws) = let rest = targets-survivors name ws in ground (arith, rest)

survivors-same :
    (name : List ℕ) (es es' : List Event) (ws : List Watcher)
    → ((a : ℕ) → cancelled a es ≡ cancelled a es')
    → survivors name es ws ≡ survivors name es' ws
survivors-same name es es' [] h = refl
survivors-same name es es' (w ∷ ws) h =
    let rest = survivors-same name es es' ws h in let same = h w.address in rw (same, rest) refl

watch_service-survivors :
    (name : List ℕ) (es : List Event) (hook a call i : ℕ) (h : HealthState) (o : Option (List ℕ))
    → survivors name es (watch_service ample hook a call i h o).0.watchers
      ≡ survivors name es h.watchers
        ++ (if asks name o && not (cancelled a es) then (call, i) ∷ [] else [])
unfolding subscribe
watch_service-survivors name es hook a call i h none =
    sym (append-nil (survivors name es h.watchers))
watch_service-survivors name es hook a call i h (some service) =
    survivors-append name es (live_ones h.watchers) _
    ∙ ap
        (λ l. l ++ (if same_bytes service name && not (cancelled a es) then (call, i) ∷ [] else []))
        (survivors-live_ones name es h.watchers)

on_cancel-survivors :
    (name : List ℕ) (es : List Event) (b : ℕ) (h : HealthState)
    → survivors name es (on_cancel b h).watchers ≡ survivors name (cancels b ∷ es) h.watchers
unfolding on_cancel
on_cancel-survivors name es b h = elim (Bool-cases (b == 0)) [
  | inl e ↦ rw e (survivors-same name es (cancels b ∷ es) h.watchers (λ a. ground arith))
  | inr e ↦ rw e (survivors-bury name es b h.watchers e)
]

apply_events-survivors :
    (hook : ℕ) (name : List ℕ) (es : List Event) (h : HealthState)
    → survivors name [] (apply_events hook es h).watchers
      ≡ survivors name es h.watchers ++ wanted name es
unfolding apply_events apply_event watch_tr set
apply_events-survivors hook name [] h = sym (append-nil (survivors name [] h.watchers))
apply_events-survivors hook name (watches a call i req ∷ es) h =
    let o = decode_check_request req in
    apply_events-survivors hook name es (watch_service ample hook a call i h o).0
    ∙ ap (λ l. l ++ wanted name es) (watch_service-survivors name es hook a call i h o)
    ∙ append_assoc (survivors name es h.watchers) _ (wanted name es)
    ∙ ap (λ l. l ++ wanted name (watches a call i req ∷ es))
        (survivors-same name es (watches a call i req ∷ es) h.watchers (λ a. refl))
apply_events-survivors hook name (cancels b ∷ es) h =
    apply_events-survivors hook name es (on_cancel b h)
    ∙ ap (λ l. l ++ wanted name es) (on_cancel-survivors name es b h)
apply_events-survivors hook name (sets other code ∷ es) h =
    apply_events-survivors hook name es (set true other code h)
    ∙ ap (λ l. l ++ wanted name es)
        (survivors-same name es (sets other code ∷ es) h.watchers (λ a. refl))

-- A change of a status reaches exactly the calls of `Watch` that asked for that service and were
-- not cancelled since, in their order.
targets-wanted :
    (hook : ℕ) (name : List ℕ) (es : List Event) (h : HealthState)
    → h.watchers ≡ []
    → targets (λ _. true) name (apply_events hook es h).watchers ≡ wanted name es
targets-wanted hook name es h e =
    targets-survivors name (apply_events hook es h).watchers
    ∙ apply_events-survivors hook name es h
    ∙ rw e refl

-- The message of a status: field 1 is a varint, and 0 is left out.
abbrev pub status_message : ℕ → List ℕ
status_message n = if n == 0 then [] else 8 ∷ n ∷ []

-- The message is written to the calls, one after the other, by the calling thread.
abbrev pub and_then : (World → Option World) → Option (World × ℤ) → Option World
and_then next none = none
and_then next (some (w, rc)) = next w

abbrev pub written_to : ℕ → List ℕ → List (ℕ × ℕ) → World → Option World
written_to me msg [] w = some w
written_to me msg ((call, i) ∷ more) w =
    and_then (written_to me msg more)
      (grpcuds_call_write true true me call i (some msg) (length msg) w)

notify-written_to :
    (me : ℕ) (msg : List ℕ) (calls : List (ℕ × ℕ)) (w : World)
    → notify (λ _. true) me msg calls w ≡ written_to me msg calls w
unfolding notify
notify-written_to me msg [] w = refl
notify-written_to me msg ((call, i) ∷ more) w =
    go (grpcuds_call_write true true me call i (some msg) (length msg) w)
      (notify-written_to me msg more)
  where
    go :
        (o : Option (World × ℤ))
        → ((w' : World) → notify (λ _. true) me msg more w' ≡ written_to me msg more w')
        → after_write (notify (λ _. true) me msg more) o ≡ and_then (written_to me msg more) o
    go none rest = refl
    go (some (w', rc)) rest = rest w'

abbrev pub all_room : SetRoom
all_room = record { entry = true; list = λ _. true; response = true; writes = λ _. true }

message-encode_response : (n : ℕ) → n < 128 → encode_response true (pos n) ≡ status_message n
unfolding encode_response
message-encode_response n small = ground arith

-- From a registry that had no watchers, after any calls of `Watch`, cancellations and changes, with
-- all memory granted: `grpcuds_health_set_status` to a status below 128 makes it the status of the
-- service, and writes its message, by `grpcuds_call_write` on the calling thread, to exactly the
-- calls of `Watch` that asked for that service and were not cancelled since, in their order, and
-- does nothing else to the mailbox and the connections.
pub set_status-Notified :
    (me hook n : ℕ) (name : List ℕ) (es : List Event) (h : HealthState) (w : World)
    → h.watchers ≡ []
    → n < 128
    → let (h', w') =
        grpcuds_health_set_status all_room me name (pos n) (apply_events hook es h) w in
      (find name h'.statuses ≡ some (pos n))
      × (w' ≡ written_to me (status_message n) (wanted name es) w)
unfolding grpcuds_health_set_status set
set_status-Notified me hook n name es h w e small = (
  find-set_entry name name (pos n) (apply_events hook es h).statuses
      ∙ rw (same_bytes_self name) refl,
  ap (λ calls. notify (λ _. true) me (encode_response true (pos n)) calls w)
        (targets-wanted hook name es h e)
      ∙ notify-written_to me (encode_response true (pos n)) (wanted name es) w
      ∙ ap (λ msg. written_to me msg (wanted name es) w) (message-encode_response n small),
)
