-- ===== src/Blocking/Dial.antt =====
-- Making the connection of rust/grpcuds/src/client.rs: `connect_bounded`, `Client::connect` and
-- `connect_wait`. What the system and nghttp2 answer to one attempt is an `Attempt`.
use Prim.Native.Nat.{bit_xor}
use grpc_uds.Prelude.{
  ℕ, ◌+◌, ◌-◌, ◌*◌, ◌/◌, ◌%◌, ◌^◌, min, Bool, true, false, List, [], ◌∷◌, ◌++◌, Option, none, some,
  Result, ok, err, ltb, ◌==◌, ◌&&◌, ◌||◌, if◌then◌else◌, length,
}
use grpc_uds.Headers.Timeout.{sat_mul}
use grpc_uds.Uds.{SendAnswer}
use grpc_uds.Types.{Error}
use grpc_uds.Client.Conn.{submit_settings}
use grpc_uds.Client.Conn.Wait.{sun_path_len}
use grpc_uds.Blocking.{Client, flush_send}

-- What connect(2) answers, and for EINPROGRESS what poll says, and SO_ERROR where it can be asked.
pub data ConnectAnswer : Type 0 where
  connected : ConnectAnswer
  connect_fails : ℕ → ConnectAnswer
  in_progress : Bool → Result (Option ℕ) ℕ → ConnectAnswer

pub record Attempt : Type 0 where
  pub socket : Result ℕ ℕ
  pub connects : ConnectAnswer
  pub unblocks : Option ℕ
  pub callbacks : Bool
  pub opens_session : Bool
  pub takes_settings : Bool
  pub chunks : List (List ℕ)
  pub answers : List SendAnswer
  pub flush_errno : Option ℕ

-- The descriptors that are closed, and the result.
abbrev pub Attempted : Type 0 → Type 0
Attempted A = List ℕ × Result A Error

-- The errno of a failure, none for one with a kind only.
abbrev so_error : Result (Option ℕ) ℕ → Option (Option ℕ)
so_error (ok none) = none
so_error (ok (some e)) = some (some e)
so_error (err e) = some (some e)

abbrev connect_failure : ConnectAnswer → Option (Option ℕ)
connect_failure connected = none
connect_failure (connect_fails e) = some (some e)
connect_failure (in_progress one_ready asked) = if one_ready then so_error asked else some none

abbrev unblocked : List ℕ → ℕ → Option ℕ → Attempted ℕ
unblocked path fd none = ([], ok fd)
unblocked path fd (some e) = (fd ∷ [], err (Error.connect path (some e)))

abbrev on_connect : List ℕ → ℕ → Option ℕ → Option (Option ℕ) → Attempted ℕ
on_connect path fd unblocks none = unblocked path fd unblocks
on_connect path fd unblocks (some e) = (fd ∷ [], err (Error.connect path e))

abbrev on_socket : Attempt → List ℕ → Result ℕ ℕ → Attempted ℕ
on_socket a path (err e) = ([], err (Error.connect path (some e)))
on_socket a path (ok fd) = on_connect path fd a.unblocks (connect_failure a.connects)

-- With the error that `connect` makes of its own. A NUL at the end is not trimmed.
unfoldable pub connect_bounded : Attempt → List ℕ → Attempted ℕ
connect_bounded a path =
    if (length path == 0) || ltb (sun_path_len - 1) (length path)
    then ([], err (Error.connect path none))
    else on_socket a path a.socket

unfoldable pub new_client : ℕ → List ℕ → Client
new_client fd path = record {
  fd = fd;
  commands = submit_settings ∷ [];
  wire = [];
  received = [];
  state = record {
    req = [];
    req_off = 0;
    http_status = none;
    grpc_status = none;
    grpc_message = none;
    inbuf = [];
    messages = [];
    closed = false;
    close_error = 0;
  };
  timeout = none;
  deadline_at = none;
  current_sid = 0;
  path = path;
  broken = false;
}

-- A client that is dropped closes its socket.
abbrev flushed : Option ℕ → Client × Bool → Attempted Client
flushed e (c, true) = ([], ok c)
flushed e (c, false) = (c.fd ∷ [], err (Error.io e))

abbrev with_session : Attempt → List ℕ → Attempted ℕ → Attempted Client
with_session a path (closed, err e) = (closed, err e)
with_session a path (closed, ok fd) =
    if a.callbacks && (a.opens_session && a.takes_settings)
    then flushed a.flush_errno (flush_send a.chunks a.answers (new_client fd path))
    else (fd ∷ [], err Error.session)

unfoldable pub connect : Attempt → List ℕ → List ℕ × Result Client Error
unfolding connect_bounded flush_send new_client
connect a path = with_session a path (connect_bounded a path)

abbrev connect_backoff_initial_ms : ℕ
connect_backoff_initial_ms = 50

abbrev connect_backoff_max_ms : ℕ
connect_backoff_max_ms = 1000

unfoldable pub next_backoff_ms : ℕ → ℕ
next_backoff_ms cur = min (sat_mul cur 8 / 5) connect_backoff_max_ms

unfoldable pub apply_jitter : ℕ → ℕ → ℕ
apply_jitter ms r = sat_mul ms (80 + r % 41) / 100

-- On u64; the result is the new state as well.
unfoldable pub xorshift64 : ℕ → ℕ
xorshift64 s =
    let a = bit_xor s (s * 2 ^ 13 % 2 ^ 64) in
    let b = bit_xor a (a / 2 ^ 7) in bit_xor b (b * 2 ^ 17 % 2 ^ 64)

-- The naps of a wait, the descriptors it closes, and its result; none where the attempts run out.
abbrev pub Waited : Type 0
Waited = List ℕ × List ℕ × Option (Result Client Error)

abbrev after_nap : ℕ → List ℕ → Waited → Waited
after_nap nap closed (naps, later, w) = (nap ∷ naps, closed ++ later, w)

abbrev on_attempt : (ℕ → ℕ → Waited) → ℕ → ℕ → ℕ → ℕ → List ℕ × Result Client Error → Waited
on_attempt next deadline backoff rng now (closed, ok c) = ([], closed, some (ok c))
on_attempt next deadline backoff rng now (closed, err e) =
    let rng' = xorshift64 rng in
    let nap = min (apply_jitter backoff rng' * 10 ^ 6) (deadline - now) in
    if deadline - now == 0
    then ([], closed, some (err e))
    else after_nap nap closed (next (next_backoff_ms backoff) rng')

-- Each attempt with the clock after it.
unfoldable pub wait_loop : List ℕ → ℕ → List (Attempt × ℕ) → ℕ → ℕ → Waited
unfolding connect xorshift64 apply_jitter next_backoff_ms
wait_loop path deadline [] backoff rng = ([], [], none)
wait_loop path deadline ((a, now) ∷ attempts) backoff rng =
    on_attempt (wait_loop path deadline attempts) deadline backoff rng now (connect a path)

-- `start` is the clock, and `nanos` those of the current second of the epoch.
unfoldable pub connect_wait : List ℕ → ℕ → ℕ → ℕ → ℕ → List (Attempt × ℕ) → Waited
unfolding wait_loop
connect_wait path timeout start nanos pid attempts =
    let odd_pid = pid / 2 * 2 + 1 in
    wait_loop path (start + timeout) attempts connect_backoff_initial_ms
      (bit_xor (nanos * 2 ^ 17 % 2 ^ 64) odd_pid)
