-- ===== src/Client/Conn/Wait.antt =====
-- Making a connection: `connect_uds`, `ClientConn::connect` and `connect_wait` of
-- rust/grpcuds-core/src/client.rs. What the system answers to one attempt is an `Attempt`.
pub mod Naps
pub mod Ends
use Prim.Native.Nat.{bit_xor}
use grpc_uds.Prelude.{
  ℕ, ◌+◌, ◌-◌, ◌*◌, ◌/◌, ◌%◌, ◌^◌, min, Bool, true, false, List, [], ◌∷◌, ◌++◌, Option, none, some,
  Result, ok, err, ltb, leb, ◌==◌, ◌&&◌, ◌||◌, not, if◌then◌else◌, length,
}
use grpc_uds.Headers.Timeout.{sat_mul}
use grpc_uds.Uds.{SendAnswer}
use grpc_uds.Client.Call.{CallState}
use grpc_uds.Client.Conn.{ClientConn, ClientError, submit_settings, flush_send}

-- What connect(2) and, for EINPROGRESS, poll and SO_ERROR answer.
pub data ConnectAnswer : Type 0 where
  connected connect_fails : ConnectAnswer
  in_progress : Bool → Bool → ConnectAnswer

-- `socket` is the descriptor, none when there is none. `unblocks` says that both fcntl calls
-- succeed.
pub record Attempt : Type 0 where
  pub reserves : Bool
  pub socket : Option ℕ
  pub connects : ConnectAnswer
  pub unblocks : Bool
  pub callbacks : Bool
  pub opens_session : Bool
  pub takes_settings : Bool
  pub chunks : List (List ℕ)
  pub answers : List SendAnswer

-- The size of `sun_path`.
abbrev pub sun_path_len : ℕ
sun_path_len = 108

-- The path without a NUL at its end.
abbrev pub trim_nul : List ℕ → List ℕ
trim_nul [] = []
trim_nul (b ∷ []) = if b == 0 then [] else b ∷ []
trim_nul (a ∷ b ∷ bs) = a ∷ trim_nul (b ∷ bs)

abbrev is_connected : ConnectAnswer → Bool
is_connected connected = true
is_connected connect_fails = false
is_connected (in_progress one_ready no_error) = one_ready && no_error

-- The descriptors that an attempt closes, and what it returns.
abbrev pub Attempted : Type 0 → Type 0
Attempted A = List ℕ × Result A ClientError

abbrev on_socket : Attempt → Option ℕ → Attempted ℕ
on_socket a none = ([], err ClientError.connect)
on_socket a (some fd) =
    if is_connected a.connects && a.unblocks
    then ([], ok fd)
    else (fd ∷ [], err ClientError.connect)

unfoldable pub connect_uds : Attempt → List ℕ → Attempted ℕ
connect_uds a path =
    let trimmed = trim_nul path in
    if (length trimmed == 0) || ltb (sun_path_len - 1) (length trimmed)
    then ([], err ClientError.connect)
    else on_socket a a.socket

unfoldable pub new_conn : ℕ → List ℕ → ClientConn
new_conn fd path = record {
  fd = fd;
  commands = submit_settings ∷ [];
  wire = [];
  received = [];
  state = record {
    req = [];
    req_off = 0;
    http_status = none;
    grpc_status = none;
    grpc_message = none;
    inbuf = [];
    messages = [];
    closed = false;
  };
  timeout_ms = none;
  deadline_ms = none;
  current_sid = 0;
  path = path;
  broken = false;
}

-- The end of `connect`: a connection whose flush fails is dropped, which closes its descriptor.
abbrev flushed : ClientConn × Bool → Attempted ClientConn
flushed (c, true) = ([], ok c)
flushed (c, false) = (c.fd ∷ [], err ClientError.io)

abbrev on_connected : Attempt → List ℕ → Attempted ℕ → Attempted ClientConn
on_connected a path (closed, err e) = (closed, err e)
on_connected a path (closed, ok fd) =
    if not (a.callbacks && (a.opens_session && a.takes_settings))
    then (fd ∷ [], err ClientError.session)
    else flushed (flush_send a.chunks a.answers (new_conn fd path))

unfoldable pub connect : Attempt → List ℕ → List ℕ × Result ClientConn ClientError
unfolding connect_uds flush_send new_conn
connect a path =
    if a.reserves
    then on_connected a (trim_nul path) (connect_uds a path)
    else ([], err ClientError.connect)

abbrev pub connect_backoff_initial_ms : ℕ
connect_backoff_initial_ms = 50

abbrev pub connect_backoff_max_ms : ℕ
connect_backoff_max_ms = 1000

unfoldable pub next_backoff_ms : ℕ → ℕ
next_backoff_ms cur = min (sat_mul cur 8 / 5) connect_backoff_max_ms

unfoldable pub apply_jitter : ℕ → ℕ → ℕ
apply_jitter ms r = sat_mul ms (80 + r % 41) / 100

-- The shifts are on u64. The result is the new state as well.
unfoldable pub xorshift64 : ℕ → ℕ
xorshift64 s =
    let a = bit_xor s (s * 2 ^ 13 % 2 ^ 64) in
    let b = bit_xor a (a / 2 ^ 7) in bit_xor b (b * 2 ^ 17 % 2 ^ 64)

-- Where a wait ends: the connection, or the error of the last attempt, or out of attempts.
pub data Waited : Type 0 where
  connects_to : ClientConn → Waited
  gives_up : ClientError → Waited
  waits : Waited

-- The loop of `connect_wait` over attempts, each with the clock after it: the naps it takes, what
-- it closes, and where it ends.
abbrev pub Waiting : Type 0
Waiting = List ℕ × List ℕ × Waited

abbrev after_nap : ℕ → List ℕ → Waiting → Waiting
after_nap nap closed (naps, later, w) = (nap ∷ naps, closed ++ later, w)

abbrev on_attempt :
    (ℕ → ℕ → Waiting) → ℕ → ℕ → ℕ → ℕ → List ℕ × Result ClientConn ClientError → Waiting
on_attempt next deadline backoff rng now (closed, ok c) = ([], closed, connects_to c)
on_attempt next deadline backoff rng now (closed, err e) =
    let rng' = xorshift64 rng in
    let nap = min (apply_jitter backoff rng') (deadline - now) in
    if leb deadline now
    then ([], closed, gives_up e)
    else after_nap nap closed (next (next_backoff_ms backoff) rng')

unfoldable pub wait_loop : List ℕ → ℕ → List (Attempt × ℕ) → ℕ → ℕ → Waiting
unfolding connect xorshift64 apply_jitter next_backoff_ms
wait_loop path deadline [] backoff rng = ([], [], waits)
wait_loop path deadline ((a, now) ∷ attempts) backoff rng =
    on_attempt (wait_loop path deadline attempts) deadline backoff rng now (connect a path)

-- `start` and `seed_clock` are the first two readings of the clock, `pid` is that of the process.
unfoldable pub connect_wait : List ℕ → ℕ → ℕ → ℕ → ℕ → List (Attempt × ℕ) → Waiting
unfolding wait_loop
connect_wait path timeout_ms start seed_clock pid attempts =
    let odd_pid = pid / 2 * 2 + 1 in
    wait_loop path (start + timeout_ms) attempts connect_backoff_initial_ms
      (bit_xor (seed_clock * 2 ^ 17 % 2 ^ 64) odd_pid)
