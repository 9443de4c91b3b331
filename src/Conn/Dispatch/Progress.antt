-- ===== src/Conn/Dispatch/Progress.antt =====
-- What a pass of `dispatch` leaves of the streams that wait for their handler, and its count.
use grpc_uds.Prelude.{
  ℕ, suc, ◌+◌, ◌≡◌, Option, none, some, if◌then◌else◌, All, take, drop, length, get_elem?,
}
use mathlib.Core.Option
use grpc_uds.Conn.{Conn, StreamState}
use grpc_uds.Conn.Calls.Valid.{AllValid}
use grpc_uds.Conn.Dispatch.{is_complete}
use grpc_uds.Conn.Dispatch.States.{states, NotComplete, count_complete}
use grpc_uds.Conn.Dispatch.Serves.{Serves}

count_here : Option StreamState → ℕ
count_here none = 0
count_here (some x) = if is_complete x then 1 else 0

-- What a pass over the streams from index `i` on has done when it is through.
record Passed (i left : ℕ) (c : Conn) (r : Conn × ℕ) : Type 0 where
  settled : All NotComplete (take i (states c)) → All NotComplete (take (i + left) (states r.0))
  counted : r.1 ≡ count_complete (take left (drop i (states c)))
  as_many : length (states r.0) ≡ length (states c)
  queues : AllValid c → AllValid r.0

-- One step of the pass.
record Stepped (i : ℕ) (c : Conn) (r : Conn × ℕ) : Type 0 where
  settled : All NotComplete (take i (states c)) → All NotComplete (take (suc i) (states r.0))
  counted : r.1 ≡ count_here (get_elem? (states c) i)
  ahead : drop (suc i) (states r.0) ≡ drop (suc i) (states c)
  as_many : length (states r.0) ≡ length (states c)
  queues : AllValid c → AllValid r.0
