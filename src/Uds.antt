-- ===== src/Uds.antt =====
-- The I/O of a connection on its socket, rust/grpcuds-core/src/uds.rs. The answers of the system
-- calls and of nghttp2 are lists, in the order in which they are given; where the answers of the
-- socket run out it would block.
pub mod Listener
pub mod Ordered
pub mod Pending
mod Tests
use grpc_uds.Prelude.{
  ℕ, zero, suc, ◌+◌, ◌-◌, Bool, true, false, ◌||◌, not, List, [], ◌∷◌, ◌++◌, Option, none, some,
  Result, ok, err, ◌==◌, if◌then◌else◌, length, drop, take, ltb,
}
use grpc_uds.Errors.{ConnError, Reply, out_of_memory}
use grpc_uds.Conn.{Conn, Answers}
use grpc_uds.Conn.Receive.{consume_pending, stash_pending}
use grpc_uds.Conn.Deadlines.{expire_deadlines}
use grpc_uds.Conn.Dispatch.{dispatch}

pub data IoError : Type 0 where
  errno : ℕ → IoError
  invalid_path : IoError
  conn_error : ConnError → IoError

pub data TickStatus : Type 0 where
  live closed : TickStatus

pub data SendAnswer : Type 0 where
  sends : ℕ → SendAnswer
  eintr eagain : SendAnswer
  send_fails : ℕ → SendAnswer

-- The bytes that made it out, the answers left, and the error.
pub record Wrote : Type 0 where
  pub out : List ℕ
  pub left : List SendAnswer
  pub failure : Option IoError

abbrev with_out : List ℕ → Wrote → Wrote
with_out bytes w = record w { out = bytes ++ w.out }

unfoldable pub write_some : List SendAnswer → List ℕ → Wrote
write_some [] bytes = record { out = []; left = []; failure = none }
write_some (a ∷ answers) [] = record { out = []; left = a ∷ answers; failure = none }
write_some (sends n ∷ answers) (b ∷ bs) =
    with_out (take n (b ∷ bs)) (write_some answers (drop n (b ∷ bs)))
write_some (eintr ∷ answers) (b ∷ bs) = write_some answers (b ∷ bs)
write_some (eagain ∷ answers) (b ∷ bs) = record { out = []; left = answers; failure = none }
write_some (send_fails e ∷ answers) (b ∷ bs) = record {
  out = [];
  left = answers;
  failure = some (errno e);
}

-- Where a loop over the socket stands: done with its bytes, stopped by a full socket, or failed.
pub data Stop : Type 0 where
  emptied full : Stop
  broken : IoError → Stop

pub record Flushed : Type 0 where
  pub conn : Conn
  pub left : List SendAnswer
  pub stop : Stop

-- The bytes that `send` took.
abbrev pub put_out : List ℕ → Conn → Conn
put_out bytes c = record c { sent = c.sent ++ bytes }

abbrev wrote_pending :
    (List SendAnswer → Conn → Flushed) → Conn → List ℕ → List SendAnswer → Option IoError → Flushed
wrote_pending next c out left (some e) = record {
  conn = put_out out c;
  left = left;
  stop = broken e;
}
wrote_pending next c [] left none = record { conn = c; left = left; stop = full }
wrote_pending next c (b ∷ out) left none =
    next left (consume_pending (length (b ∷ out)) (put_out (b ∷ out) c))

-- A round of the loop at the pending bytes.
abbrev pending_round :
    (List SendAnswer → Conn → Flushed) → List SendAnswer → Conn → List ℕ → Flushed
pending_round next answers c [] = record { conn = c; left = answers; stop = emptied }
pending_round next answers c (p ∷ ps) =
    let w = write_some answers (p ∷ ps) in wrote_pending next c w.out w.left w.failure

-- The loop `while self.conn.has_pending()`. The number bounds the rounds; each takes a byte or
-- stops.
unfoldable pub pending_loop : ℕ → List SendAnswer → Conn → Flushed
unfolding write_some consume_pending
pending_loop zero answers c = record { conn = c; left = answers; stop = full }
pending_loop (suc rounds) answers c = pending_round (pending_loop rounds) answers c c.out_pending

unfoldable pub flush_pending : List SendAnswer → Conn → Flushed
unfolding pending_loop
flush_pending answers c = pending_loop (suc (length c.out_pending)) answers c

-- A call of `pull_send`: nghttp2 works on the connection by the callbacks, and gives a chunk.
pub record Pull : Type 0 where
  pub effect : Conn → Conn
  pub chunk : Result (List ℕ) ConnError

abbrev pub Flush : Type 0
Flush = Conn × Result Stop IoError

-- What a partial write leaves is stashed; `room` and `stash` are the allocator's answers.
abbrev after_stash : Conn × Reply → Flush
after_stash (c, ok _) = (c, ok full)
after_stash (c, err e) = (c, err (conn_error e))

abbrev stashed : Conn → Bool → Bool → List ℕ → Flush
stashed c room stash rest =
    if room then after_stash (stash_pending stash rest c) else (c, err (conn_error out_of_memory))

abbrev wrote_chunk :
    (List SendAnswer → Conn → Flush)
    → Bool
    → Bool
    → Conn
    → List ℕ
    → List ℕ
    → List SendAnswer
    → Option IoError
    → Flush
wrote_chunk next room stash c chunk out left (some e) = (put_out out c, err e)
wrote_chunk next room stash c chunk out left none =
    if ltb (length out) (length chunk)
    then stashed (put_out out c) room stash (drop (length out) chunk)
    else next left (put_out out c)

abbrev pulled :
    (List SendAnswer → Conn → Flush)
    → Bool
    → Bool
    → List SendAnswer
    → Conn
    → Result (List ℕ) ConnError
    → Flush
pulled next room stash answers c (err e) = (c, err (conn_error e))
pulled next room stash answers c (ok []) = (c, ok emptied)
pulled next room stash answers c (ok (b ∷ bs)) =
    let w = write_some answers (b ∷ bs) in
    wrote_chunk next room stash c (b ∷ bs) w.out w.left w.failure

-- The rest of a round, after the loop over the pending bytes.
abbrev after_pending : (List SendAnswer → Conn → Flush) → Conn → List SendAnswer → Stop → Flush
after_pending next c left emptied = next left c
after_pending next c left full = (c, ok full)
after_pending next c left (broken e) = (c, err e)

abbrev then_pull : (List SendAnswer → Conn → Flush) → Flushed → Flush
then_pull next f = after_pending next f.conn f.left f.stop

-- The loop of `flush_writes`, over the answers of `pull_send`; nghttp2 has no more after them.
unfoldable pub flush_loop : Bool → Bool → List Pull → List SendAnswer → Conn → Flush
unfolding flush_pending stash_pending
flush_loop room stash [] answers c =
    then_pull (λ left c'. (c', ok emptied)) (flush_pending answers c)
flush_loop room stash (p ∷ ps) answers c =
    then_pull (λ left c'. pulled (flush_loop room stash ps) room stash left (p.effect c') p.chunk)
      (flush_pending answers c)

abbrev pub is_empty : List ℕ → Bool
is_empty [] = true
is_empty (b ∷ bs) = false

-- `wants` is what nghttp2 answers to want_read or want_write.
abbrev status_after : Bool → Flush → Conn × Result TickStatus IoError
status_after wants (c, err e) = (c, err e)
status_after wants (c, ok emptied) =
    (c, ok (if wants || not (is_empty c.out_pending) then live else closed))
status_after wants (c, ok full) = (c, ok live)
status_after wants (c, ok (broken e)) = (c, err e)

unfoldable pub flush_writes :
    Bool → Bool → Bool → List Pull → List SendAnswer → Conn → Conn × Result TickStatus IoError
unfolding flush_loop
flush_writes room stash wants pulls answers c =
    status_after wants (flush_loop room stash pulls answers c)

pub data ReadAnswer : Type 0 where
  reads : List ℕ → ReadAnswer
  read_eintr read_eagain : ReadAnswer
  read_fails : ℕ → ReadAnswer

-- `session_mem_recv`, with the callbacks that it makes.
abbrev pub Recv : Type 0
Recv = List ℕ → Conn → Conn × Result ℕ ConnError

-- `none` once the socket would block.
abbrev pub Drained : Type 0
Drained = Conn × Result (Option TickStatus) IoError

abbrev recv_then : (Conn → Drained) → Conn × Result ℕ ConnError → Drained
recv_then next (c, ok n) = next c
recv_then next (c, err e) = (c, err (conn_error e))

unfoldable pub drain_reads : Recv → List ReadAnswer → Conn → Drained
drain_reads recv [] c = (c, ok none)
drain_reads recv (reads [] ∷ answers) c = (c, ok (some closed))
drain_reads recv (reads (b ∷ bs) ∷ answers) c =
    recv_then (drain_reads recv answers) (recv (b ∷ bs) c)
drain_reads recv (read_eintr ∷ answers) c = drain_reads recv answers c
drain_reads recv (read_eagain ∷ answers) c = (c, ok none)
drain_reads recv (read_fails e ∷ answers) c = (c, err (errno e))

unfoldable pub tick_write :
    ℕ → Bool → Bool → Bool → List Pull → List SendAnswer → Conn → Conn × Result TickStatus IoError
unfolding flush_writes
tick_write now room stash wants pulls answers c =
    flush_writes room stash wants pulls answers (expire_deadlines now c)

abbrev after_reads :
    (Conn → Conn × Result TickStatus IoError) → Drained → Conn × Result TickStatus IoError
after_reads next (c, err e) = (c, err e)
after_reads next (c, ok (some st)) = (c, ok st)
after_reads next (c, ok none) = next c

unfoldable pub tick_read :
    Answers
    → ℕ
    → Recv
    → List ReadAnswer
    → Bool
    → Bool
    → Bool
    → List Pull
    → List SendAnswer
    → Conn
    → Conn × Result TickStatus IoError
unfolding flush_writes drain_reads
tick_read session now recv inputs room stash wants pulls answers c =
    after_reads (λ c'. flush_writes room stash wants pulls answers (dispatch session now c').0)
      (drain_reads recv inputs (expire_deadlines now c))

-- `wants` is what nghttp2 answers.
unfoldable pub wants_write : Bool → Conn → Bool
wants_write wants c = not (is_empty c.out_pending) || wants
