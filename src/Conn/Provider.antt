-- ===== src/Conn/Provider.antt =====
-- The send side: `data_provider_read` of rust/grpcuds-core/src/conn/dispatch.rs and `send_data` of
-- rust/grpcuds-core/src/conn/callbacks.rs.
pub mod Ordered
use grpc_uds.Prelude.{
  ℕ, zero, suc, ◌+◌, ◌-◌, Bool, true, false, ◌&&◌, ◌||◌, not, List, [], ◌∷◌, ◌++◌, Option, none,
  some, ℤ, pos, negsuc, ltb, leb, ◌==◌, if◌then◌else◌, length, drop, take,
}
use grpc_uds.Headers.{GrpcStatus, Header, trailer, trailer_with_message}
use grpc_uds.OutQueue.{
  OutQueue, front_remaining, promise_front, front_regions, consume_front, drain_into,
}
use grpc_uds.Conn.{
  Conn, StreamCtx, Answers, is_zero, command, submit_trailer, find_stream, on_stream, set_out,
}

abbrev pub nocopy_min : ℕ
nocopy_min = 4096

-- What the read callback gives nghttp2: bytes copied to the buffer, a number of bytes promised
-- under NO_COPY, EOF with NO_END_STREAM, or one of its errors.
pub data Read : Type 0 where
  copied : List ℕ → Read
  promised : ℕ → Read
  eof deferred temporal_failure callback_failure : Read

abbrev is_socket : ℤ → Bool
is_socket (pos n) = true
is_socket (negsuc n) = false

-- The trailer of a finished queue; an empty message is no message.
unfoldable pub final_trailer : OutQueue → List Header
final_trailer q = elim q.final_message [
  | none ↦ trailer q.final_status
  | some msg ↦ elim msg [
    | [] ↦ trailer q.final_status
    | b ∷ bs ↦ trailer_with_message q.final_status (b ∷ bs)
  ]
]

abbrev at_end : Answers → StreamCtx → Conn → Conn × Read
at_end answers s c =
    if s.out.finished
    then (let cmd = submit_trailer s.id (final_trailer s.out) in
        (command cmd c, if is_zero (answers c.commands cmd) then eof else callback_failure))
    else (c, deferred)

abbrev drained : Answers → StreamCtx → Conn → List ℕ × OutQueue → Conn × Read
drained answers s c (bytes, q) =
    let c' = on_stream s.id (set_out q) c in
    if ltb 0 (length bytes) then (c', copied bytes) else at_end answers (set_out q s) c'

abbrev promise : StreamCtx → Conn → ℕ × OutQueue → Conn × Read
promise s c (n, q) = (on_stream s.id (set_out q) c, promised n)

abbrev read_found : Answers → ℕ → Conn → Option StreamCtx → Conn × Read
read_found answers len c none = (c, temporal_failure)
read_found answers len c (some s) =
    if is_socket c.fd && leb nocopy_min (front_remaining s.out)
    then promise s c (promise_front len s.out)
    else drained answers s c (drain_into len s.out)

unfoldable pub data_provider_read : Answers → ℕ → ℕ → Conn → Conn × Read
data_provider_read answers i len c = read_found answers len c (find_stream i c.streams)

-- What `sendmsg` answers: bytes accepted, EINTR, EAGAIN or another error.
pub data Sent : Type 0 where
  accepted : ℕ → Sent
  interrupted would_block failed : Sent

-- The loop that retries EINTR, over the socket's answers; where they run out it would block.
unfoldable pub send_loop : List Sent → Sent
send_loop [] = would_block
send_loop (interrupted ∷ rest) = send_loop rest
send_loop (accepted n ∷ rest) = accepted n
send_loop (would_block ∷ rest) = would_block
send_loop (failed ∷ rest) = failed

-- The loop that collects what is left of the parts behind the first `skip` bytes.
unfoldable pub unsent : ℕ → List (List ℕ) → List ℕ
unsent skip [] = []
unsent skip (part ∷ parts) =
    let more = unsent (skip - length part) parts in
    let here = drop skip part ++ unsent 0 parts in if leb (length part) skip then more else here

-- The return codes of `send_data`.
pub data SendCode : Type 0 where
  sent_all paused send_would_block send_temporal_failure send_failure : SendCode

abbrev pub joined : List (List ℕ) → List ℕ
joined [] = []
joined (p ∷ ps) = p ++ joined ps

-- The frame counts as sent: the promise is consumed, and an unsent tail is stashed.
abbrev shipped : Bool → ℕ → StreamCtx → ℕ → List (List ℕ) → Conn → Conn × SendCode
shipped room len s n parts c =
    let total = 9 + len in
    let tail = unsent n parts in
    let c' = record (on_stream s.id (set_out (consume_front len s.out)) c) {
      sent = c.sent ++ take n (joined parts);
    } in
    if ltb n total
    then (if room then (record c' { out_pending = tail }, paused) else (c', send_failure))
    else (c', sent_all)

abbrev on_sent : Bool → ℕ → StreamCtx → List (List ℕ) → Conn → Sent → Conn × SendCode
on_sent room len s parts c (accepted n) =
    if n == 0 then (c, send_would_block) else shipped room len s n parts c
on_sent room len s parts c interrupted = (c, send_would_block)
on_sent room len s parts c would_block = (c, send_would_block)
on_sent room len s parts c failed = (c, send_failure)

abbrev send_found : Bool → List Sent → List ℕ → ℕ → Conn → Option StreamCtx → Conn × SendCode
send_found room answers hd len c none = (c, send_temporal_failure)
send_found room answers hd len c (some s) =
    let (a, b) = front_regions len s.out in
    if length a + length b == len
    then on_sent room len s (hd ∷ a ∷ b ∷ []) c (send_loop answers)
    else (c, send_temporal_failure)

abbrev is_empty : List ℕ → Bool
is_empty [] = true
is_empty (b ∷ bs) = false

-- `hd` is the frame header of nine bytes, `padlen` the padding, `room` the allocator's answer.
unfoldable pub send_data : Bool → List Sent → ℕ → ℕ → List ℕ → ℕ → Conn → Conn × SendCode
unfolding unsent
send_data room answers padlen i hd len c =
    if not (is_socket c.fd) || not (is_empty c.out_pending)
    then (c, send_would_block)
    else if padlen == 0
    then send_found room answers hd len c (find_stream i c.streams)
    else (c, send_failure)
