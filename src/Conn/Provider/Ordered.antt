-- ===== src/Conn/Provider/Ordered.antt =====
-- The order of the bytes that the direct send puts on the socket and in the buffer of pending
-- bytes.
use grpc_uds.Prelude.{
  ℕ, ◌+◌, ◌-◌, ◌≡◌, refl, ◌∙◌, ap, sym, Bool, true, false, List, [], ◌∷◌, ◌++◌, some, length, take,
  drop, arith, Bool-cases, inl, inr, leb, ltb, ◌==◌, if◌then◌else◌, drop-append, take-append-drop,
  append-nil, append_assoc, drop-of_length, length-append, drop-nil,
}
use grpc_uds.OutQueue.{OutQueue, front_regions, consume_front}
use grpc_uds.OutQueue.Wire.{IsValid, wire}
use grpc_uds.OutQueue.Send.{front_regions-consume_front, SameRest, consume_front-SameRest}
use grpc_uds.Conn.{Conn, StreamCtx, find_stream, update_stream, set_out}
use grpc_uds.Conn.Streams.{id-find_stream, find_stream-update_stream_self}
use grpc_uds.Conn.Provider.{
  unsent, joined, Sent, accepted, interrupted, would_block, failed, send_loop, SendCode, sent_all,
  paused, send_would_block, send_temporal_failure, send_failure, is_empty, is_socket, shipped,
  on_sent, send_found, send_data,
}

-- What is collected is what the parts hold behind the first `skip` bytes.
unsent-joined : (skip : ℕ) (parts : List (List ℕ)) → unsent skip parts ≡ drop skip (joined parts)
unfolding unsent
unsent-joined skip [] = sym (drop-nil skip)
unsent-joined skip (p ∷ ps) = elim (Bool-cases (leb (length p) skip)) [
  | inl whole ↦
      rw (whole, drop-append skip p (joined ps), drop-of_length skip p (ground arith))
        (unsent-joined (skip - length p) ps)
  | inr part ↦
      let e : skip - length p ≡ 0 = ground arith in
      rw (part, drop-append skip p (joined ps), e, unsent-joined 0 ps)
]

-- The frame header `hd` and the next `len` bytes of the stream's queue follow what was sent: on the
-- socket, or pending before anything else.
abbrev pub Ships : ℕ → List ℕ → ℕ → StreamCtx → Conn → Conn → Type 0
Ships i hd len s c c' =
    (bytes : List ℕ) × (q : OutQueue) × (length bytes ≡ len)
    × (bytes ++ wire q ≡ wire s.out)
    × (c'.sent ++ c'.out_pending ≡ c.sent ++ (hd ++ bytes))
    × IsValid q
    × SameRest s.out q
    × (q.front_committed ≡ false)
    × (find_stream i c'.streams ≡ some (set_out q s))

-- What a return code says.
abbrev pub Outcome : ℕ → List ℕ → ℕ → StreamCtx → Conn → Conn → SendCode → Type 0
Outcome i hd len s c c' sent_all = Ships i hd len s c c' × (c'.out_pending ≡ [])
Outcome i hd len s c c' paused = Ships i hd len s c c'
Outcome i hd len s c c' send_would_block = c' ≡ c
Outcome i hd len s c c' send_temporal_failure = c' ≡ c
Outcome i hd len s c c' send_failure = Unit

module _ (room : Bool) (i : ℕ) (hd : List ℕ) (len : ℕ) (s : StreamCtx) (c : Conn)
    (h : find_stream i c.streams ≡ some s) (v : IsValid s.out) (nine : length hd ≡ 9)
    (clear : c.out_pending ≡ []) where
  abbrev parts : List (List ℕ)
  parts = hd ∷ (front_regions len s.out).0 ∷ (front_regions len s.out).1 ∷ []

  abbrev ResultOf : Conn × SendCode → Type 0
  ResultOf (c', code) = Outcome i hd len s c c' code

  abbrev taken : List ℕ
  taken = (front_regions len s.out).0 ++ (front_regions len s.out).1

  joined-parts : joined parts ≡ hd ++ taken
  joined-parts = rw (append-nil (front_regions len s.out).1)

  find_stream-after :
      find_stream i (update_stream s.id (set_out (consume_front len s.out)) c.streams)
      ≡ some (set_out (consume_front len s.out) s)
  find_stream-after =
      ap (λ k. find_stream i (update_stream k (set_out (consume_front len s.out)) c.streams))
        (id-find_stream i c.streams h)
      ∙ find_stream-update_stream_self i (set_out (consume_front len s.out)) c.streams (λ _. refl) h

  -- A split of the bytes at `n` between the socket and the buffer.
  ships :
      (n : ℕ) (pending : List ℕ)
      → length taken ≡ len
      → pending ≡ drop n (joined parts)
      → Ships i hd len s c (record c {
        streams = update_stream s.id (set_out (consume_front len s.out)) c.streams;
        sent = c.sent ++ take n (joined parts);
        out_pending = pending;
      })
  ships n pending e p =
      let k = front_regions-consume_front len s.out v in
      (
        taken,
        consume_front len s.out,
        e,
        k.joined,
        append_assoc c.sent (take n (joined parts)) pending
            ∙ ap (λ t. c.sent ++ (take n (joined parts) ++ t)) p
            ∙ ap (◌++◌ c.sent) (take-append-drop n (joined parts) ∙ joined-parts),
        k.kept,
        consume_front-SameRest len s.out,
        k.released,
        find_stream-after,
      )

  shipped-Outcome : (n : ℕ) → length taken ≡ len → ResultOf (shipped room len s n parts c)
  shipped-Outcome n e = elim (Bool-cases (ltb n (9 + len))) [
    | inl part ↦ rw part (elim (Bool-cases room) [
      | inl fits ↦ rw fits (ships n (unsent n parts) e (unsent-joined n parts))
      | inr full ↦ rw full tt
    ])
    | inr whole ↦
        let all : drop n (joined parts) ≡ [] =
          drop-of_length n (joined parts)
            (ground (arith, ap length joined-parts, length-append hd taken)) in
        rw whole (ships n c.out_pending e (clear ∙ sym all), clear)
  ]

  on_sent-Outcome :
      (a : Sent)
      → length ((front_regions len s.out).0 ++ (front_regions len s.out).1) ≡ len
      → ResultOf (on_sent room len s parts c a)
  on_sent-Outcome (accepted n) e = elim (Bool-cases (n == 0)) [
    | inl none_out ↦ rw none_out refl
    | inr some_out ↦ rw some_out (shipped-Outcome n e)
  ]
  on_sent-Outcome interrupted e = refl
  on_sent-Outcome would_block e = refl
  on_sent-Outcome failed e = tt

  send_found-Outcome : (answers : List Sent) → ResultOf (send_found room answers hd len c (some s))
  send_found-Outcome answers =
      elim (Bool-cases
        (length (front_regions len s.out).0 + length (front_regions len s.out).1 == len)) [
          | inl fits ↦ rw fits (
              on_sent-Outcome (send_loop answers) (
                ground
                  (arith, length-append (front_regions len s.out).0 (front_regions len s.out).1)))
          | inr stale ↦ rw stale refl
        ]

is_empty_iff : (bytes : List ℕ) → is_empty bytes ≡ true → bytes ≡ []
is_empty_iff [] e = refl
is_empty_iff (b ∷ bs) e = absurd (cc)

padded-Outcome :
    (padlen i : ℕ) (hd : List ℕ) (len : ℕ) (s : StreamCtx) (c : Conn) (r : Conn × SendCode)
    → Outcome i hd len s c r.0 r.1
    → let r' = (if padlen == 0 then r else (c, send_failure)) in Outcome i hd len s c r'.0 r'.1
padded-Outcome padlen i hd len s c r o = elim (Bool-cases (padlen == 0)) [
  | inl none_there ↦ rw none_there o
  | inr padded ↦ rw padded tt
]

-- A direct send on a stream that is there. Where the frame counts as sent, its header and the next
-- `len` bytes of the stream's queue are on the socket or pending before anything else, in order,
-- the promise on the front message is taken back, and nothing else changed in the queue; where the
-- code asks nghttp2 to come again, or to reset the stream, nothing changed at all.
pub send_data_lem :
    (room : Bool) (answers : List Sent) (padlen i : ℕ) (hd : List ℕ) (len : ℕ) (s : StreamCtx)
    (c : Conn)
    → find_stream i c.streams ≡ some s
    → IsValid s.out
    → length hd ≡ 9
    → let (c', code) = send_data room answers padlen i hd len c in Outcome i hd len s c c' code
unfolding send_data
send_data_lem room answers padlen i hd len s c h v nine = elim (Bool-cases (is_socket c.fd)) [
  | inl socket ↦ rw socket (elim (Bool-cases (is_empty c.out_pending)) [
    | inl clear ↦ rw clear (
        padded-Outcome padlen i hd len s c
          (send_found room answers hd len c (find_stream i c.streams))
          (rw h (
            send_found-Outcome room i hd len s c h v nine (is_empty_iff c.out_pending clear)
              answers)))
    | inr waiting ↦ rw waiting refl
  ])
  | inr no_socket ↦ rw no_socket refl
]
