-- ===== src/Wirelog/Segments.antt =====
-- The segments of a connection in the wire log, against the bytes that were logged.
use grpc_uds.Prelude.{
  ℕ, zero, suc, arith, ◌≡◌, ◌≤◌, ◌<◌, ◌+◌, ◌%◌, ◌^◌, refl, ◌∙◌, List, [], ◌∷◌, ◌++◌, length, take,
  drop, take-append-drop, length-take, length-drop,
}
use grpc_uds.Wirelog.{
  Dir, client_to_server, server_to_client, WirelogConn, Segment, max_segment, segment, advanced,
  log_loop, log_segments,
}

-- The counter of the side that sends.
abbrev pub counter : Dir → WirelogConn → ℕ
counter client_to_server wl = wl.seq_c
counter server_to_client wl = wl.seq_s

abbrev pub payloads : List Segment → List ℕ
payloads [] = []
payloads (s ∷ ss) = s.payload ++ payloads ss

-- Each segment has the number that the bytes before it lead to, and a payload that fits.
abbrev pub InSequence : ℕ → List Segment → Type 0
InSequence n [] = Unit
InSequence n (s ∷ ss) =
    (s.seq ≡ n) × (length s.payload ≤ max_segment) × InSequence ((n + length s.payload) % 2 ^ 32) ss

abbrev pub Carries : Dir → List ℕ → WirelogConn → List Segment × WirelogConn → Type 0
Carries dir bytes wl (segs, wl') =
    (payloads segs ≡ bytes)
    × InSequence (counter dir wl) segs
    × (counter dir wl' ≡ (counter dir wl + length bytes) % 2 ^ 32)

segment-counter :
    (dir : Dir) (chunk : List ℕ) (wl : WirelogConn)
    → ((segment dir chunk wl).seq ≡ counter dir wl) × ((segment dir chunk wl).payload ≡ chunk)
segment-counter client_to_server chunk wl = (refl, refl)
segment-counter server_to_client chunk wl = (refl, refl)

counter-advanced :
    (dir : Dir) (n : ℕ) (wl : WirelogConn)
    → counter dir (advanced dir n wl) ≡ (counter dir wl + n) % 2 ^ 32
counter-advanced client_to_server n wl = refl
counter-advanced server_to_client n wl = refl

log_loop-Carries :
    (rounds : ℕ) (dir : Dir) (bytes : List ℕ) (wl : WirelogConn)
    → length bytes ≤ rounds
    → counter dir wl < 2 ^ 32
    → Carries dir bytes wl (log_loop rounds dir bytes wl)
unfolding log_loop
log_loop-Carries rounds dir [] wl h lt = (refl, tt, omega arith)
log_loop-Carries zero dir (b ∷ bs) wl h lt = absurd (omega arith)
log_loop-Carries (suc rounds) dir (b ∷ bs) wl h lt =
    let chunk = take max_segment (b ∷ bs) in
    let rest = drop max_segment (b ∷ bs) in
    let whole : chunk ++ rest ≡ b ∷ bs = take-append-drop max_segment (b ∷ bs) in
    let fits = length-take max_segment (b ∷ bs) in
    let left = length-drop max_segment (b ∷ bs) in
    let (seq, payload) = segment-counter dir chunk wl in
    let next = counter-advanced dir (length chunk) wl in
    let (same, ordered, last) =
      log_loop-Carries rounds dir rest (advanced dir (length chunk) wl) (omega (arith, left))
        (omega (arith, next)) in
    (
      rw (payload, same) whole,
      (seq, rw payload (omega (arith, fits)), rw (payload, ← next) ordered),
      last ∙ omega (arith, next, fits, left),
    )

-- The segments that `log` emits for some bytes carry these bytes, in their order, in payloads of at
-- most 1400, each under the sequence number that the bytes before it lead to; and the counter of
-- the sender ends past all of them, modulo 2^32.
pub log_segments-Carries :
    (dir : Dir) (bytes : List ℕ) (wl : WirelogConn)
    → counter dir wl < 2 ^ 32
    → Carries dir bytes wl (log_segments dir bytes wl)
unfolding log_segments
log_segments-Carries dir bytes wl lt = log_loop-Carries (length bytes) dir bytes wl (omega arith) lt
