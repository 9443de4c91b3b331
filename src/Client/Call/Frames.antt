-- ===== src/Client/Call/Frames.antt =====
-- The deframing loop, `deframe` of rust/grpcuds-core/src/client.rs, its rounds and framed messages.
use grpc_uds.Prelude.{
  ℕ, zero, suc, ◌+◌, ◌≤◌, ◌<◌, ◌≡◌, refl, ◌∙◌, ap, Bool, true, false, List, [], ◌++◌, Result, ok,
  err, ltb, length, take, drop, arith, length-drop, length-append, Bool-cases, inl, inr, ◌⊎◌,
  drop-length-append, take-length-append, drop-drop,
}
use grpc_uds.Framing.{FrameHeader, FrameError, encode_header, decode_header}
use grpc_uds.Framing.RoundTrip.{decode_header-encode_header}
use grpc_uds.Client.Call.{
  Deframed, also, deframe_one, on_decoded, deframe_loop, deframe_bytes, max_message_len,
}

on_decoded_congr :
    (grants : ℕ → Bool) (f g : List ℕ → Deframed) (buf : List ℕ) (r : Result FrameHeader FrameError)
    → ((n : ℕ) → 5 + n ≤ length buf → f (drop (5 + n) buf) ≡ g (drop (5 + n) buf))
    → on_decoded grants f buf r ≡ on_decoded grants g buf r
unfolding deframe_one
on_decoded_congr grants f g buf (err e) same = refl
on_decoded_congr grants f g buf (ok h) same =
    elim (Bool-cases (ltb (length buf) (5 + h.payload_len))) [
      | inl short ↦ rw (short, deframe_one)
      | inr whole ↦ elim (Bool-cases (grants h.payload_len)) [
        | inl given ↦
            rw (whole, deframe_one, given)
              (ap (also (take h.payload_len (drop 5 buf))) (same h.payload_len (ground arith)))
        | inr refused ↦ rw (whole, deframe_one, refused)
      ]
    ]

-- Any number of rounds above the length of the buffer gives the same result.
deframe_loop_enough :
    (f g : ℕ) (grants : ℕ → Bool) (buf : List ℕ)
    → length buf < f
    → length buf < g
    → deframe_loop f grants buf ≡ deframe_loop g grants buf
unfolding deframe_loop
deframe_loop_enough zero g grants buf hf hg = absurd (omega arith)
deframe_loop_enough (suc f) zero grants buf hf hg = absurd (omega arith)
deframe_loop_enough (suc f) (suc g) grants buf hf hg =
    on_decoded_congr grants (deframe_loop f grants) (deframe_loop g grants) buf
      (decode_header buf max_message_len)
      λ n le.
        deframe_loop_enough f g grants (drop (5 + n) buf) (omega (arith, length-drop (5 + n) buf))
          (omega (arith, length-drop (5 + n) buf))

-- The buffer begins with a whole message under the header `h`, for which there is memory.
abbrev pub Whole : (ℕ → Bool) → List ℕ → FrameHeader → Type 0
Whole grants buf h =
    (decode_header buf max_message_len ≡ ok h)
    × (5 + h.payload_len ≤ length buf)
    × (grants h.payload_len ≡ true)

-- Then that message is taken, and the loop goes on behind it.
pub deframe_bytes-Whole :
    (grants : ℕ → Bool) (buf : List ℕ) (h : FrameHeader)
    → Whole grants buf h
    → deframe_bytes grants buf
      ≡ also (take h.payload_len (drop 5 buf)) (deframe_bytes grants (drop (5 + h.payload_len) buf))
unfolding deframe_bytes deframe_loop
deframe_bytes-Whole grants buf h (e, le, g) =
    let s : ltb (length buf) (5 + h.payload_len) ≡ false = ground arith in
    rw (e, s, deframe_one, g)
      (ap (also (take h.payload_len (drop 5 buf))) (
        deframe_loop_enough (length buf) (suc (length (drop (5 + h.payload_len) buf))) grants
          (drop (5 + h.payload_len) buf) (omega (arith, length-drop (5 + h.payload_len) buf))
          (omega arith)))

-- Otherwise the loop stops at once.
pub deframe_bytes_cases :
    (grants : ℕ → Bool) (buf : List ℕ)
    → (deframe_bytes grants buf ≡ ([], buf)) ⊎ ((h : FrameHeader) × Whole grants buf h)
unfolding deframe_bytes deframe_loop
deframe_bytes_cases grants buf = at (decode_header buf max_message_len) refl
  where
    at :
        (r : Result FrameHeader FrameError)
        → decode_header buf max_message_len ≡ r
        → (on_decoded grants (deframe_loop (length buf) grants) buf r ≡ ([], buf))
          ⊎ ((h : FrameHeader) × Whole grants buf h)
    at (err x) e = inl refl
    at (ok h) e = elim (Bool-cases (ltb (length buf) (5 + h.payload_len))) [
      | inl short ↦ inl (rw (short, deframe_one))
      | inr whole ↦ elim (Bool-cases (grants h.payload_len)) [
        | inl given ↦ inr (h, (e, ground arith, given))
        | inr refused ↦ inl (rw (whole, deframe_one, refused))
      ]
    ]

-- The frame of a body of at most the client's limit, at the head of a buffer, gives that body.
pub deframe_bytes-frame :
    (grants : ℕ → Bool) (body rest : List ℕ)
    → ((n : ℕ) → grants n ≡ true)
    → length body ≤ max_message_len
    → deframe_bytes grants (encode_header false (length body) ++ (body ++ rest))
      ≡ also body (deframe_bytes grants rest)
unfolding encode_header
deframe_bytes-frame grants body rest g le =
    deframe_bytes-Whole grants buf h (decoded, fits, g (length body))
    ∙ rw (
      take-length-append body rest,
      ← drop-drop (length body) 5 buf,
      drop-length-append body rest,
    )
  where
    h : FrameHeader
    h = record { compressed = false; payload_len = length body }

    buf : List ℕ
    buf = encode_header false (length body) ++ (body ++ rest)

    decoded : decode_header buf max_message_len ≡ ok h
    decoded =
        let within : ltb max_message_len (length body) ≡ false = ground arith in
        rw within at
          (decode_header-encode_header (length body) max_message_len (body ++ rest) (omega arith))

    fits : 5 + length body ≤ length buf
    fits = omega (arith, length-append body rest)
