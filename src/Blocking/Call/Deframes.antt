-- ===== src/Blocking/Call/Deframes.antt =====
-- The Rust client's deframing loop against the core client's.
use grpc_uds.Prelude.{
  ℕ, zero, suc, ◌+◌, ◌≡◌, refl, ◌∙◌, ap, true, List, ◌++◌, Result, ok, err, ltb, length, take, drop,
  Bool-cases, inl, inr,
}
use grpc_uds.Framing.{FrameHeader, FrameError, decode_header}
use grpc_uds.Client.Call.{deframe_one}
use grpc_uds.Client.Call.Chunks
use grpc_uds.Blocking.Call.{
  Deframed, on_decoded, also, deframe_loop, deframe_bytes, max_message_len,
}

on_decoded-core :
    (rounds : ℕ) (buf : List ℕ) (r : Result FrameHeader FrameError)
    → ((rest : List ℕ)
        → deframe_loop rounds rest ≡ grpc_uds.Client.Call.deframe_loop rounds (λ _. true) rest)
    → on_decoded (deframe_loop rounds) buf r
      ≡ grpc_uds.Client.Call.on_decoded
          (λ _. true)
          (grpc_uds.Client.Call.deframe_loop rounds (λ _. true))
          buf
          r
unfolding deframe_one
on_decoded-core rounds buf (err e) same = refl
on_decoded-core rounds buf (ok h) same = elim (Bool-cases (ltb (length buf) (5 + h.payload_len))) [
  | inl short ↦ rw (short, deframe_one) refl
  | inr whole ↦
      rw (whole, deframe_one)
        (ap (also (take h.payload_len (drop 5 buf))) (same (drop (5 + h.payload_len) buf)))
]

deframe_loop-core :
    (rounds : ℕ) (buf : List ℕ)
    → deframe_loop rounds buf ≡ grpc_uds.Client.Call.deframe_loop rounds (λ _. true) buf
unfolding deframe_loop grpc_uds.Client.Call.deframe_loop
deframe_loop-core zero buf = refl
deframe_loop-core (suc rounds) buf =
    on_decoded-core rounds buf (decode_header buf max_message_len) (deframe_loop-core rounds)

deframe_bytes-core :
    (buf : List ℕ) → deframe_bytes buf ≡ grpc_uds.Client.Call.deframe_bytes (λ _. true) buf
unfolding deframe_bytes grpc_uds.Client.Call.deframe_bytes
deframe_bytes-core buf = deframe_loop-core (suc (length buf)) buf

-- The messages found so far, then those found once `more` has come.
abbrev pub and_then : Deframed → List ℕ → Deframed
and_then (msgs, rest) more =
    let (msgs', rest') = deframe_bytes (rest ++ more) in (msgs ++ msgs', rest')

-- The messages of a buffer that grows are those of its beginning, followed by those that the rest
-- completes.
pub deframe_bytes-append :
    (buf more : List ℕ) → deframe_bytes (buf ++ more) ≡ and_then (deframe_bytes buf) more
deframe_bytes-append buf more =
    deframe_bytes-core (buf ++ more)
    ∙ Chunks.deframe_bytes-append (λ _. true) buf more
    ∙ rw (deframe_bytes-core buf, deframe_bytes-core (rest ++ more)) refl
  where
    rest : List ℕ
    rest = (grpc_uds.Client.Call.deframe_bytes (λ _. true) buf).1
