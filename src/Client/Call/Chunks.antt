-- ===== src/Client/Call/Chunks.antt =====
-- Deframing, `on_data` of rust/grpcuds-core/src/client.rs, over chunks.
use grpc_uds.Prelude.{
  ℕ, zero, suc, ◌+◌, ◌≤◌, ◌<◌, ◌≡◌, ◌∙◌, ap, Bool, List, ◌++◌, length, take, drop, arith,
  length-drop, length-append, inl, inr, drop-append_le, take-append_le, append_assoc,
}
use grpc_uds.Framing.{FrameHeader}
use grpc_uds.Framing.RoundTrip.{decode_header-append}
use grpc_uds.Client.Call.{CallState, Deframed, also, deframe_bytes, on_data, max_message_len}
use grpc_uds.Client.Call.Frames.{Whole, deframe_bytes-Whole, deframe_bytes_cases}

-- The messages found so far, then those found once `more` has come.
abbrev pub and_then : (ℕ → Bool) → Deframed → List ℕ → Deframed
and_then grants (msgs, rest) more =
    let (msgs', rest') = deframe_bytes grants (rest ++ more) in (msgs ++ msgs', rest')

Whole-append :
    (grants : ℕ → Bool) (buf more : List ℕ) (h : FrameHeader)
    → Whole grants buf h
    → Whole grants (buf ++ more) h
Whole-append grants buf more h (e, le, g) =
    (decode_header-append buf more max_message_len e, omega (arith, length-append buf more), g)

take-drop_append :
    (n : ℕ) (buf more : List ℕ)
    → 5 + n ≤ length buf
    → take n (drop 5 (buf ++ more)) ≡ take n (drop 5 buf)
take-drop_append n buf more le =
    rw (drop-append_le 5 buf more (omega arith))
      (take-append_le n (drop 5 buf) more (omega (arith, length-drop 5 buf)))

-- By the number of bytes in the first chunk.
cut_anywhere :
    (k : ℕ) (grants : ℕ → Bool) (buf more : List ℕ)
    → length buf < k
    → deframe_bytes grants (buf ++ more) ≡ and_then grants (deframe_bytes grants buf) more
cut_anywhere zero grants buf more lt = absurd (omega arith)
cut_anywhere (suc k) grants buf more lt = elim (deframe_bytes_cases grants buf) [
  | inl stop ↦ rw stop
  | inr (h, w) ↦
      deframe_bytes-Whole grants (buf ++ more) h (Whole-append grants buf more h w)
      ∙ rw
          (
            take-drop_append h.payload_len buf more w.1,
            drop-append_le (5 + h.payload_len) buf more w.1,
            deframe_bytes-Whole grants buf h w,
          )
          (ap (also (take h.payload_len (drop 5 buf))) (
            cut_anywhere k grants (drop (5 + h.payload_len) buf) more
              (omega (arith, length-drop (5 + h.payload_len) buf))))
]

pub deframe_bytes-append :
    (grants : ℕ → Bool) (buf more : List ℕ)
    → deframe_bytes grants (buf ++ more) ≡ and_then grants (deframe_bytes grants buf) more
deframe_bytes-append grants buf more = cut_anywhere (suc (length buf)) grants buf more (omega arith)

-- What the client has of a stream once it has read `buf`, and then `more`, is what it has once it
-- has read both in one chunk.
pub on_data_chunks :
    (grants : ℕ → Bool) (buf more : List ℕ) (st : CallState)
    → on_data grants more (on_data grants buf st) ≡ on_data grants (buf ++ more) st
unfolding on_data
on_data_chunks grants buf more st = rw (
  ← append_assoc st.inbuf buf more,
  deframe_bytes-append grants (st.inbuf ++ buf) more,
  append_assoc,
)
