-- ===== src/OutQueue/Wire.antt =====
-- What an outbound queue still has to send, and the shape of a valid queue.
use grpc_uds.Prelude.{
  ℕ, ◌-◌, ◌^◌, ◌≤◌, ◌<◌, ◌≡◌, refl, ◌∙◌, ap, false, List, [], ◌∷◌, ◌++◌, ◌==◌, length, drop, All,
  arith, drop-append, drop-of_length, length-append, Bool-cases, inl, inr, ==_iff,
}
use grpc_uds.Framing.{encode_header}
use grpc_uds.OutQueue.{OutMsg, OutQueue, msg_len, settle, new}

-- The bytes of a message on the wire.
abbrev pub frame : OutMsg → List ℕ
frame m = m.hdr ++ m.body

abbrev pub flat : List OutMsg → List ℕ
flat [] = []
flat (m ∷ ms) = frame m ++ flat ms

abbrev pub wire_of : ℕ → List OutMsg → List ℕ
wire_of offset [] = []
wire_of offset (m ∷ ms) = drop offset (frame m) ++ flat ms

-- The bytes that are still to be sent, in order.
abbrev pub wire : OutQueue → List ℕ
wire q = wire_of q.front_offset q.messages

abbrev pub IsFramed : OutMsg → Type 0
IsFramed m = (m.hdr ≡ encode_header false (length m.body)) × (length m.body < 2 ^ 32)

-- The offset stands within the front message, or is 0 where there is none.
abbrev pub OffsetIn : ℕ → List OutMsg → Type 0
OffsetIn offset [] = offset ≡ 0
OffsetIn offset (m ∷ ms) = offset ≤ msg_len m

pub record IsValid (q : OutQueue) : Type 0 where
  pub framed : All IsFramed q.messages
  pub offset_in : OffsetIn q.front_offset q.messages

pub new-IsValid : IsValid new
unfolding new
new-IsValid = record { framed = tt; offset_in = refl }

pub length-hdr : (m : OutMsg) → IsFramed m → length m.hdr ≡ 5
unfolding encode_header
length-hdr m h = ap length h.0

pub length-frame : (m : OutMsg) → IsFramed m → length (frame m) ≡ msg_len m
length-frame m h = omega (arith, length-append m.hdr m.body, length-hdr m h)

-- From an offset past the header only body bytes are left.
pub drop-frame_body :
    (m : OutMsg) (k : ℕ) → IsFramed m → 5 ≤ k → drop k (frame m) ≡ drop (k - 5) m.body
drop-frame_body m k h le =
    drop-append k m.hdr m.body
    ∙ rw (drop-of_length k m.hdr (omega (arith, length-hdr m h)), length-hdr m h)

-- From an offset within the header, the rest of the header is left and the whole body.
pub drop-frame_hdr :
    (m : OutMsg) (k : ℕ) → IsFramed m → k ≤ 5 → drop k (frame m) ≡ drop k m.hdr ++ m.body
drop-frame_hdr m k h le =
    let e : k - length m.hdr ≡ 0 = omega (arith, length-hdr m h) in
    rw (drop-append k m.hdr m.body, e)

pub wire_of_zero : (ms : List OutMsg) → wire_of 0 ms ≡ flat ms
wire_of_zero [] = refl
wire_of_zero (m ∷ ms) = refl

pub OffsetIn-zero : (ms : List OutMsg) → OffsetIn 0 ms
OffsetIn-zero [] = refl
OffsetIn-zero (m ∷ ms) = omega arith

-- Moving the offset of a front message to `k` leaves the bytes from `k` on.
pub wire-settle :
    (m : OutMsg) (ms : List OutMsg) (k : ℕ) (q : OutQueue)
    → q.messages ≡ m ∷ ms
    → IsFramed m
    → wire (settle m ms k q) ≡ drop k (frame m) ++ flat ms
wire-settle m ms k q e h = elim (Bool-cases (k == msg_len m)) [
  | inl done ↦ rw (
    done,
    wire_of_zero ms,
    drop-of_length k (frame m) (omega (arith, length-frame m h, (==_iff k (msg_len m)).0 done)),
  )
  | inr more ↦ rw (more, e)
]

pub settle-IsValid :
    (m : OutMsg) (ms : List OutMsg) (k : ℕ) (q : OutQueue)
    → q.messages ≡ m ∷ ms
    → k ≤ msg_len m
    → IsValid q
    → IsValid (settle m ms k q)
settle-IsValid m ms k q e le v = elim (Bool-cases (k == msg_len m)) [
  | inl done ↦ rw done (record { framed = (rw e at v.framed).1; offset_in = OffsetIn-zero ms })
  | inr more ↦ rw more (record { framed = v.framed; offset_in = rw e le })
]
