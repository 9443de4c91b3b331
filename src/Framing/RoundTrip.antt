-- ===== src/Framing/RoundTrip.antt =====
-- Encoding and decoding of the frame header of rust/grpcuds-core/src/framing.rs.
use grpc_uds.Prelude.{
  ℕ, ◌/◌, ◌%◌, ◌^◌, ◌≤◌, ◌≡◌, false, List, [], ◌∷◌, ◌++◌, ok, err, ltb, if◌then◌else◌, drop, arith,
  All,
}
use grpc_uds.Framing.{
  FrameHeader, too_large, IsByte, IsU32, encode_header, decode_header, from_be_bytes,
}

be_bytes_lem :
    (n : ℕ)
    → IsU32 n
    → from_be_bytes (n / 2 ^ 24 % 256) (n / 2 ^ 16 % 256) (n / 2 ^ 8 % 256) (n % 256) ≡ n
be_bytes_lem n h = omega arith

-- Reading the header that was written for an uncompressed message of `n` bytes, `n` below 2 ^ 32,
-- whatever bytes follow it, gives `n` back, unless `n` is over the limit: then it is refused as
-- too large.
pub decode_header-encode_header :
    (n max : ℕ) (rest : List ℕ)
    → IsU32 n
    → decode_header (encode_header false n ++ rest) max
      ≡ (if ltb max n then err too_large else ok (record { compressed = false; payload_len = n }))
unfolding decode_header encode_header
decode_header-encode_header n max rest h = rw (be_bytes_lem n h)

abbrev pub IsFrameOf : List ℕ → ℕ → FrameHeader → Type 0
IsFrameOf buf max h =
    (buf ≡ encode_header h.compressed h.payload_len ++ drop 5 buf)
    × (h.compressed ≡ false)
    × (h.payload_len ≤ max)
    × IsU32 h.payload_len

be_bytes_parts :
    (b c d e : ℕ)
    → IsByte b
    → IsByte c
    → IsByte d
    → IsByte e
    → let n = from_be_bytes b c d e in
      (n / 2 ^ 24 % 256 ≡ b)
      × (n / 2 ^ 16 % 256 ≡ c)
      × (n / 2 ^ 8 % 256 ≡ d)
      × (n % 256 ≡ e)
      × IsU32 n
be_bytes_parts b c d e hb hc hd he = omega arith

-- A header that is accepted, from a buffer of bytes, is uncompressed and within the limit, and the
-- buffer begins with the very bytes that the encoder writes for it.
pub decode_header-eq-ok :
    (buf : List ℕ) (max : ℕ) {h : FrameHeader}
    → All IsByte buf
    → decode_header buf max ≡ ok h
    → IsFrameOf buf max h
unfolding decode_header encode_header
decode_header-eq-ok [] max a e = absurd (cc)
decode_header-eq-ok (_ ∷ []) max a e = absurd (cc)
decode_header-eq-ok (_ ∷ _ ∷ []) max a e = absurd (cc)
decode_header-eq-ok (_ ∷ _ ∷ _ ∷ []) max a e = absurd (cc)
decode_header-eq-ok (_ ∷ _ ∷ _ ∷ _ ∷ []) max a e = absurd (cc)
decode_header-eq-ok (f ∷ b ∷ c ∷ d ∷ x ∷ rest) max (_, (hb, (hc, (hd, (hx, _))))) e =
    ground (arith, be_bytes_parts b c d x hb hc hd hx)

-- An accepted header does not depend on what is appended to the buffer.
pub decode_header-append :
    (buf more : List ℕ) (max : ℕ) {h : FrameHeader}
    → decode_header buf max ≡ ok h
    → decode_header (buf ++ more) max ≡ ok h
unfolding decode_header
decode_header-append [] more max e = absurd (cc)
decode_header-append (_ ∷ []) more max e = absurd (cc)
decode_header-append (_ ∷ _ ∷ []) more max e = absurd (cc)
decode_header-append (_ ∷ _ ∷ _ ∷ []) more max e = absurd (cc)
decode_header-append (_ ∷ _ ∷ _ ∷ _ ∷ []) more max e = absurd (cc)
decode_header-append (f ∷ b ∷ c ∷ d ∷ x ∷ rest) more max e = e
