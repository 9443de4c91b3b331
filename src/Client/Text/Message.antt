-- ===== src/Client/Text/Message.antt =====
-- Percent-encoding on the server against percent-decoding on the client.
use grpc_uds.Prelude.{
  ℕ, ◌/◌, ◌%◌, ◌^◌, ◌≤◌, ◌<◌, ◌≡◌, refl, ◌∙◌, ap, sym, Bool, true, false, List, [], ◌∷◌, ◌++◌,
  Option, none, some, leb, ◌==◌, if◌then◌else◌, get_or, arith, All, All-append, Bool-cases, inl,
  inr, ◌&&◌, append_assoc, append-nil, tests_below, at_tests_below, ==_iff,
}
use grpc_uds.Framing.{IsByte}
use grpc_uds.Headers.Percent.{hex, needs_escape, escape, percent_encode_message}
use grpc_uds.Client.Text.{hex_value, escaped, percent_decode_bytes, percent_decode, is_utf8}

abbrev encoding : List ℕ → List ℕ
encoding [] = []
encoding (b ∷ msg) = escape b ++ encoding msg

-- The loop that pushes onto `out` appends the encodings of the bytes.
pub percent_encode_message-append :
    (msg out : List ℕ) → percent_encode_message msg out ≡ out ++ encoding msg
unfolding percent_encode_message
percent_encode_message-append [] out = sym (append-nil out)
percent_encode_message-append (b ∷ msg) out =
    percent_encode_message-append msg (out ++ escape b) ∙ append_assoc out (escape b) (encoding msg)

abbrev reads_back : ℕ → Bool
reads_back b =
    elim (escaped (hex_value (get_or hex (b / 2 ^ 4) 0)) (hex_value (get_or hex (b % 2 ^ 4) 0))) [
      | none ↦ false
      | some c ↦ c == b
    ]

hex_table : tests_below reads_back 256 ≡ true
unfolding tests_below hex_value
hex_table = refl

hex_pair :
    (b : ℕ)
    → IsByte b
    → escaped (hex_value (get_or hex (b / 2 ^ 4) 0)) (hex_value (get_or hex (b % 2 ^ 4) 0)) ≡ some b
hex_pair b h = at _ (at_tests_below reads_back 256 b h hex_table)
  where
    at :
        (o : Option ℕ)
        → elim o as (λ _. Bool) [ none ↦ false | some c ↦ c == b ] ≡ true
        → o ≡ some b
    at none e = absurd (cc)
    at (some c) e = ap some ((==_iff c b).0 e)

decode_plain :
    (b : ℕ) (rest : List ℕ)
    → (b == b'%') ≡ false
    → percent_decode_bytes (b ∷ rest) ≡ b ∷ percent_decode_bytes rest
unfolding percent_decode_bytes
decode_plain b [] e = refl
decode_plain b (x ∷ []) e = refl
decode_plain b (x ∷ y ∷ rest) e = rw (e, percent_decode_bytes)

decode_escape :
    (b : ℕ) (rest : List ℕ)
    → IsByte b
    → percent_decode_bytes (escape b ++ rest) ≡ b ∷ percent_decode_bytes rest
unfolding escape
decode_escape b rest h = elim (Bool-cases (needs_escape b)) [
  | inl escapes ↦
      rw escapes (unfold percent_decode_bytes in rw (hex_pair b h, percent_decode_bytes))
  | inr plain ↦ rw plain (decode_plain b rest (unfold needs_escape in ground arith))
]

decode_encoding : (msg : List ℕ) → All IsByte msg → percent_decode_bytes (encoding msg) ≡ msg
decode_encoding [] h = unfold percent_decode_bytes in refl
decode_encoding (b ∷ msg) (hb, hs) =
    decode_escape b (encoding msg) hb ∙ ap (◌∷◌ b) (decode_encoding msg hs)

-- The client decodes the encoding of a message of bytes to the message itself, if it is UTF-8, and
-- to no message otherwise.
pub percent_decode-percent_encode_message :
    (msg : List ℕ)
    → All IsByte msg
    → percent_decode (percent_encode_message msg []) ≡ (if is_utf8 msg then some msg else none)
unfolding percent_decode
percent_decode-percent_encode_message msg h =
    rw (percent_encode_message-append msg [], decode_encoding msg h)

abbrev pub IsPrintable : ℕ → Type 0
IsPrintable c = (0x20 ≤ c) × (c ≤ 0x7e)

abbrev prints : ℕ → Bool
prints c = leb 0x20 c && leb c 0x7e

hex-prints : tests_below (λ n. prints (get_or hex n 0)) 16 ≡ true
unfolding tests_below
hex-prints = refl

hex-IsPrintable : (n : ℕ) → n < 16 → IsPrintable (get_or hex n 0)
hex-IsPrintable n h =
    ground (arith, at_tests_below (λ k. prints (get_or hex k 0)) 16 n h hex-prints)

escape-IsPrintable : (b : ℕ) → IsByte b → All IsPrintable (escape b)
unfolding escape needs_escape
escape-IsPrintable b h = elim (Bool-cases (needs_escape b)) [
  | inl escapes ↦ rw escapes (
    (omega arith),
    (hex-IsPrintable (b / 2 ^ 4) (omega arith), (hex-IsPrintable (b % 2 ^ 4) (omega arith), tt)),
  )
  | inr plain ↦ rw plain ((ground arith, ground arith), tt)
]

encoding-IsPrintable : (msg : List ℕ) → All IsByte msg → All IsPrintable (encoding msg)
encoding-IsPrintable [] h = tt
encoding-IsPrintable (b ∷ msg) (hb, hs) =
    All-append IsPrintable (escape b) (encoding msg) (escape-IsPrintable b hb)
      (encoding-IsPrintable msg hs)

-- What the encoding of bytes appends to `out` is printable ASCII.
pub percent_encode_message-IsPrintable :
    (msg out : List ℕ)
    → All IsByte msg
    → All IsPrintable out
    → All IsPrintable (percent_encode_message msg out)
percent_encode_message-IsPrintable msg out h p =
    rw (percent_encode_message-append msg out)
      (All-append IsPrintable out (encoding msg) p (encoding-IsPrintable msg h))
