-- ===== src/Capi/Health/Wire.antt =====
-- `decode_check_request` against the encoding of protocol buffers.
use native.Mathlib.Nat.{pow-suc, mul-one, mul_assoc, mul_comm, add-mul}
use grpc_uds.Prelude.{
  ℕ, zero, suc, arith, ◌≡◌, ◌≤◌, ◌<◌, ◌+◌, ◌*◌, ◌/◌, ◌%◌, ◌^◌, refl, sym, ap, ◌∙◌, true, false,
  List, [], ◌∷◌, ◌++◌, some, ltb, leb, if◌then◌else◌, length, All, length-append,
  take-length-append, drop-length-append, Bool-cases, inl, inr, ◌⊎◌,
}
use grpc_uds.Capi.Health.{read_varint, decode_loop, decode_check_request}

-- The base-128 varint of `n`, the low group first, in at most ten bytes.
unfoldable pub varint : ℕ → ℕ → List ℕ
varint zero n = []
varint (suc k) n =
    let more = varint k (n / 128) in if ltb n 128 then n ∷ [] else (128 + n % 128) ∷ more

pow_plus : (s k : ℕ) → 2 ^ (k + s) ≡ 2 ^ s * 2 ^ k
pow_plus s zero = let e : 0 + s ≡ s = omega arith in ap (λ k. 2 ^ k) e ∙ sym (mul-one (2 ^ s))
pow_plus s (suc k) =
    let e : suc k + s ≡ suc (k + s) = omega arith in
    ap (λ k. 2 ^ k) e
    ∙ pow-suc 2 (k + s)
    ∙ ap (λ p. p * 2) (pow_plus s k)
    ∙ mul_assoc (2 ^ s) (2 ^ k) 2
    ∙ ap (λ p. 2 ^ s * p) (sym (pow-suc 2 k))

pow_seven : (s : ℕ) → 2 ^ (s + 7) ≡ 2 ^ s * 128
pow_seven s = let e : s + 7 ≡ 7 + s = omega arith in ap (λ k. 2 ^ k) e ∙ pow_plus s 7

-- A number times `w`, by its lowest group and the others.
groups : (n w : ℕ) → n * w ≡ n % 128 * w + n / 128 * (w * 128)
groups n w =
    let split : n ≡ n % 128 + n / 128 * 128 = omega arith in
    let turn : n / 128 * 128 * w ≡ n / 128 * (w * 128) =
      mul_assoc (n / 128) 128 w ∙ ap (λ k. n / 128 * k) (mul_comm 128 w) in
    ap (λ k. k * w) split ∙ add-mul (n % 128) (n / 128 * 128) w ∙ ap (λ k. n % 128 * w + k) turn

read_varint-varint :
    (k s w n acc : ℕ) (rest : List ℕ)
    → s + 7 * k ≡ 70
    → 2 ^ s ≡ w
    → n * w < 2 ^ 64
    → 0 < n ⊎ 0 < k
    → read_varint s acc (varint k n ++ rest) ≡ some (acc + n * w, rest)
unfolding read_varint varint
read_varint-varint zero s w n acc rest e p lt (inl pos) =
    let full : s ≡ 70 = omega arith in
    let wide : w ≡ 2 ^ 70 = sym p ∙ ap (λ k. 2 ^ k) full in
    let le : 1 * 2 ^ 70 ≤ n * w = rw wide (omega arith) in absurd (omega (arith, le))
read_varint-varint zero s w n acc rest e p lt (inr pos) = absurd (omega arith)
read_varint-varint (suc k) s w n acc rest e p lt pos = elim (Bool-cases (ltb n 128)) [
  | inl small ↦ last_group small
  | inr big ↦ more_groups big (λ big.
      read_varint-varint k (s + 7) (w * 128) (n / 128) (acc + n % 128 * w) rest (omega arith)
        (pow_seven s ∙ ap (λ p. p * 128) p) (omega (arith, groups n w)) (inl (ground arith)))
]
  where
    below : leb 64 s ≡ false
    below = ground arith

    last_group :
        ltb n 128 ≡ true → read_varint s acc (varint (suc k) n ++ rest) ≡ some (acc + n * w, rest)
    last_group small =
        let low : n % 128 ≡ n = ground arith in
        let fits : n * w % 2 ^ 64 ≡ n * w = omega (arith) in
        rw (small, below, low, p, fits, small) refl

    more_groups :
        ltb n 128 ≡ false
        → (ltb n 128 ≡ false
            → read_varint (s + 7) (acc + n % 128 * w) (varint k (n / 128) ++ rest)
              ≡ some (acc + n % 128 * w + n / 128 * (w * 128), rest))
        → read_varint s acc (varint (suc k) n ++ rest) ≡ some (acc + n * w, rest)
    more_groups big later =
        let low : (128 + n % 128) % 128 ≡ n % 128 = omega arith in
        let more : ltb (128 + n % 128) 128 ≡ false = ground arith in
        let fits : n % 128 * w % 2 ^ 64 ≡ n % 128 * w = omega (arith, groups n w) in
        rw (big, below, low, p, fits, more)
          (later big ∙ ap (λ m. some (m, rest)) (omega (arith, groups n w)))

-- A request as protocol buffers encode it: field 1, once for each of the names given.
abbrev pub request : List (List ℕ) → List ℕ
request [] = []
request (f ∷ fs) = 0x0a ∷ (varint 10 (length f) ++ (f ++ request fs))

abbrev pub last_name : List ℕ → List (List ℕ) → List ℕ
last_name d [] = d
last_name d (f ∷ fs) = last_name f fs

abbrev pub IsU64Long : List ℕ → Type 0
IsU64Long f = length f < 2 ^ 64

read_length :
    (f rest : List ℕ)
    → IsU64Long f
    → read_varint 0 0 (varint 10 (length f) ++ (f ++ rest)) ≡ some (length f, f ++ rest)
read_length f rest h =
    read_varint-varint 10 0 1 (length f) 0 (f ++ rest) refl refl (omega arith) (inr (omega arith))
    ∙ ap (λ m. some (m, f ++ rest)) (omega arith)

decode_loop-request :
    (k : ℕ) (d : List ℕ) (fs : List (List ℕ))
    → length (request fs) ≤ k
    → All IsU64Long fs
    → decode_loop k d (request fs) ≡ some (last_name d fs)
unfolding decode_loop
decode_loop-request k d [] le all = refl
decode_loop-request zero d (f ∷ fs) le all = absurd (omega arith)
decode_loop-request (suc k) d (f ∷ fs) le all =
    let room : ltb (length (f ++ request fs)) (length f) ≡ false =
      let e = length-append f (request fs) in ground (arith, e) in
    let shorter : length (request fs) ≤ k = omega (
      arith,
      length-append (varint 10 (length f)) (f ++ request fs),
      length-append f (request fs),
    ) in
    rw
      (
        read_length f (request fs) all.0,
        room,
        take-length-append f (request fs),
        drop-length-append f (request fs),
      )
      (decode_loop-request k f fs shorter all.1)

-- Decoding the protocol buffers encoding of a request gives the name in it: the empty one where the
-- field is absent, and the last where it is repeated.
pub decode_check_request-request :
    (fs : List (List ℕ))
    → All IsU64Long fs
    → decode_check_request (request fs) ≡ some (last_name [] fs)
unfolding decode_check_request
decode_check_request-request fs all =
    decode_loop-request (length (request fs)) [] fs (omega arith) all
