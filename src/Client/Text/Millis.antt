-- ===== src/Client/Text/Millis.antt =====
-- The timeout that the client writes, as the server reads it.
use grpc_uds.Prelude.{
  ℕ, zero, suc, ◌+◌, ◌-◌, ◌*◌, ◌/◌, ◌%◌, ◌^◌, ◌≤◌, ◌<◌, ◌≡◌, refl, ◌∙◌, ap, true, false, List, [],
  ◌∷◌, ◌++◌, reverse, reverse-cons, none, some, ltb, ◌==◌, if◌then◌else◌, length, get_or, take,
  arith, length-append, take-length-append, drop-length-append, take-of_length, ◌||◌,
}
use mathlib.Core.List.{reverse-append}
use native.Mathlib.Nat.{pow-suc}
use native.Mathlib.Decide.{ℕ_discrete, dec_lt}
use mathlib.Core.Logic.{◌≢◌}
use grpc_uds.Headers.Timeout.{parse_digits, unit_ms, parse_grpc_timeout_ms, scaled}
use grpc_uds.Client.Text.{low_digits, fill, fmt_ms_value}

take-suc :
    (i : ℕ) (xs : List ℕ) (d : ℕ)
    → i < length xs
    → take (suc i) xs ≡ take i xs ++ (get_or xs i d ∷ [])
take-suc i [] d h = absurd (omega arith)
take-suc zero (x ∷ xs) d h = refl
take-suc (suc i) (x ∷ xs) d h = ap (◌∷◌ x) (take-suc i xs d (omega arith))

-- The second loop writes the first `i` digits backwards, then the unit.
fill_lem :
    (slots i : ℕ) (tmp : List ℕ)
    → i ≤ length tmp
    → i < slots
    → fill slots i tmp ≡ reverse (take i tmp) ++ (b'm' ∷ [])
unfolding fill
fill_lem zero i tmp h lt = absurd (omega arith)
fill_lem (suc s) zero tmp h lt = refl
fill_lem (suc s) (suc i) tmp h lt =
    let e : suc i - 1 ≡ i = omega arith in
    let z : (suc i == 0) ≡ false = ground arith in
    rw (
      z,
      fill,
      e,
      fill_lem s i tmp (omega arith) (omega arith),
      take-suc i tmp b'0' (omega arith),
      reverse-append (take i tmp) (get_or tmp i b'0' ∷ []),
    )

length-reverse : (xs : List ℕ) → length (reverse xs) ≡ length xs
length-reverse [] = refl
length-reverse (x ∷ xs) =
    omega
      (arith, ap length (reverse-cons x xs), length-append (reverse xs) (x ∷ []), length-reverse xs)

-- One more digit at the end.
parse_digits-append :
    (n m d : ℕ) (xs : List ℕ)
    → parse_digits n xs ≡ some m
    → d < 10
    → parse_digits n (xs ++ ((b'0' + d) ∷ [])) ≡ some (m * 10 + d)
unfolding parse_digits
parse_digits-append n m d [] e h = ground arith
parse_digits-append n m d (x ∷ xs) e h =
    ground (arith, parse_digits-append (n * 10 + (x - b'0')) m d xs)

low_digits_last : (k v : ℕ) → v / 10 ≡ 0 → low_digits (suc k) v ≡ (b'0' + v % 10) ∷ []
unfolding low_digits
low_digits_last k v e = rw (e, low_digits)

low_digits_more :
    (k v : ℕ) → v / 10 ≢ 0 → low_digits (suc k) v ≡ (b'0' + v % 10) ∷ low_digits k (v / 10)
unfolding low_digits
low_digits_more k v ne = let e : (v / 10 == 0) ≡ false = ground arith in rw (e, low_digits)

last-parse : (k v : ℕ) → v / 10 ≡ 0 → parse_digits 0 (reverse (low_digits (suc k) v)) ≡ some v
last-parse k v small =
    let e : 0 * 10 + v % 10 ≡ v = omega arith in
    rw (low_digits_last k v small)
      (parse_digits-append 0 0 (v % 10) [] (unfold parse_digits in refl) (omega arith) ∙ ap some e)

-- The digits of a number that the slots can hold read back as the number.
parse_digits-low_digits :
    (k v : ℕ) → v < 10 ^ suc k → parse_digits 0 (reverse (low_digits (suc k) v)) ≡ some v
parse_digits-low_digits zero v h = last-parse 0 v (omega arith)
parse_digits-low_digits (suc k) v h = elim (ℕ_discrete (v / 10) 0) [
  | yes small ↦ last-parse (suc k) v small
  | no big ↦
      let e : v / 10 * 10 + v % 10 ≡ v = omega arith in
      rw (low_digits_more (suc k) v big, reverse-cons)
        (parse_digits-append 0 (v / 10) (v % 10) (reverse (low_digits (suc k) (v / 10)))
            (parse_digits-low_digits k (v / 10) (omega (arith, pow-suc 10 (suc k)))) (omega arith)
          ∙ ap some e)
]

length-low_digits_le : (k j v : ℕ) → v < 10 ^ suc j → length (low_digits k v) ≤ suc j
length-low_digits_le zero j v h = unfold low_digits in omega arith
length-low_digits_le (suc k) zero v h = rw (low_digits_last k v (omega arith)) (omega arith)
length-low_digits_le (suc k) (suc j) v h = elim (ℕ_discrete (v / 10) 0) [
  | yes small ↦ rw (low_digits_last k v small) (omega arith)
  | no big ↦
      rw (low_digits_more k v big)
        (omega (arith, length-low_digits_le k j (v / 10) (omega (arith, pow-suc 10 (suc j)))))
]

low_digits_pos : (k v : ℕ) → 0 < length (low_digits (suc k) v)
unfolding low_digits
low_digits_pos k v = omega arith

lt-length-low_digits : (k j v : ℕ) → 10 ^ j ≤ v → j < k → j < length (low_digits k v)
lt-length-low_digits zero j v h lt = absurd (omega arith)
lt-length-low_digits (suc k) zero v h lt = unfold low_digits in omega arith
lt-length-low_digits (suc k) (suc j) v h lt = elim (ℕ_discrete (v / 10) 0) [
  | yes small ↦ absurd (omega (arith, pow-suc 10 j, pow_pos j))
  | no big ↦
      rw (low_digits_more k v big) (
        omega
          (arith, lt-length-low_digits k j (v / 10) (omega (arith, pow-suc 10 j)) (omega arith)))
]
  where
    pow_pos : (j : ℕ) → 0 < 10 ^ j
    pow_pos zero = omega arith
    pow_pos (suc j) = omega (arith, pow-suc 10 j, pow_pos j)

fmt_ms_value_lem : (v : ℕ) → fmt_ms_value v ≡ reverse (low_digits 10 v) ++ (b'm' ∷ [])
unfolding fmt_ms_value
fmt_ms_value_lem v =
    fill_lem 11 (length (low_digits 10 v)) (low_digits 10 v) (omega arith) (omega (arith, short))
    ∙ rw (take-of_length (length (low_digits 10 v)) (low_digits 10 v) (omega arith))
  where
    slots : (k u : ℕ) → length (low_digits k u) ≤ k
    slots zero u = unfold low_digits in omega arith
    slots (suc k) u = elim (ℕ_discrete (u / 10) 0) [
      | yes small ↦ rw (low_digits_last k u small) (omega arith)
      | no big ↦ rw (low_digits_more k u big) (omega (arith, slots k (u / 10)))
    ]

    short : length (low_digits 10 v) ≤ 10
    short = slots 10 v

-- A value of `n` digits and the unit `m` is read as the number of its digits, if `n` is 1 to 8.
parse_millis :
    (ds : List ℕ)
    → parse_grpc_timeout_ms (ds ++ (b'm' ∷ [])) ≡ (
        if ltb (length ds) 1 || ltb 8 (length ds)
        then none
        else scaled (b'm' ∷ []) (parse_digits 0 ds))
unfolding parse_grpc_timeout_ms
parse_millis ds =
    let l : length (ds ++ (b'm' ∷ [])) ≡ suc (length ds) =
      omega (arith, length-append ds (b'm' ∷ [])) in
    let e : suc (length ds) - 1 ≡ length ds = omega arith in
    let low : ltb (suc (length ds)) 2 ≡ ltb (length ds) 1 = ground arith in
    let high : ltb 9 (suc (length ds)) ≡ ltb 8 (length ds) = ground arith in
    rw (l, e, low, high, take-length-append ds (b'm' ∷ []), drop-length-append ds (b'm' ∷ []))

-- The server reads the `grpc-timeout` that the client writes for a timeout of `v` milliseconds as
-- `v`, or 1 for 0, where `v` has at most eight digits. A longer value, up to the u32 limit, it
-- does not accept.
pub parse_grpc_timeout_ms-fmt_ms_value :
    (v : ℕ)
    → v < 2 ^ 32
    → parse_grpc_timeout_ms (fmt_ms_value v)
      ≡ (if ltb v (10 ^ 8) then some (if v == 0 then 1 else v) else none)
parse_grpc_timeout_ms-fmt_ms_value v h =
    rw (fmt_ms_value_lem v, parse_millis ds, length-reverse (low_digits 10 v))
      (elim (dec_lt v (10 ^ 8)) [
        | yes short ↦
            let test : ltb v (10 ^ 8) ≡ true = ground arith in
            let low : ltb (length (low_digits 10 v)) 1 ≡ false =
              ground (arith, low_digits_pos 9 v) in
            let high : ltb 8 (length (low_digits 10 v)) ≡ false =
              ground (arith, length-low_digits_le 10 7 v) in
            rw (test, low, high, parse_digits-low_digits 9 v (omega arith)) (unfold unit_ms in refl)
        | no long ↦
            let test : ltb v (10 ^ 8) ≡ false = ground arith in
            let high : (ltb (length (low_digits 10 v)) 1 || ltb 8 (length (low_digits 10 v)))
                ≡ true =
              ground (arith, lt-length-low_digits 10 8 v) in
            rw (test, high)
      ])
  where
    ds : List ℕ
    ds = reverse (low_digits 10 v)
