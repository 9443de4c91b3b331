-- ===== src/Client/Text.antt =====
-- The text of headers on the client's side: `fmt_ms_value`, `parse_u32`, `parse_i32` and
-- `percent_decode` of rust/grpcuds-core/src/client.rs. A `&str` is its bytes.
pub mod Message
pub mod Millis
use grpc_uds.Prelude.{
  ℕ, zero, suc, ◌+◌, ◌-◌, ◌*◌, ◌/◌, ◌%◌, ◌^◌, ◌<◌, Bool, true, false, ◌&&◌, ◌||◌, List, [], ◌∷◌,
  Option, none, some, ℤ, pos, negsuc, leb, ltb, ◌==◌, if◌then◌else◌, length, get_or,
}

-- The first loop of `fmt_ms_value`, over the slots of `tmp`: the digits, lowest first.
unfoldable pub low_digits : ℕ → ℕ → List ℕ
low_digits zero v = []
low_digits (suc slots) v =
    (b'0' + v % 10) ∷ elim (v / 10 == 0) [ true ↦ [] | false ↦ low_digits slots (v / 10) ]

-- The second loop, over the slots of `buf`: the digits from `tmp[i - 1]` down, then the unit.
unfoldable pub fill : ℕ → ℕ → List ℕ → List ℕ
fill zero i tmp = []
fill (suc slots) i tmp = elim (i == 0) [
  | true ↦ b'm' ∷ []
  | false ↦ get_or tmp (i - 1) b'0' ∷ fill slots (i - 1) tmp
]

-- `tmp` has ten slots and `buf` eleven; the result is `buf[..len]`.
unfoldable pub fmt_ms_value : ℕ → List ℕ
fmt_ms_value v = let tmp = low_digits 10 v in fill 11 (length tmp) tmp

abbrev in_range : ℕ → ℕ → ℕ → Bool
in_range lo hi b = leb lo b && leb b hi

-- `str::parse` of an unsigned number: digits only, and no overflow past `max`.
unfoldable pub digits_value : ℕ → List ℕ → Option ℕ
digits_value n [] = some n
digits_value n (d ∷ ds) =
    let rest = digits_value (n * 10 + (d - b'0')) ds in if in_range b'0' b'9' d then rest else none

abbrev within : ℕ → Option ℕ → Option ℕ
within max none = none
within max (some n) = if ltb max n then none else some n

unfoldable pub parse_unsigned : ℕ → List ℕ → Option ℕ
unfolding digits_value
parse_unsigned max [] = none
parse_unsigned max (d ∷ ds) = within max (digits_value 0 (d ∷ ds))

unfoldable pub parse_u32 : List ℕ → Option ℕ
unfolding parse_unsigned
parse_u32 [] = none
parse_u32 (c ∷ cs) =
    if c == b'+' then parse_unsigned (2 ^ 32 - 1) cs else parse_unsigned (2 ^ 32 - 1) (c ∷ cs)

abbrev as_pos : Option ℕ → Option ℤ
as_pos none = none
as_pos (some n) = some (pos n)

-- -0 is 0.
abbrev as_neg : Option ℕ → Option ℤ
as_neg none = none
as_neg (some n) = some (if n == 0 then pos 0 else negsuc (n - 1))

unfoldable pub parse_i32 : List ℕ → Option ℤ
unfolding parse_unsigned
parse_i32 [] = none
parse_i32 (c ∷ cs) =
    if c == b'-'
    then as_neg (parse_unsigned (2 ^ 31) cs)
    else if c == b'+'
    then as_pos (parse_unsigned (2 ^ 31 - 1) cs)
    else as_pos (parse_unsigned (2 ^ 31 - 1) (c ∷ cs))

-- `(c as char).to_digit(16)`.
unfoldable pub hex_value : ℕ → Option ℕ
hex_value c =
    if in_range b'0' b'9' c
    then some (c - b'0')
    else if in_range b'a' b'f' c
    then some (c - b'a' + 10)
    else if in_range b'A' b'F' c
    then some (c - b'A' + 10)
    else none

-- The byte of an escape, where both of its characters are hexadecimal digits.
abbrev escaped : Option ℕ → Option ℕ → Option ℕ
escaped none _ = none
escaped (some h) none = none
escaped (some h) (some l) = some (h * 16 + l)

-- The loop over `v` from index `i`, as the list of what is left. Two bytes must follow a `%`.
unfoldable pub percent_decode_bytes : List ℕ → List ℕ
percent_decode_bytes [] = []
percent_decode_bytes (c ∷ []) = c ∷ []
percent_decode_bytes (c ∷ h ∷ []) = c ∷ h ∷ []
percent_decode_bytes (c ∷ h ∷ l ∷ rest) = elim (c == b'%') [
  | true ↦ elim (escaped (hex_value h) (hex_value l)) [
    | none ↦ c ∷ percent_decode_bytes (h ∷ l ∷ rest)
    | some b ↦ b ∷ percent_decode_bytes rest
  ]
  | false ↦ c ∷ percent_decode_bytes (h ∷ l ∷ rest)
]

-- UTF-8: a lead byte, with how many bytes must follow and the range of the first of them.
abbrev lead : ℕ → Option (ℕ × ℕ × ℕ)
lead b =
    if ltb b 0x80
    then some (0, 0x80, 0xbf)
    else if in_range 0xc2 0xdf b
    then some (1, 0x80, 0xbf)
    else if b == 0xe0
    then some (2, 0xa0, 0xbf)
    else if b == 0xed
    then some (2, 0x80, 0x9f)
    else if in_range 0xe1 0xef b
    then some (2, 0x80, 0xbf)
    else if b == 0xf0
    then some (3, 0x90, 0xbf)
    else if in_range 0xf1 0xf3 b
    then some (3, 0x80, 0xbf)
    else if b == 0xf4
    then some (3, 0x80, 0x8f)
    else none

utf8_from : ℕ → ℕ → ℕ → List ℕ → Bool
utf8_from zero lo hi [] = true
utf8_from (suc n) lo hi [] = false
utf8_from zero lo hi (b ∷ bs) = elim (lead b) [ none ↦ false | some (n, l, h) ↦ utf8_from n l h bs ]
utf8_from (suc n) lo hi (b ∷ bs) = in_range lo hi b && utf8_from n 0x80 0xbf bs

-- `String::from_utf8` succeeds.
unfoldable pub is_utf8 : List ℕ → Bool
unfolding utf8_from
is_utf8 v = utf8_from 0 0x80 0xbf v

unfoldable pub percent_decode : List ℕ → Option (List ℕ)
unfolding percent_decode_bytes
percent_decode v = let out = percent_decode_bytes v in if is_utf8 out then some out else none
