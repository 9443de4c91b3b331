-- ===== src/Headers/Timeout.antt =====
-- `parse_grpc_timeout_ms` of rust/grpcuds-core/src/headers.rs, in u64 arithmetic.
use grpc_uds.Prelude.{
  ℕ, ◌+◌, ◌-◌, ◌*◌, ◌/◌, ◌^◌, min, ◌&&◌, ◌||◌, List, [], ◌∷◌, Option, none, some, leb, ltb, ◌==◌,
  if◌then◌else◌, length, take, drop,
}

-- `saturating_mul` and `div_ceil`.
abbrev pub sat_mul : ℕ → ℕ → ℕ
sat_mul a b = min (a * b) (2 ^ 64 - 1)

abbrev div_ceil : ℕ → ℕ → ℕ
div_ceil a b = (a + (b - 1)) / b

-- The loop over the digits; eight of them cannot overflow a u64.
unfoldable pub parse_digits : ℕ → List ℕ → Option ℕ
parse_digits n [] = some n
parse_digits n (d ∷ ds) =
    let rest = parse_digits (n * 10 + (d - b'0')) ds in
    if leb b'0' d && leb d b'9' then rest else none

unfoldable pub unit_ms : List ℕ → ℕ → Option ℕ
unit_ms [] n = none
unit_ms (u ∷ _) n =
    if u == b'H'
    then some (sat_mul n 3_600_000)
    else if u == b'M'
    then some (sat_mul n 60_000)
    else if u == b'S'
    then some (sat_mul n 1_000)
    else if u == b'm'
    then some n
    else if u == b'u'
    then some (div_ceil n 1_000)
    else if u == b'n'
    then some (div_ceil n 1_000_000)
    else none

abbrev pub at_least_one : Option ℕ → Option ℕ
at_least_one none = none
at_least_one (some ms) = some (if ms == 0 then 1 else ms)

abbrev pub scaled : List ℕ → Option ℕ → Option ℕ
scaled unit none = none
scaled unit (some n) = at_least_one (unit_ms unit n)

unfoldable pub parse_grpc_timeout_ms : List ℕ → Option ℕ
parse_grpc_timeout_ms v =
    if ltb (length v) 2 || ltb 9 (length v)
    then none
    else scaled (drop (length v - 1) v) (parse_digits 0 (take (length v - 1) v))
