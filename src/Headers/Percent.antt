-- ===== src/Headers/Percent.antt =====
-- `percent_encode_message` of rust/grpcuds-core/src/headers.rs.
use grpc_uds.Prelude.{
  ℕ, ◌/◌, ◌%◌, ◌^◌, Bool, not, ◌&&◌, ◌||◌, List, [], ◌∷◌, ◌++◌, leb, ◌==◌, if◌then◌else◌, get_or,
  codes,
}

abbrev pub hex : List ℕ
hex = codes "0123456789ABCDEF"

-- `!(0x20..=0x7E).contains(&b) || b == b'%'`.
unfoldable pub needs_escape : ℕ → Bool
needs_escape b = not (leb 0x20 b && leb b 0x7e) || b == b'%'

-- What one byte adds to `out`.
unfoldable pub escape : ℕ → List ℕ
unfolding needs_escape
escape b =
    if needs_escape b
    then b'%' ∷ get_or hex (b / 2 ^ 4) 0 ∷ get_or hex (b % 2 ^ 4) 0 ∷ []
    else b ∷ []

-- The loop over `msg` pushes onto `out`.
unfoldable pub percent_encode_message : List ℕ → List ℕ → List ℕ
unfolding escape
percent_encode_message [] out = out
percent_encode_message (b ∷ msg) out = percent_encode_message msg (out ++ escape b)
