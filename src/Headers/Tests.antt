-- ===== src/Headers/Tests.antt =====
-- Runs of the header functions on the inputs of the source's unit tests.
use grpc_uds.Prelude.{◌≡◌, refl, [], ◌∷◌, some, none, codes}
use grpc_uds.Headers.Percent.{percent_encode_message}
use grpc_uds.Headers.Timeout.{parse_grpc_timeout_ms, parse_digits, unit_ms}

escapes_the_spec_byte_set :
    percent_encode_message (0x1f ∷ 0x20 ∷ 0x7e ∷ 0x7f ∷ b'%' ∷ []) [] ≡ codes "%1F ~%7F%25"
unfolding percent_encode_message
escapes_the_spec_byte_set = refl

parses_units :
    (parse_grpc_timeout_ms (codes "2H") ≡ some 7_200_000)
    × (parse_grpc_timeout_ms (codes "1500u") ≡ some 2)
    × (parse_grpc_timeout_ms (codes "0m") ≡ some 1)
    × (parse_grpc_timeout_ms (codes "123456789S") ≡ none)
    × (parse_grpc_timeout_ms (codes "-1S") ≡ none)
unfolding parse_grpc_timeout_ms parse_digits unit_ms
parses_units = (refl, refl, refl, refl, refl)
