-- ===== src/Framing/Tests.antt =====
-- Runs of the framing functions, and their theorems at concrete inputs.
use grpc_uds.Prelude.{ℕ, List, ◌++◌, ◌≡◌, refl, false, [], ◌∷◌, ok, err, arith}
use grpc_uds.Framing.{compressed_flag, encode_header, decode_header}
use grpc_uds.Framing.RoundTrip.{decode_header-encode_header, decode_header-append}

refuse_compressed : decode_header (7 ∷ 0 ∷ 0 ∷ 0 ∷ 0 ∷ []) 100 ≡ err compressed_flag
unfolding decode_header
refuse_compressed = refl

decode_header-encode_header_example :
    decode_header (0 ∷ 1 ∷ 2 ∷ 3 ∷ 255 ∷ 170 ∷ []) 0xffff_ffff
    ≡ ok (record { compressed = false; payload_len = 0x0102_03ff })
unfolding encode_header
decode_header-encode_header_example =
    decode_header-encode_header 0x0102_03ff 0xffff_ffff (170 ∷ []) (omega arith)

abbrev header_of_two : List ℕ
header_of_two = 0 ∷ 0 ∷ 0 ∷ 0 ∷ 2 ∷ []

decode_header-append_example :
    decode_header (header_of_two ++ (5 ∷ 6 ∷ [])) 100
    ≡ ok (record { compressed = false; payload_len = 2 })
unfolding decode_header
decode_header-append_example = decode_header-append header_of_two (5 ∷ 6 ∷ []) 100 refl
