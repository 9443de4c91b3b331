-- ===== src/Client/Tests.antt =====
-- The theorems on the client at concrete inputs.
use grpc_uds.Prelude.{ℕ, ◌≡◌, true, false, List, [], ◌∷◌, All, none, some, arith, if◌then◌else◌}
use grpc_uds.Framing.{IsByte}
use grpc_uds.Headers.Percent.{percent_encode_message}
use grpc_uds.Headers.Timeout.{parse_grpc_timeout_ms}
use grpc_uds.Client.Text.{fmt_ms_value, is_utf8, percent_decode}
use grpc_uds.Client.Text.Millis.{parse_grpc_timeout_ms-fmt_ms_value}
use grpc_uds.Client.Text.Message.{percent_decode-percent_encode_message}
use grpc_uds.Client.Call.{CallState, on_data}
use grpc_uds.Client.Call.Chunks.{on_data_chunks}

-- The largest u32 has ten digits, and the server ignores it.
parse_grpc_timeout_ms-fmt_ms_value_example : parse_grpc_timeout_ms (fmt_ms_value 0xffff_ffff) ≡ none
parse_grpc_timeout_ms-fmt_ms_value_example =
    parse_grpc_timeout_ms-fmt_ms_value 0xffff_ffff (omega arith)

-- "é%" in UTF-8.
abbrev message : List ℕ
message = 0xc3 ∷ 0xa9 ∷ b'%' ∷ []

message-IsByte : All IsByte message
message-IsByte = (omega arith, (omega arith, (omega arith, tt)))

percent_decode-percent_encode_message_example :
    percent_decode (percent_encode_message message [])
    ≡ (if is_utf8 message then some message else none)
percent_decode-percent_encode_message_example =
    percent_decode-percent_encode_message message message-IsByte

abbrev idle : CallState
idle = record {
  req = [];
  req_off = 0;
  http_status = none;
  grpc_status = none;
  grpc_message = none;
  inbuf = [];
  messages = [];
  closed = false;
}

-- A frame in two chunks, cut within its header.
on_data_chunks_example :
    on_data (λ _. true) (2 ∷ 7 ∷ 8 ∷ []) (on_data (λ _. true) (0 ∷ 0 ∷ 0 ∷ 0 ∷ []) idle)
    ≡ on_data (λ _. true) (0 ∷ 0 ∷ 0 ∷ 0 ∷ 2 ∷ 7 ∷ 8 ∷ []) idle
on_data_chunks_example = on_data_chunks (λ _. true) (0 ∷ 0 ∷ 0 ∷ 0 ∷ []) (2 ∷ 7 ∷ 8 ∷ []) idle
