-- ===== src/Client/Call/Trailers.antt =====
-- The status and message of a call, from the server's trailers to the client's state.
use grpc_uds.Prelude.{ℕ, ◌≡◌, refl, List, [], ◌∷◌, none, some, pos, All, if◌then◌else◌}
use grpc_uds.Framing.{IsByte}
use grpc_uds.Headers.{
  GrpcStatus, status_ok, Header, discriminant, trailer_with_message, grpc_status_from_i32,
}
use grpc_uds.Headers.Percent.{percent_encode_message}
use grpc_uds.Client.Text.{parse_i32, is_utf8}
use grpc_uds.Client.Text.Message.{percent_decode-percent_encode_message}
use grpc_uds.Client.Call.{CallState, on_header, status}

-- The callbacks for the fields of a header list, in order.
abbrev pub on_headers : List Header → CallState → CallState
on_headers [] st = st
on_headers (h ∷ hs) st = on_headers hs (on_header h.name h.value st)

-- Whatever the client knew before, after a trailer with a status, and with the encoding of a
-- message of bytes, it reports that status, and that message if it is UTF-8.
pub on_headers-trailer_with_message :
    (s : GrpcStatus) (msg : List ℕ) (st : CallState)
    → All IsByte msg
    → let st' = on_headers (trailer_with_message s (percent_encode_message msg [])) st in
      (status st' ≡ s)
      × (st'.grpc_status ≡ some (pos (discriminant s)))
      × (st'.grpc_message ≡ (if is_utf8 msg then some msg else none))
unfolding on_header trailer_with_message status parse_i32 discriminant grpc_status_from_i32
on_headers-trailer_with_message status_ok msg st h =
    (refl, refl, percent_decode-percent_encode_message msg h)
on_headers-trailer_with_message _ msg st h =
    (refl, refl, percent_decode-percent_encode_message msg h)
