-- ===== src/Client/Conn/Tests.antt =====
-- The theorems on a client's connection at concrete inputs.
use grpc_uds.Prelude.{
  ℕ, ◌≡◌, ◌≢◌, inl, inr, refl, Bool, true, false, List, [], ◌∷◌, ◌++◌, some, pos, arith, codes,
}
use grpc_uds.Uds.{reads, sends}
use grpc_uds.Framing.{decode_header}
use grpc_uds.Client.Call.{deframe_bytes, deframe_loop, on_data, on_close}
use grpc_uds.Client.Conn.{ClientConn, Turn, ready, poll_eintr, body, closes, pump}
use grpc_uds.Client.Conn.Recv.{waiting, recv}
use grpc_uds.Client.Conn.Recv.Order.{receive_calls, receive_calls_in_order}
use grpc_uds.Client.Conn.Expiry.{recv_by_deadline}
use grpc_uds.Client.Conn.Wait.{Attempt, connected, connect_fails, new_conn, connect_wait}
use grpc_uds.Client.Conn.Wait.Naps.{connect_wait_settles}
use grpc_uds.Client.Conn.Wait.{waits}
use grpc_uds.Client.Conn.Submit.{Reply, submit, unary}
use grpc_uds.Client.Conn.Submit.Request.{unary_in_time}
use grpc_uds.Capi.Client.{unary_on}
use grpc_uds.Capi.Client.Unary.{IsFirst, unary_on-IsFirst}
use grpc_uds.Client.Conn.Submit.Descriptors.{OwnsMade, submit-Owns}

-- Room for everything.
abbrev grants : ℕ → Bool
grants n = true

abbrev socket_path : List ℕ
socket_path = codes "/tmp/s"

-- A connection on descriptor 3 with a timeout of 20 ms.
abbrev calm : ClientConn
calm = record (new_conn 3 socket_path) { timeout_ms = some 20 }

abbrev in_call : ClientConn
in_call = record calm { deadline_ms = some 120; current_sid = 1 }

abbrev lost : ClientConn
lost = record calm { broken = true }

-- Two bytes come, the first half of a frame's header and the rest of the frame with the next read.
abbrev first_half : Turn
first_half = record {
  idle = false;
  chunks = [];
  answers = [];
  now = 110;
  poll = ready;
  read = reads (1 ∷ []);
  events = body (0 ∷ 0 ∷ 0 ∷ []) ∷ [];
  accepted = true;
  rst_chunks = [];
  rst_answers = [];
}

abbrev second_half : Turn
second_half = record first_half { events = body (0 ∷ 1 ∷ 9 ∷ 0 ∷ []) ∷ closes ∷ [] }

abbrev late : Turn
late = record first_half { now = 120; poll = poll_eintr }

receive_calls_in_order_example :
    let (got, c') = receive_calls grants ((first_half ∷ second_half ∷ []) ∷ ([] ∷ [])) in_call in
    deframe_bytes grants c'.received ≡ (got ++ c'.state.messages, c'.state.inbuf)
unfolding new_conn
receive_calls_in_order_example =
    receive_calls_in_order grants ((first_half ∷ second_half ∷ []) ∷ ([] ∷ [])) in_call refl refl
      refl

receive_calls_test :
    (receive_calls grants ((first_half ∷ second_half ∷ []) ∷ ([] ∷ [])) in_call).0 ≡ (9 ∷ []) ∷ []
unfolding new_conn receive_calls recv pump on_data deframe_bytes deframe_loop decode_header on_close
receive_calls_test = refl

recv_by_deadline_example : (recv grants (first_half ∷ late ∷ []) in_call).2 ≢ waiting
recv_by_deadline_example =
    recv_by_deadline grants 120 (first_half ∷ late ∷ []) in_call refl (inr (inl (omega arith)))

-- An attempt that makes a connection on descriptor 4, and one that nobody answers.
abbrev works : Attempt
works = record {
  reserves = true;
  socket = some 4;
  connects = connected;
  unblocks = true;
  callbacks = true;
  opens_session = true;
  takes_settings = true;
  chunks = (b'P' ∷ []) ∷ [];
  answers = sends 1 ∷ [];
}

abbrev refused : Attempt
refused = record works { connects = connect_fails }

abbrev reply : Reply
reply = record {
  redial = works;
  reserves = true;
  sid = pos 1;
  now = 100;
  chunks = (1 ∷ 2 ∷ 3 ∷ []) ∷ [];
  answers = sends 1 ∷ sends 2 ∷ [];
}

abbrev method : List ℕ
method = codes "/a.B/C"

unary_in_time_example :
    (unary grants reply (first_half ∷ late ∷ []) method (7 ∷ []) lost).3 ≢ waiting
unary_in_time_example =
    unary_in_time grants reply (first_half ∷ late ∷ []) method (7 ∷ []) lost 20 refl
      (inr (inl (omega arith)))

submit-Owns_example : OwnsMade lost (4 ∷ []) (submit reply method (7 ∷ []) lost)
unfolding new_conn
submit-Owns_example = submit-Owns reply method (7 ∷ []) lost

abbrev attempts : List (Attempt × ℕ)
attempts = (refused, 1010) ∷ (refused, 1100) ∷ []

connect_wait_settles_example : (connect_wait socket_path 100 1000 1001 77 attempts).2 ≢ waits
connect_wait_settles_example =
    connect_wait_settles socket_path 100 1000 1001 77 attempts (inr (inl (omega arith)))

unary_on-IsFirst_example :
    IsFirst grants
      (unary_on grants reply (first_half ∷ second_half ∷ []) method (some (7 ∷ [])) 1 lost)
unary_on-IsFirst_example =
    unary_on-IsFirst grants reply (first_half ∷ second_half ∷ []) method (some (7 ∷ [])) 1 lost
