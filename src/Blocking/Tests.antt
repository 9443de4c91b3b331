-- ===== src/Blocking/Tests.antt =====
-- The blocking client on a unary call that is answered, and on a stream that is.
use grpc_uds.Prelude.{
  ◌++◌, ℕ, ◌≡◌, refl, arith, inl, inr, true, false, List, [], ◌∷◌, Option, none, some, ok, pos,
  codes,
}
use grpc_uds.Uds.{reads, sends}
use grpc_uds.Client.Conn.{PollAnswer}
use grpc_uds.Blocking.{Client, Event, Turn, header, body, closes}
use grpc_uds.Blocking.Calls.{Reply, unary}
use grpc_uds.Blocking.Dial.{Attempt, connected, new_client}
use grpc_uds.Blocking.Unary.{Answers, unary-Answers}
use grpc_uds.Blocking.Stream.{message_calls, message_calls_in_order}
use grpc_uds.Blocking.Call.{deframe_bytes}

abbrev no_status : ℕ → Option ℕ → List ℕ
no_status close_error http = []

-- Nothing to be sent, and a read that nghttp2 makes these callbacks of.
abbrev hears : ℕ → List Event → Turn
hears now events = record {
  idle = false;
  chunks = [];
  answers = [];
  now = now;
  poll = PollAnswer.ready;
  read = reads (1 ∷ []);
  text = [];
  events = events;
  accepted = true;
  rst_chunks = [];
  rst_answers = [];
}

abbrev frame : List ℕ
frame = 0 ∷ 0 ∷ 0 ∷ 0 ∷ 2 ∷ 8 ∷ 9 ∷ []

abbrev attempt : Attempt
attempt = record {
  socket = ok 5;
  connects = connected;
  unblocks = none;
  callbacks = true;
  opens_session = true;
  takes_settings = true;
  chunks = [];
  answers = [];
  flush_errno = none;
}

abbrev reply : Reply
reply = record {
  redial = attempt;
  redial_text = [];
  sid = pos 1;
  now = 100;
  chunks = (7 ∷ 7 ∷ []) ∷ [];
  answers = sends 2 ∷ [];
  text = [];
}

abbrev client : Client
client = record (new_client 3 (47 ∷ [])) { timeout = some 50; broken = true }

abbrev turns : List Turn
turns =
    hears 110 (
      header (codes ":status") (codes "200")
      ∷ body (0 ∷ 0 ∷ 0 ∷ 0 ∷ [])
      ∷ body (2 ∷ 8 ∷ 9 ∷ [])
      ∷ [])
    ∷ hears 120 (header (codes "grpc-status") (codes "0") ∷ closes 0 ∷ [])
    ∷ hears 150 []
    ∷ []

unary-Answers_example :
    Answers (1 ∷ []) turns (unary no_status reply turns (47 ∷ []) (1 ∷ []) client)
unfolding new_client
unary-Answers_example =
    unary-Answers no_status reply turns (47 ∷ []) (1 ∷ []) 50 client refl
      (inr (inr (inl (omega arith))))

abbrev streaming : Client
streaming = record (new_client 3 (47 ∷ [])) { current_sid = 1 }

-- The first read takes the body in, and the second finds the end.
message_calls_in_order_example :
    let (got, c') = message_calls no_status (turns ∷ turns ∷ []) streaming in
    deframe_bytes c'.received ≡ (got ++ c'.state.messages, c'.state.inbuf)
unfolding new_client
message_calls_in_order_example =
    message_calls_in_order no_status (turns ∷ turns ∷ []) streaming refl refl refl
