-- ===== src/Capi/Client.antt =====
-- The client of the C interface, of rust/grpcuds-ffi-impl/src/client.rs. A handle is the connection
-- that it owns; a null handle or path is `none`.
pub mod Unary
use grpc_uds.Prelude.{
  ℕ, ◌==◌, Bool, true, false, List, [], ◌∷◌, Option, none, some, Result, ok, err, ℤ, pos,
  if◌then◌else◌, take,
}
use grpc_uds.Capi.{minus, slice}
use grpc_uds.Client.Conn.{ClientConn, ClientError, Turn}
use grpc_uds.Client.Conn.Recv.{Received, message, ended, waiting, failed, Outcome, recv}
use grpc_uds.Client.Conn.Submit.{Reply, Made, CallEnd, set_timeout_ms, submit, unary}

unfoldable pub err_to_int : ClientError → ℤ
err_to_int ClientError.connect = minus 1
err_to_int ClientError.session = minus 2
err_to_int ClientError.io = minus 3
err_to_int ClientError.protocol = minus 4

unfoldable pub grpcuds_client_set_timeout_ms : ℕ → Option ClientConn → Option ClientConn × ℤ
unfolding set_timeout_ms
grpcuds_client_set_timeout_ms ms none = (none, minus 22)
grpcuds_client_set_timeout_ms ms (some c) = (some (set_timeout_ms ms c), pos 0)

pub record Response : Type 0 where
  pub body : List ℕ
  pub status : ℤ
  pub message : Option (List ℕ)

-- The numeric status that a call has, or another where the server sent none.
abbrev pub status_or : ℤ → Option ℤ → ℤ
status_or d none = d
status_or d (some code) = code

-- What a function that makes a call returns: null, a handle, or nothing yet where the turns run
-- out.
pub data Handle (A : Type 0) : Type 0 where
  null : Handle A
  handle : A → Handle A
  pending : Handle A

-- `Ok(Some(m))` of `recv`, or an empty body.
abbrev pub body_of : Received → List ℕ
body_of (message m) = m
body_of ended = []
body_of waiting = []
body_of (failed e) = []

abbrev pub Answer : Type 0
Answer = ClientConn × Handle Response

-- From the end of the call on: its status and message, then what `recv` gives.
abbrev pub response_of : ClientConn → Outcome → Answer
response_of c (c', ts, got) = (
  c',
  handle (record {
    body = body_of got;
    status = status_or (pos 2) c.state.grpc_status;
    message = c.state.grpc_message;
  }),
)

abbrev pub on_end : (ℕ → Bool) → CallEnd → Answer
on_end grants (c, closed, ts, ended) = response_of c (recv grants ts c)
on_end grants (c, closed, ts, message m) = response_of c (recv grants ts c)
on_end grants (c, closed, ts, failed e) = (c, null)
on_end grants (c, closed, ts, waiting) = (c, pending)

unfoldable pub unary_on :
    (ℕ → Bool) → Reply → List Turn → List ℕ → Option (List ℕ) → ℕ → ClientConn → Answer
unfolding unary recv
unary_on grants r ts path req req_len c =
    on_end grants (unary grants r ts path (slice req req_len) c)

-- The guards on null.
unfoldable pub grpcuds_client_unary :
    (ℕ → Bool)
    → Reply
    → List Turn
    → Option ClientConn
    → Option (List ℕ)
    → Option (List ℕ)
    → ℕ
    → Option ClientConn × Handle Response
unfolding unary_on
grpcuds_client_unary grants r ts none path req req_len = (none, null)
grpcuds_client_unary grants r ts (some c) none req req_len = (some c, null)
grpcuds_client_unary grants r ts (some c) (some path) req req_len =
    let (c', answer) = unary_on grants r ts path req req_len c in (some c', answer)

-- The client that a stream points to is beside it.
pub record Stream : Type 0 where
  pub cur : List ℕ
  pub done : Bool
  pub status : ℤ
  pub message : Option (List ℕ)

abbrev new_stream : Stream
new_stream = record { cur = []; done = false; status = pos 0; message = none }

abbrev stream_of : Made ℕ → Option ClientConn × Handle Stream
stream_of (c, closed, ok sid) = (some c, handle new_stream)
stream_of (c, closed, err e) = (some c, null)

unfoldable pub grpcuds_client_server_streaming :
    Reply
    → Option ClientConn
    → Option (List ℕ)
    → Option (List ℕ)
    → ℕ
    → Option ClientConn × Handle Stream
unfolding submit
grpcuds_client_server_streaming r none path req req_len = (none, null)
grpcuds_client_server_streaming r (some c) none req req_len = (some c, null)
grpcuds_client_server_streaming r (some c) (some path) req req_len =
    stream_of (submit r path (slice req req_len) c)

-- What a read of a stream returns: bytes, null, or nothing yet where the turns run out.
pub record Read : Type 0 where
  pub stream : Stream
  pub conn : ClientConn
  pub left : List Turn
  pub bytes : Handle (List ℕ)

abbrev on_received : Stream → Outcome → Read
on_received s (c, ts, message m) = record {
  stream = record s { cur = m };
  conn = c;
  left = ts;
  bytes = handle m;
}
on_received s (c, ts, ended) = record {
  stream = record s {
    done = true;
    status = status_or (pos 0) c.state.grpc_status;
    message = c.state.grpc_message;
  };
  conn = c;
  left = ts;
  bytes = null;
}
on_received s (c, ts, failed e) = record {
  stream = record s { done = true; status = pos 14 };
  conn = c;
  left = ts;
  bytes = null;
}
on_received s (c, ts, waiting) = record { stream = s; conn = c; left = ts; bytes = pending }

unfoldable pub grpcuds_stream_next : (ℕ → Bool) → List Turn → Stream → ClientConn → Read
unfolding recv
grpcuds_stream_next grants ts s c =
    if s.done
    then record { stream = s; conn = c; left = ts; bytes = null }
    else on_received s (recv grants ts c)

-- The accessors, whose values for null are the first clauses.
unfoldable pub grpcuds_response_status : Option Response → ℤ
grpcuds_response_status none = pos 2
grpcuds_response_status (some r) = r.status

unfoldable pub grpcuds_stream_status : Option Stream → ℤ
grpcuds_stream_status none = pos 2
grpcuds_stream_status (some s) = s.status
