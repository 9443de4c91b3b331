-- ===== src/Conn.antt =====
-- A server connection, rust/grpcuds-core/src/conn/state.rs: its state, the nghttp2 session as the
-- calls made to it, and the lookups of a stream. An i32 stream id is only compared, so a number
-- stands for it, as for the address of a callback or of user data.
pub mod Calls
pub mod Receive
pub mod Deadlines
pub mod Dispatch
pub mod Provider
pub mod Streams
mod Tests
use grpc_uds.Prelude.{
  ℕ, ◌+◌, Bool, true, false, List, [], ◌∷◌, ◌++◌, Option, none, some, Result, ok, err, ℤ, pos,
  negsuc, ◌==◌, if◌then◌else◌,
}
use grpc_uds.Framing.{default_max_message_len}
use grpc_uds.Headers.{GrpcStatus, Header, response_headers}
use grpc_uds.Errors.{ConnError, Reply, nghttp2_error}
use grpc_uds.OutQueue.{OutQueue, Backpressure}

pub data StreamState : Type 0 where
  headers_in body_in complete dispatched closed cancelled : StreamState

pub record CancelHook : Type 0 where
  pub callback : ℕ
  pub user_data : ℕ

pub record StreamCtx : Type 0 where
  pub id : ℕ
  pub state : StreamState
  pub request : List ℕ
  pub path : List ℕ
  pub out : OutQueue
  pub status : GrpcStatus
  pub cancel_hook : Option CancelHook
  pub deadline_ms : Option ℕ

-- The calls that a handler may make on its connection, for any call id. Those that enqueue carry
-- the allocator's answers.
pub data ApiCall : Type 0 where
  writes : Bool → Bool → ℕ → List ℕ → ApiCall
  writes_owned : Bool → ℕ → List ℕ → ApiCall
  finishes : ℕ → GrpcStatus → ApiCall
  finishes_msg : ℕ → GrpcStatus → List ℕ → ApiCall
  sets_hook : ℕ → CancelHook → ApiCall
  sets_policy : ℕ → Backpressure → ApiCall

-- A run of a handler, which is code of the application: the calls that it makes, each with what
-- it does next for each answer, and the i32 that it returns.
pub data Script : Type 0 where
  returns : ℤ → Script
  calls : ApiCall → (Reply → Script) → Script
  asks_time : ℕ → (Result (Option ℕ) ConnError → Script) → Script

-- `HandlerFn`: call id, payload, user data.
abbrev pub HandlerFn : Type 0
HandlerFn = ℕ → List ℕ → ℕ → Script

pub record MethodEntry : Type 0 where
  pub path : List ℕ
  pub handler : HandlerFn
  pub user_data : ℕ
  pub backpressure : Option Backpressure

-- The calls of the session that submit something.
pub data Command : Type 0 where
  submit_settings : Command
  submit_response : ℕ → List Header → Command
  submit_trailer : ℕ → List Header → Command
  resume_data : ℕ → Command

-- The code that nghttp2 returns for a command, after those before it.
abbrev pub Answers : Type 0
Answers = List Command → Command → ℤ

-- `Conn` with its `ConnState`. `commands` are the calls of the session so far, `fired` the hooks
-- that were called, and `sent` the bytes that the direct send put on the socket.
pub record Conn : Type 0 where
  pub commands : List Command
  pub streams : List StreamCtx
  pub methods : List MethodEntry
  pub max_message_len : ℕ
  pub fd : ℤ
  pub out_pending : List ℕ
  pub fired : List CancelHook
  pub sent : List ℕ

unfoldable pub command : Command → Conn → Conn
command cmd c = record c { commands = c.commands ++ (cmd ∷ []) }

-- `rc != 0`.
abbrev pub is_zero : ℤ → Bool
is_zero (pos n) = n == 0
is_zero (negsuc n) = false

-- The reply for a return code.
abbrev pub checked : ℤ → Reply
checked rc = if is_zero rc then ok tt else err (nghttp2_error rc)

unfoldable pub fresh : Conn
fresh = record {
  commands = [];
  streams = [];
  methods = [];
  max_message_len = default_max_message_len;
  fd = negsuc 0;
  out_pending = [];
  fired = [];
  sent = [];
}

abbrev pub with_settings : Reply → Result Conn ConnError
unfolding fresh command
with_settings (ok _) = ok (command submit_settings fresh)
with_settings (err e) = err e

-- `created` is what the creation of the callbacks and the session returned.
unfoldable pub new_server : Answers → Reply → Result Conn ConnError
unfolding fresh command
new_server answers (err e) = err e
new_server answers (ok _) = with_settings (checked (answers [] submit_settings))

-- `streams.iter().find(|s| s.id == id)`.
unfoldable pub find_stream : ℕ → List StreamCtx → Option StreamCtx
find_stream i [] = none
find_stream i (s ∷ ss) = if s.id == i then some s else find_stream i ss

-- A write through the reference that `find` gives.
unfoldable pub update_stream : ℕ → (StreamCtx → StreamCtx) → List StreamCtx → List StreamCtx
update_stream i f [] = []
update_stream i f (s ∷ ss) = if s.id == i then f s ∷ ss else s ∷ update_stream i f ss

abbrev pub on_stream : ℕ → (StreamCtx → StreamCtx) → Conn → Conn
on_stream i f c = record c { streams = update_stream i f c.streams }

abbrev pub set_out : OutQueue → StreamCtx → StreamCtx
set_out q s = record s { out = q }

-- `register_method_inner`; the answers are those for the path and for the entry.
unfoldable pub register_method_inner :
    Bool → Bool → List ℕ → HandlerFn → ℕ → Option Backpressure → Conn → Conn × Reply
register_method_inner false room path handler ud bp c = (c, err ConnError.out_of_memory)
register_method_inner true false path handler ud bp c = (c, err ConnError.out_of_memory)
register_method_inner true true path handler ud bp c = (
  record c {
    methods =
        c.methods
        ++ (record { path = path; handler = handler; user_data = ud; backpressure = bp } ∷ []);
  },
  ok tt,
)

unfoldable pub register_method : Bool → Bool → List ℕ → HandlerFn → ℕ → Conn → Conn × Reply
unfolding register_method_inner
register_method copy room path handler ud c = register_method_inner copy room path handler ud none c

unfoldable pub register_streaming_method :
    Bool → Bool → List ℕ → HandlerFn → ℕ → Backpressure → Conn → Conn × Reply
unfolding register_method_inner
register_streaming_method copy room path handler ud bp c =
    register_method_inner copy room path handler ud (some bp) c

-- The response is marked as started once the session took it.
abbrev pub response_submitted : ℕ → Conn → Reply → Conn × Reply
response_submitted i c (err e) = (c, err e)
response_submitted i c (ok _) =
    (on_stream i (λ s. record s { out = record (s.out) { response_started = true } }) c, ok tt)

unfoldable pub submit_response_for : Answers → ℕ → Conn → Conn × Reply
unfolding command
submit_response_for answers i c =
    let cmd = submit_response i response_headers in
    response_submitted i (command cmd c) (checked (answers c.commands cmd))
