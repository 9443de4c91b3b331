-- ===== src/Server/Builder.antt =====
-- `ServerBuilder` of rust/grpcuds/src/server.rs, the typed handlers over prost's messages, and the
-- flag of a running server. A path is its bytes.
use grpc_uds.Prelude.{
  strip_prefix, ℕ, List, [], ◌∷◌, ◌++◌, Option, none, some, Result, ok, err, if◌then◌else◌, codes,
}
use grpc_uds.Headers.{GrpcStatus}
use grpc_uds.Types.{Error}
use grpc_uds.Uds.{IoError, errno, invalid_path, conn_error}
use grpc_uds.Uds.Listener.{Effect, Listener, BindAnswers}
use grpc_uds.Client.Text.{is_utf8}
use grpc_uds.Server.{Status, Handler, unary, server_streaming, WriterScript, returns}

pub record ServerBuilder : Type 0 where
  pub path : Option (List ℕ)
  pub methods : List (List ℕ × Handler)

abbrev pub new_builder : ServerBuilder
new_builder = record { path = none; methods = [] }

abbrev or_whole : List ℕ → Option (List ℕ) → List ℕ
or_whole p none = p
or_whole p (some stripped) = stripped

-- A path that is not UTF-8 is taken as it is.
unfoldable pub bind : List ℕ → ServerBuilder → ServerBuilder
bind p b = record b {
  path = some (if is_utf8 p then or_whole p (strip_prefix (codes "unix:") p) else p);
}

unfoldable pub add : List ℕ → Handler → ServerBuilder → ServerBuilder
add path handler b = record b { methods = b.methods ++ ((path, handler) ∷ []) }

pub record Server : Type 0 where
  pub listener : Listener
  pub methods : List (List ℕ × Handler)

abbrev pub build_error : List ℕ → IoError → Error
build_error path invalid_path = Error.invalid_path path
build_error path (errno e) = Error.bind path (some e)
build_error path (conn_error e) = Error.bind path none

abbrev pub Built : Type 0
Built = List Effect × Result Server Error

abbrev pub listening : ServerBuilder → List ℕ → List Effect × Result Listener IoError → Built
listening b path (fx, ok l) = (fx, ok (record { listener = l; methods = b.methods }))
listening b path (fx, err e) = (fx, err (build_error path e))

abbrev pub build_at : BindAnswers → ServerBuilder → Option (List ℕ) → Built
build_at a b none = ([], err Error.missing_bind_path)
build_at a b (some path) = listening b path (grpc_uds.Uds.Listener.bind a path)

unfoldable pub build : BindAnswers → ServerBuilder → Built
unfolding grpc_uds.Uds.Listener.bind
build a b = build_at a b b.path

-- A codec of prost: `decode`, whose error has a text, and `encode`.
abbrev decode_status : List ℕ → Status
decode_status why = (GrpcStatus.internal, some (codes "failed to decode request: " ++ why))

abbrev encoded {ℓ} : {Resp : Type ℓ} → (Resp → List ℕ) → Result Resp Status → Result (List ℕ) Status
encoded encode (ok resp) = ok (encode resp)
encoded encode (err status) = err status

module _ {ℓ} {Req : Type ℓ} where
  abbrev unary_bytes {κ} :
      {Resp : Type κ}
      → (Resp → List ℕ)
      → (Req → Result Resp Status)
      → Result Req (List ℕ)
      → Result (List ℕ) Status
  unary_bytes encode handler (ok req) = encoded encode (handler req)
  unary_bytes encode handler (err why) = err (decode_status why)

  unfoldable pub add_unary_msg {κ} :
      {Resp : Type κ}
      → (List ℕ → Result Req (List ℕ))
      → (Resp → List ℕ)
      → List ℕ
      → (Req → Result Resp Status)
      → ServerBuilder
      → ServerBuilder
  unfolding add
  add_unary_msg decode encode path handler b =
      add path (unary (λ bytes. unary_bytes encode handler (decode bytes))) b

  abbrev streaming_script : (Req → WriterScript) → Result Req (List ℕ) → WriterScript
  streaming_script handler (ok req) = handler req
  streaming_script handler (err why) = returns (decode_status why)

  -- The handler's script has its messages encoded.
  unfoldable pub add_server_streaming_msg :
      (List ℕ → Result Req (List ℕ)) → List ℕ → (Req → WriterScript) → ServerBuilder → ServerBuilder
  unfolding add
  add_server_streaming_msg decode path handler b =
      add path (server_streaming (λ bytes. streaming_script handler (decode bytes))) b
