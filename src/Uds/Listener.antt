-- ===== src/Uds/Listener.antt =====
-- `Listener` of rust/grpcuds-core/src/uds.rs: binding to a path, accepting, and the drop. What the
-- system calls do outside the process, and the descriptors they open and close, are `Effect`s.
pub mod Owned
mod Tests
use grpc_uds.Prelude.{
  ℕ, ◌-◌, List, [], ◌∷◌, ◌++◌, Option, none, some, Result, ok, err, pos, ltb, ◌==◌, ◌||◌,
  if◌then◌else◌, length,
}
use grpc_uds.Errors.{ConnError, Reply}
use grpc_uds.Conn.{Conn, Answers, new_server}
use grpc_uds.Uds.{IoError, errno, invalid_path, conn_error}
use grpc_uds.Client.Conn.Wait.{trim_nul, sun_path_len}

pub data Effect : Type 0 where
  unlinks : List ℕ → Effect
  opens closes : ℕ → Effect

pub record Listener : Type 0 where
  pub fd : ℕ
  pub addr : List ℕ

-- What the system answers: a descriptor or an errno to socket(2), and an errno of bind(2) and of
-- listen(2) if they fail.
pub record BindAnswers : Type 0 where
  pub socket : Result ℕ ℕ
  pub bind : Option ℕ
  pub listen : Option ℕ

abbrev pub Bound : Type 0
Bound = List Effect × Result Listener IoError

abbrev and_effects : List Effect → Bound → Bound
and_effects before (after, r) = (before ++ after, r)

-- The name that the file system reads in `sun_path`: up to its first NUL.
unfoldable pub c_name : List ℕ → List ℕ
c_name [] = []
c_name (b ∷ bs) = if b == 0 then [] else b ∷ c_name bs

abbrev listened : List ℕ → ℕ → Option ℕ → Bound
listened addr fd none = ([], ok (record { fd = fd; addr = addr }))
listened addr fd (some e) = (closes fd ∷ [], err (errno e))

abbrev on_bind : List ℕ → ℕ → BindAnswers → Option ℕ → Bound
on_bind addr fd a none = listened addr fd a.listen
on_bind addr fd a (some e) = (closes fd ∷ [], err (errno e))

abbrev on_socket : List ℕ → BindAnswers → Result ℕ ℕ → Bound
on_socket addr a (err e) = ([], err (errno e))
on_socket addr a (ok fd) = and_effects (opens fd ∷ []) (on_bind addr fd a a.bind)

unfoldable pub bind : BindAnswers → List ℕ → Bound
unfolding c_name
bind a path =
    let trimmed = trim_nul path in
    if (length trimmed == 0) || ltb (sun_path_len - 1) (length trimmed)
    then ([], err invalid_path)
    else and_effects (unlinks (c_name trimmed) ∷ []) (on_socket trimmed a a.socket)

-- The drop.
unfoldable pub drop_listener : Listener → List Effect
unfolding c_name
drop_listener l = closes l.fd ∷ unlinks (c_name l.addr) ∷ []

-- What accept4(2) answers.
pub data AcceptAnswer : Type 0 where
  accepts : ℕ → AcceptAnswer
  accept_eagain : AcceptAnswer
  accept_fails : ℕ → AcceptAnswer

abbrev pub Accepted : Type 0
Accepted = List Effect × Result (Option Conn) IoError

-- `set_fd`, after `new_server`, whose failure leaves the descriptor open.
abbrev pub with_fd : ℕ → Result Conn ConnError → Accepted
with_fd fd (err e) = (opens fd ∷ [], err (conn_error e))
with_fd fd (ok c) = (opens fd ∷ [], ok (some (record c { fd = pos fd })))

-- `session` and `created` are nghttp2's answers to the creation of the connection.
unfoldable pub accept : Answers → Reply → AcceptAnswer → Accepted
unfolding new_server
accept session created accept_eagain = ([], ok none)
accept session created (accept_fails e) = ([], err (errno e))
accept session created (accepts fd) = with_fd fd (new_server session created)
