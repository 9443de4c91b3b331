-- ===== src/Capi/Server.antt =====
-- The server and connection handles of rust/grpcuds-ffi-impl/src/server.rs. A handle is `none` for
-- null; the address of a connection stands for that of the `Conn` within it, its call handle.
pub mod Accepts
mod Tests
use grpc_uds.Prelude.{
  ℕ, ◌-◌, ◌^◌, min, Bool, List, [], ◌∷◌, ◌++◌, Option, none, some, Result, ok, err, ℤ, pos, negsuc,
  ◌==◌, if◌then◌else◌,
}
use grpc_uds.Errors.{ConnError, Reply}
use grpc_uds.Conn.{Conn, Answers, HandlerFn, register_method}
use grpc_uds.Conn.Deadlines.{next_deadline_ms}
use grpc_uds.Uds.{
  IoError, TickStatus, live, closed, wants_write, tick_read, tick_write, Recv, ReadAnswer, Pull,
  SendAnswer,
}
use grpc_uds.Uds.Listener.{
  Effect, closes, Listener, BindAnswers, bind, drop_listener, AcceptAnswer, accept, Accepted,
}
use grpc_uds.Mailbox.{store, register_call, unregister_call}
use grpc_uds.Mailbox.Safety.{erase}
use grpc_uds.Capi.{World, minus, err_inval, err_nomem, io_err_to_c}

-- `entry` is the address of the box, which the core gets as the handler's user data.
pub record CMethodEntry : Type 0 where
  pub entry : ℕ
  pub path : List ℕ
  pub user_handler : HandlerFn
  pub user_data : ℕ

pub record CServer : Type 0 where
  pub listener : Option Listener
  pub methods : List CMethodEntry

-- The C handler, run by the core with the address of its entry, gets its own user data.
unfoldable pub c_handler_trampoline : CMethodEntry → HandlerFn
c_handler_trampoline e call_id req entry = e.user_handler call_id req e.user_data

grpcuds_server_new : CServer
grpcuds_server_new = record { listener = none; methods = [] }

abbrev dropped : Option Listener → List Effect
dropped none = []
dropped (some l) = drop_listener l

unfoldable pub grpcuds_server_free : Option CServer → List Effect
grpcuds_server_free none = []
grpcuds_server_free (some s) = dropped s.listener

-- What a call does outside, the server after it, and its result.
abbrev pub Served : Type 0
Served = List Effect × CServer × ℤ

-- A server that was bound before drops its old listener.
abbrev bound_to : CServer → List Effect × Result Listener IoError → Served
bound_to s (fx, ok l) = (fx ++ dropped s.listener, record s { listener = some l }, pos 0)
bound_to s (fx, err e) = (fx, s, io_err_to_c e)

-- This and `grpcuds_server_register_method` are of a server that is not null; for null the result
-- is `err_inval`.
unfoldable pub grpcuds_server_bind_uds : BindAnswers → Option (List ℕ) → CServer → Served
unfolding bind io_err_to_c
grpcuds_server_bind_uds a none s = ([], s, err_inval)
grpcuds_server_bind_uds a (some path) s = bound_to s (bind a path)

abbrev fd_of : Option Listener → ℤ
fd_of none = minus 1
fd_of (some l) = pos l.fd

unfoldable pub grpcuds_server_listener_fd : Option CServer → ℤ
grpcuds_server_listener_fd none = err_inval
grpcuds_server_listener_fd (some s) = fd_of s.listener

abbrev add_method : Bool → Bool → CMethodEntry → CServer → CServer × ℤ
add_method copy room e s =
    if copy
    then (if room then (record s { methods = s.methods ++ (e ∷ []) }, pos 0) else (s, err_nomem))
    else (s, err_nomem)

-- `copy` and `room` are the allocator's answers for the path and for the list.
unfoldable pub grpcuds_server_register_method :
    Bool → Bool → ℕ → Option (List ℕ) → Option HandlerFn → ℕ → CServer → CServer × ℤ
grpcuds_server_register_method copy room entry none handler ud s = (s, err_inval)
grpcuds_server_register_method copy room entry (some path) none ud s = (s, err_inval)
grpcuds_server_register_method copy room entry (some path) (some handler) ud s =
    add_method copy room
      (record { entry = entry; path = path; user_handler = handler; user_data = ud }) s

-- The loop over the methods, each with the allocator's two answers; `none` where one fails.
abbrev and_register : (Conn → Option Conn) → Conn × Reply → Option Conn
and_register next (c, ok _) = next c
and_register next (c, err e) = none

unfoldable pub register_all : List (Bool × Bool) → List CMethodEntry → Conn → Option Conn
unfolding register_method c_handler_trampoline
register_all answers [] c = some c
register_all [] (e ∷ es) c = none
register_all ((copy, room) ∷ answers) (e ∷ es) c =
    and_register (register_all answers es)
      (register_method copy room e.path (c_handler_trampoline e) e.entry c)

abbrev close_of : ℤ → List Effect
close_of (pos fd) = closes fd ∷ []
close_of (negsuc n) = []

-- A connection at the address that the allocator gives, which is what the call returns. One that
-- does not get its methods is dropped, which closes its descriptor `fd`.
abbrev placed : List Effect → ℤ → ℕ → World → Option Conn → List Effect × World × ℕ
placed fx fd raw w none = (fx ++ close_of fd, w, 0)
placed fx fd raw w (some c) =
    (fx, record { mailbox = register_call raw w.mailbox; heap = store raw c w.heap }, raw)

abbrev accepted : List (Bool × Bool) → ℕ → CServer → World → Accepted → List Effect × World × ℕ
accepted answers raw s w (fx, err e) = (fx, w, 0)
accepted answers raw s w (fx, ok none) = (fx, w, 0)
accepted answers raw s w (fx, ok (some c)) = placed fx c.fd raw w (register_all answers s.methods c)

abbrev accept_on :
    Answers
    → Reply
    → AcceptAnswer
    → List (Bool × Bool)
    → ℕ
    → CServer
    → World
    → Option Listener
    → List Effect × World × ℕ
accept_on session created a answers raw s w none = ([], w, 0)
accept_on session created a answers raw s w (some l) =
    accepted answers raw s w (accept session created a)

unfoldable pub grpcuds_server_accept :
    Answers
    → Reply
    → AcceptAnswer
    → List (Bool × Bool)
    → ℕ
    → Option CServer
    → World
    → List Effect × World × ℕ
unfolding accept register_all register_call
grpcuds_server_accept session created a answers raw none w = ([], w, 0)
grpcuds_server_accept session created a answers raw (some s) w =
    accept_on session created a answers raw s w s.listener

abbrev freed : Bool → ℕ → World → Option Conn → Option World
freed room c w none = none
freed room c w (some conn) =
    some (record { mailbox = unregister_call room c w.mailbox; heap = erase c w.heap })

-- `room` is the allocator's answer to the tombstone; `none` where it is freed already.
unfoldable pub grpcuds_conn_free : Bool → ℕ → World → Option World
unfolding unregister_call
grpcuds_conn_free room c w = if c == 0 then some w else freed room c w (w.heap c)

unfoldable pub tick_to_c : Result TickStatus IoError → ℤ
unfolding io_err_to_c
tick_to_c (ok live) = pos 0
tick_to_c (ok closed) = pos 1
tick_to_c (err e) = io_err_to_c e

abbrev ticked : ℕ → World → Conn × Result TickStatus IoError → World × ℤ
ticked c w (conn, r) = (record w { heap = store c conn w.heap }, tick_to_c r)

-- The world and the result; `none` where the call would touch freed memory.
abbrev tick_at :
    (Conn → Conn × Result TickStatus IoError) → ℕ → World → Option Conn → Option (World × ℤ)
tick_at tick c w none = none
tick_at tick c w (some conn) = some (ticked c w (tick conn))

abbrev tick_conn : (Conn → Conn × Result TickStatus IoError) → ℕ → World → Option (World × ℤ)
tick_conn tick c w = if c == 0 then some (w, err_inval) else tick_at tick c w (w.heap c)

unfoldable pub grpcuds_conn_tick_read :
    Answers
    → ℕ
    → Recv
    → List ReadAnswer
    → Bool
    → Bool
    → Bool
    → List Pull
    → List SendAnswer
    → ℕ
    → World
    → Option (World × ℤ)
unfolding tick_read tick_to_c
grpcuds_conn_tick_read session now recv inputs room stash wants pulls answers c w =
    tick_conn (tick_read session now recv inputs room stash wants pulls answers) c w

unfoldable pub grpcuds_conn_tick_write :
    ℕ → Bool → Bool → Bool → List Pull → List SendAnswer → ℕ → World → Option (World × ℤ)
unfolding tick_write tick_to_c
grpcuds_conn_tick_write now room stash wants pulls answers c w =
    tick_conn (tick_write now room stash wants pulls answers) c w

abbrev ms_to_c : Option ℕ → ℤ
ms_to_c none = minus 1
ms_to_c (some ms) = pos (min ms (2 ^ 63 - 1))

abbrev asked : (Conn → ℤ) → Option Conn → Option ℤ
asked question none = none
asked question (some conn) = some (question conn)

unfoldable pub grpcuds_conn_next_deadline_ms : ℕ → ℕ → World → Option ℤ
unfolding next_deadline_ms
grpcuds_conn_next_deadline_ms now c w =
    if c == 0
    then some err_inval
    else asked (λ conn. ms_to_c (next_deadline_ms now conn)) (w.heap c)

unfoldable pub grpcuds_conn_wants_write : Bool → ℕ → World → Option ℤ
unfolding wants_write
grpcuds_conn_wants_write wants c w =
    if c == 0
    then some err_inval
    else asked (λ conn. pos (if wants_write wants conn then 1 else 0)) (w.heap c)

unfoldable pub grpcuds_conn_fd : ℕ → World → Option ℤ
grpcuds_conn_fd c w = if c == 0 then some err_inval else asked (λ conn. conn.fd) (w.heap c)
