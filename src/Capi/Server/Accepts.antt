-- ===== src/Capi/Server/Accepts.antt =====
-- What an accept gives to the connection, and the safety of the handles that it gives out.
use grpc_uds.Prelude.{
  ℕ, ◌≡◌, ◌≢◌, ◌⊎◌, true, List, [], ◌∷◌, ◌++◌, map, Option, none, some, Result, ok, err, pos, arith,
}
use grpc_uds.Errors.{Reply, ConnError}
use grpc_uds.Conn.{Conn, MethodEntry, Answers, new_server}
use grpc_uds.Mailbox.Safety.{Reachable, accepts, frees, erase}
use grpc_uds.Mailbox.Replays.{IsLive}
use grpc_uds.Uds.Listener.{Effect, opens, closes, Listener, AcceptAnswer}
use grpc_uds.Mailbox.{unregister_call}
use grpc_uds.Capi.{World}
use grpc_uds.Capi.Server.{CMethodEntry, CServer, c_handler_trampoline, grpcuds_conn_free}

-- How the core holds a method of the server.
abbrev pub method_of : CMethodEntry → MethodEntry
method_of e = record {
  path = e.path;
  handler = c_handler_trampoline e;
  user_data = e.entry;
  backpressure = none;
}

abbrev with_methods : List MethodEntry → Conn → Conn
with_methods ms c = record c { methods = ms }

abbrev Registered : List CMethodEntry → Conn → Option Conn → Type 0
Registered es c none = Unit
Registered es c (some c') = c' ≡ with_methods (c.methods ++ map method_of es) c

-- A fresh connection with these methods.
abbrev pub Serves : List CMethodEntry → Conn → Type 0
Serves es c = (c.methods ≡ map method_of es) × (c.streams ≡ []) × (c.out_pending ≡ [])

-- What becomes of a descriptor when no connection comes of an accept: none was accepted, or it is
-- closed again, or, where nghttp2 refuses the session, it stays open.
abbrev pub Unheld : Answers → Reply → AcceptAnswer → List Effect → Type 0
Unheld session created a fx =
    (fx ≡ [])
    ⊎ ((fd : ℕ) × (a ≡ AcceptAnswer.accepts fd)
        × ((fx ≡ opens fd ∷ closes fd ∷ [])
            ⊎ ((fx ≡ opens fd ∷ []) × ((e : ConnError) × (new_server session created ≡ err e)))))

-- The descriptor that was accepted is the connection's.
abbrev pub Held : AcceptAnswer → List Effect → Conn → Type 0
Held a fx c = (fd : ℕ) × (a ≡ AcceptAnswer.accepts fd) × (fx ≡ opens fd ∷ []) × (c.fd ≡ pos fd)

-- No connection and nothing changed, or one at the address, which the mailbox may use.
abbrev pub Gave :
    List ℕ → Answers → Reply → AcceptAnswer → ℕ → CServer → World → List Effect × World × ℕ → Type 0
Gave known session created a raw s w (fx, w', r) =
    ((w' ≡ w) × (r ≡ 0) × Unheld session created a fx)
    ⊎ ((r ≡ raw)
        × Reachable (raw ∷ known) w'.mailbox w'.heap
        × ((c : Conn) × (w'.heap raw ≡ some c) × Serves s.methods c × Held a fx c))

abbrev IsNew : Result Conn ConnError → Type 0
IsNew (err e) = Unit
IsNew (ok c) = (c.methods ≡ []) × (c.streams ≡ []) × (c.out_pending ≡ [])

-- A free of a live connection keeps the mailbox and the memory in such a state, with memory for
-- the tombstone, and nothing stands at the address after it.
pub conn_free-Reachable :
    (known : List ℕ) (c : ℕ) (w : World)
    → c ≢ 0
    → IsLive w.heap c
    → Reachable known w.mailbox w.heap
    → (w' : World) × (grpcuds_conn_free true c w ≡ some w')
      × Reachable known w'.mailbox w'.heap
      × (w'.heap c ≡ none)
unfolding grpcuds_conn_free
conn_free-Reachable known c w not_null (conn, live) r = (
  record { mailbox = unregister_call true c w.mailbox; heap = erase c w.heap },
  rw live (ground arith),
  frees c (conn, live) r,
  ground arith,
)
