-- ===== src/Server/Tests.antt =====
-- The theorems on the Rust server at concrete inputs.
use grpc_uds.Prelude.{ℕ, ◌≡◌, Bool, true, false, List, [], ◌∷◌, none, Result, ok, negsuc}
use grpc_uds.Headers.{status_ok}
use grpc_uds.Conn.{Conn}
use grpc_uds.Server.{write, finish, OutOp, CallShared, World, Io, find_slot, apply_ops, Status}
use grpc_uds.Server.Routes.{own_ops, on_conn, apply_ops-own}

-- A connection with no streams.
abbrev bare : Conn
bare = record {
  commands = [];
  streams = [];
  methods = [];
  max_message_len = 100;
  fd = negsuc 0;
  out_pending = [];
  fired = [];
  sent = [];
}

abbrev unused : CallShared
unused = record { finished = false; dead = false; overflow = false }

-- The first connection with token 1 is dead.
abbrev io : Io
io = record {
  slots =
      record { token = 1; conn = bare; dead = true }
      ∷ record { token = 2; conn = bare; dead = false }
      ∷ record { token = 1; conn = bare; dead = false }
      ∷ [];
  flags = λ k. unused;
}

abbrev ops : List (Bool × OutOp)
ops =
    (true, record { token = 1; call_id = 3; kind = write (7 ∷ []); shared = 50 })
    ∷ (true, record { token = 2; call_id = 1; kind = finish status_ok none; shared = 60 })
    ∷ []

apply_ops-own_example :
    find_slot 1 (apply_ops ops io).slots ≡ on_conn (own_ops 1 ops) (find_slot 1 io.slots)
apply_ops-own_example = apply_ops-own 1 ops io

abbrev echo : List ℕ → Result (List ℕ) Status
echo req = ok req

abbrev world : World
world = record { mailbox = record { ops = []; pokes = 0 }; flags = λ k. unused }
