-- ===== src/Capi/Server/Tests.antt =====
-- An accept on a server with two methods, then the free of its connection.
use grpc_uds.Prelude.{ℕ, List, [], ◌∷◌, none, some, pos}
use grpc_uds.Conn.{Answers, HandlerFn, returns}
use grpc_uds.Mailbox.{new}
use grpc_uds.Capi.{World}
use grpc_uds.Capi.Server.{CMethodEntry, CServer}

abbrev says_ok : HandlerFn
says_ok call_id req ud = returns (pos 0)

abbrev method : ℕ → List ℕ → CMethodEntry
method entry path = record { entry = entry; path = path; user_handler = says_ok; user_data = 9 }

abbrev server : CServer
server = record {
  listener = some (record { fd = 4; addr = 47 ∷ [] });
  methods = method 100 (1 ∷ []) ∷ method 200 (2 ∷ []) ∷ [];
}

abbrev session : Answers
session done cmd = pos 0

abbrev empty : World
empty = record { mailbox = new; heap = λ _. none }
