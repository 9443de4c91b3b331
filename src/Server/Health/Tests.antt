-- ===== src/Server/Health/Tests.antt =====
-- A service with two watchers, of which one is finished.
use grpc_uds.Prelude.{ℕ, ◌==◌, false, List, [], ◌∷◌, none}
use grpc_uds.Server.{CallShared, ServerWriter, World}
use grpc_uds.Server.Health.{ServingStatus, serving, not_serving, wire_value, Inner, set_status}
use grpc_uds.Server.Health.Tells.{Published, set_status-Published}

abbrev encode : ServingStatus → List ℕ
encode status = 8 ∷ wire_value status ∷ []

abbrev writer : ℕ → ServerWriter
writer k = record { token = 1; call_id = k; shared = k; deadline_at = none }

abbrev inner : Inner
inner = record {
  statuses = (1 ∷ [], serving) ∷ [];
  watchers = (1 ∷ [], writer 3 ∷ writer 5 ∷ []) ∷ [];
}

abbrev shared : ℕ → CallShared
shared k = record { finished = k == 3; dead = false; overflow = false }

abbrev world : World
world = record { mailbox = record { ops = []; pokes = 0 }; flags = shared }

set_status-Published_example :
    Published encode
      (1 ∷ [])
      not_serving
      inner
      world
      (set_status encode false (1 ∷ []) not_serving inner world)
set_status-Published_example = set_status-Published encode false (1 ∷ []) not_serving inner world
