-- ===== src/Uds/Listener/Tests.antt =====
-- A bind whose listen(2) fails.
use grpc_uds.Prelude.{ℕ, List, ◌≡◌, refl, [], ◌∷◌, ok, err, none, some}
use grpc_uds.Uds.{errno}
use grpc_uds.Uds.Listener.{BindAnswers, bind, c_name, unlinks, opens, closes}

abbrev busy : BindAnswers
busy = record { socket = ok 5; bind = none; listen = some 98 }

abbrev path : List ℕ
path = 47 ∷ 97 ∷ 0 ∷ []

bind_busy : bind busy path ≡ (unlinks (47 ∷ 97 ∷ []) ∷ opens 5 ∷ closes 5 ∷ [], err (errno 98))
unfolding bind c_name
bind_busy = refl
