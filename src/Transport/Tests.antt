-- ===== src/Transport/Tests.antt =====
-- The end-to-end theorem at two messages, drained in rounds of four and of twenty bytes.
use grpc_uds.Prelude.{ℕ, ◌≡◌, refl, true, false, List, [], ◌∷◌, ◌++◌, none, arith}
use grpc_uds.OutQueue.{new}
use grpc_uds.OutQueue.Wire.{wire}
use grpc_uds.Client.Call.{CallState, reset}
use grpc_uds.Transport.{enqueue_all, pump, pump_delivers}

abbrev idle : CallState
idle = record {
  req = [];
  req_off = 0;
  http_status = none;
  grpc_status = none;
  grpc_message = none;
  inbuf = [];
  messages = [];
  closed = false;
}

abbrev bodies : List (List ℕ)
bodies = (7 ∷ []) ∷ [] ∷ []

pump_delivers_example :
    let (st', q') = pump (λ _. true) (4 ∷ 20 ∷ []) (enqueue_all bodies new) (reset [] idle) in
    ((more : List (List ℕ)) × (st'.messages ++ more ≡ bodies))
    × (wire q' ≡ [] → (st'.messages ≡ bodies) × (st'.inbuf ≡ []))
pump_delivers_example =
    pump_delivers (λ _. true) bodies (4 ∷ 20 ∷ []) [] idle (λ _. refl)
      (omega arith, (omega arith, tt))
