-- ===== src/Uds/Tests.antt =====
-- A flush of two pending bytes and two chunks; the socket takes a byte at a time, and fills within
-- the first chunk.
use grpc_uds.Prelude.{ℕ, sym, true, List, [], ◌∷◌, ok, negsuc, append-nil}
use grpc_uds.Conn.{Conn}
use grpc_uds.Uds.{Pull, sends, eintr, eagain, flush_writes}
use grpc_uds.Uds.Pending.{total}
use grpc_uds.Uds.Ordered.{IsOrderly, Reported, flush_writes_lem}

abbrev bare : Conn
bare = record {
  commands = [];
  streams = [];
  methods = [];
  max_message_len = 100;
  fd = negsuc 0;
  out_pending = 1 ∷ 2 ∷ [];
  fired = [];
  sent = [];
}

abbrev chunk_only : List ℕ → Pull
chunk_only bytes = record { effect = λ c. c; chunk = ok bytes }

nothing_direct : Pull → List ℕ
nothing_direct _ = []

chunk_only-IsOrderly : (bytes : List ℕ) → IsOrderly nothing_direct (chunk_only bytes)
unfolding nothing_direct
chunk_only-IsOrderly bytes = record {
  ships = λ c _. sym (append-nil (total c));
  waits = λ c b bs e _. e;
}

flush_writes_lem_example :
    let (c', r) =
      flush_writes true true true
        (chunk_only (3 ∷ 4 ∷ []) ∷ chunk_only (5 ∷ []) ∷ [])
        (sends 1 ∷ eintr ∷ sends 1 ∷ sends 1 ∷ eagain ∷ [])
        bare in
    Reported nothing_direct (chunk_only (3 ∷ 4 ∷ []) ∷ chunk_only (5 ∷ []) ∷ []) (total bare) c' r
flush_writes_lem_example =
    flush_writes_lem nothing_direct true true true
      (chunk_only (3 ∷ 4 ∷ []) ∷ chunk_only (5 ∷ []) ∷ [])
      (sends 1 ∷ eintr ∷ sends 1 ∷ sends 1 ∷ eagain ∷ []) bare
      (chunk_only-IsOrderly (3 ∷ 4 ∷ []), (chunk_only-IsOrderly (5 ∷ []), tt))
