-- ===== src/Client/Conn/Recv/Order.antt =====
-- The messages that a client receives, against the bytes that it was given.
use grpc_uds.Prelude.{
  ℕ, ◌≡◌, refl, ◌∙◌, Bool, List, [], ◌∷◌, ◌++◌, ok, err, ◌&&◌, ◌||◌, append_assoc, append-nil,
  both_ways,
}
use grpc_uds.Framing.{decode_header}
use grpc_uds.Client.Call.{deframe_loop, deframe_bytes}
use grpc_uds.Client.Conn.{ClientConn, Turn, Pumped, pump}
use grpc_uds.Client.Conn.Recv.{
  Received, message, ended, waiting, failed, Outcome, set_messages, has_status, recv_next,
  recv_round, recv_last, recv,
}
use grpc_uds.Client.Conn.Receive.{HearsAll, pump-HearsAll}

module _ (grants : ℕ → Bool) where
  -- What the caller of `recv` gets.
  abbrev pub delivered : Received → List (List ℕ)
  delivered (message m) = m ∷ []
  delivered ended = []
  delivered waiting = []
  delivered (failed e) = []

  abbrev OutcomeHears : List (List ℕ) → Outcome → Type 0
  OutcomeHears taken o = HearsAll grants (taken ++ delivered o.2) o.0

  pop-HearsAll :
      (taken : List (List ℕ)) (m : List ℕ) (ms : List (List ℕ)) (c : ClientConn)
      → c.state.messages ≡ m ∷ ms
      → HearsAll grants taken c
      → HearsAll grants (taken ++ (m ∷ [])) (set_messages ms c)
  pop-HearsAll taken m ms c e h = h ∙ rw (e, append_assoc taken (m ∷ []) ms) refl

  recv_next-HearsAll :
      (taken : List (List ℕ)) (next : ClientConn → Outcome) (ts : List Turn) (p : Pumped)
      → ((c : ClientConn) → HearsAll grants taken c → OutcomeHears taken (next c))
      → HearsAll grants taken p.0
      → OutcomeHears taken (recv_next next ts p)
  recv_next-HearsAll taken next ts (c, ok _) later h = later c h
  recv_next-HearsAll taken next ts (c, err e) later h = rw (append-nil taken) h

  recv_round-HearsAll :
      (taken : List (List ℕ)) (next : ClientConn → Outcome) (t : Turn) (ts : List Turn)
      (c : ClientConn) (ms : List (List ℕ))
      → c.state.messages ≡ ms
      → ((c : ClientConn) → HearsAll grants taken c → OutcomeHears taken (next c))
      → HearsAll grants taken c
      → OutcomeHears taken (recv_round grants next t ts c ms)
  recv_round-HearsAll taken next t ts c (m ∷ ms) e later h = pop-HearsAll taken m ms c e h
  recv_round-HearsAll taken next t ts c [] e later h =
      both_ways (OutcomeHears taken) (c.state.closed || (t.idle && has_status c.state.grpc_status))
        (c, t ∷ ts, ended) (recv_next next ts (pump grants t c)) (rw (append-nil taken) h)
        (recv_next-HearsAll taken next ts (pump grants t c) later
          (pump-HearsAll grants taken t c h))

  recv_last-HearsAll :
      (taken : List (List ℕ)) (c : ClientConn) (ms : List (List ℕ))
      → c.state.messages ≡ ms
      → HearsAll grants taken c
      → OutcomeHears taken (recv_last c ms)
  recv_last-HearsAll taken c (m ∷ ms) e h = pop-HearsAll taken m ms c e h
  recv_last-HearsAll taken c [] e h =
      both_ways (OutcomeHears taken) c.state.closed (c, [], ended) (c, [], waiting)
        (rw (append-nil taken) h) (rw (append-nil taken) h)

  recv-HearsAll :
      (taken : List (List ℕ)) (ts : List Turn) (c : ClientConn)
      → HearsAll grants taken c
      → OutcomeHears taken (recv grants ts c)
  unfolding recv
  recv-HearsAll taken [] c h = recv_last-HearsAll taken c c.state.messages refl h
  recv-HearsAll taken (t ∷ ts) c h =
      recv_round-HearsAll taken (recv grants ts) t ts c c.state.messages refl
        (recv-HearsAll taken ts) h

  -- `recv`, called as often as the list of turn lists is long: what it delivers, and the
  -- connection.
  abbrev pub also_delivered :
      List (List ℕ) → List (List ℕ) × ClientConn → List (List ℕ) × ClientConn
  also_delivered ms (more, c) = (ms ++ more, c)

  unfoldable pub receive_calls : List (List Turn) → ClientConn → List (List ℕ) × ClientConn
  unfolding recv
  receive_calls [] c = ([], c)
  receive_calls (ts ∷ tss) c =
      let (c', left, got) = recv grants ts c in
      also_delivered (delivered got) (receive_calls tss c')

  receive_calls-HearsAll :
      (taken : List (List ℕ)) (tss : List (List Turn)) (c : ClientConn)
      → HearsAll grants taken c
      → HearsAll grants (taken ++ (receive_calls tss c).0) (receive_calls tss c).1
  unfolding receive_calls
  receive_calls-HearsAll taken [] c h = rw (append-nil taken) h
  receive_calls-HearsAll taken (ts ∷ tss) c h =
      let o = recv grants ts c in
      rw (← append_assoc taken (delivered o.2) (receive_calls tss o.0).0)
        (receive_calls-HearsAll (taken ++ delivered o.2) tss o.0 (recv-HearsAll taken ts c h))

  pub deframe_bytes-nil : deframe_bytes grants [] ≡ ([], [])
  unfolding deframe_bytes deframe_loop decode_header
  deframe_bytes-nil = refl

  -- The messages that a sequence of receives delivers, followed by those still queued, are the
  -- messages of the body bytes given since the submission, of whatever stream, in their order, and
  -- what is buffered is the rest of those bytes, for a connection that starts with nothing
  -- received, buffered or queued.
  pub receive_calls_in_order :
      (tss : List (List Turn)) (c : ClientConn)
      → c.received ≡ []
      → c.state.messages ≡ []
      → c.state.inbuf ≡ []
      → let (got, c') = receive_calls tss c in
        deframe_bytes grants c'.received ≡ (got ++ c'.state.messages, c'.state.inbuf)
  receive_calls_in_order tss c e f g =
      receive_calls-HearsAll [] tss c (rw (e, f, g) (deframe_bytes-nil))
