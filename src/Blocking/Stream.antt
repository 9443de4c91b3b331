-- ===== src/Blocking/Stream.antt =====
-- The messages of a stream of the blocking client.
use grpc_uds.Prelude.{
  ℕ, ◌≡◌, refl, ◌∙◌, List, [], ◌∷◌, ◌++◌, Option, none, some, Result, ok, err, ◌&&◌, ◌||◌,
  append_assoc, append-nil, both_ways,
}
use grpc_uds.Types.{Status}
use grpc_uds.Blocking.{Client, Turn, Pumped, pump}
use grpc_uds.Blocking.Call.{deframe_bytes}
use grpc_uds.Blocking.Calls.{
  final_status, Outcome, has_status, set_messages, pumped, on_end, message_last, message_round,
  message,
}
use grpc_uds.Blocking.Hears.{HearsAll, pump-HearsAll}
use grpc_uds.Blocking.Unary.{deframe_bytes-nil}

-- What the caller of `message` gets.
abbrev pub delivered : Option (Result (Option (List ℕ)) Status) → List (List ℕ)
delivered none = []
delivered (some (err e)) = []
delivered (some (ok none)) = []
delivered (some (ok (some m))) = m ∷ []

abbrev OutcomeHears : List (List ℕ) → Outcome (Option (List ℕ)) → Type 0
OutcomeHears taken o = HearsAll (taken ++ delivered o.2) o.0

pop-HearsAll :
    (taken : List (List ℕ)) (m : List ℕ) (ms : List (List ℕ)) (c : Client)
    → c.state.messages ≡ m ∷ ms
    → HearsAll taken c
    → HearsAll (taken ++ (m ∷ [])) (set_messages ms c)
pop-HearsAll taken m ms c e h = h ∙ rw (e, append_assoc taken (m ∷ []) ms) refl

on_end-HearsAll :
    (taken : List (List ℕ)) (c : Client) (ts : List Turn) (r : Result (Unit {0}) Status)
    → HearsAll taken c
    → OutcomeHears taken (on_end c ts r)
on_end-HearsAll taken c ts (ok _) h = rw (append-nil taken) h
on_end-HearsAll taken c ts (err e) h = rw (append-nil taken) h

pumped-HearsAll :
    (taken : List (List ℕ)) (next : Client → Outcome (Option (List ℕ))) (ts : List Turn)
    (p : Pumped)
    → ((c : Client) → HearsAll taken c → OutcomeHears taken (next c))
    → HearsAll taken p.0
    → OutcomeHears taken (pumped next ts p)
pumped-HearsAll taken next ts (c, ok _) later h = later c h
pumped-HearsAll taken next ts (c, err e) later h = rw (append-nil taken) h

module _ (no_status : ℕ → Option ℕ → List ℕ) where
  message_round-HearsAll :
      (taken : List (List ℕ)) (next : Client → Outcome (Option (List ℕ))) (t : Turn)
      (ts : List Turn) (c : Client) (ms : List (List ℕ))
      → c.state.messages ≡ ms
      → ((c : Client) → HearsAll taken c → OutcomeHears taken (next c))
      → HearsAll taken c
      → OutcomeHears taken (message_round no_status next t ts c ms)
  message_round-HearsAll taken next t ts c (m ∷ ms) e later h = pop-HearsAll taken m ms c e h
  message_round-HearsAll taken next t ts c [] e later h =
      both_ways (OutcomeHears taken) (c.state.closed || (t.idle && has_status c.state.grpc_status))
        (on_end c (t ∷ ts) (final_status no_status c.state)) (pumped next ts (pump t c))
        (on_end-HearsAll taken c (t ∷ ts) (final_status no_status c.state) h)
        (pumped-HearsAll taken next ts (pump t c) later (pump-HearsAll taken t c h))

  message_last-HearsAll :
      (taken : List (List ℕ)) (c : Client) (ms : List (List ℕ))
      → c.state.messages ≡ ms
      → HearsAll taken c
      → OutcomeHears taken (message_last no_status c ms)
  message_last-HearsAll taken c (m ∷ ms) e h = pop-HearsAll taken m ms c e h
  message_last-HearsAll taken c [] e h =
      both_ways (OutcomeHears taken) c.state.closed (on_end c [] (final_status no_status c.state))
        (c, [], none) (on_end-HearsAll taken c [] (final_status no_status c.state) h)
        (rw (append-nil taken) h)

  message-HearsAll :
      (taken : List (List ℕ)) (ts : List Turn) (c : Client)
      → HearsAll taken c
      → OutcomeHears taken (message no_status ts c)
  unfolding message
  message-HearsAll taken [] c h = message_last-HearsAll taken c c.state.messages refl h
  message-HearsAll taken (t ∷ ts) c h =
      message_round-HearsAll taken (message no_status ts) t ts c c.state.messages refl
        (message-HearsAll taken ts) h

  -- `message`, called as often as the list of turn lists is long: what it delivers, and the client.
  abbrev pub also_delivered : List (List ℕ) → List (List ℕ) × Client → List (List ℕ) × Client
  also_delivered ms (more, c) = (ms ++ more, c)

  unfoldable pub message_calls : List (List Turn) → Client → List (List ℕ) × Client
  unfolding message
  message_calls [] c = ([], c)
  message_calls (ts ∷ tss) c =
      let (c', left, got) = message no_status ts c in
      also_delivered (delivered got) (message_calls tss c')

  message_calls-HearsAll :
      (taken : List (List ℕ)) (tss : List (List Turn)) (c : Client)
      → HearsAll taken c
      → HearsAll (taken ++ (message_calls tss c).0) (message_calls tss c).1
  unfolding message_calls
  message_calls-HearsAll taken [] c h = rw (append-nil taken) h
  message_calls-HearsAll taken (ts ∷ tss) c h =
      let o = message no_status ts c in
      rw (← append_assoc taken (delivered o.2) (message_calls tss o.0).0)
        (message_calls-HearsAll (taken ++ delivered o.2) tss o.0 (message-HearsAll taken ts c h))

  -- The messages that a sequence of reads of a stream delivers, followed by those still queued, are
  -- the messages of the body bytes given from the first of them on, of whatever stream, in their
  -- order, and what is buffered is the rest of those bytes, for a client that starts with nothing
  -- received, buffered or queued.
  pub message_calls_in_order :
      (tss : List (List Turn)) (c : Client)
      → c.received ≡ []
      → c.state.messages ≡ []
      → c.state.inbuf ≡ []
      → let (got, c') = message_calls tss c in
        deframe_bytes c'.received ≡ (got ++ c'.state.messages, c'.state.inbuf)
  message_calls_in_order tss c e f g =
      message_calls-HearsAll [] tss c (rw (e, f, g) (deframe_bytes-nil))
