-- ===== src/Client/Conn/Receive.antt =====
-- One call of `pump`, over the messages and the buffer of the call.
use grpc_uds.Prelude.{
  ℕ, arith, ◌≡◌, refl, ◌∙◌, Bool, true, false, List, [], ◌∷◌, ◌++◌, Option, none, some,
  append_assoc, append-nil, both_ways,
}
use grpc_uds.Uds.{SendAnswer, ReadAnswer, reads, read_eintr, read_eagain, read_fails}
use grpc_uds.Client.Call.{CallState, deframe, deframe_bytes, on_data, on_header, on_close}
use grpc_uds.Client.Call.Chunks.{deframe_bytes-append}
use grpc_uds.Client.Conn.{
  ClientConn, flush_send, Event, header, body, closes, apply_event, apply_events, bodies,
  PollAnswer, ready, timed_out, poll_eintr, poll_fails, Turn, expired, submit_rst, expire_call,
  Pumped, read_phase, poll_phase, wait_phase, after_flush, pump,
}

module _ (grants : ℕ → Bool) where
  -- The messages of `bytes` are those `taken` and those that wait, and the rest is buffered.
  abbrev pub Hears : List (List ℕ) → List ℕ → CallState → Type 0
  Hears taken bytes st = deframe_bytes grants bytes ≡ (taken ++ st.messages, st.inbuf)

  on_data-Hears :
      (taken : List (List ℕ)) (bytes chunk : List ℕ) (st : CallState)
      → Hears taken bytes st
      → Hears taken (bytes ++ chunk) (on_data grants chunk st)
  unfolding on_data deframe
  on_data-Hears taken bytes chunk st h =
      deframe_bytes-append grants bytes chunk
      ∙ rw h (rw (append_assoc taken st.messages (deframe_bytes grants (st.inbuf ++ chunk)).0) refl)

  on_header-Hears :
      (taken : List (List ℕ)) (bytes name value : List ℕ) (st : CallState)
      → Hears taken bytes st
      → Hears taken bytes (on_header name value st)
  unfolding on_header
  on_header-Hears taken bytes name value st h = ground arith

  apply_events-Hears :
      (taken : List (List ℕ)) (bytes : List ℕ) (es : List Event) (st : CallState)
      → Hears taken bytes st
      → Hears taken (bytes ++ bodies es) (apply_events grants es st)
  unfolding apply_events apply_event on_close
  apply_events-Hears taken bytes [] st h = rw (append-nil bytes) h
  apply_events-Hears taken bytes (header name value ∷ es) st h =
      apply_events-Hears taken bytes es (on_header name value st)
        (on_header-Hears taken bytes name value st h)
  apply_events-Hears taken bytes (body chunk ∷ es) st h =
      rw (← append_assoc bytes chunk (bodies es)) (
        apply_events-Hears taken (bytes ++ chunk) es (on_data grants chunk st)
          (on_data-Hears taken bytes chunk st h))
  apply_events-Hears taken bytes (closes ∷ es) st h =
      apply_events-Hears taken bytes es (on_close st) h

  -- So does the connection, of all that it was given since the submission.
  abbrev pub HearsAll : List (List ℕ) → ClientConn → Type 0
  HearsAll taken c = Hears taken c.received c.state

  flush_send-HearsAll :
      (taken : List (List ℕ)) (chunks : List (List ℕ)) (answers : List SendAnswer) (c : ClientConn)
      → HearsAll taken c
      → HearsAll taken (flush_send chunks answers c).0
  unfolding flush_send
  flush_send-HearsAll taken [] answers c h = h
  flush_send-HearsAll taken ([] ∷ chunks) answers c h = h
  flush_send-HearsAll taken ((b ∷ bs) ∷ chunks) answers c h =
      both_ways (λ (r : ClientConn × Bool). HearsAll taken r.0) _ _ _
        (flush_send-HearsAll taken chunks _ _ h) h

  expire_call-HearsAll :
      (taken : List (List ℕ)) (t : Turn) (c : ClientConn)
      → HearsAll taken c
      → HearsAll taken (expire_call t c)
  unfolding expire_call
  expire_call-HearsAll taken t c h =
      let sent =
        flush_send-HearsAll taken t.rst_chunks t.rst_answers
          (record (expired c) { commands = c.commands ++ (submit_rst c.current_sid ∷ []) }) h in
      ground (arith, sent)

  read_phase-HearsAll :
      (taken : List (List ℕ)) (t : Turn) (c : ClientConn) (r : ReadAnswer)
      → HearsAll taken c
      → HearsAll taken (read_phase grants t c r).0
  read_phase-HearsAll taken t c (reads []) h = h
  read_phase-HearsAll taken t c (reads (b ∷ bs)) h =
      let h' = apply_events-Hears taken c.received t.events c.state h in
      both_ways (λ (r : Pumped). HearsAll taken r.0) t.accepted _ _ h' h'
  read_phase-HearsAll taken t c read_eintr h = h
  read_phase-HearsAll taken t c read_eagain h = h
  read_phase-HearsAll taken t c (read_fails e) h = h

  poll_phase-HearsAll :
      (taken : List (List ℕ)) (t : Turn) (c : ClientConn) (p : PollAnswer)
      → HearsAll taken c
      → HearsAll taken (poll_phase grants t c p).0
  poll_phase-HearsAll taken t c ready h = read_phase-HearsAll taken t c t.read h
  poll_phase-HearsAll taken t c timed_out h = expire_call-HearsAll taken t c h
  poll_phase-HearsAll taken t c poll_eintr h = h
  poll_phase-HearsAll taken t c poll_fails h = h

  wait_phase-HearsAll :
      (taken : List (List ℕ)) (t : Turn) (c : ClientConn) (d : Option ℕ)
      → HearsAll taken c
      → HearsAll taken (wait_phase grants t c d).0
  wait_phase-HearsAll taken t c none h = read_phase-HearsAll taken t c t.read h
  wait_phase-HearsAll taken t c (some d) h =
      both_ways (λ (r : Pumped). HearsAll taken r.0) _ _ _ (expire_call-HearsAll taken t c h)
        (poll_phase-HearsAll taken t c t.poll h)

  after_flush-HearsAll :
      (taken : List (List ℕ)) (t : Turn) (r : ClientConn × Bool)
      → HearsAll taken r.0
      → HearsAll taken (after_flush grants t r).0
  after_flush-HearsAll taken t (c, false) h = h
  after_flush-HearsAll taken t (c, true) h = wait_phase-HearsAll taken t c c.deadline_ms h

  pub pump-HearsAll :
      (taken : List (List ℕ)) (t : Turn) (c : ClientConn)
      → HearsAll taken c
      → HearsAll taken (pump grants t c).0
  unfolding pump
  pump-HearsAll taken t c h =
      after_flush-HearsAll taken t (flush_send t.chunks t.answers c)
        (flush_send-HearsAll taken t.chunks t.answers c h)
