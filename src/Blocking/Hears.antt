-- ===== src/Blocking/Hears.antt =====
-- The messages and the buffer of the blocking client's call against the bytes it was given, over
-- one call of `pump` and over the loops.
use grpc_uds.Prelude.{
  ℕ, arith, ◌≡◌, refl, ◌∙◌, Bool, true, false, List, [], ◌∷◌, ◌++◌, Option, none, some,
  append_assoc, append-nil, both_ways,
}
use grpc_uds.Uds.{SendAnswer, ReadAnswer, reads, read_eintr, read_eagain, read_fails}
use grpc_uds.Client.Conn.{submit_rst, PollAnswer, ready, timed_out, poll_eintr, poll_fails}
use grpc_uds.Blocking.Call.{CallState, deframe, deframe_bytes, on_data, on_header, on_close}
use grpc_uds.Blocking.Call.Deframes.{deframe_bytes-append}
use grpc_uds.Blocking.{
  Client, flush_send, Event, header, body, closes, apply_event, apply_events, bodies, Turn, expired,
  expire_call, Pumped, read_phase, poll_phase, wait_phase, after_flush, pump,
}

-- The messages of `bytes` are those `taken` and those that wait, and the rest is buffered.
abbrev pub Hears : List (List ℕ) → List ℕ → CallState → Type 0
Hears taken bytes st = deframe_bytes bytes ≡ (taken ++ st.messages, st.inbuf)

on_data-Hears :
    (taken : List (List ℕ)) (bytes chunk : List ℕ) (st : CallState)
    → Hears taken bytes st
    → Hears taken (bytes ++ chunk) (on_data chunk st)
unfolding on_data deframe
on_data-Hears taken bytes chunk st h =
    deframe_bytes-append bytes chunk
    ∙ rw h (rw (append_assoc taken st.messages (deframe_bytes (st.inbuf ++ chunk)).0) refl)

on_header-Hears :
    (taken : List (List ℕ)) (bytes name value : List ℕ) (st : CallState)
    → Hears taken bytes st
    → Hears taken bytes (on_header name value st)
unfolding on_header
on_header-Hears taken bytes name value st h = ground arith

apply_events-Hears :
    (taken : List (List ℕ)) (bytes : List ℕ) (es : List Event) (st : CallState)
    → Hears taken bytes st
    → Hears taken (bytes ++ bodies es) (apply_events es st)
unfolding apply_events apply_event on_close
apply_events-Hears taken bytes [] st h = rw (append-nil bytes) h
apply_events-Hears taken bytes (header name value ∷ es) st h =
    apply_events-Hears taken bytes es (on_header name value st)
      (on_header-Hears taken bytes name value st h)
apply_events-Hears taken bytes (body chunk ∷ es) st h =
    rw (← append_assoc bytes chunk (bodies es)) (
      apply_events-Hears taken (bytes ++ chunk) es (on_data chunk st)
        (on_data-Hears taken bytes chunk st h))
apply_events-Hears taken bytes (closes e ∷ es) st h =
    apply_events-Hears taken bytes es (on_close e st) h

-- So does the client, of all that it was given since the submission.
abbrev pub HearsAll : List (List ℕ) → Client → Type 0
HearsAll taken c = Hears taken c.received c.state

module _ (taken : List (List ℕ)) where
  flush_send-HearsAll :
      (chunks : List (List ℕ)) (answers : List SendAnswer) (c : Client)
      → HearsAll taken c
      → HearsAll taken (flush_send chunks answers c).0
  unfolding flush_send
  flush_send-HearsAll [] answers c h = h
  flush_send-HearsAll ([] ∷ chunks) answers c h = h
  flush_send-HearsAll ((b ∷ bs) ∷ chunks) answers c h =
      both_ways (λ (r : Client × Bool). HearsAll taken r.0) _ _ _ (flush_send-HearsAll chunks _ _ h)
        h

  expire_call-HearsAll :
      (t : Turn) (c : Client) → HearsAll taken c → HearsAll taken (expire_call t c)
  unfolding expire_call
  expire_call-HearsAll t c h =
      let sent =
        flush_send-HearsAll t.rst_chunks t.rst_answers
          (record (expired c) { commands = c.commands ++ (submit_rst c.current_sid ∷ []) }) h in
      ground (arith, sent)

  read_phase-HearsAll :
      (t : Turn) (c : Client) (r : ReadAnswer)
      → HearsAll taken c
      → HearsAll taken (read_phase t c r).0
  read_phase-HearsAll t c (reads []) h = h
  read_phase-HearsAll t c (reads (b ∷ bs)) h =
      let h' = apply_events-Hears taken c.received t.events c.state h in
      both_ways (λ (r : Pumped). HearsAll taken r.0) t.accepted _ _ h' h'
  read_phase-HearsAll t c read_eintr h = h
  read_phase-HearsAll t c read_eagain h = h
  read_phase-HearsAll t c (read_fails e) h = h

  poll_phase-HearsAll :
      (t : Turn) (c : Client) (p : PollAnswer)
      → HearsAll taken c
      → HearsAll taken (poll_phase t c p).0
  poll_phase-HearsAll t c ready h = read_phase-HearsAll t c t.read h
  poll_phase-HearsAll t c timed_out h = expire_call-HearsAll t c h
  poll_phase-HearsAll t c poll_eintr h = h
  poll_phase-HearsAll t c poll_fails h = h

  wait_phase-HearsAll :
      (t : Turn) (c : Client) (d : Option ℕ)
      → HearsAll taken c
      → HearsAll taken (wait_phase t c d).0
  wait_phase-HearsAll t c none h = read_phase-HearsAll t c t.read h
  wait_phase-HearsAll t c (some d) h =
      both_ways (λ (r : Pumped). HearsAll taken r.0) _ _ _ (expire_call-HearsAll t c h)
        (poll_phase-HearsAll t c t.poll h)

  after_flush-HearsAll :
      (t : Turn) (r : Client × Bool) → HearsAll taken r.0 → HearsAll taken (after_flush t r).0
  after_flush-HearsAll t (c, false) h = h
  after_flush-HearsAll t (c, true) h = wait_phase-HearsAll t c c.deadline_at h

  pub pump-HearsAll : (t : Turn) (c : Client) → HearsAll taken c → HearsAll taken (pump t c).0
  unfolding pump
  pump-HearsAll t c h =
      after_flush-HearsAll t (flush_send t.chunks t.answers c)
        (flush_send-HearsAll t.chunks t.answers c h)
