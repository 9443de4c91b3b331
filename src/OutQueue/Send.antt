-- ===== src/OutQueue/Send.antt =====
-- The direct send of the front message: promised bytes, the regions that hold them, and their
-- consumption.
use grpc_uds.Prelude.{
  ℕ, ◌+◌, ◌-◌, ◌≤◌, ◌<◌, min, max, ◌≡◌, refl, ◌∙◌, ap, sym, true, false, List, [], ◌∷◌, ◌++◌, ltb,
  if◌then◌else◌, length, drop, arith, append_assoc, append-nil, drop-drop, drop-append,
  take-append-drop, length-take, length-drop, length-append, drop-of_length, Bool-cases, inl, inr,
  both_ways,
}
use grpc_uds.OutQueue.{
  OutMsg, OutQueue, msg_len, slice, regions_of, regions_at, front_regions, remaining_at,
  front_remaining, promise_front, consumed, consume_front,
}
use grpc_uds.OutQueue.Wire.{
  IsValid, IsFramed, wire, flat, frame, wire-settle, settle-IsValid, length-hdr,
}

-- A slice and what follows it.
slice-append-drop : (xs : List ℕ) (a b : ℕ) → a ≤ b → slice xs a b ++ drop b xs ≡ drop a xs
slice-append-drop xs a b h =
    let e : a + (b - a) ≡ b = omega arith in
    ap (λ t. slice xs a b ++ t) (sym (drop-drop (b - a) a xs ∙ ap (λ j. drop j xs) e))
    ∙ take-append-drop (b - a) (drop a xs)

length-slice : (xs : List ℕ) (a b : ℕ) → a ≤ b → b ≤ length xs → length (slice xs a b) ≡ b - a
length-slice xs a b h le = omega (arith, length-take (b - a) (drop a xs), length-drop a xs)

module _ (m : OutMsg) (f : IsFramed m) (offset n : ℕ) (inside : offset ≤ msg_len m) where
  end : ℕ
  end = offset + min n (msg_len m - offset)

  joined : List ℕ
  joined = (regions_of m offset n).0 ++ (regions_of m offset n).1

  split_frame : (j : ℕ) → drop j (frame m) ≡ drop j m.hdr ++ drop (j - 5) m.body
  split_frame j =
      drop-append j m.hdr m.body ∙ ap (λ k. drop j m.hdr ++ drop (j - k) m.body) (length-hdr m f)

  -- The body region runs from the offset to the end, less the header.
  body_part :
      slice m.body (max offset 5 - 5) (max end 5 - 5) ++ drop (end - 5) m.body
      ≡ drop (offset - 5) m.body
  unfolding end
  body_part =
      let e1 : max offset 5 - 5 ≡ offset - 5 = omega arith in
      let e2 : max end 5 - 5 ≡ end - 5 = omega arith in
      rw (e1, e2) (slice-append-drop m.body (offset - 5) (end - 5) (omega arith))

  hdr_part : List ℕ
  hdr_part = if ltb offset 5 then slice m.hdr offset (min end 5) else []

  body_region : List ℕ
  body_region = slice m.body (max offset 5 - 5) (max end 5 - 5)

  hdr_gone : (j : ℕ) → 5 ≤ j → drop j m.hdr ≡ []
  hdr_gone j h = drop-of_length j m.hdr (omega (arith, length-hdr m f))

  hdr_part-drop : hdr_part ++ drop end m.hdr ≡ drop offset m.hdr
  unfolding hdr_part end
  hdr_part-drop = elim (Bool-cases (ltb offset 5)) [
    | inl early ↦ elim (Bool-cases (ltb end 5)) [
      | inl short ↦
          let e : min end 5 ≡ end = ground arith in
          rw (early, e) (slice-append-drop m.hdr offset end (omega arith))
      | inr long ↦
          let e : min end 5 ≡ 5 = ground arith in
          rw (early, e, hdr_gone end (ground arith), ← hdr_gone 5 (omega arith))
            (slice-append-drop m.hdr offset 5 (ground arith))
    ]
    | inr late ↦ rw (late, hdr_gone end (ground arith), hdr_gone offset (ground arith))
  ]

  -- Where header bytes are left over, no body byte is taken.
  swap_regions : body_region ++ drop end m.hdr ≡ drop end m.hdr ++ body_region
  unfolding body_region end
  swap_regions = elim (Bool-cases (ltb end 5)) [
    | inl short ↦
        let e1 : max offset 5 - 5 ≡ 0 = ground arith in
        let e2 : max end 5 - 5 ≡ 0 = ground arith in rw (e1, e2) (sym (append-nil (drop end m.hdr)))
    | inr long ↦ rw (hdr_gone end (ground arith)) (append-nil body_region)
  ]

  -- The regions, and the rest of the frame behind them.
  regions-frame : joined ++ drop end (frame m) ≡ drop offset (frame m)
  unfolding joined hdr_part body_region end
  regions-frame =
      rw (split_frame end, split_frame offset)
        (append_assoc hdr_part body_region (drop end m.hdr ++ drop (end - 5) m.body)
          ∙ ap (◌++◌ hdr_part) (
              sym (append_assoc body_region (drop end m.hdr) (drop (end - 5) m.body))
              ∙ ap (λ t. t ++ drop (end - 5) m.body) swap_regions
              ∙ append_assoc (drop end m.hdr) body_region (drop (end - 5) m.body)
              ∙ ap (◌++◌ (drop end m.hdr)) body_part)
          ∙ sym (append_assoc hdr_part (drop end m.hdr) (drop (offset - 5) m.body))
          ∙ ap (λ t. t ++ drop (offset - 5) m.body) hdr_part-drop)

  length-regions : length joined ≡ min n (msg_len m - offset)
  unfolding joined end
  length-regions = elim (Bool-cases (ltb offset 5)) [
    | inl early ↦
        rw
          (
            early,
            length-append,
            length-slice m.hdr offset (min end 5) (ground arith) (omega (arith, length-hdr m f)),
            length-slice m.body (max offset 5 - 5) (max end 5 - 5) (omega arith) (omega arith),
          )
          (ground arith)
    | inr late ↦
        rw
          (late, length-slice m.body (max offset 5 - 5) (max end 5 - 5) (omega arith) (omega arith))
          (ground arith)
  ]

-- The regions of `n` bytes at the front are the next bytes, and consuming them leaves the others.
pub record Sends (n : ℕ) (q : OutQueue) (bytes : List ℕ) (q' : OutQueue) : Type 0 where
  pub joined : bytes ++ wire q' ≡ wire q
  pub filled : length bytes ≡ min n (front_remaining q)
  pub kept : IsValid q'
  pub released : q'.front_committed ≡ false

sends_at :
    (msgs : List OutMsg) (n : ℕ) (q : OutQueue)
    → q.messages ≡ msgs
    → IsValid q
    → let r = regions_at msgs q.front_offset n in
      let q' = consumed msgs n q in
      ((r.0 ++ r.1) ++ wire q' ≡ wire q)
      × (length (r.0 ++ r.1) ≡ min n (remaining_at msgs q.front_offset))
      × IsValid q'
unfolding joined end
sends_at [] n q e v = (refl, omega arith, v)
sends_at (m ∷ ms) n q e v = (
  ap (◌++◌ (joined m f offset n inside)) (wire-settle m ms (end m f offset n inside) q e f)
      ∙ sym (append_assoc (joined m f offset n inside) _ (flat ms))
      ∙ ap (λ t. t ++ flat ms) (regions-frame m f offset n inside)
      ∙ rw e refl,
  length-regions m f offset n inside,
  settle-IsValid m ms (end m f offset n inside) q e (omega (arith, inside)) v,
)
  where
    offset : ℕ
    offset = q.front_offset

    f : IsFramed m
    f = (rw e at v.framed).0

    inside : offset ≤ msg_len m
    inside = rw e at v.offset_in

-- For a valid queue, the two regions of the front message for `n` bytes hold the next bytes to be
-- sent, `n` of them or all that the front message has left. Consuming `n` bytes leaves the rest of
-- the wire, a valid queue, and no promise.
pub front_regions-consume_front :
    (n : ℕ) (q : OutQueue)
    → IsValid q
    → Sends n q ((front_regions n q).0 ++ (front_regions n q).1) (consume_front n q)
unfolding front_regions consume_front front_remaining
front_regions-consume_front n q v =
    let (j, l, k) = sends_at q.messages n q refl v in
    let v' : IsValid (consume_front n q) = record { framed = k.framed; offset_in = k.offset_in } in
    record { joined = j; filled = l; kept = v'; released = refl }

-- All of a queue but its messages and how far the front one is sent.
abbrev pub SameRest : OutQueue → OutQueue → Type 0
SameRest q q' =
    (q'.finished ≡ q.finished)
    × (q'.final_status ≡ q.final_status)
    × (q'.final_message ≡ q.final_message)
    × (q'.response_started ≡ q.response_started)
    × (q'.backpressure ≡ q.backpressure)

pub consume_front-SameRest : (n : ℕ) (q : OutQueue) → SameRest q (consume_front n q)
unfolding consume_front
consume_front-SameRest n q = go q.messages
  where
    go : (ms : List OutMsg) → SameRest q (record (consumed ms n q) { front_committed = false })
    go [] = (refl, refl, refl, refl, refl)
    go (m ∷ ms) =
        both_ways (λ (q' : OutQueue). SameRest q (record q' { front_committed = false })) _ _ _
          (refl, refl, refl, refl, refl) (refl, refl, refl, refl, refl)

-- A promise of at most `max` bytes is a number of bytes that the front message has left, changes
-- none of them, and pins the message when it is not empty.
pub promise_front_lem :
    (max : ℕ) (q : OutQueue)
    → let (n, q') = promise_front max q in
      (n ≡ min (front_remaining q) max)
      × (wire q' ≡ wire q)
      × (IsValid q → IsValid q')
      × (0 < n → q'.front_committed ≡ true)
unfolding promise_front
promise_front_lem max q = elim (Bool-cases (ltb 0 (min (front_remaining q) max))) [
  | inl some_bytes ↦ rw some_bytes (refl, refl, pinned, λ _. refl)
  | inr no_bytes ↦ rw no_bytes (refl, refl, λ v. v, λ h. absurd (ground arith))
]
  where
    pinned : IsValid q → IsValid (record q { front_committed = true })
    pinned v = record { framed = v.framed; offset_in = v.offset_in }
