-- ===== src/OutQueue/Drain.antt =====
-- The drain loop, `drain_into` of rust/grpcuds-core/src/conn/out_queue.rs, over the wire.
use grpc_uds.Prelude.{
  ℕ, zero, suc, ◌+◌, ◌-◌, ◌≤◌, ◌<◌, min, ◌≡◌, ◌≢◌, refl, ◌∙◌, ap, sym, List, [], ◌∷◌, ◌++◌, ltb,
  ◌==◌, if◌then◌else◌, length, take, drop, arith, append_assoc, drop-drop, length-take, length-drop,
  length-append, take-drop_copied, Bool-cases, inl, inr, ◌⊎◌, ==_iff,
}
use grpc_uds.OutQueue.{
  OutMsg, OutQueue, msg_len, settle, drain_body, drain_front, drain_round, drain_loop, drain_into,
  Drained, with_copied,
}
use grpc_uds.OutQueue.Wire.{
  IsValid, IsFramed, wire, flat, frame, wire-settle, settle-IsValid, drop-frame_body,
  drop-frame_hdr, length-hdr,
}

-- A drain of at most `room` bytes: the bytes copied and those left are the bytes there were, and
-- as many were copied as fit.
pub record Drains (room : ℕ) (q : OutQueue) (r : Drained) : Type 0 where
  pub joined : r.0 ++ wire r.1 ≡ wire q
  pub filled : length r.0 ≡ min room (length (wire q))
  pub kept : IsValid r.1

-- Enough rounds for what is left: one to see that `dst` is full, or one for each message and two.
abbrev Enough : ℕ → ℕ → OutQueue → Type 0
Enough rounds room q = (1 ≤ rounds) × ((room ≡ 0) ⊎ (length q.messages + 2 ≤ rounds))

-- The loop again is right where it has the rounds.
abbrev LoopDrains : ℕ → (ℕ → OutQueue → Drained) → Type 0
LoopDrains rounds next =
    (room : ℕ) (q : OutQueue) → IsValid q → Enough rounds room q → Drains room q (next room q)

-- Copying a part of the wire and draining the rest drains the wire.
copied-Drains :
    (room : ℕ) (part : List ℕ) (q q' : OutQueue) (r : Drained)
    → part ++ wire q' ≡ wire q
    → length part ≤ room
    → Drains (room - length part) q' r
    → Drains room q (with_copied part r)
copied-Drains room part q q' (more, q'') e le d = record {
  joined = append_assoc part more (wire q'') ∙ ap (◌++◌ part) d.joined ∙ e;
  filled =
      omega (arith, d.filled, length-append part more, length-append part (wire q'), ap length e);
  kept = d.kept;
}

module _ (rounds : ℕ) (next : ℕ → OutQueue → Drained) (again : LoopDrains rounds next) (m : OutMsg)
    (ms : List OutMsg) where
  abbrev AtFront : OutQueue → Type 0
  AtFront q = IsValid q × (q.messages ≡ m ∷ ms) × IsFramed m × (q.front_offset ≤ msg_len m)

  drain_body-Drains :
      (room : ℕ) (q : OutQueue)
      → AtFront q
      → 5 ≤ q.front_offset
      → length ms + 2 ≤ rounds
      → Drains room q (drain_body next m ms room q)
  unfolding drain_body
  drain_body-Drains room q (v, e, f, o) past enough =
      copied-Drains room part q q' _ moved fits (again _ q' valid (omega arith, rounds_left))
    where
      rest : List ℕ
      rest = drop (q.front_offset - 5) m.body

      part : List ℕ
      part = take room rest

      k : ℕ
      k = q.front_offset + length part

      q' : OutQueue
      q' = settle m ms k q

      fits : length part ≤ room
      fits = omega (arith, length-take room rest)

      inside : k ≤ msg_len m
      inside = omega (arith, length-take room rest, length-drop (q.front_offset - 5) m.body)

      valid : IsValid q'
      valid = settle-IsValid m ms k q e inside v

      after : drop k (frame m) ≡ drop (length part) rest
      after =
          drop-frame_body m k f (omega arith)
          ∙ ap (λ j. drop j m.body)
              (let s : k - 5 ≡ q.front_offset - 5 + length part = omega arith in s)
          ∙ sym (drop-drop (length part) (q.front_offset - 5) m.body)

      moved : part ++ wire q' ≡ wire q
      moved =
          ap (◌++◌ part) (wire-settle m ms k q e f ∙ ap (λ t. t ++ flat ms) after)
          ∙ sym (append_assoc part (drop (length part) rest) (flat ms))
          ∙ ap (λ t. t ++ flat ms) (take-drop_copied room rest)
          ∙ ap (λ t. t ++ flat ms) (sym (drop-frame_body m q.front_offset f past))
          ∙ rw e refl

      rounds_left : (room - length part ≡ 0) ⊎ (length q'.messages + 2 ≤ rounds)
      rounds_left = elim (Bool-cases (k == msg_len m)) [
        | inl done ↦ inr (rw done enough)
        | inr more ↦
            inl (ground (arith, length-take room rest, length-drop (q.front_offset - 5) m.body))
      ]

  drain_hdr-Drains :
      (room : ℕ) (q : OutQueue)
      → AtFront q
      → room ≢ 0
      → q.front_offset < 5
      → length ms + 2 ≤ rounds
      → (let part = take room (drop q.front_offset m.hdr) in
          let q' : OutQueue = record q { front_offset = q.front_offset + length part } in
          Drains room q (
            if room - length part == 0
            then (part, q')
            else with_copied part (drain_body next m ms (room - length part) q')))
  drain_hdr-Drains room q (v, e, f, o) nz early enough =
      elim (Bool-cases (room - length part == 0)) [
        | inl full ↦ rw full (record {
          joined = moved;
          filled = omega (
            arith,
            (==_iff (room - length part) 0).0 full,
            length-append part (wire q'),
            ap length moved,
            fits,
          );
          kept = valid;
        })
        | inr more ↦ rw more (
            copied-Drains room part q q' _ moved fits (
              drain_body-Drains _ q' (valid, e, f, inside)
                (ground (arith, length-take room rest, length_rest)) enough))
      ]
    where
      rest : List ℕ
      rest = drop q.front_offset m.hdr

      part : List ℕ
      part = take room rest

      k : ℕ
      k = q.front_offset + length part

      q' : OutQueue
      q' = record q { front_offset = k }

      length_rest : length rest ≡ 5 - q.front_offset
      length_rest = omega (arith, length-drop q.front_offset m.hdr, length-hdr m f)

      fits : length part ≤ room
      fits = omega (arith, length-take room rest)

      in_header : k ≤ 5
      in_header = omega (arith, length-take room rest, length_rest)

      inside : k ≤ msg_len m
      inside = omega (arith, in_header)

      valid : IsValid q'
      valid = record { framed = v.framed; offset_in = rw e inside }

      after : drop k m.hdr ≡ drop (length part) rest
      after = sym (drop-drop (length part) q.front_offset m.hdr)

      moved : part ++ wire q' ≡ wire q
      moved =
          rw
            (
              e,
              drop-frame_hdr m k f in_header,
              after,
              drop-frame_hdr m q.front_offset f (omega arith),
            )
            (sym (append_assoc part (drop (length part) rest ++ m.body) (flat ms))
              ∙ ap (λ t. t ++ flat ms)
                  (sym (append_assoc part (drop (length part) rest) m.body)
                    ∙ ap (λ t. t ++ m.body) (take-drop_copied room rest)))

  drain_front-Drains :
      (room : ℕ) (q : OutQueue)
      → AtFront q
      → room ≢ 0
      → length ms + 2 ≤ rounds
      → Drains room q (drain_front next m ms room q)
  unfolding drain_front
  drain_front-Drains room q a nz enough = elim (Bool-cases (ltb q.front_offset 5)) [
    | inl early ↦ rw early (drain_hdr-Drains room q a nz (ground arith) enough)
    | inr late ↦ rw late (drain_body-Drains room q a (ground arith) enough)
  ]

done-Drains :
    (room : ℕ) (q : OutQueue) → IsValid q → min room (length (wire q)) ≡ 0 → Drains room q ([], q)
done-Drains room q v e = record { joined = refl; filled = sym e; kept = v }

drain_round-Drains :
    (rounds : ℕ) (next : ℕ → OutQueue → Drained) (msgs : List OutMsg) (room : ℕ) (q : OutQueue)
    → LoopDrains rounds next
    → IsValid q
    → q.messages ≡ msgs
    → room ≢ 0
    → length msgs + 1 ≤ rounds
    → Drains room q (drain_round next msgs room q)
unfolding drain_round
drain_round-Drains rounds next [] room q again v e nz enough =
    done-Drains room q v (simp e (omega arith))
drain_round-Drains rounds next (m ∷ ms) room q again v e nz enough =
    drain_front-Drains rounds next again m ms room q
      (v, e, (rw e at v.framed).0, (rw e at v.offset_in)) nz (omega arith)

drain_loop-Drains : (rounds : ℕ) → LoopDrains rounds (drain_loop rounds)
unfolding drain_loop
drain_loop-Drains zero room q v h = absurd (omega arith)
drain_loop-Drains (suc n) room q v h = elim (Bool-cases (room == 0)) [
  | inl full ↦ rw (full, drain_loop) (done-Drains room q v (ground arith))
  | inr more ↦
      rw (more, drain_loop)
        (drain_round-Drains n (drain_loop n) q.messages room q (drain_loop-Drains n) v refl
          (ground arith) (ground arith))
]

-- Draining a valid queue into `room` bytes copies exactly the next bytes of its wire, as many as
-- fit, leaves the others, and keeps the queue valid. The loop ends within its rounds.
pub drain_into_lem : (room : ℕ) (q : OutQueue) → IsValid q → Drains room q (drain_into room q)
unfolding drain_into
drain_into_lem room q v = drain_loop-Drains _ room q v (omega arith, inr (omega arith))
