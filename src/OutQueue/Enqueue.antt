-- ===== src/OutQueue/Enqueue.antt =====
-- Enqueueing, `enqueue_owned`, against a bounded buffer of bodies.
use grpc_uds.Prelude.{
  ℕ, zero, suc, ◌-◌, ◌^◌, ◌<◌, ◌≡◌, ◌≢◌, refl, ◌∙◌, ap, Bool, true, false, List, [], ◌∷◌, ◌++◌, map,
  ok, err, ltb, leb, ◌||◌, if◌then◌else◌, length, drop, All, All-append, arith, length-map,
  Bool-cases, inl, inr, ◌⊎◌,
}
use mathlib.Core.List.{map-append}
use grpc_uds.Framing.{encode_header}
use grpc_uds.Errors.{Reply, queue_full}
use grpc_uds.OutQueue.{
  OutMsg, OutQueue, Backpressure, unbounded, bounded, OverflowPolicy, reject, drop_oldest,
  in_flight, unstarted_count, remove, drop_one, room_under, at_capacity, push_back, after_room,
  enqueue_owned,
}
use grpc_uds.OutQueue.Wire.{IsValid, IsFramed, OffsetIn, OffsetIn-zero}

-- The front message is under way: some of its bytes are sent, or nghttp2 has been promised some.
abbrev pub is_begun : OutQueue → Bool
is_begun q = ltb 0 q.front_offset || q.front_committed

-- A message under way is there.
abbrev pub HasFront : OutQueue → Type 0
HasFront q = is_begun q ≡ true → q.messages ≢ []

-- The messages that may still be dropped.
abbrev pub unstarted : OutQueue → List OutMsg
unstarted q = if is_begun q then drop 1 q.messages else q.messages

abbrev pub bodies : List OutMsg → List (List ℕ)
bodies = map λ m. m.body

-- A buffer of bodies under a policy.
unfoldable pub offer : Backpressure → List (List ℕ) → List ℕ → List (List ℕ) × Reply
offer unbounded xs x = (xs ++ (x ∷ []), ok tt)
offer (bounded c p) xs x =
    if leb c (length xs)
    then elim p [ reject ↦ (xs, err queue_full) | drop_oldest ↦ (drop 1 xs ++ (x ∷ []), ok tt) ]
    else (xs ++ (x ∷ []), ok tt)

push-framed :
    (body : List ℕ) (ms : List OutMsg)
    → length body < 2 ^ 32
    → All IsFramed ms
    → All IsFramed (ms ++ (record { hdr = encode_header false (length body); body = body } ∷ []))
push-framed body ms h a = All-append IsFramed ms _ a ((refl, h), tt)

push-OffsetIn :
    (k : ℕ) (ms : List OutMsg) (m : OutMsg) → OffsetIn k ms → OffsetIn k (ms ++ (m ∷ []))
push-OffsetIn k [] m h = omega (arith, h)
push-OffsetIn k (x ∷ ms) m h = h

remove-framed : (i : ℕ) (ms : List OutMsg) → All IsFramed ms → All IsFramed (remove i ms)
remove-framed i [] a = tt
remove-framed zero (m ∷ ms) a = a.1
remove-framed (suc i) (m ∷ ms) a = (a.0, remove-framed i ms a.1)

remove_one-OffsetIn : (k : ℕ) (ms : List OutMsg) → OffsetIn k ms → OffsetIn k (remove 1 ms)
remove_one-OffsetIn k [] h = h
remove_one-OffsetIn k (m ∷ ms) h = h

drop_one-IsValid : {q : OutQueue} → IsValid q → IsValid (drop_one q)
unfolding drop_one
drop_one-IsValid {q} v = elim (Bool-cases (in_flight q)) [
  | inl busy ↦ rw busy (record {
    framed = remove-framed 1 q.messages v.framed;
    offset_in = remove_one-OffsetIn q.front_offset q.messages v.offset_in;
  })
  | inr idle ↦ rw idle (record {
    framed = remove-framed 0 q.messages v.framed;
    offset_in =
        let e : q.front_offset ≡ 0 = ground arith in rw e (OffsetIn-zero (remove 0 q.messages));
  })
]

-- A refusal, the queue as it is, or the queue without its oldest unstarted message.
pub room_under_cases :
    (b : Backpressure) (q : OutQueue)
    → (room_under b q ≡ err queue_full)
      ⊎ (room_under b q ≡ ok q)
      ⊎ (room_under b q ≡ ok (drop_one q))
unfolding room_under
room_under_cases unbounded q = inr (inl refl)
room_under_cases (bounded c p) q = ground arith

push_back-IsValid :
    (room : Bool) (body : List ℕ) {q : OutQueue}
    → length body < 2 ^ 32
    → IsValid q
    → IsValid (push_back room body q).0
push_back-IsValid false body h v = v
push_back-IsValid true body {q} h v = record {
  framed = push-framed body q.messages h v.framed;
  offset_in = push-OffsetIn q.front_offset q.messages _ v.offset_in;
}

-- Every branch of an enqueue keeps the queue valid.
pub enqueue_owned-IsValid :
    (room : Bool) (body : List ℕ) {q : OutQueue} → IsValid q → IsValid (enqueue_owned room body q).0
unfolding enqueue_owned
enqueue_owned-IsValid room body {q} v = elim (Bool-cases (ltb (2 ^ 32 - 1) (length body))) [
  | inl long ↦ rw long v
  | inr short ↦
      let fits : length body < 2 ^ 32 = ground arith in
      elim (room_under_cases q.backpressure q) [
        | inl e ↦ rw (short, e) v
        | inr (inl e) ↦ rw (short, e) (push_back-IsValid room body fits v)
        | inr (inr e) ↦ rw (short, e) (push_back-IsValid room body fits (drop_one-IsValid v))
      ]
]

-- The front of the queue and what lies behind it are one list.
tail_length : (ms : List OutMsg) → length (drop 1 ms) ≡ length ms - 1
tail_length [] = omega arith
tail_length (m ∷ ms) = omega arith

pub unstarted_count_lem : (q : OutQueue) → unstarted_count q ≡ length (bodies (unstarted q))
unfolding unstarted_count
unstarted_count_lem q =
    rw (length-map (unstarted q) (λ m. m.body)) (ground (arith, tail_length q.messages))

drop_push :
    (ms : List OutMsg) (m : OutMsg) → ms ≢ [] → drop 1 (ms ++ (m ∷ [])) ≡ drop 1 ms ++ (m ∷ [])
drop_push [] m h = absurd (h refl)
drop_push (x ∷ ms) m h = refl

-- A push adds its body behind the unstarted ones.
push-unstarted :
    (q : OutQueue) (m : OutMsg)
    → HasFront q
    → unstarted (record q { messages = q.messages ++ (m ∷ []) }) ≡ unstarted q ++ (m ∷ [])
push-unstarted q m h = elim (Bool-cases (in_flight q)) [
  | inl busy ↦ rw busy (drop_push q.messages m (h busy))
  | inr idle ↦ rw idle
]

remove-drop : (ms : List OutMsg) → drop 1 (remove 1 ms) ≡ drop 1 (drop 1 ms)
remove-drop [] = refl
remove-drop (m ∷ []) = refl
remove-drop (m ∷ n ∷ ms) = refl

remove_zero : (ms : List OutMsg) → remove 0 ms ≡ drop 1 ms
remove_zero [] = refl
remove_zero (m ∷ ms) = refl

-- Dropping the oldest unstarted message leaves the one in flight alone.
pub drop_one-unstarted : (q : OutQueue) → unstarted (drop_one q) ≡ drop 1 (unstarted q)
unfolding drop_one
drop_one-unstarted q = elim (Bool-cases (in_flight q)) [
  | inl busy ↦ rw busy (remove-drop q.messages)
  | inr idle ↦ rw idle (remove_zero q.messages)
]

drop_one-HasFront : (q : OutQueue) → HasFront q → HasFront (drop_one q)
unfolding drop_one
drop_one-HasFront q h busy = rw busy (remove_one-ne q.messages (h busy))
  where
    remove_one-ne : (ms : List OutMsg) → ms ≢ [] → remove 1 ms ≢ []
    remove_one-ne [] ne = ne
    remove_one-ne (m ∷ ms) ne = λ e. cc

pub push_back-unstarted :
    (q : OutQueue) (body : List ℕ)
    → HasFront q
    → bodies (unstarted (push_back true body q).0) ≡ bodies (unstarted q) ++ (body ∷ [])
push_back-unstarted q body h =
    ap bodies (push-unstarted q (record { hdr = encode_header false (length body); body = body }) h)
    ∙ map-append (λ m. m.body) (unstarted q) _

drop-bodies : (ms : List OutMsg) → bodies (drop 1 ms) ≡ drop 1 (bodies ms)
drop-bodies [] = refl
drop-bodies (m ∷ ms) = refl

dropped_push :
    (q : OutQueue) (body : List ℕ)
    → HasFront q
    → bodies (unstarted (push_back true body (drop_one q)).0)
      ≡ drop 1 (bodies (unstarted q)) ++ (body ∷ [])
dropped_push q body h =
    push_back-unstarted (drop_one q) body (drop_one-HasFront q h)
    ∙ ap (λ xs. xs ++ (body ∷ [])) (ap bodies (drop_one-unstarted q) ∙ drop-bodies (unstarted q))

abbrev pub seen : OutQueue × Reply → List (List ℕ) × Reply
seen (q, r) = (bodies (unstarted q), r)

refines_at :
    (b : Backpressure) (body : List ℕ) (q : OutQueue)
    → HasFront q
    → seen (after_room true body q (room_under b q)) ≡ offer b (bodies (unstarted q)) body
unfolding offer room_under
refines_at unbounded body q h = ap (λ xs. (xs, ok tt)) (push_back-unstarted q body h)
refines_at (bounded c p) body q h = elim (Bool-cases (leb c (length (bodies (unstarted q))))) [
  | inl full ↦ rw (unstarted_count_lem q, full) (at_capacity_refines p)
  | inr free ↦
      rw (unstarted_count_lem q, free) (ap (λ xs. (xs, ok tt)) (push_back-unstarted q body h))
]
  where
    at_capacity_refines :
        (p : OverflowPolicy)
        → seen (after_room true body q (at_capacity p q)) ≡ elim p [
          | reject ↦ (bodies (unstarted q), err queue_full)
          | drop_oldest ↦ (drop 1 (bodies (unstarted q)) ++ (body ∷ []), ok tt)
        ]
    at_capacity_refines reject = refl
    at_capacity_refines drop_oldest = ap (λ xs. (xs, ok tt)) (dropped_push q body h)

-- With memory to be had, a body that a frame can hold, and a queue that has a front message if one
-- is under way (bytes of it sent, or promised), an enqueue does to the messages that
-- are not under way what the bounded buffer of the queue's policy does, and gives the same answer.
pub enqueue_owned_refines :
    (body : List ℕ) (q : OutQueue)
    → HasFront q
    → length body < 2 ^ 32
    → (let (q', r) = enqueue_owned true body q in (bodies (unstarted q'), r))
      ≡ offer q.backpressure (bodies (unstarted q)) body
unfolding enqueue_owned
enqueue_owned_refines body q h short =
    let e : ltb (2 ^ 32 - 1) (length body) ≡ false = ground arith in
    rw e (refines_at q.backpressure body q h)
