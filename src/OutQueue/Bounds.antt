-- ===== src/OutQueue/Bounds.antt =====
-- An enqueue against the capacity, the message in flight and the bytes on the wire.
use grpc_uds.Prelude.{
  ℕ, ◌-◌, ◌^◌, ◌≤◌, ◌<◌, ◌≡◌, refl, ◌∙◌, ap, sym, Bool, true, false, List, [], ◌∷◌, ◌++◌, ok, ltb,
  length, drop, arith, length-append, Bool-cases, inl, inr, append_assoc, append-nil,
}
use grpc_uds.Framing.{encode_header}
use grpc_uds.Errors.{Reply}
use grpc_uds.OutQueue.{
  OutMsg, OutQueue, unbounded, bounded, OverflowPolicy, reject, drop_oldest, in_flight,
  unstarted_count, remove, drop_one, room_under, push_back, enqueue_owned,
}
use grpc_uds.OutQueue.Wire.{IsValid, wire, wire_of, flat, frame}
use grpc_uds.OutQueue.Enqueue.{
  HasFront, bodies, unstarted, unstarted_count_lem, room_under_cases, offer, enqueue_owned_refines,
}

length-offer :
    (c : ℕ) (p : OverflowPolicy) (xs : List (List ℕ)) (x : List ℕ)
    → 0 < c
    → length xs ≤ c
    → length (offer (bounded c p) xs x).0 ≤ c
unfolding offer
length-offer c reject xs x h le = ground (arith, length-append xs (x ∷ []))
length-offer c drop_oldest [] x h le = ground arith
length-offer c drop_oldest (y ∷ xs) x h le =
    ground (arith, length-append xs (x ∷ []), length-append (y ∷ xs) (x ∷ []))

-- A bounded queue never holds more unstarted messages than its capacity: no enqueue of a message
-- that a frame can hold takes it over.
pub enqueue_owned_bounded :
    (body : List ℕ) (q : OutQueue) (c : ℕ) (p : OverflowPolicy)
    → q.backpressure ≡ bounded c p
    → 0 < c
    → HasFront q
    → length body < 2 ^ 32
    → unstarted_count q ≤ c
    → unstarted_count (enqueue_owned true body q).0 ≤ c
enqueue_owned_bounded body q c p e pos h short le =
    rw
      (
        unstarted_count_lem (enqueue_owned true body q).0,
        ap (λ (r : List (List ℕ) × Reply). r.0) (enqueue_owned_refines body q h short),
        e,
      )
      (length-offer c p (bodies (unstarted q)) body pos (rw unstarted_count_lem at le))

-- The queues whose front is the message `m`, as far shipped or promised as in `q`.
abbrev pub KeepsFront : OutMsg → OutQueue → OutQueue → Type 0
KeepsFront m q q' =
    ((ms : List OutMsg) × (q'.messages ≡ m ∷ ms))
    × (q'.front_offset ≡ q.front_offset)
    × (q'.front_committed ≡ q.front_committed)

push_back-KeepsFront :
    (room : Bool) (body : List ℕ) (m : OutMsg) (q r : OutQueue)
    → KeepsFront m q r
    → KeepsFront m q (push_back room body r).0
push_back-KeepsFront false body m q r k = k
push_back-KeepsFront true body m q r ((ms, e), o, c) =
    ((ms ++ (record { hdr = encode_header false (length body); body = body } ∷ []), rw e), o, c)

drop_one-KeepsFront :
    (m : OutMsg) (ms : List OutMsg) (q : OutQueue)
    → in_flight q ≡ true
    → q.messages ≡ m ∷ ms
    → KeepsFront m q (drop_one q)
unfolding drop_one
drop_one-KeepsFront m ms q busy e = ((remove 0 ms, rw (busy, e)), refl, refl)

-- A message that is in flight, shipped in part or promised, stays at the front with the same
-- offset and promise, whatever an enqueue does: refuse, run out of memory, drop a message or push.
pub enqueue_owned-KeepsFront :
    (room : Bool) (body : List ℕ) (m : OutMsg) (ms : List OutMsg) (q : OutQueue)
    → in_flight q ≡ true
    → q.messages ≡ m ∷ ms
    → KeepsFront m q (enqueue_owned room body q).0
unfolding enqueue_owned
enqueue_owned-KeepsFront room body m ms q busy e =
    elim (Bool-cases (ltb (2 ^ 32 - 1) (length body))) [
      | inl long ↦ rw long same
      | inr short ↦ elim (room_under_cases q.backpressure q) [
        | inl r ↦ rw (short, r) same
        | inr (inl r) ↦ rw (short, r) (push_back-KeepsFront room body m q q same)
        | inr (inr r) ↦
            rw (short, r)
              (push_back-KeepsFront room body m q (drop_one q) (drop_one-KeepsFront m ms q busy e))
      ]
    ]
  where
    same : KeepsFront m q q
    same = ((ms, e), refl, refl)

wire_of-push :
    (k : ℕ) (ms : List OutMsg) (m : OutMsg)
    → ((ms ≡ []) → k ≡ 0)
    → wire_of k (ms ++ (m ∷ [])) ≡ wire_of k ms ++ frame m
wire_of-push k [] m h = rw (h refl, append-nil)
wire_of-push k (x ∷ ms) m h =
    ap (◌++◌ (drop k (frame x))) (flat-push ms)
    ∙ sym (append_assoc (drop k (frame x)) (flat ms) (frame m))
  where
    flat-push : (xs : List OutMsg) → flat (xs ++ (m ∷ [])) ≡ flat xs ++ frame m
    flat-push [] = append-nil (frame m)
    flat-push (y ∷ ys) =
        ap (◌++◌ (frame y)) (flat-push ys) ∙ sym (append_assoc (frame y) (flat ys) (frame m))

-- Below its capacity.
abbrev pub HasRoom : OutQueue → Type 0
HasRoom q = room_under q.backpressure q ≡ ok q

-- An enqueue into a valid queue with room adds the framed message behind all bytes to be sent.
pub wire-enqueue_owned :
    (body : List ℕ) (q : OutQueue)
    → IsValid q
    → HasRoom q
    → length body < 2 ^ 32
    → ((enqueue_owned true body q).1 ≡ ok tt)
      × (wire (enqueue_owned true body q).0 ≡ wire q ++ (encode_header false (length body) ++ body))
unfolding enqueue_owned
wire-enqueue_owned body q v free short =
    let e : ltb (2 ^ 32 - 1) (length body) ≡ false = ground arith in
    rw (e, free) (refl, wire_of-push q.front_offset q.messages _ no_front)
  where
    no_front : (q.messages ≡ []) → q.front_offset ≡ 0
    no_front none_left = (rw none_left at v.offset_in)

pub HasRoom-of_unbounded : (q : OutQueue) → q.backpressure ≡ unbounded → HasRoom q
unfolding room_under
HasRoom-of_unbounded q e = simp e

push_back-backpressure :
    (room : Bool) (body : List ℕ) (q : OutQueue)
    → (push_back room body q).0.backpressure ≡ q.backpressure
push_back-backpressure false body q = refl
push_back-backpressure true body q = refl

-- No enqueue changes the policy.
pub backpressure-enqueue_owned :
    (room : Bool) (body : List ℕ) (q : OutQueue)
    → (enqueue_owned room body q).0.backpressure ≡ q.backpressure
unfolding enqueue_owned
backpressure-enqueue_owned room body q = elim (Bool-cases (ltb (2 ^ 32 - 1) (length body))) [
  | inl long ↦ rw long
  | inr short ↦ elim (room_under_cases q.backpressure q) [
    | inl r ↦ rw (short, r)
    | inr (inl r) ↦ rw (short, r) (push_back-backpressure room body q)
    | inr (inr r) ↦
        rw (short, r) (push_back-backpressure room body (drop_one q) ∙ unfold drop_one in refl)
  ]
]
