-- ===== src/Client/Conn/Wait/Naps.antt =====
-- The naps and the attempts of `connect_wait`.
use grpc_uds.Prelude.{
  ℕ, arith, ◌≡◌, ◌≢◌, ◌⊎◌, ◌≤◌, ◌+◌, ◌-◌, ◌*◌, ◌%◌, min, true, List, [], ◌∷◌, Result, ok, err, leb,
  All, both_ways, inl, inr,
}
use grpc_uds.Client.Conn.{ClientConn, ClientError}
use grpc_uds.Client.Conn.Wait.{
  Attempt, Attempted, connect, next_backoff_ms, apply_jitter, xorshift64, gives_up, waits, Waiting,
  after_nap, on_attempt, wait_loop, connect_wait, connect_backoff_initial_ms,
}

mul_le_mul : (a b c d : ℕ) → a ≤ c → b ≤ d → a * b ≤ c * d
mul_le_mul a b c d h k = grind arith

apply_jitter_le : (ms r : ℕ) → ms ≤ 1000 → apply_jitter ms r ≤ 1200
unfolding apply_jitter
apply_jitter_le ms r h =
    let scaled = mul_le_mul ms (80 + r % 41) 1000 120 h (omega arith) in omega (arith, scaled)

next_backoff_ms_le : (cur : ℕ) → next_backoff_ms cur ≤ 1000
unfolding next_backoff_ms
next_backoff_ms_le cur = omega arith

abbrev Short : Waiting → Type 0
Short w = All (λ n. n ≤ 1200) w.0

on_attempt-Short :
    (next : ℕ → ℕ → Waiting) (deadline backoff rng now : ℕ)
    (r : List ℕ × Result ClientConn ClientError)
    → backoff ≤ 1000
    → ((b rng : ℕ) → b ≤ 1000 → Short (next b rng))
    → Short (on_attempt next deadline backoff rng now r)
on_attempt-Short next deadline backoff rng now (closed, ok c) h later = tt
on_attempt-Short next deadline backoff rng now (closed, err e) h later =
    let nap = apply_jitter_le backoff (xorshift64 rng) h in
    both_ways Short (leb deadline now) ([], closed, gives_up e) _ tt
      (
        omega (arith, nap),
        later (next_backoff_ms backoff) (xorshift64 rng) (next_backoff_ms_le backoff),
      )

wait_loop-Short :
    (path : List ℕ) (deadline : ℕ) (attempts : List (Attempt × ℕ)) (backoff rng : ℕ)
    → backoff ≤ 1000
    → Short (wait_loop path deadline attempts backoff rng)
unfolding wait_loop
wait_loop-Short path deadline [] backoff rng h = tt
wait_loop-Short path deadline ((a, now) ∷ attempts) backoff rng h =
    on_attempt-Short (wait_loop path deadline attempts) deadline backoff rng now (connect a path) h
      (wait_loop-Short path deadline attempts)

-- No nap of `connect_wait` is longer than 1.2 s.
pub connect_wait-naps :
    (path : List ℕ) (timeout_ms start seed_clock pid : ℕ) (attempts : List (Attempt × ℕ))
    → All (λ n. n ≤ 1200) (connect_wait path timeout_ms start seed_clock pid attempts).0
unfolding connect_wait
connect_wait-naps path timeout_ms start seed_clock pid attempts =
    wait_loop-Short path (start + timeout_ms) attempts connect_backoff_initial_ms _ (omega arith)

-- The clock after some attempt has reached the deadline.
abbrev pub Reaches : ℕ → List (Attempt × ℕ) → Type 0
Reaches deadline [] = ⊥
Reaches deadline ((a, now) ∷ attempts) = (deadline ≤ now) ⊎ Reaches deadline attempts

le→leb : (a b : ℕ) → a ≤ b → leb a b ≡ true
le→leb a b h = ground arith

on_attempt_settles :
    (next : ℕ → ℕ → Waiting) (deadline backoff rng now : ℕ) (a : Attempt)
    (rest : List (Attempt × ℕ)) (r : Attempted ClientConn)
    → ((b rng : ℕ) → Reaches deadline rest → (next b rng).2 ≢ waits)
    → Reaches deadline ((a, now) ∷ rest)
    → (on_attempt next deadline backoff rng now r).2 ≢ waits
on_attempt_settles next deadline backoff rng now a rest (closed, ok c) later h = λ bad. absurd (cc)
on_attempt_settles next deadline backoff rng now a rest (closed, err e) later (inl le) =
    rw (le→leb deadline now le) (λ bad. absurd (cc))
on_attempt_settles next deadline backoff rng now a rest (closed, err e) later (inr more) =
    both_ways (λ (w : Waiting). w.2 ≢ waits) (leb deadline now) ([], closed, gives_up e)
      (after_nap (min (apply_jitter backoff (xorshift64 rng)) (deadline - now)) closed
        (next (next_backoff_ms backoff) (xorshift64 rng)))
      (λ bad. absurd (cc)) (later (next_backoff_ms backoff) (xorshift64 rng) more)

wait_loop_settles :
    (path : List ℕ) (deadline : ℕ) (attempts : List (Attempt × ℕ)) (backoff rng : ℕ)
    → Reaches deadline attempts
    → (wait_loop path deadline attempts backoff rng).2 ≢ waits
unfolding wait_loop
wait_loop_settles path deadline [] backoff rng r = elim r [ ]
wait_loop_settles path deadline ((a, now) ∷ rest) backoff rng r =
    on_attempt_settles (wait_loop path deadline rest) deadline backoff rng now a rest
      (connect a path) (wait_loop_settles path deadline rest) r

-- When the clock after some attempt has reached the deadline, `connect_wait` returns within those
-- attempts, with a connection or an error.
pub connect_wait_settles :
    (path : List ℕ) (timeout_ms start seed_clock pid : ℕ) (attempts : List (Attempt × ℕ))
    → Reaches (start + timeout_ms) attempts
    → (connect_wait path timeout_ms start seed_clock pid attempts).2 ≢ waits
unfolding connect_wait
connect_wait_settles path timeout_ms start seed_clock pid attempts r =
    wait_loop_settles path (start + timeout_ms) attempts connect_backoff_initial_ms _ r
