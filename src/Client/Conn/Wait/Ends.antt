-- ===== src/Client/Conn/Wait/Ends.antt =====
-- The descriptors of `connect`, and the end of `connect_wait`.
use mathlib.Core.Path.{subst}
use grpc_uds.Prelude.{
  ℕ, arith, ◌≡◌, ◌≤◌, ◌<◌, ◌+◌, ◌-◌, min, Bool, true, false, List, [], ◌∷◌, ◌++◌, Option, none,
  some, ok, err, refl, ap, ◌∙◌, ltb, leb, ◌==◌, ◌&&◌, ◌||◌, not, if◌then◌else◌, length, All,
  both_ways,
}
use grpc_uds.Uds.{SendAnswer}
use grpc_uds.Client.Conn.{ClientConn, ClientError, flush_send}
use grpc_uds.Client.Conn.Wait.{
  Attempt, Attempted, sun_path_len, trim_nul, is_connected, on_socket, connect_uds, new_conn,
  flushed, on_connected, connect, next_backoff_ms, apply_jitter, xorshift64, gives_up, Waiting,
  after_nap, on_attempt, wait_loop, connect_wait, connect_backoff_initial_ms,
}

flush_send-fd :
    (chunks : List (List ℕ)) (answers : List SendAnswer) (c : ClientConn)
    → (flush_send chunks answers c).0.fd ≡ c.fd
unfolding flush_send
flush_send-fd [] answers c = refl
flush_send-fd ([] ∷ chunks) answers c = refl
flush_send-fd ((b ∷ bs) ∷ chunks) answers c =
    both_ways (λ (r : ClientConn × Bool). r.0.fd ≡ c.fd) _ _ _ (flush_send-fd chunks _ _) refl

-- What socket(2) gave in an attempt is the descriptor of the result, or is closed.
abbrev pub Accounts : {A : Type 0} → (A → ℕ) → List ℕ → Attempted A → Type 0
Accounts fd_of given (closed, ok a) = (given ≡ fd_of a ∷ []) × (closed ≡ [])
Accounts fd_of given (closed, err e) = closed ≡ given

abbrev pub given : Option ℕ → List ℕ
given none = []
given (some fd) = fd ∷ []

-- The path is none that fits `sun_path`.
abbrev pub misfits : List ℕ → Bool
misfits path = (length (trim_nul path) == 0) || ltb (sun_path_len - 1) (length (trim_nul path))

abbrev pub opened : Attempt → List ℕ → List ℕ
opened a path = if a.reserves && not (misfits path) then given a.socket else []

on_socket-Accounts : (a : Attempt) (s : Option ℕ) → Accounts (λ fd. fd) (given s) (on_socket a s)
on_socket-Accounts a none = refl
on_socket-Accounts a (some fd) =
    both_ways (Accounts (λ fd. fd) (fd ∷ [])) (is_connected a.connects && a.unblocks) ([], ok fd)
      (fd ∷ [], err ClientError.connect) (refl, refl) refl

flushed-Accounts : (r : ClientConn × Bool) → Accounts (λ c. c.fd) (r.0.fd ∷ []) (flushed r)
flushed-Accounts (c, true) = (refl, refl)
flushed-Accounts (c, false) = refl

on_connected-Accounts :
    (a : Attempt) (path fds : List ℕ) (o : Attempted ℕ)
    → Accounts (λ fd. fd) fds o
    → Accounts (λ c. c.fd) fds (on_connected a path o)
unfolding new_conn
on_connected-Accounts a path fds (closed, err e) h = h
on_connected-Accounts a path fds (closed, ok fd) (h, _) = rw h (
    both_ways (Accounts (λ c. c.fd) (fd ∷ []))
      (not (a.callbacks && (a.opens_session && a.takes_settings)))
      (fd ∷ [], err ClientError.session)
      (flushed (flush_send a.chunks a.answers (new_conn fd path))) refl
      (subst
        (λ n.
          Accounts (λ c. c.fd) (n ∷ [])
            (flushed (flush_send a.chunks a.answers (new_conn fd path))))
        (flush_send-fd a.chunks a.answers (new_conn fd path))
        (flushed-Accounts (flush_send a.chunks a.answers (new_conn fd path)))))

-- Whatever an attempt to connect runs into, the descriptor that it opened is the one of the
-- connection that it returns, or it is closed, once, and nothing else is.
pub connect-Accounts :
    (a : Attempt) (path : List ℕ) → Accounts (λ c. c.fd) (opened a path) (connect a path)
unfolding connect connect_uds
connect-Accounts a path = go a.reserves (misfits path)
  where
    go :
        (r m : Bool)
        → Accounts
            (λ c. c.fd)
            (if r && not m then given a.socket else [])
            (if r
              then on_connected a
                  (trim_nul path)
                  (if m then ([], err ClientError.connect) else on_socket a a.socket)
              else ([], err ClientError.connect))
    go false m = refl
    go true true = refl
    go true false =
        on_connected-Accounts a (trim_nul path) (given a.socket) (on_socket a a.socket)
          (on_socket-Accounts a a.socket)

-- An attempt that failed before the deadline.
abbrev pub Retries : List ℕ → ℕ → Attempt × ℕ → Type 0
Retries path deadline (a, now) = (now < deadline) × (e : ClientError) × ((connect a path).1 ≡ err e)

-- The attempts up to the last one, the last one, and those that are not made.
abbrev pub GivesUp : List ℕ → ℕ → List (Attempt × ℕ) → ClientError → Type 0
GivesUp path deadline attempts e =
    (before : List (Attempt × ℕ)) × (a : Attempt) × (now : ℕ) × (after : List (Attempt × ℕ))
    × (attempts ≡ before ++ ((a, now) ∷ after))
    × All (Retries path deadline) before
    × (deadline ≤ now)
    × ((connect a path).1 ≡ err e)

gives_up-injective : {x y : ClientError} → gives_up x ≡ gives_up y → x ≡ y
gives_up-injective h = cc

on_attempt_gives_up :
    (path : List ℕ) (next : ℕ → ℕ → Waiting) (deadline backoff rng : ℕ) (a : Attempt) (now : ℕ)
    (rest : List (Attempt × ℕ)) (r : Attempted ClientConn) (e : ClientError)
    → connect a path ≡ r
    → ((b rng : ℕ) → (next b rng).2 ≡ gives_up e → GivesUp path deadline rest e)
    → (on_attempt next deadline backoff rng now r).2 ≡ gives_up e
    → GivesUp path deadline ((a, now) ∷ rest) e
on_attempt_gives_up path next deadline backoff rng a now rest (closed, ok c) e made later h =
    absurd (cc)
on_attempt_gives_up path next deadline backoff rng a now rest (closed, err x) e made later h =
    split (leb deadline now) refl h
  where
    split :
        (late : Bool)
        → leb deadline now ≡ late
        → (if late
            then ([], closed, gives_up x)
            else after_nap
                (min (apply_jitter backoff (xorshift64 rng)) (deadline - now))
                closed
                (next (next_backoff_ms backoff) (xorshift64 rng))).2
          ≡ gives_up e
        → GivesUp path deadline ((a, now) ∷ rest) e
    split true t h = (
      [],
      a,
      now,
      rest,
      refl,
      tt,
      ground arith,
      ap (λ r. r.1) made ∙ ap err (gives_up-injective h),
    )
    split false t h =
        let (before, b, at, after, eq, all, le, failed) =
          later (next_backoff_ms backoff) (xorshift64 rng) h in
        (
          (a, now) ∷ before,
          b,
          at,
          after,
          ap (λ l. (a, now) ∷ l) eq,
          ((ground arith, x, ap (λ r. r.1) made), all),
          le,
          failed,
        )

wait_loop_gives_up :
    (path : List ℕ) (deadline : ℕ) (attempts : List (Attempt × ℕ)) (backoff rng : ℕ)
    (e : ClientError)
    → (wait_loop path deadline attempts backoff rng).2 ≡ gives_up e
    → GivesUp path deadline attempts e
unfolding wait_loop
wait_loop_gives_up path deadline [] backoff rng e h = absurd (cc)
wait_loop_gives_up path deadline ((a, now) ∷ rest) backoff rng e h =
    on_attempt_gives_up path (wait_loop path deadline rest) deadline backoff rng a now rest
      (connect a path) e refl (λ b r. wait_loop_gives_up path deadline rest b r e) h

-- When `connect_wait` returns an error, it is that of an attempt after which the clock had reached
-- the deadline, and every attempt before it failed before the deadline.
pub connect_wait_gives_up :
    (path : List ℕ) (timeout_ms start seed_clock pid : ℕ) (attempts : List (Attempt × ℕ))
    (e : ClientError)
    → (connect_wait path timeout_ms start seed_clock pid attempts).2 ≡ gives_up e
    → GivesUp path (start + timeout_ms) attempts e
unfolding connect_wait
connect_wait_gives_up path timeout_ms start seed_clock pid attempts e h =
    wait_loop_gives_up path (start + timeout_ms) attempts connect_backoff_initial_ms _ e h
