-- ===== src/Conn/Deadlines/Expiry.antt =====
-- What the deadlines of a connection come to: when the next one is due.
use grpc_uds.Prelude.{
  ℕ, ◌+◌, ◌-◌, ◌≤◌, ◌≡◌, refl, ◌∙◌, ap, sym, Bool, true, false, ◌&&◌, ◌||◌, List, [], ◌∷◌, Option,
  none, some, arith, ◌↔◌, if◌then◌else◌,
}
use mathlib.Core.Option.{some-injective}
use grpc_uds.Conn.{Conn, StreamCtx}
use grpc_uds.Conn.Deadlines.{is_open, past, is_due, least, earliest, until, next_deadline_ms}

-- How many streams a pass at the time `now` finds due.
unfoldable pub due_count : ℕ → List StreamCtx → ℕ
unfolding is_due
due_count now [] = 0
due_count now (s ∷ ss) = (if is_due now s then 1 else 0) + due_count now ss

past-least : (now : ℕ) (a b : Option ℕ) → past now (least a b) ≡ past now a || past now b
past-least now none b = refl
past-least now (some a) none = ground arith
past-least now (some a) (some b) = ground arith

past-if : (now : ℕ) (b : Bool) (d : Option ℕ) → past now (if b then d else none) ≡ b && past now d
past-if now true d = refl
past-if now false d = refl

-- A stream that is due, or one behind it.
either :
    (b p : Bool) (n : ℕ) {q : Bool}
    → q ≡ b || p
    → (p ≡ true) ↔ (1 ≤ n)
    → (q ≡ true) ↔ (1 ≤ (if b then 1 else 0) + n)
either true p n e h = ((λ _. omega arith), λ _. e)
either false p n e h = ((λ k. omega (arith, h.0 (sym e ∙ k))), λ k. e ∙ h.1 (omega arith))

past-earliest :
    (now : ℕ) (ss : List StreamCtx) → (past now (earliest ss) ≡ true) ↔ (1 ≤ due_count now ss)
unfolding earliest due_count is_due
past-earliest now [] = ground arith
past-earliest now (s ∷ ss) =
    let e =
      past-least now (if is_open s then s.deadline_ms else none) (earliest ss)
      ∙ ap (λ b. b || past now (earliest ss)) (past-if now (is_open s) s.deadline_ms) in
    either (is_due now s) (past now (earliest ss)) (due_count now ss) e (past-earliest now ss)

until_iff : (now : ℕ) (d : Option ℕ) → (until now d ≡ some 0) ↔ (past now d ≡ true)
until_iff now none = ((λ e. absurd (cc)), λ e. absurd (cc))
until_iff now (some d) = (
  (λ e. ground (arith, some-injective (d - now) 0 e)),
  λ e. ap some (let le : d - now ≡ 0 = ground arith in le),
)

-- The poll loop is told to wake at once exactly when a pass over the deadlines would find a call
-- due.
pub next_deadline_ms-due_count :
    (now : ℕ) (c : Conn) → (next_deadline_ms now c ≡ some 0) ↔ (1 ≤ due_count now c.streams)
unfolding next_deadline_ms
next_deadline_ms-due_count now c =
    let u = until_iff now (earliest c.streams) in
    let p = past-earliest now c.streams in ((λ e. p.0 (u.0 e)), λ h. u.1 (p.1 h))
