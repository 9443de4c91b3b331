-- ===== src/Conn/Deadlines.antt =====
-- Server-side deadlines, `expire_deadlines` and `next_deadline_ms` of
-- rust/grpcuds-core/src/conn/state.rs. The clock's reading is an argument.
pub mod Expiry
pub mod Ended
use grpc_uds.Prelude.{
  ℕ, zero, suc, ◌-◌, min, Bool, false, not, ◌&&◌, List, [], ◌∷◌, ◌++◌, Option, none, some, leb,
  if◌then◌else◌, codes,
}
use grpc_uds.Headers.{deadline_exceeded}
use grpc_uds.Conn.{Conn, StreamCtx, CancelHook}
use grpc_uds.Conn.Calls.{is_dispatched, finish_call_msg}

-- A call that its deadline can still end.
abbrev pub is_open : StreamCtx → Bool
is_open s = is_dispatched s.state && not s.out.finished

abbrev past : ℕ → Option ℕ → Bool
past now none = false
past now (some d) = leb d now

unfoldable pub is_due : ℕ → StreamCtx → Bool
is_due now s = is_open s && past now s.deadline_ms

abbrev hook_list : Option CancelHook → List CancelHook
hook_list none = []
hook_list (some h) = h ∷ []

-- The first loop: the streams, the hooks fired and the ids of the expired calls. The number is how
-- many of the eight slots of `expired` are left; without one the loop breaks.
pub record Sweep : Type 0 where
  pub streams : List StreamCtx
  pub fired : List CancelHook
  pub expired : List ℕ

abbrev keep : StreamCtx → Sweep → Sweep
keep s w = record w { streams = s ∷ w.streams }

abbrev expire_one : StreamCtx → Sweep → Sweep
expire_one s w = record {
  streams = record s { deadline_ms = none; cancel_hook = none } ∷ w.streams;
  fired = hook_list s.cancel_hook ++ w.fired;
  expired = s.id ∷ w.expired;
}

unfoldable pub sweep : ℕ → ℕ → List StreamCtx → Sweep
unfolding is_due
sweep now slots [] = record { streams = []; fired = []; expired = [] }
sweep now zero (s ∷ ss) = record { streams = s ∷ ss; fired = []; expired = [] }
sweep now (suc slots) (s ∷ ss) =
    let hit = expire_one s (sweep now slots ss) in
    let miss = keep s (sweep now (suc slots) ss) in if is_due now s then hit else miss

abbrev pub deadline_message : List ℕ
deadline_message = codes "deadline exceeded"

-- The second loop.
unfoldable pub finish_all : List ℕ → Conn → Conn
finish_all [] c = c
finish_all (i ∷ is) c = finish_all is (finish_call_msg i deadline_exceeded deadline_message c).0

unfoldable pub expire_deadlines : ℕ → Conn → Conn
unfolding sweep finish_all
expire_deadlines now c =
    let w = sweep now 8 c.streams in
    finish_all w.expired (record c { streams = w.streams; fired = c.fired ++ w.fired })

abbrev least : Option ℕ → Option ℕ → Option ℕ
least none b = b
least (some a) none = some a
least (some a) (some b) = some (min a b)

-- `filter`, `filter_map` and `min`.
unfoldable pub earliest : List StreamCtx → Option ℕ
earliest [] = none
earliest (s ∷ ss) = least (if is_open s then s.deadline_ms else none) (earliest ss)

abbrev until : ℕ → Option ℕ → Option ℕ
until now none = none
until now (some d) = some (d - now)

unfoldable pub next_deadline_ms : ℕ → Conn → Option ℕ
unfolding earliest
next_deadline_ms now c = until now (earliest c.streams)
