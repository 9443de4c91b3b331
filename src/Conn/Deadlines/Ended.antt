-- ===== src/Conn/Deadlines/Ended.antt =====
-- What a pass over the deadlines, `expire_deadlines`, does to each stream.
use grpc_uds.Prelude.{
  ℕ, zero, suc, ◌≡◌, refl, sym, ap, ◌∙◌, Bool, true, false, not, ◌&&◌, ◌||◌, List, [], ◌∷◌, ◌++◌,
  Option, none, some, leb, ◌==◌, ==_iff, if◌then◌else◌, take, arith, Bool-cases, Option-cases, inl,
  inr, codes,
}
use mathlib.Core.Option
use mathlib.Core.Option.{some-injective}
use grpc_uds.Headers.{deadline_exceeded}
use grpc_uds.Headers.Percent.{percent_encode_message}
use grpc_uds.Conn.{Conn, StreamCtx, CancelHook, find_stream, set_out, command}
use grpc_uds.Conn.Streams.{find_stream-update_stream}
use grpc_uds.Conn.Receive.Removal.{Distinct, set_hook}
use grpc_uds.Conn.Calls.{is_dispatched, finish_queue, finish_call_inner, finish_call_msg}
use grpc_uds.Conn.Calls.Laws.{streams-finish_call_inner, finish_queue_twice}
use grpc_uds.Conn.Deadlines.{
  is_due, past, hook_list, sweep, finish_all, expire_deadlines, deadline_message,
}

-- The deadline of a call has come, and the handler has had the call and not finished it.
abbrev pub has_come : ℕ → Option ℕ → Bool
has_come now none = false
has_come now (some d) = leb d now

abbrev pub overdue : ℕ → StreamCtx → Bool
overdue now s = has_come now s.deadline_ms && (is_dispatched s.state && not s.out.finished)

abbrev pub overdue_ids : ℕ → List StreamCtx → List ℕ
overdue_ids now [] = []
overdue_ids now (s ∷ ss) =
    let rest = overdue_ids now ss in if overdue now s then s.id ∷ rest else rest

abbrev pub among : ℕ → List ℕ → Bool
among i [] = false
among i (j ∷ js) = (j == i) || among i js

-- A call that its deadline has ended.
abbrev pub ended : StreamCtx → StreamCtx
ended s = record s {
  deadline_ms = none;
  cancel_hook = none;
  out = record (s.out) {
    finished = true;
    final_status = deadline_exceeded;
    final_message = some (percent_encode_message (codes "deadline exceeded") []);
  };
}

is_due-overdue : (now : ℕ) (s : StreamCtx) → is_due now s ≡ overdue now s
unfolding is_due
is_due-overdue now s = go s.deadline_ms
  where
    go :
        (d : Option ℕ)
        → (is_dispatched s.state && not s.out.finished) && past now d
          ≡ has_come now d && (is_dispatched s.state && not s.out.finished)
    go none = ground arith
    go (some d) = ground arith

expired-sweep :
    (now k : ℕ) (ss : List StreamCtx) → (sweep now k ss).expired ≡ take k (overdue_ids now ss)
unfolding sweep
expired-sweep now zero [] = refl
expired-sweep now (suc k) [] = refl
expired-sweep now zero (s ∷ ss) = refl
expired-sweep now (suc k) (s ∷ ss) = elim (Bool-cases (is_due now s)) [
  | inl e ↦ rw (e, sym (is_due-overdue now s) ∙ e) (ap (◌∷◌ s.id) (expired-sweep now k ss))
  | inr e ↦ rw (e, sym (is_due-overdue now s) ∙ e) (expired-sweep now (suc k) ss)
]

-- A stream that is not there is not expired.
among-absent :
    (now k i : ℕ) (ss : List StreamCtx)
    → find_stream i ss ≡ none
    → among i (sweep now k ss).expired ≡ false
unfolding sweep find_stream
among-absent now zero i [] e = refl
among-absent now (suc k) i [] e = refl
among-absent now zero i (s ∷ ss) e = refl
among-absent now (suc k) i (s ∷ ss) e =
    ground (arith, among-absent now k i ss, among-absent now (suc k) i ss)

-- What the first loop makes of a stream.
abbrev swept : StreamCtx → StreamCtx
swept s = record s { deadline_ms = none; cancel_hook = none }

find_stream-sweep :
    (now k i : ℕ) (ss : List StreamCtx)
    → Distinct ss
    → find_stream i (sweep now k ss).streams
      ≡ Option.map (λ s. if among i (sweep now k ss).expired then swept s else s) (find_stream i ss)
unfolding sweep find_stream
find_stream-sweep now zero i [] d = refl
find_stream-sweep now (suc k) i [] d = refl
find_stream-sweep now zero i (s ∷ ss) d = go (find_stream i (s ∷ ss))
  where
    go : (o : Option StreamCtx) → o ≡ Option.map (λ s. s) o
    go none = refl
    go (some t) = refl
find_stream-sweep now (suc k) i (s ∷ ss) (fresh, d) = elim (Bool-cases (is_due now s)) [
  | inl due ↦ elim (Bool-cases (s.id == i)) [
    | inl hit ↦ rw (due, hit) refl
    | inr miss ↦ rw (due, miss) (find_stream-sweep now k i ss d)
  ]
  | inr early ↦ elim (Bool-cases (s.id == i)) [
    | inl hit ↦
        let here : s.id ≡ i = (==_iff s.id i).0 hit in
        let gone = among-absent now (suc k) i ss (rw here at fresh) in rw (early, hit, gone) refl
    | inr miss ↦ rw (early, miss) (find_stream-sweep now (suc k) i ss d)
  ]
]

-- Only overdue calls are expired.
among-overdue :
    (now k i : ℕ) (ss : List StreamCtx) {s : StreamCtx}
    → Distinct ss
    → find_stream i ss ≡ some s
    → among i (sweep now k ss).expired ≡ true
    → overdue now s ≡ true
unfolding sweep find_stream
among-overdue now k i [] d e a = absurd (cc)
among-overdue now zero i (t ∷ ss) d e a = absurd (cc)
among-overdue now (suc k) i (t ∷ ss) {s} (fresh, d) e a = elim (Bool-cases (t.id == i)) [
  | inl hit ↦
      let here : t.id ≡ i = (==_iff t.id i).0 hit in
      let gone = among-absent now (suc k) i ss (rw here at fresh) in
      let same : t ≡ s = some-injective t s (rw hit at e) in
      elim (Bool-cases (is_due now t)) [
        | inl due ↦ ap (overdue now) (sym same) ∙ sym (is_due-overdue now t) ∙ due
        | inr early ↦ absurd (let bad : false ≡ true = sym gone ∙ rw early at a in cc)
      ]
  | inr miss ↦
      let rest = rw miss at e in
      elim (Bool-cases (is_due now t)) [
        | inl due ↦ among-overdue now k i ss d rest (rw (due, miss) at a)
        | inr early ↦ among-overdue now (suc k) i ss d rest (rw early at a)
      ]
]

-- What a finish by the deadline makes of a stream.
abbrev done : StreamCtx → StreamCtx
done s = set_out (finish_queue deadline_exceeded (some deadline_message) s.out) s

map_same : {A : Type 0} (f : A → A) (o : Option A) → ((a : A) → f a ≡ a) → o ≡ Option.map f o
map_same f none h = refl
map_same f (some a) h = ap some (sym (h a))

map_ext :
    (f g : StreamCtx → StreamCtx) (o : Option StreamCtx)
    → ((s : StreamCtx) → o ≡ some s → f s ≡ g s)
    → Option.map f o ≡ Option.map g o
map_ext f g none h = refl
map_ext f g (some s) h = ap some (h s refl)

map-map :
    (f g : StreamCtx → StreamCtx) (o : Option StreamCtx)
    → Option.map f (Option.map g o) ≡ Option.map (λ s. f (g s)) o
map-map f g none = refl
map-map f g (some s) = refl

find_stream-finish_call_msg :
    (i j : ℕ) (c : Conn)
    → find_stream i (finish_call_msg j deadline_exceeded deadline_message c).0.streams
      ≡ Option.map (λ s. if j == i then done s else s) (find_stream i c.streams)
unfolding finish_call_msg finish_call_inner
find_stream-finish_call_msg i j c = elim (Option-cases (find_stream j c.streams)) [
  | inl absent ↦ unchanged absent
  | inr (s, there) ↦
      ap (find_stream i)
        (streams-finish_call_inner j deadline_exceeded (some deadline_message) c there)
      ∙ find_stream-update_stream j i
          (set_out (finish_queue deadline_exceeded (some deadline_message) s.out)) c.streams
          (λ _. refl)
      ∙ at s there
]
  where
    unchanged :
        find_stream j c.streams ≡ none
        → find_stream i (finish_call_inner j deadline_exceeded (some deadline_message) c).0.streams
          ≡ Option.map (λ s. if j == i then done s else s) (find_stream i c.streams)
    unchanged absent = elim (Bool-cases (j == i)) [
      | inl hit ↦
          let here : j ≡ i = (==_iff j i).0 hit in
          let gone : find_stream i c.streams ≡ none = rw here at absent in rw (absent, gone) refl
      | inr miss ↦ rw (absent, miss) (map_same (λ s. s) (find_stream i c.streams) (λ s. refl))
    ]

    at :
        (s : StreamCtx)
        → find_stream j c.streams ≡ some s
        → (if j == i
            then Option.map
                (set_out (finish_queue deadline_exceeded (some deadline_message) s.out))
                (find_stream i c.streams)
            else find_stream i c.streams)
          ≡ Option.map (λ s. if j == i then done s else s) (find_stream i c.streams)
    at s there = elim (Bool-cases (j == i)) [
      | inl hit ↦
          let here : j ≡ i = (==_iff j i).0 hit in
          let found : find_stream i c.streams ≡ some s = rw here at there in rw (hit, found) refl
      | inr miss ↦ rw miss (map_same (λ s. s) (find_stream i c.streams) (λ s. refl))
    ]

done_twice : (s : StreamCtx) → done (done s) ≡ done s
done_twice s =
    ap (λ q. set_out q s)
      (finish_queue_twice deadline_exceeded deadline_exceeded (some deadline_message)
        (some deadline_message) s.out)

find_stream-finish_all :
    (i : ℕ) (is : List ℕ) (c : Conn)
    → find_stream i (finish_all is c).streams
      ≡ Option.map (λ s. if among i is then done s else s) (find_stream i c.streams)
unfolding finish_all
find_stream-finish_all i [] c = map_same (λ s. s) (find_stream i c.streams) (λ s. refl)
find_stream-finish_all i (j ∷ is) c =
    find_stream-finish_all i is (finish_call_msg j deadline_exceeded deadline_message c).0
    ∙ ap (Option.map (λ s. if among i is then done s else s)) (find_stream-finish_call_msg i j c)
    ∙ map-map _ _ (find_stream i c.streams)
    ∙ map_ext _ _ (find_stream i c.streams) (λ s _. both (j == i) (among i is) s)
  where
    both :
        (a b : Bool) (s : StreamCtx)
        → (let t = (if a then done s else s) in if b then done t else t)
          ≡ (if a || b then done s else s)
    both true true s = done_twice s
    both true false s = refl
    both false true s = refl
    both false false s = refl

-- The hook of a stream is fired by the first loop, and the second fires none.
fired-finish_call_msg :
    (j : ℕ) (c : Conn) → (finish_call_msg j deadline_exceeded deadline_message c).0.fired ≡ c.fired
unfolding finish_call_msg finish_call_inner command
fired-finish_call_msg j c = elim (Option-cases (find_stream j c.streams)) [
  | inl e ↦ rw e refl
  | inr (s, e) ↦ rw e (ground arith)
]

fired-finish_all : (is : List ℕ) (c : Conn) → (finish_all is c).fired ≡ c.fired
unfolding finish_all
fired-finish_all [] c = refl
fired-finish_all (i ∷ is) c = fired-finish_all is _ ∙ fired-finish_call_msg i c

-- The hooks of the first `k` overdue calls.
abbrev pub overdue_hooks : ℕ → ℕ → List StreamCtx → List CancelHook
overdue_hooks now k [] = []
overdue_hooks now zero (s ∷ ss) = []
overdue_hooks now (suc k) (s ∷ ss) =
    let hit = set_hook s.cancel_hook ++ overdue_hooks now k ss in
    let miss = overdue_hooks now (suc k) ss in if overdue now s then hit else miss

hook_list-set_hook : (o : Option CancelHook) → hook_list o ≡ set_hook o
hook_list-set_hook none = refl
hook_list-set_hook (some h) = refl

fired-sweep : (now k : ℕ) (ss : List StreamCtx) → (sweep now k ss).fired ≡ overdue_hooks now k ss
unfolding sweep
fired-sweep now zero [] = refl
fired-sweep now (suc k) [] = refl
fired-sweep now zero (s ∷ ss) = refl
fired-sweep now (suc k) (s ∷ ss) = elim (Bool-cases (is_due now s)) [
  | inl e ↦
      rw (e, sym (is_due-overdue now s) ∙ e, hook_list-set_hook s.cancel_hook, fired-sweep now k ss)
        refl
  | inr e ↦ rw (e, sym (is_due-overdue now s) ∙ e) (fired-sweep now (suc k) ss)
]

done-swept : (now : ℕ) (s : StreamCtx) → overdue now s ≡ true → done (swept s) ≡ ended s
unfolding finish_queue
done-swept now s h = let open_yet : s.out.finished ≡ false = ground arith in rw open_yet refl

-- A pass over the deadlines of a connection whose streams have distinct ids. Its first eight
-- overdue calls (dispatched, not finished, with a deadline that has come) have no deadline and no
-- hook any more, and are finished with DEADLINE_EXCEEDED and the message "deadline exceeded"; every
-- other stream is as before; and exactly the hooks of those eight have fired, in their order.
pub expire_deadlines-Ended :
    (now i : ℕ) (c : Conn)
    → Distinct c.streams
    → let c' = expire_deadlines now c in
      (find_stream i c'.streams
        ≡ Option.map
            (λ s. if among i (take 8 (overdue_ids now c.streams)) then ended s else s)
            (find_stream i c.streams))
      × (c'.fired ≡ c.fired ++ overdue_hooks now 8 c.streams)
unfolding expire_deadlines
expire_deadlines-Ended now i c d = (
  find_stream-finish_all i w.expired c1
      ∙ ap (Option.map (λ s. if among i w.expired then done s else s))
          (find_stream-sweep now 8 i c.streams d)
      ∙ map-map _ _ (find_stream i c.streams)
      ∙ map_ext _ _ (find_stream i c.streams) (λ s e. each s e (among i w.expired) refl)
      ∙ ap (λ is. Option.map (λ s. if among i is then ended s else s) (find_stream i c.streams))
          (expired-sweep now 8 c.streams),
  fired-finish_all w.expired c1 ∙ ap (◌++◌ c.fired) (fired-sweep now 8 c.streams),
)
  where
    w : grpc_uds.Conn.Deadlines.Sweep
    w = sweep now 8 c.streams

    c1 : Conn
    c1 = record c { streams = w.streams; fired = c.fired ++ w.fired }

    each :
        (s : StreamCtx)
        → find_stream i c.streams ≡ some s
        → (b : Bool) → among i w.expired ≡ b
        → (let t = (if b then swept s else s) in if b then done t else t)
          ≡ (if b then ended s else s)
    each s e true a = done-swept now s (among-overdue now 8 i c.streams d e a)
    each s e false a = refl
