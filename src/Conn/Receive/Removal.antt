-- ===== src/Conn/Receive/Removal.antt =====
-- Removal by `swap_remove` from a list of streams with distinct ids.
use grpc_uds.Prelude.{
  ℕ, ◌≡◌, refl, ap, ◌∙◌, sym, Bool, true, false, List, [], ◌∷◌, ◌++◌, Option, none, some, ◌==◌,
  if◌then◌else◌, arith, Bool-cases, Option-cases, inl, inr, ==_iff, append-nil, ◌⊎◌,
}
use mathlib.Core.Path.{subst}
use grpc_uds.Conn.{Conn, StreamCtx, CancelHook, find_stream}
use grpc_uds.Conn.Receive.{last_or, init_of, swap_remove, hooks_of, on_stream_close}

-- No stream of the list has the id of one before it.
abbrev pub Distinct : List StreamCtx → Type 0
Distinct [] = Unit
Distinct (s ∷ ss) = (find_stream s.id ss ≡ none) × Distinct ss

find_stream_cons :
    (j : ℕ) (s : StreamCtx) (ss : List StreamCtx)
    → find_stream j (s ∷ ss) ≡ (if s.id == j then some s else find_stream j ss)
unfolding find_stream
find_stream_cons j s ss = refl

last_ne :
    (j : ℕ) (u : StreamCtx) (us : List StreamCtx)
    → find_stream j (last_or u us ∷ init_of u us) ≡ none
    → ((last_or u us).id == j) ≡ false
unfolding find_stream
last_ne j u us e = ground arith

-- Moving the last stream to the front changes no lookup.
find_stream-last :
    (j : ℕ) (t : StreamCtx) (ts : List StreamCtx)
    → Distinct (t ∷ ts)
    → find_stream j (last_or t ts ∷ init_of t ts) ≡ find_stream j (t ∷ ts)
unfolding find_stream last_or init_of
find_stream-last j t [] d = refl
find_stream-last j t (u ∷ us) d = elim (Bool-cases (t.id == j)) [
  | inl hit ↦
      let e : t.id ≡ j = (==_iff t.id j).0 hit in
      let n =
        last_ne j u us
          (find_stream-last j u us d.1 ∙ subst (λ k. find_stream k (u ∷ us) ≡ none) e d.0) in
      rw (n, hit)
  | inr miss ↦ rw miss (find_stream-last j u us d.1)
]

-- Removing the stream with the id `i` leaves the lookups of all other ids.
pub find_stream-swap_remove :
    (i j : ℕ) (ss : List StreamCtx)
    → Distinct ss
    → find_stream j (swap_remove i ss) ≡ (if i == j then none else find_stream j ss)
unfolding find_stream swap_remove
find_stream-swap_remove i j [] d = ground arith
find_stream-swap_remove i j (s ∷ []) d = ground arith
find_stream-swap_remove i j (s ∷ t ∷ ss) d =
    ground (arith, find_stream-last j t ss d.1, find_stream-swap_remove i j (t ∷ ss) d.1)

abbrev pub set_hook : Option CancelHook → List CancelHook
set_hook none = []
set_hook (some hook) = hook ∷ []

-- The hook of a stream that is there, if its close carries an error: the lookup of its id before
-- is given.
abbrev pub closed_hooks : Bool → Option StreamCtx → List CancelHook
closed_hooks failed none = []
closed_hooks false (some s) = []
closed_hooks true (some s) = set_hook s.cancel_hook

hooks_of_lem :
    (failed : Bool) (s : StreamCtx) → hooks_of failed s.cancel_hook ≡ closed_hooks failed (some s)
hooks_of_lem failed s = go failed s.cancel_hook refl
  where
    go :
        (b : Bool) (h : Option CancelHook)
        → s.cancel_hook ≡ h
        → hooks_of b s.cancel_hook ≡ closed_hooks b (some s)
    go true none e = rw e
    go false none e = rw e
    go true (some k) e = rw e
    go false (some k) e = rw e

-- The close of a stream, on a connection whose streams have distinct ids, removes that stream and
-- no other; the hook of the stream fires if the close carries an error and there is one.
pub on_stream_close_lem :
    (failed : Bool) (i j : ℕ) (c : Conn)
    → Distinct c.streams
    → let c' = on_stream_close failed i c in
      (find_stream j c'.streams ≡ (if i == j then none else find_stream j c.streams))
      × (c'.fired ≡ c.fired ++ closed_hooks failed (find_stream i c.streams))
unfolding on_stream_close
on_stream_close_lem failed i j c d = elim (Option-cases (find_stream i c.streams)) [
  | inl e ↦ (absent e (Bool-cases (i == j)), rw e (sym (append-nil c.fired)))
  | inr (s, e) ↦
      rw e (find_stream-swap_remove i j c.streams d, ap (◌++◌ c.fired) (hooks_of_lem failed s))
]
  where
    absent :
        find_stream i c.streams ≡ none
        → ((i == j) ≡ true) ⊎ ((i == j) ≡ false)
        → find_stream j (on_stream_close failed i c).streams
          ≡ (if i == j then none else find_stream j c.streams)
    absent e (inl hit) = let h : i ≡ j = (==_iff i j).0 hit in rw (hit, e) (rw h at e)
    absent e (inr miss) = rw (miss, e)
