-- ===== src/Conn/Streams.antt =====
-- Laws of the lookups in the list of streams.
use grpc_uds.Prelude.{
  ℕ, ◌≡◌, ◌≢◌, refl, ◌∙◌, sym, true, false, List, [], ◌∷◌, some, ◌==◌, if◌then◌else◌, All, arith,
  Bool-cases, inl, inr,
}
use mathlib.Core.Option
use mathlib.Core.Option.{some-injective}
use mathlib.Core.Path.{subst}
use grpc_uds.Conn.{StreamCtx, find_stream, update_stream}

pub id-find_stream :
    (i : ℕ) (ss : List StreamCtx) {s : StreamCtx} → find_stream i ss ≡ some s → s.id ≡ i
unfolding find_stream
id-find_stream i [] e = absurd (cc)
id-find_stream i (t ∷ ss) {s} e = ground (arith, id-find_stream i ss {s = s})

-- The write keeps the id of a stream.
abbrev pub KeepsId : (StreamCtx → StreamCtx) → Type 0
KeepsId f = (s : StreamCtx) → (f s).id ≡ s.id

pub find_stream-update_stream :
    (i j : ℕ) (f : StreamCtx → StreamCtx) (ss : List StreamCtx)
    → KeepsId f
    → find_stream j (update_stream i f ss)
      ≡ (if i == j then Option.map f (find_stream j ss) else find_stream j ss)
unfolding find_stream update_stream
find_stream-update_stream i j f [] k = ground arith
find_stream-update_stream i j f (s ∷ ss) k =
    ground (arith, find_stream-update_stream i j f ss k, k s)

pub find_stream-update_stream_ne :
    (i j : ℕ) (f : StreamCtx → StreamCtx) (ss : List StreamCtx)
    → KeepsId f
    → i ≢ j
    → find_stream j (update_stream i f ss) ≡ find_stream j ss
find_stream-update_stream_ne i j f ss k ne =
    let e : (i == j) ≡ false = ground arith in find_stream-update_stream i j f ss k ∙ rw e

pub find_stream-update_stream_self :
    (i : ℕ) (f : StreamCtx → StreamCtx) (ss : List StreamCtx) {s : StreamCtx}
    → KeepsId f
    → find_stream i ss ≡ some s
    → find_stream i (update_stream i f ss) ≡ some (f s)
find_stream-update_stream_self i f ss k h =
    let e : (i == i) ≡ true = ground arith in find_stream-update_stream i i f ss k ∙ rw (e, h)

pub All-find_stream {κ} :
    (P : StreamCtx → Type κ) (i : ℕ) (ss : List StreamCtx) {s : StreamCtx}
    → All P ss
    → find_stream i ss ≡ some s
    → P s
unfolding find_stream
All-find_stream P i [] a e = absurd (cc)
All-find_stream P i (t ∷ ss) {s} a e = elim (Bool-cases (t.id == i)) [
  | inl hit ↦ subst P (some-injective t s (rw (hit, find_stream) at e)) a.0
  | inr miss ↦ All-find_stream P i ss a.1 (rw (miss, find_stream) at e)
]

-- A write that keeps what holds of the streams.
pub All-update_stream {κ} :
    (P : StreamCtx → Type κ) (i : ℕ) (f : StreamCtx → StreamCtx) (ss : List StreamCtx)
    → ((s : StreamCtx) → P s → P (f s))
    → All P ss
    → All P (update_stream i f ss)
unfolding update_stream
All-update_stream P i f [] keep a = tt
All-update_stream P i f (s ∷ ss) keep a = elim (Bool-cases (s.id == i)) [
  | inl hit ↦ rw hit (keep s a.0, a.1)
  | inr miss ↦ rw miss (a.0, All-update_stream P i f ss keep a.1)
]

-- A write to the found stream `s` of what holds of it.
pub All-update_found {κ} :
    (P : StreamCtx → Type κ) (i : ℕ) (f : StreamCtx → StreamCtx) (ss : List StreamCtx)
    {s : StreamCtx}
    → find_stream i ss ≡ some s
    → P (f s)
    → All P ss
    → All P (update_stream i f ss)
unfolding update_stream find_stream
All-update_found P i f [] e p a = tt
All-update_found P i f (t ∷ ss) {s} e p a = elim (Bool-cases (t.id == i)) [
  | inl hit ↦
      rw hit (subst (λ u. P (f u)) (sym (some-injective t s (rw (hit, find_stream) at e))) p, a.1)
  | inr miss ↦ rw miss (a.0, All-update_found P i f ss (rw (miss, find_stream) at e) p a.1)
]

-- Two writes in turn.
pub update_stream-update_stream :
    (i : ℕ) (f g : StreamCtx → StreamCtx) (ss : List StreamCtx)
    → KeepsId g
    → update_stream i f (update_stream i g ss) ≡ update_stream i (λ s. f (g s)) ss
unfolding update_stream
update_stream-update_stream i f g [] k = refl
update_stream-update_stream i f g (s ∷ ss) k =
    ground (arith, update_stream-update_stream i f g ss k, k s)
