-- ===== src/Conn/Dispatch/States.antt =====
-- The states of the streams under the writes of `dispatch`.
use grpc_uds.Prelude.{
  ℕ, zero, suc, ◌+◌, ◌≡◌, refl, ◌∙◌, ap, sym, false, List, [], ◌∷◌, if◌then◌else◌, map, All, take,
  drop, set,
}
use grpc_uds.OutQueue.Wire.{IsValid}
use grpc_uds.Conn.{Conn, StreamCtx, StreamState}
use grpc_uds.Conn.Calls.Valid.{shape}
use grpc_uds.Conn.Dispatch.{update_at, is_complete}

abbrev pub states_of : List StreamCtx → List StreamState
states_of [] = []
states_of (s ∷ ss) = s.state ∷ states_of ss

abbrev pub states : Conn → List StreamState
states c = states_of c.streams

abbrev pub NotComplete : StreamState → Type 0
NotComplete x = is_complete x ≡ false

unfoldable pub count_complete : List StreamState → ℕ
count_complete [] = 0
count_complete (x ∷ xs) = (if is_complete x then 1 else 0) + count_complete xs

pub set-set :
    (i : ℕ) (x y : StreamState) (xs : List StreamState) → set (set xs i y) i x ≡ set xs i x
set-set i x y [] = refl
set-set zero x y (z ∷ zs) = refl
set-set (suc i) x y (z ∷ zs) = rw (set-set i x y zs)

pub take-set :
    (i : ℕ) (x : StreamState) (xs : List StreamState)
    → NotComplete x
    → All NotComplete (take i xs)
    → All NotComplete (take (suc i) (set xs i x))
take-set i x [] n a = tt
take-set zero x (z ∷ zs) n a = (n, tt)
take-set (suc i) x (z ∷ zs) n a = (a.0, take-set i x zs n a.1)

pub drop-set :
    (i : ℕ) (x : StreamState) (xs : List StreamState) → drop (suc i) (set xs i x) ≡ drop (suc i) xs
drop-set i x [] = refl
drop-set zero x (z ∷ zs) = refl
drop-set (suc i) x (z ∷ zs) = drop-set i x zs

-- The states of the streams with the same shapes.
pub states-shape :
    (ss ts : List StreamCtx) → map shape ss ≡ map shape ts → states_of ss ≡ states_of ts
states-shape ss ts e = sym (there ss) ∙ ap (map (λ p. p.1)) e ∙ there ts
  where
    there : (us : List StreamCtx) → map (λ p. p.1) (map shape us) ≡ states_of us
    there [] = refl
    there (u ∷ us) = rw (there us)

pub states-update_at :
    (i : ℕ) (x : StreamState) (f : StreamCtx → StreamCtx) (ss : List StreamCtx)
    → ((s : StreamCtx) → (f s).state ≡ x)
    → states_of (update_at i f ss) ≡ set (states_of ss) i x
unfolding update_at
states-update_at i x f [] k = refl
states-update_at zero x f (s ∷ ss) k = rw (k s)
states-update_at (suc i) x f (s ∷ ss) k = rw (states-update_at i x f ss k)

pub states-update_at_same :
    (i : ℕ) (f : StreamCtx → StreamCtx) (ss : List StreamCtx)
    → ((s : StreamCtx) → (f s).state ≡ s.state)
    → states_of (update_at i f ss) ≡ states_of ss
unfolding update_at
states-update_at_same i f [] k = refl
states-update_at_same zero f (s ∷ ss) k = rw (k s)
states-update_at_same (suc i) f (s ∷ ss) k = rw (states-update_at_same i f ss k)

pub All-update_at :
    (i : ℕ) (f : StreamCtx → StreamCtx) (ss : List StreamCtx)
    → ((s : StreamCtx) → IsValid s.out → IsValid (f s).out)
    → All (λ s. IsValid s.out) ss
    → All (λ s. IsValid s.out) (update_at i f ss)
unfolding update_at
All-update_at i f [] k a = tt
All-update_at zero f (s ∷ ss) k a = (k s a.0, a.1)
All-update_at (suc i) f (s ∷ ss) k a = (a.0, All-update_at i f ss k a.1)
