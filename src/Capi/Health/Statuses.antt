-- ===== src/Capi/Health/Statuses.antt =====
-- The answers of `Check` against the statuses that were set.
use grpc_uds.Prelude.{
  ℕ, ◌≡◌, refl, sym, ap, ◌∙◌, true, false, List, [], ◌∷◌, some, ℤ, ◌==◌, ◌&&◌, if◌then◌else◌,
  same_bytes, Bool-cases, inl, inr, ==_iff,
}
use grpc_uds.Capi.Health.{HealthState, Room, find, set_entry, set, check_found, check_tr}
use grpc_uds.Capi.Health.Wire.{request, IsU64Long, decode_check_request-request}

pub same_bytes-eq : (xs ys : List ℕ) → same_bytes xs ys ≡ true → xs ≡ ys
same_bytes-eq [] [] h = refl
same_bytes-eq [] (y ∷ ys) h = absurd (cc)
same_bytes-eq (x ∷ xs) [] h = absurd (cc)
same_bytes-eq (x ∷ xs) (y ∷ ys) h = elim (Bool-cases (x == y)) [
  | inl e ↦
      let rest = same_bytes-eq xs ys (sym (ap (λ b. b && same_bytes xs ys) e) ∙ h) in
      let head : x ≡ y = (==_iff x y).0 e in rw (head, rest) refl
  | inr e ↦ absurd (cc)
]

-- Of two names, at most the one that an entry has is the one looked for.
same_bytes_trans :
    (n name s : List ℕ)
    → same_bytes n name ≡ false
    → same_bytes n s ≡ true
    → same_bytes name s ≡ false
same_bytes_trans n name s h e = elim (Bool-cases (same_bytes name s)) [
  | inl e' ↦
      let back : n ≡ name = same_bytes-eq n s e ∙ sym (same_bytes-eq name s e') in
      let own : same_bytes n name ≡ true = rw (same_bytes-eq name s e') e in absurd (cc)
  | inr e' ↦ e'
]

pub find-set_entry :
    (s name : List ℕ) (code : ℤ) (es : List (List ℕ × ℤ))
    → find s (set_entry true name code es) ≡ (if same_bytes name s then some code else find s es)
unfolding find set_entry
find-set_entry s name code [] = refl
find-set_entry s name code ((n, old) ∷ es) = elim (Bool-cases (same_bytes n name)) [
  | inl e ↦
      let same = same_bytes-eq n name e in
      rw (e, same)
        (elim (Bool-cases (same_bytes name s)) [ inl e' ↦ rw e' refl | inr e' ↦ rw e' refl ])
  | inr e ↦ rw e (elim (Bool-cases (same_bytes n s)) [
    | inl e' ↦ rw (e', same_bytes_trans n name s e e') refl
    | inr e' ↦ rw e' (find-set_entry s name code es)
  ])
]

-- `Check` of a name, after a change of the status of any name with memory for it: the new status
-- when they are the same, and otherwise what `Check` answered before.
pub check_tr-set :
    (m : Room) (call_id : ℕ) (s name : List ℕ) (code : ℤ) (h : HealthState)
    → IsU64Long s
    → check_tr m call_id (request (s ∷ [])) (set true name code h) ≡ (
        if same_bytes name s
        then check_found m call_id (some code)
        else check_tr m call_id (request (s ∷ [])) h)
unfolding check_tr set
check_tr-set m call_id s name code h long =
    rw (decode_check_request-request (s ∷ []) (long, tt), find-set_entry s name code h.statuses)
      (elim (Bool-cases (same_bytes name s)) [ inl e ↦ rw e refl | inr e ↦ rw e refl ])
