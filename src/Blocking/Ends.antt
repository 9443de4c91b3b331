-- ===== src/Blocking/Ends.antt =====
-- How the calls of the blocking client end.
use grpc_uds.Prelude.{
  ℕ, zero, suc, ◌≡◌, refl, ap, ◌↔◌, ◌⊎◌, inl, inr, true, List, Option, none, some, ok, ℤ, pos,
  negsuc, ==_iff, arith,
}
use grpc_uds.Blocking.Call.{CallState}
use grpc_uds.Blocking.Calls.{final_status, status_result, is_200}

-- Status 0, or no status and HTTP 200.
abbrev pub IsClean : CallState → Type 0
IsClean st =
    (st.grpc_status ≡ some (pos 0)) ⊎ ((st.grpc_status ≡ none) × (st.http_status ≡ some 200))

is_200_lem : (h : Option ℕ) → is_200 h ≡ true → h ≡ some 200
is_200_lem none e = absurd (cc)
is_200_lem (some n) e = ap some ((==_iff n 200).0 e)

module _ (no_status : ℕ → Option ℕ → List ℕ) where
  ends-IsClean :
      (st : CallState) (g : Option ℤ)
      → st.grpc_status ≡ g
      → status_result no_status st g ≡ ok tt
      → IsClean st
  ends-IsClean st (some (pos zero)) e h = inl e
  ends-IsClean st (some (pos (suc n))) e h = absurd (cc)
  ends-IsClean st (some (negsuc n)) e h = absurd (cc)
  ends-IsClean st none e h = inr (e, is_200_lem st.http_status (ground arith))

  IsClean-ends : (st : CallState) → IsClean st → final_status no_status st ≡ ok tt
  unfolding final_status
  IsClean-ends st (inl e) = rw e refl
  IsClean-ends st (inr (e, f)) = rw (e, f) refl

  pub final_status-IsClean : (st : CallState) → (final_status no_status st ≡ ok tt) ↔ IsClean st
  unfolding final_status
  final_status-IsClean st = (ends-IsClean st st.grpc_status refl, IsClean-ends st)
