-- ===== src/Uds/Pending.antt =====
-- The write loop and the loop over the pending bytes of rust/grpcuds-core/src/uds.rs.
use grpc_uds.Prelude.{
  ℕ, zero, suc, ◌≡◌, refl, ◌∙◌, ap, sym, List, [], ◌∷◌, ◌++◌, Option, none, some, length, take,
  drop, arith, Bool-cases, inl, inr, leb, append_assoc, take-append-drop, drop-length-append,
  drop-of_length,
}
use mathlib.Core.Path.{subst}
use grpc_uds.Conn.{Conn}
use grpc_uds.Conn.Receive.{consume_pending}
use grpc_uds.Uds.{
  IoError, SendAnswer, sends, eintr, eagain, send_fails, write_some, Stop, emptied, full, broken,
  Flushed, put_out, wrote_pending, pending_round, pending_loop,
}

-- What is on the socket, and what is pending behind it.
abbrev pub total : Conn → List ℕ
total c = c.sent ++ c.out_pending

-- What made it out is a prefix of the bytes.
pub write_some-Prefix :
    (answers : List SendAnswer) (bytes : List ℕ)
    → (rest : List ℕ) × ((write_some answers bytes).out ++ rest ≡ bytes)
unfolding write_some
write_some-Prefix [] bytes = (bytes, refl)
write_some-Prefix (a ∷ answers) [] = ([], refl)
write_some-Prefix (sends n ∷ answers) (b ∷ bs) =
    let (rest, e) = write_some-Prefix answers (drop n (b ∷ bs)) in
    (
      rest,
      append_assoc (take n (b ∷ bs)) (write_some answers (drop n (b ∷ bs))).out rest
          ∙ ap (◌++◌ (take n (b ∷ bs))) e
          ∙ take-append-drop n (b ∷ bs),
    )
write_some-Prefix (eintr ∷ answers) (b ∷ bs) = write_some-Prefix answers (b ∷ bs)
write_some-Prefix (eagain ∷ answers) (b ∷ bs) = (b ∷ bs, refl)
write_some-Prefix (send_fails e ∷ answers) (b ∷ bs) = (b ∷ bs, refl)

-- What is left of the bytes is what has not made it out.
pub write_some-drop :
    (answers : List SendAnswer) (bytes : List ℕ)
    → let out = (write_some answers bytes).out in out ++ drop (length out) bytes ≡ bytes
write_some-drop answers bytes =
    let out = (write_some answers bytes).out in
    let (rest, e) = write_some-Prefix answers bytes in
    let d : drop (length out) bytes ≡ rest =
      ap (drop (length out)) (sym e) ∙ drop-length-append out rest in
    ap (◌++◌ out) d ∙ e

pub consume_pending_lem :
    (n : ℕ) (c : Conn) → consume_pending n c ≡ record c { out_pending = drop n c.out_pending }
unfolding consume_pending
consume_pending_lem n c = elim (Bool-cases (leb (length c.out_pending) n)) [
  | inl all ↦
      let e : drop n c.out_pending ≡ [] = drop-of_length n c.out_pending (ground arith) in
      rw (all, e) refl
  | inr part ↦ rw part refl
]

-- Where a loop over the pending bytes stands, all bytes are still there in order.
abbrev pub Held : Conn → Stop → List ℕ → Type 0
Held c emptied bytes = (total c ≡ bytes) × (c.out_pending ≡ [])
Held c full bytes = total c ≡ bytes
Held c (broken e) bytes = Unit

abbrev pub HeldBy : Flushed → List ℕ → Type 0
HeldBy f bytes = Held f.conn f.stop bytes

pub wrote_pending-Held :
    (next : List SendAnswer → Conn → Flushed) (c : Conn) (out : List ℕ) (left : List SendAnswer)
    (failure : Option IoError)
    → out ++ drop (length out) c.out_pending ≡ c.out_pending
    → ((answers : List SendAnswer) (c' : Conn) → HeldBy (next answers c') (total c'))
    → HeldBy (wrote_pending next c out left failure) (total c)
wrote_pending-Held next c out left (some e) split held = tt
wrote_pending-Held next c [] left none split held = refl
wrote_pending-Held next c (b ∷ out) left none split held =
    subst (HeldBy (wrote_pending next c (b ∷ out) left none)) there
      (held left (consume_pending (length (b ∷ out)) (put_out (b ∷ out) c)))
  where
    there : total (consume_pending (length (b ∷ out)) (put_out (b ∷ out) c)) ≡ total c
    there =
        ap total (consume_pending_lem (length (b ∷ out)) (put_out (b ∷ out) c))
        ∙ append_assoc c.sent (b ∷ out) (drop (length (b ∷ out)) c.out_pending)
        ∙ ap (◌++◌ c.sent) split

pub pending_round-Held :
    (next : List SendAnswer → Conn → Flushed) (answers : List SendAnswer) (c : Conn) (p : List ℕ)
    → c.out_pending ≡ p
    → ((answers' : List SendAnswer) (c' : Conn) → HeldBy (next answers' c') (total c'))
    → HeldBy (pending_round next answers c p) (total c)
pending_round-Held next answers c [] e held = (refl, e)
pending_round-Held next answers c (b ∷ bs) e held =
    wrote_pending-Held next c (write_some answers (b ∷ bs)).out (write_some answers (b ∷ bs)).left
      (write_some answers (b ∷ bs)).failure
      (subst
        (λ p.
          (write_some answers (b ∷ bs)).out ++ drop (length (write_some answers (b ∷ bs)).out) p
          ≡ p)
        (sym e) (write_some-drop answers (b ∷ bs)))
      held

pub pending_loop-Held :
    (rounds : ℕ) (answers : List SendAnswer) (c : Conn)
    → HeldBy (pending_loop rounds answers c) (total c)
unfolding pending_loop
pending_loop-Held zero answers c = refl
pending_loop-Held (suc rounds) answers c =
    pending_round-Held (pending_loop rounds) answers c c.out_pending refl (pending_loop-Held rounds)
