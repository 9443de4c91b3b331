-- ===== src/Client/Conn/Sends.antt =====
-- What `flush_send` of a client's connection touches, and what it puts on the socket.

use grpc_uds.Prelude.{
  ℕ, ◌≡◌, refl, Bool, true, false, List, [], ◌∷◌, ◌++◌, ap, sym, ◌∙◌, append_assoc, append-nil,
  drop, take, take-append-drop, both_ways, if◌then◌else◌, ◌==◌,
}
use grpc_uds.Uds.{SendAnswer, sends, eintr, eagain, send_fails}
use grpc_uds.Client.Conn.{
  ClientConn, Written, write_all, wrote, put_wire, mark_broken, more_out, flush_send,
}

abbrev pub WireOnly : ClientConn → ClientConn → Type 0
WireOnly c c' = (w : List ℕ) × (b : Bool) × (c' ≡ record c { wire = w; broken = b })

wrote-WireOnly :
    (next : List SendAnswer → ClientConn → ClientConn × Bool) (w : Written) (c : ClientConn)
    → ((left : List SendAnswer) (c : ClientConn) → WireOnly c (next left c).0)
    → WireOnly c (wrote next w c).0
wrote-WireOnly next w c later =
    both_ways (λ (r : ClientConn × Bool). WireOnly c r.0) w.complete
      (next w.left (put_wire w.out c)) (mark_broken (put_wire w.out c), false)
      (later w.left (put_wire w.out c)) (c.wire ++ w.out, true, refl)

pub flush_send-WireOnly :
    (chunks : List (List ℕ)) (answers : List SendAnswer) (c : ClientConn)
    → WireOnly c (flush_send chunks answers c).0
unfolding flush_send
flush_send-WireOnly [] answers c = (c.wire, c.broken, refl)
flush_send-WireOnly ([] ∷ chunks) answers c = (c.wire, c.broken, refl)
flush_send-WireOnly ((b ∷ bs) ∷ chunks) answers c =
    wrote-WireOnly (flush_send chunks) (write_all answers (b ∷ bs)) c
      (λ left c. flush_send-WireOnly chunks left c)

-- What is written is a prefix of the data, and the whole of it exactly when the write completes.
abbrev pub Splits : List ℕ → Written → Type 0
Splits bytes w = (rest : List ℕ) × (bytes ≡ w.out ++ rest) × (w.complete ≡ true → rest ≡ [])

write_all-Splits :
    (answers : List SendAnswer) (bytes : List ℕ) → Splits bytes (write_all answers bytes)
unfolding write_all
write_all-Splits answers [] = ([], refl, λ _. refl)
write_all-Splits [] (b ∷ bs) = (b ∷ bs, refl, λ bad. absurd (cc))
write_all-Splits (sends k ∷ answers) (b ∷ bs) =
    go (k == 0) (write_all-Splits answers (drop k (b ∷ bs)))
  where
    go :
        (z : Bool)
        → Splits (drop k (b ∷ bs)) (write_all answers (drop k (b ∷ bs)))
        → Splits (b ∷ bs) (elim z [
          | true ↦ record { out = []; left = answers; complete = false }
          | false ↦ more_out (take k (b ∷ bs)) (write_all answers (drop k (b ∷ bs)))
        ])
    go true (rest, e, done) = (b ∷ bs, refl, λ bad. absurd (cc))
    go false (rest, e, done) =
        let w = write_all answers (drop k (b ∷ bs)) in
        (
          rest,
          sym (take-append-drop k (b ∷ bs))
              ∙ ap (λ l. take k (b ∷ bs) ++ l) e
              ∙ sym (append_assoc (take k (b ∷ bs)) w.out rest),
          done,
        )
write_all-Splits (eintr ∷ answers) (b ∷ bs) = write_all-Splits answers (b ∷ bs)
write_all-Splits (eagain ∷ answers) (b ∷ bs) = (b ∷ bs, refl, λ bad. absurd (cc))
write_all-Splits (send_fails e ∷ answers) (b ∷ bs) = (b ∷ bs, refl, λ bad. absurd (cc))

-- The bytes that `mem_send` gives in one flush.
abbrev pub given_out : List (List ℕ) → List ℕ
given_out [] = []
given_out ([] ∷ chunks) = []
given_out ((b ∷ bs) ∷ chunks) = (b ∷ bs) ++ given_out chunks

abbrev pub Puts : List ℕ → ClientConn → ClientConn × Bool → Type 0
Puts bytes c (c', done) =
    (out : List ℕ) × (rest : List ℕ) × (bytes ≡ out ++ rest)
    × (c'.wire ≡ c.wire ++ out)
    × (done ≡ true → rest ≡ [])
    × (done ≡ false → c'.broken ≡ true)

wrote-Puts :
    (next : List SendAnswer → ClientConn → ClientConn × Bool) (chunk later : List ℕ) (w : Written)
    (c : ClientConn)
    → Splits chunk w
    → ((left : List SendAnswer) (c : ClientConn) → Puts later c (next left c))
    → Puts (chunk ++ later) c (wrote next w c)
wrote-Puts next chunk later w c (over, e, done) puts = go w.complete done
  where
    go :
        (z : Bool)
        → (z ≡ true → over ≡ [])
        → Puts
            (chunk ++ later)
            c
            (if z then next w.left (put_wire w.out c) else (mark_broken (put_wire w.out c), false))
    go true done =
        let (out, rest, eq, wire, all, breaks) = puts w.left (put_wire w.out c) in
        (
          w.out ++ out,
          rest,
          rw (e, done refl, append-nil w.out, append_assoc w.out out rest, eq) refl,
          wire ∙ append_assoc c.wire w.out out,
          all,
          breaks,
        )
    go false done = (
      w.out,
      over ++ later,
      rw (e, append_assoc w.out over later) refl,
      refl,
      λ bad. absurd (cc),
      λ _. refl,
    )

-- A flush of a client's connection puts a prefix of what the session gives on the socket, in order
-- and after what is there: all of it when the flush succeeds, and a failed flush leaves the
-- connection marked broken.
pub flush_send-Puts :
    (chunks : List (List ℕ)) (answers : List SendAnswer) (c : ClientConn)
    → Puts (given_out chunks) c (flush_send chunks answers c)
unfolding flush_send
flush_send-Puts [] answers c =
    ([], [], refl, sym (append-nil c.wire), λ _. refl, λ bad. absurd (cc))
flush_send-Puts ([] ∷ chunks) answers c =
    ([], [], refl, sym (append-nil c.wire), λ _. refl, λ bad. absurd (cc))
flush_send-Puts ((b ∷ bs) ∷ chunks) answers c =
    wrote-Puts (flush_send chunks) (b ∷ bs) (given_out chunks) (write_all answers (b ∷ bs)) c
      (write_all-Splits answers (b ∷ bs)) (λ left c. flush_send-Puts chunks left c)
