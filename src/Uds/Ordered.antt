-- ===== src/Uds/Ordered.antt =====
-- The order of the bytes on a connection's socket, over partial writes and full sockets.
use grpc_uds.Prelude.{
  ℕ, suc, ◌≡◌, refl, ◌∙◌, ap, sym, Bool, true, false, not, ◌||◌, List, [], ◌∷◌, ◌++◌, Option, none,
  some, Result, ok, err, length, take, drop, All, arith, Bool-cases, inl, inr, ltb, append-nil,
  append_assoc, drop-of_length, if◌then◌else◌,
}
use mathlib.Core.Path.{subst}
use grpc_uds.Errors.{ConnError}
use grpc_uds.Conn.{Conn}
use grpc_uds.Conn.Receive.{stash_pending}
use grpc_uds.Uds.{
  IoError, SendAnswer, write_some, Stop, emptied, full, broken, put_out, pending_loop,
  flush_pending, Pull, Flush, stashed, wrote_chunk, pulled, after_pending, flush_loop, status_after,
  flush_writes, TickStatus, live, closed, is_empty,
}
use grpc_uds.Uds.Pending.{total, write_some-drop, Held, pending_loop-Held}

abbrev pub chunk_of : Result (List ℕ) ConnError → List ℕ
chunk_of (ok bytes) = bytes
chunk_of (err e) = []

-- `direct` are the bytes that a call of `pull_send` ships by the direct send.
module _ (direct : Pull → List ℕ) where
  -- The call puts its direct bytes behind the others, and gives no chunk while some are pending.
  pub record IsOrderly (p : Pull) : Type 0 where
    pub ships : (c : Conn) → c.out_pending ≡ [] → total (p.effect c) ≡ total c ++ direct p
    pub waits :
        (c : Conn) (b : ℕ) (bs : List ℕ)
        → c.out_pending ≡ []
        → p.chunk ≡ ok (b ∷ bs)
        → (p.effect c).out_pending ≡ []

  -- The bytes that the calls make, in order.
  abbrev pub made : List Pull → List ℕ
  made [] = []
  made (p ∷ ps) = (direct p ++ chunk_of p.chunk) ++ made ps

  -- The bytes before, and those of the first calls, are there in order.
  abbrev pub Shipped : List Pull → List ℕ → Flush → Type 0
  Shipped ps bytes (c, ok stop) = (k : ℕ) × (total c ≡ bytes ++ made (take k ps))
  Shipped ps bytes (c, err e) = Unit

  -- Nothing is pending after the call of `p`, which ships its direct bytes.
  record IsClear (p : Pull) (bytes : List ℕ) (c : Conn) : Type 0 where
    clear : c.out_pending ≡ []
    there : total c ≡ bytes ++ direct p

  sent-IsClear :
      (p : Pull) (bytes out rest : List ℕ) (c : Conn)
      → IsClear p bytes c
      → out ++ rest ≡ chunk_of p.chunk
      → (c.sent ++ out) ++ rest ≡ bytes ++ (direct p ++ chunk_of p.chunk)
  sent-IsClear p bytes out rest c h split =
      append_assoc c.sent out rest
      ∙ ap (◌++◌ c.sent) split
      ∙ ap (λ t. t ++ chunk_of p.chunk)
          (sym (append-nil c.sent) ∙ ap (◌++◌ c.sent) (sym h.clear) ∙ h.there)
      ∙ append_assoc bytes (direct p) (chunk_of p.chunk)

  stashed-Shipped :
      (p : Pull) (ps : List Pull) (c : Conn) (room stash : Bool) (out rest bytes : List ℕ)
      → IsClear p bytes c
      → out ++ rest ≡ chunk_of p.chunk
      → Shipped (p ∷ ps) bytes (stashed (put_out out c) room stash rest)
  unfolding stash_pending
  stashed-Shipped p ps c false stash out rest bytes h split = tt
  stashed-Shipped p ps c true false out rest bytes h split = tt
  stashed-Shipped p ps c true true out rest bytes h split = (
    1,
    ap (λ t. (c.sent ++ out) ++ (t ++ rest)) h.clear
        ∙ sent-IsClear p bytes out rest c h split
        ∙ ap (◌++◌ bytes) (sym (append-nil (direct p ++ chunk_of p.chunk))),
  )

  more-Shipped :
      (p : Pull) (ps : List Pull) (c : Conn) (bytes : List ℕ) (r : Flush)
      → total c ≡ bytes ++ (direct p ++ chunk_of p.chunk)
      → Shipped ps (total c) r
      → Shipped (p ∷ ps) bytes r
  more-Shipped p ps c bytes (c', err e) there s = tt
  more-Shipped p ps c bytes (c', ok stop) there (k, s) = (
    suc k,
    s
        ∙ ap (λ t. t ++ made (take k ps)) there
        ∙ append_assoc bytes (direct p ++ chunk_of p.chunk) (made (take k ps)),
  )

  -- The rest of the loop ships what the other calls make.
  abbrev Continues : List Pull → (List SendAnswer → Conn → Flush) → Type 0
  Continues ps next = (left : List SendAnswer) (c : Conn) → Shipped ps (total c) (next left c)

  wrote_chunk-Shipped :
      (p : Pull) (ps : List Pull) (next : List SendAnswer → Conn → Flush) (room stash : Bool)
      (c : Conn) (out : List ℕ) (left : List SendAnswer) (failure : Option IoError) (bytes : List ℕ)
      → IsClear p bytes c
      → out ++ drop (length out) (chunk_of p.chunk) ≡ chunk_of p.chunk
      → Continues ps next
      → Shipped (p ∷ ps) bytes (wrote_chunk next room stash c (chunk_of p.chunk) out left failure)
  wrote_chunk-Shipped p ps next room stash c out left (some e) bytes h split go = tt
  wrote_chunk-Shipped p ps next room stash c out left none bytes h split go =
      elim (Bool-cases (ltb (length out) (length (chunk_of p.chunk)))) [
        | inl part ↦ rw part (
            stashed-Shipped p ps c room stash out (drop (length out) (chunk_of p.chunk)) bytes h
              split)
        | inr whole ↦
            let none_left : drop (length out) (chunk_of p.chunk) ≡ [] =
              drop-of_length (length out) (chunk_of p.chunk) (ground arith) in
            let all : out ++ [] ≡ chunk_of p.chunk = ap (◌++◌ out) (sym none_left) ∙ split in
            rw whole (
              more-Shipped p ps (put_out out c) bytes (next left (put_out out c))
                (ap (◌++◌ (c.sent ++ out)) h.clear ∙ sent-IsClear p bytes out [] c h all)
                (go left (put_out out c)))
      ]

  pulled-Shipped :
      (p : Pull) (ps : List Pull) (next : List SendAnswer → Conn → Flush) (room stash : Bool)
      (answers : List SendAnswer) (c : Conn) (r : Result (List ℕ) ConnError)
      → p.chunk ≡ r
      → IsOrderly p
      → c.out_pending ≡ []
      → Continues ps next
      → Shipped (p ∷ ps) (total c) (pulled next room stash answers (p.effect c) r)
  pulled-Shipped p ps next room stash answers c (err e) f o clear go = tt
  pulled-Shipped p ps next room stash answers c (ok []) f o clear go = (
    1,
    o.ships c clear
        ∙ ap (◌++◌ (total c)) (
            sym (append-nil (direct p))
            ∙ ap (λ r. direct p ++ chunk_of r) (sym f)
            ∙ sym (append-nil (direct p ++ chunk_of p.chunk))),
  )
  pulled-Shipped p ps next room stash answers c (ok (b ∷ bs)) f o clear go =
      let w = write_some answers (b ∷ bs) in
      subst
        (λ bytes.
          w.out ++ drop (length w.out) bytes ≡ bytes
          → Shipped (p ∷ ps) (total c)
              (wrote_chunk next room stash (p.effect c) bytes w.out w.left w.failure))
        (ap chunk_of f)
        (λ split.
          wrote_chunk-Shipped p ps next room stash (p.effect c) w.out w.left w.failure (total c)
            (record { clear = o.waits c b bs clear f; there = o.ships c clear }) split go)
        (write_some-drop answers (b ∷ bs))

  after_pending-Shipped :
      (ps : List Pull) (next : List SendAnswer → Conn → Flush) (c : Conn) (left : List SendAnswer)
      (stop : Stop) (bytes : List ℕ)
      → Held c stop bytes
      → (c.out_pending ≡ [] → Shipped ps (total c) (next left c))
      → Shipped ps bytes (after_pending next c left stop)
  after_pending-Shipped ps next c left emptied bytes h go =
      subst (λ t. Shipped ps t (next left c)) h.0 (go h.1)
  after_pending-Shipped ps next c left full bytes h go = (0, h ∙ sym (append-nil bytes))
  after_pending-Shipped ps next c left (broken e) bytes h go = tt

  flush_loop-Shipped :
      (room stash : Bool) (ps : List Pull) (answers : List SendAnswer) (c : Conn)
      → All IsOrderly ps
      → Shipped ps (total c) (flush_loop room stash ps answers c)
  unfolding flush_loop flush_pending
  flush_loop-Shipped room stash [] answers c o =
      let f = pending_loop (suc (length c.out_pending)) answers c in
      after_pending-Shipped [] (λ left c'. (c', ok emptied)) f.conn f.left f.stop (total c)
        (pending_loop-Held (suc (length c.out_pending)) answers c)
        (λ _. (0, sym (append-nil (total f.conn))))
  flush_loop-Shipped room stash (p ∷ ps) answers c o =
      let f = pending_loop (suc (length c.out_pending)) answers c in
      after_pending-Shipped (p ∷ ps)
        (λ left c'. pulled (flush_loop room stash ps) room stash left (p.effect c') p.chunk) f.conn
        f.left f.stop (total c) (pending_loop-Held (suc (length c.out_pending)) answers c)
        (λ clear.
          pulled-Shipped p ps (flush_loop room stash ps) room stash f.left f.conn p.chunk refl o.0
            clear (λ left c'. flush_loop-Shipped room stash ps left c' o.1))

-- What a result of `flush_writes` says of the bytes `made` by the calls of `pull_send`.
abbrev pub Reported :
    (Pull → List ℕ) → List Pull → List ℕ → Conn → Result TickStatus IoError → Type 0
Reported direct ps bytes c (ok live) = (k : ℕ) × (total c ≡ bytes ++ made direct (take k ps))
Reported direct ps bytes c (ok closed) =
    ((k : ℕ) × (total c ≡ bytes ++ made direct (take k ps))) × (c.out_pending ≡ [])
Reported direct ps bytes c (err e) = Unit

emptied-Reported :
    (direct : Pull → List ℕ) (ps : List Pull) (bytes : List ℕ) (wants : Bool) (c : Conn)
    (p : List ℕ)
    → c.out_pending ≡ p
    → (k : ℕ) × (total c ≡ bytes ++ made direct (take k ps))
    → Reported direct ps bytes c (ok (if wants || not (is_empty p) then live else closed))
emptied-Reported direct ps bytes true c p e s = s
emptied-Reported direct ps bytes false c [] e s = (s, e)
emptied-Reported direct ps bytes false c (b ∷ bs) e s = s

status_after-Reported :
    (direct : Pull → List ℕ) (ps : List Pull) (bytes : List ℕ) (wants : Bool) (r : Flush)
    → Shipped direct ps bytes r
    → let (c, st) = status_after wants r in Reported direct ps bytes c st
status_after-Reported direct ps bytes wants (c, err e) s = tt
status_after-Reported direct ps bytes wants (c, ok emptied) s =
    emptied-Reported direct ps bytes wants c c.out_pending refl s
status_after-Reported direct ps bytes wants (c, ok full) s = s
status_after-Reported direct ps bytes wants (c, ok (broken e)) s = tt

-- Flushing a connection, whatever parts of the bytes the socket takes: where `flush_writes` answers
-- with a status, the bytes on the socket and those pending behind them are those of before, then
-- those that the first calls of `pull_send` made, directly or as a chunk, with none lost, doubled
-- or out of order; and where the status is closed, none are pending. Each call is assumed to put
-- its direct bytes behind the others, and to give no chunk while it leaves bytes pending.
pub flush_writes_lem :
    (direct : Pull → List ℕ) (room stash wants : Bool) (ps : List Pull) (answers : List SendAnswer)
    (c : Conn)
    → All (IsOrderly direct) ps
    → let (c', r) = flush_writes room stash wants ps answers c in Reported direct ps (total c) c' r
unfolding flush_writes
flush_writes_lem direct room stash wants ps answers c o =
    status_after-Reported direct ps (total c) wants (flush_loop room stash ps answers c)
      (flush_loop-Shipped direct room stash ps answers c o)
