-- ===== src/Wirelog/Checksum.antt =====
-- The checksum of the IPv4 header of a record.
use mathlib.Core.Path.{subst}
use grpc_uds.Prelude.{
  ℕ, zero, suc, arith, ◌≡◌, ◌≤◌, ◌<◌, ◌+◌, ◌-◌, ◌*◌, ◌/◌, ◌%◌, ◌^◌, refl, sym, Bool, true, false,
  ltb, if◌then◌else◌, ltb→lt,
}
use grpc_uds.Wirelog.{
  Dir, client_to_server, server_to_client, word_sum, fold_carries, ipv4_checksum, ip_header,
}

-- Folding keeps the sum modulo 65535, and a sum that is not zero stays so.
abbrev Folds : ℕ → ℕ → Type 0
Folds sum f = (k : ℕ) × (sum ≡ f + 0xffff * k) × (f ≤ 0xffff) × (0 < sum → 0 < f)

fold_carries-Folds : (rounds sum : ℕ) → sum ≤ rounds → Folds sum (fold_carries rounds sum)
unfolding fold_carries
fold_carries-Folds zero sum h = (0, omega arith, omega arith, λ p. p)
fold_carries-Folds (suc rounds) sum h =
    go (ltb 0xffff sum) refl (fold_carries-Folds rounds (sum % 2 ^ 16 + sum / 2 ^ 16))
  where
    next : ℕ
    next = fold_carries rounds (sum % 2 ^ 16 + sum / 2 ^ 16)

    go :
        (b : Bool)
        → ltb 0xffff sum ≡ b
        → (sum % 2 ^ 16 + sum / 2 ^ 16 ≤ rounds → Folds (sum % 2 ^ 16 + sum / 2 ^ 16) next)
        → Folds sum (if b then next else sum)
    go true e later =
        let big = ltb→lt 0xffff sum e in
        let (k, eq, le, pos) = later (omega (arith, big)) in
        (k + sum / 2 ^ 16, omega (arith, eq), le, λ p. pos (omega (arith, big)))
    go false e later = (0, omega arith, ground arith, λ p. p)

-- The sum of a header with its checksum in place is a multiple of 65535 and not zero.
checksum-Folds : (sum f : ℕ) → Folds sum f → Folds (sum + (0xffff - f % 2 ^ 16)) 0xffff
checksum-Folds sum f (k, e, le, pos) = (k, omega (arith, e), omega arith, λ p. omega arith)

Folds-unique : (sum f g : ℕ) → 0 < sum → Folds sum f → Folds sum g → f ≡ g
Folds-unique sum f g p (k, e, le, pos) (j, e', le', pos') =
    let a = pos p in let b = pos' p in omega (arith, e, e')

word_sum_checksum :
    (len : ℕ) (dir : Dir) (octet c : ℕ)
    → c < 2 ^ 16
    → word_sum (ip_header len dir octet c) ≡ word_sum (ip_header len dir octet 0) + c
unfolding word_sum
word_sum_checksum len client_to_server octet c h = omega arith
word_sum_checksum len server_to_client octet c h = omega arith

word_sum_pos : (len : ℕ) (dir : Dir) (octet c : ℕ) → 0 < word_sum (ip_header len dir octet c)
unfolding word_sum
word_sum_pos len dir octet c = omega arith

-- The header of every record, its checksum in place, has the checksum 0, which is what a receiver
-- tests.
pub ipv4_checksum-ip_header :
    (len : ℕ) (dir : Dir) (octet : ℕ)
    → ipv4_checksum (ip_header len dir octet (ipv4_checksum (ip_header len dir octet 0))) ≡ 0
unfolding ipv4_checksum
ipv4_checksum-ip_header len dir octet =
    let sum = word_sum (ip_header len dir octet 0) in
    let f = fold_carries sum sum in
    let c = 0xffff - f % 2 ^ 16 in
    let all = word_sum (ip_header len dir octet c) in
    let e : all ≡ sum + c = word_sum_checksum len dir octet c (omega arith) in
    let full : fold_carries all all ≡ 0xffff =
      Folds-unique all (fold_carries all all) 0xffff (word_sum_pos len dir octet c)
        (fold_carries-Folds all all (omega arith))
        (subst (λ s. Folds s 0xffff) (sym e)
          (checksum-Folds sum f (fold_carries-Folds sum sum (omega arith)))) in
    rw full refl
