-- ===== src/Wirelog/Files/Suffixes.antt =====
-- The suffixes of the wire log's files, and what a write and a rotation do to the files.

use grpc_uds.Prelude.{
  ℕ, zero, suc, arith, ◌≡◌, ◌≤◌, ◌<◌, refl, Bool, true, false, List, [], ◌∷◌, Option, none, some,
  ◌&&◌, length, take, drop, length-append, length-take, length-drop, both_ways,
}
use grpc_uds.Uds.{SendAnswer, sends, eintr, eagain, send_fails}
use grpc_uds.Wirelog.Files.{Files, Answers, put, write_fully, renamed, rename, unlink, shift}

pub length-write_fully :
    (answers : List SendAnswer) (bytes : List ℕ) → length (write_fully answers bytes) ≤ length bytes
unfolding write_fully
length-write_fully answers [] = omega arith
length-write_fully [] (b ∷ bs) = omega arith
length-write_fully (sends zero ∷ answers) (b ∷ bs) = omega arith
length-write_fully (sends (suc n) ∷ answers) (b ∷ bs) =
    let rest = drop (suc n) (b ∷ bs) in
    omega (
      arith,
      length-write_fully answers rest,
      length-drop (suc n) (b ∷ bs),
      length-take (suc n) (b ∷ bs),
      length-append (take (suc n) (b ∷ bs)) (write_fully answers rest),
    )
length-write_fully (eintr ∷ answers) (b ∷ bs) = length-write_fully answers (b ∷ bs)
length-write_fully (eagain ∷ answers) (b ∷ bs) = omega arith
length-write_fully (send_fails e ∷ answers) (b ∷ bs) = omega arith

-- No file has a suffix from `keep` on.
abbrev pub NoneFrom : ℕ → Files → Type 0
NoneFrom keep files = (i : ℕ) → keep ≤ i → files i ≡ none

pub put-NoneFrom :
    (keep i : ℕ) (f : Option (List ℕ)) (files : Files)
    → i < keep
    → NoneFrom keep files
    → NoneFrom keep (put i f files)
put-NoneFrom keep i f files lt h j le = let at = h j le in ground (arith, at)

pub rename-NoneFrom :
    (done : Bool) (keep from to : ℕ) (files : Files)
    → from < keep
    → to < keep
    → NoneFrom keep files
    → NoneFrom keep (rename done from to files)
rename-NoneFrom false keep from to files lt lt' h = h
rename-NoneFrom true keep from to files lt lt' h = go (files from)
  where
    go : (f : Option (List ℕ)) → NoneFrom keep (renamed from to files f)
    go none = h
    go (some bytes) =
        put-NoneFrom keep to (some bytes) (put from none files) lt'
          (put-NoneFrom keep from none files lt h)

pub shift-NoneFrom :
    (keep : ℕ) (a : Answers) (i : ℕ) (files : Files)
    → i < keep
    → NoneFrom keep files
    → NoneFrom keep (shift a i files)
unfolding shift
shift-NoneFrom keep a zero files lt h = h
shift-NoneFrom keep a (suc zero) files lt h = h
shift-NoneFrom keep a (suc (suc n)) files lt h = shift-NoneFrom keep a (suc n) _ (omega arith) (
    both_ways (NoneFrom keep) (a.room (suc n) && a.room (suc (suc n)))
      (rename (a.renames (suc (suc n))) (suc n) (suc (suc n)) files) files
      (rename-NoneFrom (a.renames (suc (suc n))) keep (suc n) (suc (suc n)) files (omega arith) lt
        h)
      h)

pub unlink-NoneFrom :
    (done : Bool) (keep i : ℕ) (files : Files)
    → i < keep
    → NoneFrom keep files
    → NoneFrom keep (unlink done i files)
unlink-NoneFrom false keep i files lt h = h
unlink-NoneFrom true keep i files lt h = put-NoneFrom keep i none files lt h

-- A renaming of the live file that succeeds takes it away.
pub rename-live : (files : Files) → rename true 0 1 files 0 ≡ none
rename-live files = go (files 0) refl
  where
    go : (f : Option (List ℕ)) → files 0 ≡ f → renamed 0 1 files f 0 ≡ none
    go none e = e
    go (some bytes) e = refl
