-- ===== src/Wirelog/Files/Bounds.antt =====
-- How large the files of the wire log grow, and how many there are.
use mathlib.Core.Path.{subst}
use grpc_uds.Prelude.{
  ℕ, arith, ◌≡◌, ◌≤◌, ◌<◌, ◌+◌, ◌-◌, refl, sym, ◌∙◌, Bool, true, false, not, List, [], none, some,
  ltb, ◌==◌, if◌then◌else◌, length, length-append, Bool-cases, inl, inr,
}
use grpc_uds.Wirelog.{pcap_global_header, pcap_header_len}
use grpc_uds.Wirelog.Files.{
  Files, Globals, Answers, content, write_fully, unlink, append_live, opened_live, open_live, shift,
  rename, shifted, reopened, rotate, recorded, append_record,
}
use grpc_uds.Wirelog.Files.Suffixes.{
  length-write_fully, NoneFrom, put-NoneFrom, rename-NoneFrom, unlink-NoneFrom, shift-NoneFrom,
  rename-live,
}

-- What a rotation leaves: the live file, if it opens, is new.
abbrev Fresh : ℕ → ℕ → Globals → Type 0
Fresh keep max g =
    NoneFrom keep g.files
    × (g.fd ≡ true
        → (length (content (g.files 0)) ≤ pcap_header_len) × (g.written ≡ pcap_header_len))
    × (g.keep_files ≡ keep)
    × (g.max_file ≡ max)

open_live-Fresh :
    (a : Answers) (g : Globals)
    → 0 < g.keep_files
    → g.fd ≡ false
    → g.files 0 ≡ none
    → NoneFrom g.keep_files g.files
    → Fresh g.keep_files g.max_file (reopened (open_live a g))
unfolding open_live pcap_global_header
open_live-Fresh a g keeps off gone none_from = go a.opens a.stats
  where
    put_live : (bytes : List ℕ) → NoneFrom g.keep_files (append_live bytes g).files
    put_live bytes = put-NoneFrom g.keep_files 0 _ g.files keeps none_from

    header : length (write_fully a.header_writes pcap_global_header) ≤ pcap_header_len
    header = length-write_fully a.header_writes pcap_global_header

    go :
        (o s : Bool)
        → Fresh g.keep_files g.max_file (
            reopened (
              if not o
              then (g, false)
              else if not s
              then (append_live [] g, false)
              else (opened_live a g, true)))
    go false s = (none_from, λ bad. absurd (cc), refl, refl)
    go true false = (put_live [], λ bad. absurd (cc), refl, refl)
    go true true = rw gone (
      put-NoneFrom g.keep_files 0 (some (write_fully a.header_writes pcap_global_header)) g.files
          keeps none_from,
      λ _. (header, refl),
      refl,
      refl,
    )

-- There is memory for the names of the files, and the unlink and the renaming of the live file
-- succeed.
abbrev pub Moves : Answers → Type 0
Moves a = ((i : ℕ) → a.room i ≡ true) × (a.unlinks ≡ true) × (a.renames 1 ≡ true)

-- The files once the live one is out of the way.
abbrev moved : Answers → ℕ → Files → Files
moved a keep files = if keep - 1 == 0 then unlink a.unlinks 0 files else shifted a (keep - 1) files

-- A live file that is unlinked, or renamed.
live_unlinked :
    (done : Bool) (keep : ℕ) (files : Files)
    → done ≡ true
    → 0 < keep
    → NoneFrom keep files
    → NoneFrom keep (unlink done 0 files) × (unlink done 0 files 0 ≡ none)
live_unlinked true keep files e lt h = (put-NoneFrom keep 0 none files lt h, refl)
live_unlinked false keep files e lt h = absurd (cc)

live_renamed :
    (done : Bool) (keep : ℕ) (files : Files)
    → done ≡ true
    → 1 < keep
    → NoneFrom keep files
    → NoneFrom keep (rename done 0 1 files) × (rename done 0 1 files 0 ≡ none)
live_renamed true keep files e lt h =
    (rename-NoneFrom true keep 0 1 files (omega arith) lt h, rename-live files)
live_renamed false keep files e lt h = absurd (cc)

moved-NoneFrom :
    (a : Answers) (keep : ℕ) (files : Files)
    → Moves a
    → 0 < keep
    → NoneFrom keep files
    → NoneFrom keep (moved a keep files) × (moved a keep files 0 ≡ none)
moved-NoneFrom a keep files (room, gone, away) lt h = elim (Bool-cases (keep - 1 == 0)) [
  | inl e ↦ rw e (live_unlinked a.unlinks keep files gone lt h)
  | inr e ↦
      let files' = unlink a.unlinks (keep - 1) files in
      rw (e, room (keep - 1), room 1)
        (live_renamed (a.renames 1) keep (shift a (keep - 1) files') away (ground arith) (
          shift-NoneFrom keep a (keep - 1) files' (omega arith)
            (unlink-NoneFrom a.unlinks keep (keep - 1) files (omega arith) h)))
]

rotate-Fresh :
    (a : Answers) (g : Globals)
    → Moves a
    → 0 < g.keep_files
    → NoneFrom g.keep_files g.files
    → Fresh g.keep_files g.max_file (rotate a g)
unfolding rotate
rotate-Fresh a g room keeps h =
    let (rest, gone) = moved-NoneFrom a g.keep_files g.files room keeps h in
    open_live-Fresh a (record g { fd = false; files = moved a g.keep_files g.files }) keeps refl
      gone rest

-- The log keeps to `keep` files, and knows at least the size of the live one.
abbrev pub WellKept : ℕ → Globals → Type 0
WellKept keep g =
    (0 < keep)
    × (g.keep_files ≡ keep)
    × NoneFrom keep g.files
    × (g.fd ≡ true → length (content (g.files 0)) ≤ g.written)

-- The live file that is open is within the limit too.
abbrev pub Bounded : ℕ → ℕ → Globals → Type 0
Bounded keep max g =
    WellKept keep g
    × (g.max_file ≡ max)
    × (g.fd ≡ true → (length (content (g.files 0)) ≤ max) × (g.written ≤ max))

recorded-Bounded :
    (a : Answers) (rec : List ℕ) (g : Globals) (keep max : ℕ)
    → WellKept keep g
    → g.max_file ≡ max
    → (g.fd ≡ true → g.written + length rec ≤ max)
    → Bounded keep max (recorded a rec g)
recorded-Bounded a rec g keep max (keeps, same, none_from, size) limit room = go g.fd refl
  where
    go :
        (b : Bool)
        → g.fd ≡ b
        → Bounded keep max (
            if b
            then record (append_live (write_fully a.writes rec) g) {
              written = g.written + length rec;
            }
            else g)
    go false off = ((keeps, same, none_from, size), limit, λ on. absurd (cc))
    go true on =
        let fits = room on in
        let was = size on in
        let grown = length-append (content (g.files 0)) (write_fully a.writes rec) in
        let part = length-write_fully a.writes rec in
        (
          (
            keeps,
            same,
            put-NoneFrom keep 0 _ g.files keeps none_from,
            λ _. omega (arith, was, grown, part),
          ),
          limit,
          λ _. (omega (arith, was, grown, part, fits), fits),
        )

-- With memory for the names of the files, and a live file that can be moved, appending a record
-- keeps the log to its number of files, and the live file that is open after it, and the count of
-- its bytes, are within `max_file`, however short the writes fall; the record must fit a file
-- beside the header.
pub append_record-Bounded :
    (a : Answers) (rec : List ℕ) (g : Globals) (keep : ℕ)
    → Moves a
    → pcap_header_len + length rec ≤ g.max_file
    → WellKept keep g
    → Bounded keep g.max_file (append_record a rec g)
unfolding append_record
append_record-Bounded a rec g keep room fits (keeps, same, none_from, size) =
    go g.fd (ltb g.max_file (g.written + length rec)) refl refl
  where
    rotated : Bounded keep g.max_file (recorded a rec (rotate a g))
    rotated =
        let (left, new, same', max) =
          rotate-Fresh a g room (subst (λ k. 0 < k) (sym same) keeps)
            (subst (λ k. NoneFrom k g.files) (sym same) none_from) in
        recorded-Bounded a rec (rotate a g) keep g.max_file
          (
            keeps,
            same' ∙ same,
            subst (λ k. NoneFrom k (rotate a g).files) same left,
            λ on. let (small, e) = new on in omega (arith, small, e),
          )
          max (λ on. let (small, e) = new on in omega (arith, e))

    go :
        (on full : Bool)
        → g.fd ≡ on
        → ltb g.max_file (g.written + length rec) ≡ full
        → Bounded keep g.max_file
            (if not on then g else recorded a rec (if full then rotate a g else g))
    go false full off e = ((keeps, same, none_from, size), refl, λ on. absurd (cc))
    go true true on e = rotated
    go true false on e =
        recorded-Bounded a rec g keep g.max_file (keeps, same, none_from, size) refl
          (λ _. ground arith)
