-- ===== src/Wirelog/Files.antt =====
-- The files of the wire log: opening, rotation and appending, of
-- rust/grpcuds-core/src/wirelog.rs. A file has the number of its suffix, 0 for the live one.
pub mod Suffixes
pub mod Bounds
use grpc_uds.Prelude.{
  ℕ, zero, suc, ◌+◌, ◌-◌, Bool, true, false, not, List, [], ◌∷◌, ◌++◌, Option, none, some, ltb,
  ◌==◌, ◌&&◌, if◌then◌else◌, length, take, drop,
}
use grpc_uds.Uds.{SendAnswer, sends, eintr, eagain, send_fails}
use grpc_uds.Wirelog.{pcap_global_header, pcap_header_len}

abbrev pub Files : Type 0
Files = ℕ → Option (List ℕ)

-- `fd` is whether the live file is open, `enabled` whether the state is ST_ENABLED.
pub record Globals : Type 0 where
  pub fd : Bool
  pub enabled : Bool
  pub written : ℕ
  pub max_file : ℕ
  pub keep_files : ℕ
  pub files : Files

-- What the system answers to one append: whether a suffixed name can be made, whether the unlink of
-- a rotation succeeds and its renaming to each suffix, which the code does not look at, whether the
-- live file opens and fstat succeeds on it, and the writes of the header and of the record.
pub record Answers : Type 0 where
  pub room : ℕ → Bool
  pub unlinks : Bool
  pub renames : ℕ → Bool
  pub opens : Bool
  pub stats : Bool
  pub header_writes : List SendAnswer
  pub writes : List SendAnswer

abbrev pub put : ℕ → Option (List ℕ) → Files → Files
put i f files j = if i == j then f else files j

abbrev pub content : Option (List ℕ) → List ℕ
content none = []
content (some bytes) = bytes

-- The bytes that reach the file.
unfoldable pub write_fully : List SendAnswer → List ℕ → List ℕ
write_fully answers [] = []
write_fully [] (b ∷ bs) = []
write_fully (sends zero ∷ answers) (b ∷ bs) = []
write_fully (sends (suc n) ∷ answers) (b ∷ bs) =
    take (suc n) (b ∷ bs) ++ write_fully answers (drop (suc n) (b ∷ bs))
write_fully (eintr ∷ answers) (b ∷ bs) = write_fully answers (b ∷ bs)
write_fully (eagain ∷ answers) (b ∷ bs) = []
write_fully (send_fails e ∷ answers) (b ∷ bs) = []

-- The live file is opened for appending.
abbrev pub append_live : List ℕ → Globals → Globals
append_live bytes g = record g { files = put 0 (some (content (g.files 0) ++ bytes)) g.files }

-- A file that is empty gets the header of a capture.
abbrev pub opened_live : Answers → Globals → Globals
opened_live a g =
    if length (content (g.files 0)) == 0
    then record (append_live (write_fully a.header_writes pcap_global_header) g) {
      fd = true;
      written = pcap_header_len;
    }
    else record (append_live [] g) { fd = true; written = length (content (g.files 0)) }

unfoldable pub open_live : Answers → Globals → Globals × Bool
unfolding write_fully
open_live a g =
    if not a.opens
    then (g, false)
    else if not a.stats
    then (append_live [] g, false)
    else (opened_live a g, true)

abbrev pub renamed : ℕ → ℕ → Files → Option (List ℕ) → Files
renamed from to files none = files
renamed from to files (some bytes) = put to (some bytes) (put from none files)

-- Renaming a file that is not there does nothing, and so does a renaming or an unlink that fails.
abbrev pub rename : Bool → ℕ → ℕ → Files → Files
rename false from to files = files
rename true from to files = renamed from to files (files from)

abbrev pub unlink : Bool → ℕ → Files → Files
unlink false i files = files
unlink true i files = put i none files

-- The loop of `rotate` from `i` down to 2.
unfoldable pub shift : Answers → ℕ → Files → Files
shift a zero files = files
shift a (suc zero) files = files
shift a (suc (suc n)) files = shift a (suc n) (
    if a.room (suc n) && a.room (suc (suc n))
    then rename (a.renames (suc (suc n))) (suc n) (suc (suc n)) files
    else files)

abbrev pub shifted : Answers → ℕ → Files → Files
shifted a rotated files =
    let files' = if a.room rotated then unlink a.unlinks rotated files else files in
    let files'' = shift a rotated files' in
    if a.room 1 then rename (a.renames 1) 0 1 files'' else files''

abbrev reopened : Globals × Bool → Globals
reopened (g, true) = g
reopened (g, false) = record g { enabled = false }

unfoldable pub rotate : Answers → Globals → Globals
unfolding open_live shift
rotate a g =
    let rotated = g.keep_files - 1 in
    reopened (
      open_live a (record g {
        fd = false;
        files = if rotated == 0 then unlink a.unlinks 0 g.files else shifted a rotated g.files;
      }))

-- A write that stops early counts in full.
abbrev recorded : Answers → List ℕ → Globals → Globals
recorded a rec g =
    if g.fd
    then record (append_live (write_fully a.writes rec) g) { written = g.written + length rec }
    else g

unfoldable pub append_record : Answers → List ℕ → Globals → Globals
unfolding rotate write_fully
append_record a rec g =
    if not g.fd
    then g
    else recorded a rec (if ltb g.max_file (g.written + length rec) then rotate a g else g)
