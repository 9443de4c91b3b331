-- ===== src/Wirelog/Settings.antt =====
-- The settings of the wire log from the environment, its start, and what a connection emits, of
-- rust/grpcuds-core/src/wirelog.rs.
pub mod Limits
use grpc_uds.Prelude.{
  ℕ, ◌+◌, ◌-◌, ◌*◌, ◌^◌, min, max, Bool, true, false, not, List, [], ◌∷◌, Option, none, some, ltb,
  leb, ◌==◌, ◌&&◌, ◌||◌, if◌then◌else◌, length,
}
use grpc_uds.Headers.Timeout.{sat_mul}
use grpc_uds.Wirelog.{Segment, build_record}
use grpc_uds.Wirelog.Files.{Files, Globals, Answers, open_live, append_record}

abbrev pub default_file_bytes : ℕ
default_file_bytes = 1024 * 1024

abbrev pub default_files : ℕ
default_files = 3

abbrev pub min_file_kb : ℕ
min_file_kb = 4

abbrev pub max_file_kb : ℕ
max_file_kb = 1024 * 1024

abbrev pub max_files : ℕ
max_files = 10

-- The loop over the digits, on a saturating u64.
unfoldable pub digits_u64 : ℕ → List ℕ → Option ℕ
digits_u64 v [] = some v
digits_u64 v (c ∷ cs) =
    let rest = digits_u64 (min (sat_mul v 10 + (c - b'0')) (2 ^ 64 - 1)) cs in
    if leb b'0' c && leb c b'9' then rest else none

-- The value of the variable, if it is set.
unfoldable pub env_u64 : Option (List ℕ) → Option ℕ
unfolding digits_u64
env_u64 none = none
env_u64 (some []) = none
env_u64 (some (c ∷ cs)) = digits_u64 0 (c ∷ cs)

abbrev pub max_file_of : Option ℕ → ℕ
max_file_of none = default_file_bytes
max_file_of (some kb) = max min_file_kb (min kb max_file_kb) * 1024

abbrev pub keep_files_of : Option ℕ → ℕ
keep_files_of none = default_files
keep_files_of (some n) = max (min n max_files) 1

-- The values of the three variables.
pub record Environment : Type 0 where
  pub path : Option (List ℕ)
  pub file_kb : Option (List ℕ)
  pub files : Option (List ℕ)

-- The globals before their start.
abbrev pub initial : Files → Globals
initial files = record {
  fd = false;
  enabled = false;
  written = 0;
  max_file = default_file_bytes;
  keep_files = default_files;
  files = files;
}

-- The size of the buffer for the path, less the room for a suffix.
abbrev path_room : ℕ
path_room = 512 - 8

abbrev pub configured : Environment → Files → Globals
configured env files = record (initial files) {
  max_file = max_file_of (env_u64 env.file_kb);
  keep_files = keep_files_of (env_u64 env.files);
}

abbrev pub usable : Option (List ℕ) → Bool
usable none = false
usable (some path) = ltb 0 (length path) && ltb (length path) path_room

abbrev enabled_by : Globals × Bool → Globals
enabled_by (g, true) = record g { enabled = true }
enabled_by (g, false) = g

-- `ensure_init` in the state ST_UNINIT, on the files that are there. `path` is up to its NUL.
unfoldable pub ensure_init : Answers → Environment → Files → Globals
unfolding open_live env_u64
ensure_init a env files =
    if usable env.path then enabled_by (open_live a (configured env files)) else initial files

-- The system's answers to one emission, with its clock.
pub record Moment : Type 0 where
  pub sec : ℕ
  pub usec : ℕ
  pub answers : Answers

unfoldable pub emit : Moment → ℕ → ℕ → Segment → Globals → Globals
unfolding build_record append_record
emit m port octet s g = append_record m.answers (build_record m.sec m.usec port octet s) g

-- The segments emitted one after the other, each of a connection with a port and an octet.
unfoldable pub emits : List (Moment × ℕ × ℕ × Segment) → Globals → Globals
unfolding emit
emits [] g = g
emits ((m, port, octet, s) ∷ more) g = emits more (emit m port octet s g)
