-- ===== src/Wirelog/Tests.antt =====
-- The theorems on the wire log at concrete inputs.
use grpc_uds.Prelude.{◌≤◌, refl, true, [], ◌∷◌, none, some, arith, codes, ◌*◌}
use grpc_uds.Uds.{sends}
use grpc_uds.Wirelog.{
  client_to_server, server_to_client, WirelogConn, Segment, log_segments, f_pshack,
}
use grpc_uds.Wirelog.Segments.{Carries, log_segments-Carries}
use grpc_uds.Wirelog.Files.{Files, Answers}
use grpc_uds.Wirelog.Files.Bounds.{Bounded}
use grpc_uds.Wirelog.Settings.{
  Environment, Moment, env_u64, max_file_of, keep_files_of, ensure_init, emits,
}
use grpc_uds.Wirelog.Settings.Limits.{emits_limited}

-- The counter wraps within these bytes.
abbrev far_on : WirelogConn
far_on = record { client_port = 40000; ip_octet = 1; seq_c = 0xffff_fffe; seq_s = 1 }

log_segments-Carries_example :
    Carries client_to_server
      (1 ∷ 2 ∷ 3 ∷ [])
      far_on
      (log_segments client_to_server (1 ∷ 2 ∷ 3 ∷ []) far_on)
log_segments-Carries_example =
    log_segments-Carries client_to_server (1 ∷ 2 ∷ 3 ∷ []) far_on (omega arith)

abbrev answers : Answers
answers = record {
  room = λ i. true;
  unlinks = true;
  renames = λ i. true;
  opens = true;
  stats = true;
  header_writes = sends 24 ∷ [];
  writes = sends 40 ∷ sends 30 ∷ [];
}

abbrev two_files : Environment
two_files = record {
  path = some (codes "/tmp/w");
  file_kb = some (codes "1");
  files = some (codes "2");
}

abbrev no_files : Files
no_files i = none

abbrev moment : Moment
moment = record { sec = 5; usec = 6; answers = answers }

abbrev frame : Segment
frame = record { dir = server_to_client; seq = 1; ack = 1; flags = f_pshack; payload = 9 ∷ [] }

emits_limited_example :
    Bounded
      (keep_files_of (env_u64 two_files.files))
      (max_file_of (env_u64 two_files.file_kb))
      (emits ((moment, 40000, 1, frame) ∷ []) (ensure_init answers two_files no_files))
    × (max_file_of (env_u64 two_files.file_kb) ≤ 1024 * 1024 * 1024)
    × (keep_files_of (env_u64 two_files.files) ≤ 10)
emits_limited_example =
    emits_limited answers two_files no_files (moment, 40000, 1, frame) [] refl (λ i le. refl)
      (((λ i. refl), refl, refl), omega arith) tt
