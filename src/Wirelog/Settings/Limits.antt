-- ===== src/Wirelog/Settings/Limits.antt =====
-- The limits of the wire log, from its start on.
use mathlib.Core.Path.{subst}
use grpc_uds.Prelude.{
  ℕ, arith, ◌≡◌, ◌≤◌, ◌<◌, ◌+◌, ◌*◌, refl, Bool, true, false, not, List, [], ◌∷◌, Option, none,
  some, if◌then◌else◌, length, length-append, All, ◌==◌, Bool-cases, inl, inr,
}
use grpc_uds.Wirelog.{
  Segment, Dir, client_to_server, server_to_client, build_record, max_segment, rec_overhead,
  pcap_global_header,
}
use grpc_uds.Wirelog.Files.{
  Files, Globals, Answers, append_record, open_live, opened_live, append_live, content, write_fully,
}
use grpc_uds.Wirelog.Files.Suffixes.{NoneFrom, put-NoneFrom, length-write_fully}
use grpc_uds.Wirelog.Files.Bounds.{Moves, WellKept, Bounded, append_record-Bounded}
use grpc_uds.Wirelog.Settings.{
  Environment, Moment, env_u64, max_file_of, keep_files_of, initial, configured, usable, enabled_by,
  ensure_init, emit, emits, max_files,
}

max_file_of_le : (o : Option ℕ) → (4096 ≤ max_file_of o) × (max_file_of o ≤ 1024 * 1024 * 1024)
max_file_of_le none = (omega arith, omega arith)
max_file_of_le (some kb) = (omega arith, omega arith)

keep_files_of_le : (o : Option ℕ) → (1 ≤ keep_files_of o) × (keep_files_of o ≤ max_files)
keep_files_of_le none = (omega arith, omega arith)
keep_files_of_le (some n) = (omega arith, omega arith)

length-build_record :
    (sec usec port octet : ℕ) (s : Segment)
    → length (build_record sec usec port octet s) ≡ rec_overhead + length s.payload
unfolding build_record
length-build_record sec usec port octet s = go s.dir s.seq s.ack s.flags s.payload
  where
    go :
        (dir : Dir) (seq ack flags : ℕ) (payload : List ℕ)
        → length (
            build_record sec usec port octet
              (record { dir = dir; seq = seq; ack = ack; flags = flags; payload = payload }))
          ≡ rec_overhead + length payload
    go client_to_server seq ack flags payload = omega arith
    go server_to_client seq ack flags payload = omega arith

-- An emission that the log has room for.
abbrev pub Fits : Moment × ℕ × ℕ × Segment → Type 0
Fits (m, port, octet, s) = Moves m.answers × (length s.payload ≤ max_segment)

emits-Bounded :
    (es : List (Moment × ℕ × ℕ × Segment)) (g : Globals) (keep limit : ℕ)
    → 4096 ≤ limit
    → All Fits es
    → Bounded keep limit g
    → Bounded keep limit (emits es g)
unfolding emits emit
emits-Bounded [] g keep limit le all b = b
emits-Bounded ((m, port, octet, s) ∷ es) g keep limit le ((room, short), all) (kept, e, size) =
    let rec = build_record m.sec m.usec port octet s in
    let long = length-build_record m.sec m.usec port octet s in
    emits-Bounded es (append_record m.answers rec g) keep limit le all (
      subst (λ k. Bounded keep k (append_record m.answers rec g)) e
        (append_record-Bounded m.answers rec g keep room (omega (arith, long, e)) kept))

-- What the start leaves, for a limit.
abbrev Started : ℕ → ℕ → Globals → Type 0
Started keep limit g = WellKept keep g × (g.max_file ≡ limit)

opened_live-Started :
    (a : Answers) (g : Globals)
    → 0 < g.keep_files
    → NoneFrom g.keep_files g.files
    → Started g.keep_files g.max_file (opened_live a g)
unfolding pcap_global_header
opened_live-Started a g keeps h = elim (Bool-cases (length (content (g.files 0)) == 0)) [
  | inl e ↦
      let size =
        length-append (content (g.files 0)) (write_fully a.header_writes pcap_global_header) in
      let header = length-write_fully a.header_writes pcap_global_header in
      let none_yet : length (content (g.files 0)) ≡ 0 = ground arith in
      rw e (
        (
          keeps,
          refl,
          put-NoneFrom g.keep_files 0 _ g.files keeps h,
          λ _. omega (arith, size, header, none_yet),
        ),
        refl,
      )
  | inr e ↦
      let size = length-append (content (g.files 0)) [] in
      rw e (
        (keeps, refl, put-NoneFrom g.keep_files 0 _ g.files keeps h, λ _. omega (arith, size)),
        refl,
      )
]

ensure_init-Started :
    (a : Answers) (env : Environment) (files : Files)
    → usable env.path ≡ true
    → NoneFrom (keep_files_of (env_u64 env.files)) files
    → Started
        (keep_files_of (env_u64 env.files))
        (max_file_of (env_u64 env.file_kb))
        (ensure_init a env files)
unfolding ensure_init open_live
ensure_init-Started a env files on h = go (usable env.path) on a.opens a.stats
  where
    g : Globals
    g = configured env files

    keeps : 0 < keep_files_of (env_u64 env.files)
    keeps = (keep_files_of_le (env_u64 env.files)).0

    go :
        (u : Bool)
        → u ≡ true
        → (o s : Bool)
        → Started (keep_files_of (env_u64 env.files)) (max_file_of (env_u64 env.file_kb)) (
            if u
            then enabled_by (
                if not o
                then (g, false)
                else if not s
                then (append_live [] g, false)
                else (opened_live a g, true))
            else initial files)
    go false off o s = absurd (cc)
    go true on false s = ((keeps, refl, h, λ on. absurd (cc)), refl)
    go true on true false =
        ((keeps, refl, put-NoneFrom _ 0 _ files keeps h, λ on. absurd (cc)), refl)
    go true on true true = opened_live-Started a g keeps h

-- From its start on with a path of 1 to 503 bytes, for every value of its other environment
-- variables and however its writes fall short, with memory for the names of its files, and where
-- the renaming or the unlink that moves a full live file away succeeds: when a record has been
-- appended, the log has no file beyond the number it keeps, which is ten at most, and its live file
-- is within its limit, which is 1 GiB at most. At the start no file stands beyond that number.
pub emits_limited :
    (a : Answers) (env : Environment) (files : Files) (e : Moment × ℕ × ℕ × Segment)
    (es : List (Moment × ℕ × ℕ × Segment))
    → usable env.path ≡ true
    → NoneFrom (keep_files_of (env_u64 env.files)) files
    → Fits e
    → All Fits es
    → Bounded
        (keep_files_of (env_u64 env.files))
        (max_file_of (env_u64 env.file_kb))
        (emits (e ∷ es) (ensure_init a env files))
      × (max_file_of (env_u64 env.file_kb) ≤ 1024 * 1024 * 1024)
      × (keep_files_of (env_u64 env.files) ≤ 10)
unfolding emits emit
emits_limited a env files (m, port, octet, s) es on h (room, short) all =
    let (low, high) = max_file_of_le (env_u64 env.file_kb) in
    let (kept, limit) = ensure_init-Started a env files on h in
    let g = ensure_init a env files in
    let keep = keep_files_of (env_u64 env.files) in
    let rec = build_record m.sec m.usec port octet s in
    let long = length-build_record m.sec m.usec port octet s in
    (
      emits-Bounded es (append_record m.answers rec g) keep (max_file_of (env_u64 env.file_kb)) low
          all
          (subst (λ k. Bounded keep k (append_record m.answers rec g)) limit
            (append_record-Bounded m.answers rec g keep room (omega (arith, long, limit, low))
              kept)),
      high,
      (keep_files_of_le (env_u64 env.files)).1,
    )
