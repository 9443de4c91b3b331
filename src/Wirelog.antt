-- ===== src/Wirelog.antt =====
-- The wire log, rust/grpcuds-core/src/wirelog.rs: the bytes of a record and the segments of a
-- connection. Wirelog/Files has the files.
pub mod Files
pub mod Checksum
pub mod Segments
pub mod Settings
mod Tests
use grpc_uds.Prelude.{
  ℕ, zero, suc, ◌+◌, ◌-◌, ◌*◌, ◌/◌, ◌%◌, ◌^◌, Bool, true, false, List, [], ◌∷◌, ◌++◌, ltb,
  if◌then◌else◌, length, take, drop,
}

pub data Dir : Type 0 where
  client_to_server server_to_client : Dir

pub record WirelogConn : Type 0 where
  pub client_port : ℕ
  pub ip_octet : ℕ
  pub seq_c : ℕ
  pub seq_s : ℕ

abbrev pub server_port : ℕ
server_port = 80

abbrev pub max_segment : ℕ
max_segment = 1400

abbrev pub pcap_header_len : ℕ
pcap_header_len = 24

abbrev pub rec_overhead : ℕ
rec_overhead = 16 + 20 + 20

-- `to_le_bytes` and `to_be_bytes`.
abbrev pub le16 : ℕ → List ℕ
le16 n = (n % 256) ∷ (n / 2 ^ 8 % 256) ∷ []

abbrev pub le32 : ℕ → List ℕ
le32 n = (n % 256) ∷ (n / 2 ^ 8 % 256) ∷ (n / 2 ^ 16 % 256) ∷ (n / 2 ^ 24 % 256) ∷ []

abbrev pub be16 : ℕ → List ℕ
be16 n = (n / 2 ^ 8 % 256) ∷ (n % 256) ∷ []

abbrev pub be32 : ℕ → List ℕ
be32 n = (n / 2 ^ 24 % 256) ∷ (n / 2 ^ 16 % 256) ∷ (n / 2 ^ 8 % 256) ∷ (n % 256) ∷ []

unfoldable pub pcap_global_header : List ℕ
pcap_global_header =
    le32 0xa1b2c3d4 ++ (le16 2 ++ (le16 4 ++ (le32 0 ++ (le32 0 ++ (le32 65535 ++ le32 101)))))

-- The sum of the words of the header.
unfoldable pub word_sum : List ℕ → ℕ
word_sum [] = 0
word_sum (a ∷ []) = 0
word_sum (a ∷ b ∷ rest) = a * 256 + b + word_sum rest

-- Each round makes the sum smaller, so the sum bounds the rounds.
unfoldable pub fold_carries : ℕ → ℕ → ℕ
fold_carries zero sum = sum
fold_carries (suc rounds) sum =
    let again = fold_carries rounds (sum % 2 ^ 16 + sum / 2 ^ 16) in
    if ltb 0xffff sum then again else sum

unfoldable pub ipv4_checksum : List ℕ → ℕ
unfolding word_sum fold_carries
ipv4_checksum hdr = let sum = word_sum hdr in 0xffff - fold_carries sum sum % 2 ^ 16

abbrev client_ip : ℕ → List ℕ
client_ip octet = 10 ∷ 117 ∷ 117 ∷ octet ∷ []

abbrev server_ip : List ℕ
server_ip = 10 ∷ 117 ∷ 117 ∷ 2 ∷ []

abbrev pub src_ip : Dir → ℕ → List ℕ
src_ip client_to_server octet = client_ip octet
src_ip server_to_client octet = server_ip

abbrev pub dst_ip : Dir → ℕ → List ℕ
dst_ip client_to_server octet = server_ip
dst_ip server_to_client octet = client_ip octet

abbrev src_port : Dir → ℕ → ℕ
src_port client_to_server port = port
src_port server_to_client port = server_port

abbrev dst_port : Dir → ℕ → ℕ
dst_port client_to_server port = server_port
dst_port server_to_client port = port

-- The IPv4 header, with what stands in the place of its checksum.
abbrev pub ip_header : ℕ → Dir → ℕ → ℕ → List ℕ
ip_header payload_len dir octet csum =
    0x45
    ∷ 0
    ∷ (be16 (40 + payload_len)
        ++ (be16 0
            ++ (be16 0x4000 ++ (64 ∷ 6 ∷ (be16 csum ++ (src_ip dir octet ++ dst_ip dir octet))))))

abbrev pub tcp_header : ℕ → Dir → ℕ → ℕ → ℕ → List ℕ
tcp_header port dir seq ack flags =
    be16 (src_port dir port)
    ++ (be16 (dst_port dir port)
        ++ (be32 seq ++ (be32 ack ++ (0x50 ∷ flags ∷ (be16 0xffff ++ (0 ∷ 0 ∷ 0 ∷ 0 ∷ []))))))

-- One frame of the simulated connection.
pub record Segment : Type 0 where
  pub dir : Dir
  pub seq : ℕ
  pub ack : ℕ
  pub flags : ℕ
  pub payload : List ℕ

-- The bytes of `out` up to the length returned, at the time `sec` and `usec`.
unfoldable pub build_record : ℕ → ℕ → ℕ → ℕ → Segment → List ℕ
unfolding ipv4_checksum
build_record sec usec port octet s =
    let len = rec_overhead + length s.payload - 16 in
    let csum = ipv4_checksum (ip_header (length s.payload) s.dir octet 0) in
    le32 sec
    ++ (le32 usec
        ++ (le32 len
            ++ (le32 len
                ++ (ip_header (length s.payload) s.dir octet csum
                    ++ (tcp_header port s.dir s.seq s.ack s.flags ++ s.payload)))))

abbrev pub f_syn : ℕ
f_syn = 0x02

abbrev pub f_synack : ℕ
f_synack = 0x12

abbrev pub f_ack : ℕ
f_ack = 0x10

abbrev pub f_pshack : ℕ
f_pshack = 0x18

-- The handshake that `conn_open` emits, and the connection for the number `n` that it drew.
abbrev pub handshake : List Segment
handshake =
    record { dir = client_to_server; seq = 0; ack = 0; flags = f_syn; payload = [] }
    ∷ record { dir = server_to_client; seq = 0; ack = 1; flags = f_synack; payload = [] }
    ∷ record { dir = client_to_server; seq = 1; ack = 1; flags = f_ack; payload = [] }
    ∷ []

unfoldable pub opened : ℕ → WirelogConn
opened n = record {
  client_port = 40000 + n % 20000;
  ip_octet = 1 + n / 20000 % 200;
  seq_c = 1;
  seq_s = 1;
}

-- The segment that carries a chunk, and the counters after it.
abbrev segment : Dir → List ℕ → WirelogConn → Segment
segment client_to_server chunk wl = record {
  dir = client_to_server;
  seq = wl.seq_c;
  ack = wl.seq_s;
  flags = f_pshack;
  payload = chunk;
}
segment server_to_client chunk wl = record {
  dir = server_to_client;
  seq = wl.seq_s;
  ack = wl.seq_c;
  flags = f_pshack;
  payload = chunk;
}

abbrev advanced : Dir → ℕ → WirelogConn → WirelogConn
advanced client_to_server n wl = record wl { seq_c = (wl.seq_c + n) % 2 ^ 32 }
advanced server_to_client n wl = record wl { seq_s = (wl.seq_s + n) % 2 ^ 32 }

abbrev also_segment : Segment → List Segment × WirelogConn → List Segment × WirelogConn
also_segment s (more, wl) = (s ∷ more, wl)

-- The loop of `log` over the chunks: the segments it emits, in their order. Each round takes a byte
-- at least, so the number of rounds is that of the bytes.
unfoldable pub log_loop : ℕ → Dir → List ℕ → WirelogConn → List Segment × WirelogConn
log_loop rounds dir [] wl = ([], wl)
log_loop zero dir (b ∷ bs) wl = ([], wl)
log_loop (suc rounds) dir (b ∷ bs) wl =
    let chunk = take max_segment (b ∷ bs) in
    also_segment (segment dir chunk wl)
      (log_loop rounds dir (drop max_segment (b ∷ bs)) (advanced dir (length chunk) wl))

unfoldable pub log_segments : Dir → List ℕ → WirelogConn → List Segment × WirelogConn
unfolding log_loop
log_segments dir bytes wl = log_loop (length bytes) dir bytes wl
