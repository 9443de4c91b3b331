-- ===== src/Conn/Receive/Valid.antt =====
-- The bound on what a client can make the server keep of a request, over the receive-side callbacks
-- of rust/grpcuds-core/src/conn/callbacks.rs.
use grpc_uds.Prelude.{
  ℕ, ◌+◌, ◌-◌, ◌^◌, ◌≤◌, ◌<◌, min, ◌≡◌, refl, Bool, true, false, List, sym, ◌&&◌, if◌then◌else◌,
  same_bytes, codes, Option, none, some, length, All, arith, Bool-cases, inl, inr, ltb,
  length-append, All-append,
}
use mathlib.Core.Path.{subst}
use grpc_uds.Conn.{Conn, StreamCtx, find_stream}
use grpc_uds.Conn.Streams.{All-update_stream, All-update_found, id-find_stream}
use grpc_uds.Conn.Receive.{
  FrameInfo, on_begin_headers, on_header, on_frame_recv, on_data_chunk_recv, received, new_stream,
  header_found, frame_found, chunk_found,
}

abbrev IsBounded : ℕ → StreamCtx → Type 0
IsBounded most s = length s.request ≤ most

-- A call of one of the callbacks of the receive side.
pub data Callback : Type 0 where
  begin_headers : Bool → FrameInfo → Callback
  header : Bool → ℕ → ℕ → List ℕ → List ℕ → Callback
  frame_recv : FrameInfo → Callback
  data_chunk_recv : Bool → ℕ → List ℕ → Callback

unfoldable pub callback : Callback → Conn → Conn
callback (begin_headers room frame) c = (on_begin_headers room frame c).0
callback (header room now i name value) c = (on_header room now i name value c).0
callback (frame_recv frame) c = on_frame_recv frame c
callback (data_chunk_recv room i chunk) c = (on_data_chunk_recv room i chunk c).0

abbrev pub AllBounded : Conn → Type 0
AllBounded c = All (IsBounded c.max_message_len) c.streams

received-IsBounded :
    (most : ℕ) (frame : FrameInfo) (s : StreamCtx)
    → IsBounded most s
    → IsBounded most (received frame s)
received-IsBounded most frame s b = ground arith

added :
    (room request : Bool) (c c' : Conn)
    → AllBounded c
    → AllBounded c'
    → AllBounded
        (if◌then◌else◌ {A = Conn × Bool} request
          (if room then (c', true) else (c, false))
          (c, true)).0
added room false c c' b b' = b
added false true c c' b b' = b
added true true c c' b b' = b'

begin_headers-AllBounded :
    (room : Bool) (frame : FrameInfo) (c : Conn)
    → AllBounded c
    → AllBounded (on_begin_headers room frame c).0
unfolding on_begin_headers new_stream
begin_headers-AllBounded room frame c b =
    added room (frame.is_headers && frame.is_request) c _ b
      (All-append (IsBounded c.max_message_len) c.streams _ b (omega arith, tt))

header_found-AllBounded :
    (room : Bool) (now : ℕ) (name value : List ℕ) (c : Conn) (o : Option StreamCtx)
    → AllBounded c
    → AllBounded (header_found room now name value c o).0
header_found-AllBounded room now name value c none b = b
header_found-AllBounded room now name value c (some s) b =
    elim (Bool-cases (same_bytes name (codes ":path"))) [
      | inl path ↦ rw path (elim (Bool-cases room) [
        | inl fits ↦
            rw fits (All-update_stream (IsBounded c.max_message_len) s.id _ c.streams (λ _ h. h) b)
        | inr full ↦ rw full b
      ])
      | inr other ↦ rw other (elim (Bool-cases (same_bytes name (codes "grpc-timeout"))) [
        | inl timeout ↦
            rw timeout
              (All-update_stream (IsBounded c.max_message_len) s.id _ c.streams (λ _ h. h) b)
        | inr rest ↦ rw rest b
      ])
    ]

header-AllBounded :
    (room : Bool) (now i : ℕ) (name value : List ℕ) (c : Conn)
    → AllBounded c
    → AllBounded (on_header room now i name value c).0
unfolding on_header
header-AllBounded room now i name value c b =
    header_found-AllBounded room now name value c (find_stream i c.streams) b

chunk_found-AllBounded :
    (room : Bool) (chunk : List ℕ) (c : Conn) (i : ℕ) (o : Option StreamCtx)
    → find_stream i c.streams ≡ o
    → c.max_message_len < 2 ^ 64 - 1
    → AllBounded c
    → AllBounded (chunk_found room chunk c o).0
chunk_found-AllBounded room chunk c i none e lt b = b
chunk_found-AllBounded room chunk c i (some s) e lt b =
    elim (Bool-cases (ltb c.max_message_len (min (length s.request + length chunk) (2 ^ 64 - 1)))) [
      | inl long ↦ rw long b
      | inr short ↦ rw short (elim (Bool-cases room) [
        | inl fits ↦ rw fits (
            All-update_found (IsBounded c.max_message_len) s.id _ c.streams
              (subst (λ k. find_stream k c.streams ≡ some s) (sym (id-find_stream i c.streams e)) e)
              (ground (arith, length-append s.request chunk)) b)
        | inr full ↦ rw full b
      ])
    ]

chunk-AllBounded :
    (room : Bool) (i : ℕ) (chunk : List ℕ) (c : Conn)
    → c.max_message_len < 2 ^ 64 - 1
    → AllBounded c
    → AllBounded (on_data_chunk_recv room i chunk c).0
unfolding on_data_chunk_recv
chunk-AllBounded room i chunk c lt b =
    chunk_found-AllBounded room chunk c i (find_stream i c.streams) refl lt b

frame_found-AllBounded :
    (frame : FrameInfo) (c : Conn) (o : Option StreamCtx)
    → AllBounded c
    → AllBounded (frame_found frame c o)
frame_found-AllBounded frame c none b = b
frame_found-AllBounded frame c (some s) b =
    All-update_stream (IsBounded c.max_message_len) s.id (received frame) c.streams
      (received-IsBounded c.max_message_len frame) b

-- No callback of the receive side lets the bytes kept of a request grow past the connection's
-- limit, which fits below the saturation of the sum.
pub callback-AllBounded :
    (cb : Callback) (c : Conn)
    → c.max_message_len < 2 ^ 64 - 1
    → AllBounded c
    → AllBounded (callback cb c)
unfolding callback on_frame_recv
callback-AllBounded (begin_headers room frame) c lt b = begin_headers-AllBounded room frame c b
callback-AllBounded (header room now i name value) c lt b =
    header-AllBounded room now i name value c b
callback-AllBounded (frame_recv frame) c lt b =
    frame_found-AllBounded frame c (find_stream frame.stream_id c.streams) b
callback-AllBounded (data_chunk_recv room i chunk) c lt b = chunk-AllBounded room i chunk c lt b
