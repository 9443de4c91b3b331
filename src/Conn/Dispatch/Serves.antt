-- ===== src/Conn/Dispatch/Serves.antt =====
-- What one round of the loop of `dispatch` does to the streams' states and queues.
use grpc_uds.Prelude.{
  ℕ, ◌+◌, ◌≡◌, refl, ◌∙◌, ap, ◌&&◌, not, List, Option, none, some, Result, ok, err, ℤ, both_ways,
  take, drop, set, length, get_elem?, ltb,
}
use grpc_uds.Framing.{FrameHeader, FrameError, frame_header_len}
use grpc_uds.Headers.{GrpcStatus, unimplemented, internal, response_headers}
use grpc_uds.Errors.{Reply}
use grpc_uds.OutQueue.{Backpressure}
use grpc_uds.OutQueue.Wire.{IsValid}
use grpc_uds.Conn.{
  Conn, StreamCtx, StreamState, MethodEntry, Answers, is_zero, checked, command,
  submit_response_for, response_submitted, Command, submit_response,
}
use grpc_uds.Conn.Streams.{All-update_stream}
use grpc_uds.Conn.Calls.{run_script}
use grpc_uds.Conn.Calls.Valid.{AllValid, Keeps, run_script-Keeps, map-update_stream}
use grpc_uds.Conn.Dispatch.{
  update_at, at_index, finalize_error, refuse, find_method, with_policy, returned, or_cancel,
  start_response, after_handler, invoke, resolve, framed,
}
use grpc_uds.Conn.Dispatch.States.{
  states, NotComplete, set-set, states-shape, states-update_at, states-update_at_same,
  All-update_at,
}

-- A round at a stream that waits for its handler: the stream waits no more, and no other stream's
-- state changes.
pub record Serves (i : ℕ) (c c' : Conn) : Type 0 where
  pub fate : StreamState
  pub over : NotComplete fate
  pub moved : states c' ≡ set (states c) i fate
  pub queues : AllValid c → AllValid c'

-- What a step leaves as it is.
pub record Stays (c c' : Conn) : Type 0 where
  pub same : states c' ≡ states c
  pub queues : AllValid c → AllValid c'

pub Serves-Stays : (i : ℕ) {c c' c'' : Conn} → Serves i c c' → Stays c' c'' → Serves i c c''
Serves-Stays i a b = record {
  fate = a.fate;
  over = a.over;
  moved = b.same ∙ a.moved;
  queues = λ v. b.queues (a.queues v);
}

pub Stays-Serves : (i : ℕ) {c c' c'' : Conn} → Stays c c' → Serves i c' c'' → Serves i c c''
Stays-Serves i a b = record {
  fate = b.fate;
  over = b.over;
  moved = b.moved ∙ ap (λ xs. set xs i b.fate) a.same;
  queues = λ v. b.queues (a.queues v);
}

-- The later fate counts.
pub Serves-trans : (i : ℕ) {c c' c'' : Conn} → Serves i c c' → Serves i c' c'' → Serves i c c''
Serves-trans i {c} a b = record {
  fate = b.fate;
  over = b.over;
  moved = b.moved ∙ ap (λ xs. set xs i b.fate) a.moved ∙ set-set i b.fate a.fate (states c);
  queues = λ v. b.queues (a.queues v);
}

pub Keeps-Stays : {c c' : Conn} → Keeps c c' → Stays c c'
Keeps-Stays {c} {c'} k = record {
  same = states-shape c'.streams c.streams k.shapes;
  queues = k.queues;
}

pub at_index-Serves :
    (i : ℕ) (x : StreamState) (f : StreamCtx → StreamCtx) (c : Conn)
    → NotComplete x
    → ((s : StreamCtx) → (f s).state ≡ x)
    → ((s : StreamCtx) → IsValid s.out → IsValid (f s).out)
    → Serves i c (at_index i f c)
at_index-Serves i x f c n k v = record {
  fate = x;
  over = n;
  moved = states-update_at i x f c.streams k;
  queues = λ a. All-update_at i f c.streams v a;
}

pub response_submitted-Stays :
    (i : ℕ) (c : Conn) (commands : List Command) (r : Reply)
    → Stays c (response_submitted i (record c { commands = commands }) r).0
response_submitted-Stays i c commands (err e) = record { same = refl; queues = λ v. v }
response_submitted-Stays i c commands (ok _) = record {
  same = states-shape _ c.streams (map-update_stream i _ c.streams (λ _. refl));
  queues = λ a.
      All-update_stream (λ s. IsValid s.out) i _ c.streams
        (λ _ v. record { framed = v.framed; offset_in = v.offset_in }) a;
}

pub submit_response_for-Stays :
    (answers : Answers) (i : ℕ) (c : Conn) → Stays c (submit_response_for answers i c).0
unfolding submit_response_for command
submit_response_for-Stays answers i c =
    response_submitted-Stays i c _
      (checked (answers c.commands (submit_response i response_headers)))

pub refuse-Serves :
    (answers : Answers) (e : GrpcStatus) (i : ℕ) (s : StreamCtx) (c : Conn)
    → Serves i c (refuse answers e i s c)
unfolding refuse finalize_error
refuse-Serves answers e i s c =
    Serves-Stays i
      (at_index-Serves i StreamState.dispatched (finalize_error e) c refl (λ _. refl)
        (λ _ v. record { framed = v.framed; offset_in = v.offset_in }))
      (submit_response_for-Stays answers s.id (at_index i (finalize_error e) c))

pub or_cancel-Serves :
    (i : ℕ) {c : Conn} (r : Conn × Reply) → Serves i c r.0 → Serves i c (or_cancel i r)
or_cancel-Serves i (c', ok _) a = a
or_cancel-Serves i (c', err e) a = Serves-trans i a (
    at_index-Serves i StreamState.cancelled (λ s. record s { state = StreamState.cancelled }) c'
      refl (λ _. refl) (λ _ v. v))

pub start_response-Serves :
    (answers : Answers) (i id : ℕ) {c : Conn} (c' : Conn) (o : Option StreamCtx)
    → Serves i c c'
    → Serves i c (start_response answers i id c' o)
start_response-Serves answers i id c' none a = a
start_response-Serves answers i id {c} c' (some s) a =
    both_ways (Serves i c) s.out.response_started _ _ a (
      or_cancel-Serves i (submit_response_for answers id c')
        (Serves-Stays i a (submit_response_for-Stays answers id c')))

pub returned-IsValid : (rc : ℤ) (s : StreamCtx) → IsValid s.out → IsValid (returned rc s).out
unfolding returned
returned-IsValid rc s v =
    both_ways IsValid (not (is_zero rc) && not s.out.finished) _ _
      (record { framed = v.framed; offset_in = v.offset_in }) v

pub after_handler-Serves :
    (answers : Answers) (i id : ℕ) {c : Conn} (r : Conn × ℤ)
    → Stays c r.0
    → Serves i c (after_handler answers i id r)
unfolding returned
after_handler-Serves answers i id (c', rc) a =
    start_response-Serves answers i id (at_index i (returned rc) c')
      (get_elem? (update_at i (returned rc) c'.streams) i)
      (Stays-Serves i a (
        at_index-Serves i StreamState.dispatched (returned rc) c' refl (λ _. refl)
          (returned-IsValid rc)))

pub with_policy-Stays :
    (i : ℕ) (bp : Option Backpressure) (c : Conn) → Stays c (at_index i (with_policy bp) c)
with_policy-Stays i none c = record {
  same = states-update_at_same i (with_policy none) c.streams (λ _. refl);
  queues = λ a. All-update_at i (with_policy none) c.streams (λ _ v. v) a;
}
with_policy-Stays i (some bp) c = record {
  same = states-update_at_same i (with_policy (some bp)) c.streams (λ _. refl);
  queues = λ a.
      All-update_at i (with_policy (some bp)) c.streams
        (λ _ v. record { framed = v.framed; offset_in = v.offset_in }) a;
}

pub Stays-trans : {c c' c'' : Conn} → Stays c c' → Stays c' c'' → Stays c c''
Stays-trans a b = record { same = b.same ∙ a.same; queues = λ v. b.queues (a.queues v) }

pub resolve-Serves :
    (answers : Answers) (now i : ℕ) (s : StreamCtx) (len : ℕ) (c : Conn) (o : Option MethodEntry)
    → Serves i c (resolve answers now i s len c o)
unfolding invoke
resolve-Serves answers now i s len c none = refuse-Serves answers unimplemented i s c
resolve-Serves answers now i s len c (some m) =
    after_handler-Serves answers i s.id
      (run_script now (m.handler s.id (take len (drop frame_header_len s.request)) m.user_data)
        (at_index i (with_policy m.backpressure) c))
      (Stays-trans (with_policy-Stays i m.backpressure c) (Keeps-Stays (run_script-Keeps now _ _)))

pub framed-Serves :
    (answers : Answers) (now i : ℕ) (s : StreamCtx) (c : Conn) (r : Result FrameHeader FrameError)
    → Serves i c (framed answers now i s c r)
framed-Serves answers now i s c (err e) = refuse-Serves answers internal i s c
framed-Serves answers now i s c (ok h) =
    both_ways (Serves i c) (ltb (length s.request) (frame_header_len + h.payload_len)) _ _
      (refuse-Serves answers internal i s c)
      (resolve-Serves answers now i s h.payload_len c (find_method s.path c.methods))
