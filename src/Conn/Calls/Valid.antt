-- ===== src/Conn/Calls/Valid.antt =====
-- What the calls of a handler, and a handler's run, can change of a connection.
use grpc_uds.Prelude.{
  ℕ, ◌≡◌, ◌≢◌, refl, ◌∙◌, ap, Bool, true, false, List, [], ◌∷◌, Option, none, some, ok, err, ℤ, map,
  ◌&&◌, Bool-cases, both_ways, inl, inr, All, ◌==◌,
}
use grpc_uds.Headers.{GrpcStatus}
use grpc_uds.Errors.{Reply}
use grpc_uds.OutQueue.{OutQueue, enqueue_owned, enqueue_framed}
use grpc_uds.OutQueue.Wire.{IsValid}
use grpc_uds.OutQueue.Enqueue.{enqueue_owned-IsValid}
use grpc_uds.Conn.{
  Conn, StreamCtx, StreamState, MethodEntry, CancelHook, ApiCall, writes, writes_owned, finishes,
  finishes_msg, sets_hook, sets_policy, Script, returns, calls, asks_time, command, find_stream,
  update_stream, on_stream, set_out,
}
use grpc_uds.Conn.Streams.{
  find_stream-update_stream_ne, All-find_stream, All-update_found, id-find_stream,
}
use grpc_uds.Conn.Calls.{
  is_dispatched, resume_if, enqueued, write_found, write_call_with, write_call, write_call_owned,
  finish_queue, finish_found, finish_call_inner, finish_call, finish_call_msg, changed,
  set_cancel_hook, set_stream_policy, call_time_remaining_ms, api_call, run_script,
}

-- The stream that a call names.
abbrev pub target : ApiCall → ℕ
target (writes copy room i payload) = i
target (writes_owned room i payload) = i
target (finishes i e) = i
target (finishes_msg i e msg) = i
target (sets_hook i hook) = i
target (sets_policy i bp) = i

-- What a handler does not own of a stream.
abbrev pub shape : StreamCtx → ℕ × StreamState × List ℕ × List ℕ × Option ℕ
shape s = (s.id, s.state, s.request, s.path, s.deadline_ms)

-- What a handler does not own of a connection.
abbrev pub outside : Conn → List MethodEntry × ℕ × ℤ × List ℕ × List CancelHook × List ℕ
outside c = (c.methods, c.max_message_len, c.fd, c.out_pending, c.fired, c.sent)

abbrev pub AllValid : Conn → Type 0
AllValid c = All (λ s. IsValid s.out) c.streams

pub record Keeps (c c' : Conn) : Type 0 where
  pub shapes : map shape c'.streams ≡ map shape c.streams
  pub rest : outside c' ≡ outside c
  pub queues : AllValid c → AllValid c'

Keeps-refl : (c : Conn) → Keeps c c
Keeps-refl c = record { shapes = refl; rest = refl; queues = λ v. v }

pub Keeps-trans : {c c' c'' : Conn} → Keeps c c' → Keeps c' c'' → Keeps c c''
Keeps-trans k l = record {
  shapes = l.shapes ∙ k.shapes;
  rest = l.rest ∙ k.rest;
  queues = λ v. l.queues (k.queues v);
}

pub map-update_stream :
    (i : ℕ) (f : StreamCtx → StreamCtx) (ss : List StreamCtx)
    → ((s : StreamCtx) → shape (f s) ≡ shape s)
    → map shape (update_stream i f ss) ≡ map shape ss
unfolding update_stream
map-update_stream i f [] k = refl
map-update_stream i f (s ∷ ss) k = elim (Bool-cases (s.id == i)) [
  | inl hit ↦ rw (hit, k s)
  | inr miss ↦ rw (miss, map-update_stream i f ss k)
]

-- A call on stream `i` keeps all of that, and leaves the other streams as they are.
pub record Acts (i : ℕ) (c c' : Conn) : Type 0 where
  pub keeps : Keeps c c'
  pub others : (j : ℕ) → i ≢ j → find_stream j c'.streams ≡ find_stream j c.streams

Acts-refl : (i : ℕ) (c : Conn) → Acts i c c
Acts-refl i c = record { keeps = Keeps-refl c; others = λ j ne. refl }

on_stream-Acts :
    (i : ℕ) (f : StreamCtx → StreamCtx) (c : Conn) {s : StreamCtx}
    → find_stream i c.streams ≡ some s
    → ((t : StreamCtx) → shape (f t) ≡ shape t)
    → (IsValid s.out → IsValid (f s).out)
    → Acts i c (on_stream i f c)
on_stream-Acts i f c {s} e k v = record {
  keeps = record {
    shapes = map-update_stream i f c.streams k;
    rest = refl;
    queues = λ a.
        All-update_found (λ t. IsValid t.out) i f c.streams e
          (v (All-find_stream (λ t. IsValid t.out) i c.streams a e)) a;
  };
  others = λ j ne. find_stream-update_stream_ne i j f c.streams (λ t. ap (λ p. p.0) (k t)) ne;
}

resume_if-Acts : (i : ℕ) (s : StreamCtx) {c c' : Conn} → Acts i c c' → Acts i c (resume_if s c')
unfolding command
resume_if-Acts i s {c} {c'} a =
    elim (Bool-cases (is_dispatched s.state && s.out.response_started)) [
      | inl nudge ↦ rw nudge (record {
        keeps = record { shapes = a.keeps.shapes; rest = a.keeps.rest; queues = a.keeps.queues };
        others = a.others;
      })
      | inr quiet ↦ rw quiet a
    ]

-- An enqueue that keeps the queue as the wire needs it.
abbrev KeepsValid : (OutQueue → OutQueue × Reply) → Type 0
KeepsValid enqueue = (q : OutQueue) → IsValid q → IsValid (enqueue q).0

enqueued-Acts :
    (i : ℕ) (s : StreamCtx) (c : Conn) (r : OutQueue × Reply)
    → s.id ≡ i
    → find_stream i c.streams ≡ some s
    → (IsValid s.out → IsValid r.0)
    → Acts i c (enqueued s c r).0
enqueued-Acts i s c (q, ok _) h e v =
    resume_if-Acts i s (rw h (on_stream-Acts i (set_out q) c e (λ _. refl) v))
enqueued-Acts i s c (q, err _) h e v = rw h (on_stream-Acts i (set_out q) c e (λ _. refl) v)

write_found-Acts :
    (i : ℕ) (enqueue : OutQueue → OutQueue × Reply) (c : Conn) (o : Option StreamCtx)
    → find_stream i c.streams ≡ o
    → KeepsValid enqueue
    → Acts i c (write_found enqueue c o).0
write_found-Acts i enqueue c none e v = Acts-refl i c
write_found-Acts i enqueue c (some s) e v =
    both_ways (λ (r : Conn × Reply). Acts i c r.0) s.out.finished _ _ (Acts-refl i c)
      (enqueued-Acts i s c (enqueue s.out) (id-find_stream i c.streams e) e (v s.out))

finish_queue-IsValid :
    (code : GrpcStatus) (msg : Option (List ℕ)) (q : OutQueue)
    → IsValid q
    → IsValid (finish_queue code msg q)
unfolding finish_queue
finish_queue-IsValid code msg q v =
    both_ways IsValid q.finished _ _ v (record { framed = v.framed; offset_in = v.offset_in })

finish_found-Acts :
    (i : ℕ) (code : GrpcStatus) (msg : Option (List ℕ)) (c : Conn) (o : Option StreamCtx)
    → find_stream i c.streams ≡ o
    → Acts i c (finish_found code msg c o).0
unfolding finish_queue
finish_found-Acts i code msg c none e = Acts-refl i c
finish_found-Acts i code msg c (some s) e = resume_if-Acts i s (
    rw (id-find_stream i c.streams e) (
      on_stream-Acts i (set_out (finish_queue code msg s.out)) c e (λ _. refl)
        (finish_queue-IsValid code msg s.out)))

changed-Acts :
    (i : ℕ) (f : StreamCtx → StreamCtx) (c : Conn) (o : Option StreamCtx)
    → find_stream i c.streams ≡ o
    → ((t : StreamCtx) → shape (f t) ≡ shape t)
    → ((t : StreamCtx) → IsValid t.out → IsValid (f t).out)
    → Acts i c (changed f c o).0
changed-Acts i f c none e k v = Acts-refl i c
changed-Acts i f c (some s) e k v =
    rw (id-find_stream i c.streams e) (on_stream-Acts i f c e k (v s))

enqueue_framed-IsValid :
    (copy room : Bool) (payload : List ℕ) → KeepsValid (enqueue_framed copy room payload)
unfolding enqueue_framed
enqueue_framed-IsValid false room payload q v = v
enqueue_framed-IsValid true room payload q v = enqueue_owned-IsValid room payload v

-- A call of a handler acts on the stream that it names and on no other: it leaves the identity,
-- the state, the request and the deadline of every stream, and the connection's methods, limit,
-- socket, pending bytes and fired hooks, and keeps every queue as the wire needs it.
pub api_call-Acts : (op : ApiCall) (c : Conn) → Acts (target op) c (api_call op c).0
unfolding api_call write_call write_call_owned write_call_with finish_call finish_call_msg
    finish_call_inner set_cancel_hook set_stream_policy
api_call-Acts (writes copy room i payload) c =
    write_found-Acts i (enqueue_framed copy room payload) c (find_stream i c.streams) refl
      (enqueue_framed-IsValid copy room payload)
api_call-Acts (writes_owned room i payload) c =
    write_found-Acts i (enqueue_owned room payload) c (find_stream i c.streams) refl
      (λ q v. enqueue_owned-IsValid room payload v)
api_call-Acts (finishes i code) c = finish_found-Acts i code none c (find_stream i c.streams) refl
api_call-Acts (finishes_msg i code msg) c =
    finish_found-Acts i code (some msg) c (find_stream i c.streams) refl
api_call-Acts (sets_hook i hook) c =
    changed-Acts i (λ s. record s { cancel_hook = some hook }) c (find_stream i c.streams) refl
      (λ _. refl) (λ _ v. v)
api_call-Acts (sets_policy i bp) c =
    changed-Acts i (λ s. record s { out = record (s.out) { backpressure = bp } }) c
      (find_stream i c.streams) refl (λ _. refl)
      (λ _ v. record { framed = v.framed; offset_in = v.offset_in })

-- However a handler runs, whatever calls it makes and on what answers, the identity, state, request
-- and deadline of every stream stay, and so do the connection's methods, limit, socket, pending
-- bytes and fired hooks; every queue stays as the wire needs it.
pub run_script-Keeps : (now : ℕ) (run : Script) (c : Conn) → Keeps c (run_script now run c).0
unfolding run_script
run_script-Keeps now (returns rc) c = Keeps-refl c
run_script-Keeps now (calls op next) c =
    Keeps-trans (api_call-Acts op c).keeps
      (run_script-Keeps now (next (api_call op c).1) (api_call op c).0)
run_script-Keeps now (asks_time i next) c =
    run_script-Keeps now (next (call_time_remaining_ms now i c)) c
