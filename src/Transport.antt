-- ===== src/Transport.antt =====
-- A response stream from the server's queue (rust/grpcuds-core/src/conn/out_queue.rs) to the
-- client's call (rust/grpcuds-core/src/client.rs). Between them HTTP/2 carries the bytes of the
-- DATA frames, in order; the sizes of the frames are arbitrary.
mod Tests
use grpc_uds.Prelude.{
  ℕ, ◌≤◌, ◌≡◌, refl, ◌∙◌, ap, sym, Bool, true, false, List, [], ◌∷◌, ◌++◌, length, All, arith,
  append_assoc, append-nil,
}
use mathlib.Core.Path.{subst}
use grpc_uds.Framing.{encode_header, decode_header}
use grpc_uds.OutQueue.{OutQueue, new, enqueue_owned, drain_into, unbounded}
use grpc_uds.OutQueue.Wire.{IsValid, wire, new-IsValid}
use grpc_uds.OutQueue.Drain.{Drains, drain_into_lem}
use grpc_uds.OutQueue.Enqueue.{enqueue_owned-IsValid}
use grpc_uds.OutQueue.Bounds.{HasRoom-of_unbounded, wire-enqueue_owned, backpressure-enqueue_owned}
use grpc_uds.Client.Call.{CallState, reset, on_data, max_message_len, deframe_bytes, deframe_loop}
use grpc_uds.Client.Call.Chunks.{on_data_chunks}
use grpc_uds.Client.Call.Frames.{deframe_bytes-frame}

-- A handler writes the bodies in turn.
unfoldable pub enqueue_all : List (List ℕ) → OutQueue → OutQueue
enqueue_all [] q = q
enqueue_all (b ∷ bs) q = enqueue_all bs (enqueue_owned true b q).0

-- Rounds of a drain into `room` bytes, each read by the client.
unfoldable pub pump : (ℕ → Bool) → List ℕ → OutQueue → CallState → CallState × OutQueue
pump grants [] q st = (st, q)
pump grants (room ∷ rooms) q st =
    let (bytes, q') = drain_into room q in pump grants rooms q' (on_data grants bytes st)

module _ (grants : ℕ → Bool) where
  -- What is on its way joins what has come.
  pump-on_data :
      (rooms : List ℕ) (q : OutQueue) (st : CallState)
      → IsValid q
      → let (st', q') = pump grants rooms q st in
        on_data grants (wire q') st' ≡ on_data grants (wire q) st
  unfolding pump
  pump-on_data [] q st v = refl
  pump-on_data (room ∷ rooms) q st v =
      let d : Drains room q (drain_into room q) = drain_into_lem room q v in
      pump-on_data rooms (drain_into room q).1 (on_data grants (drain_into room q).0 st) d.kept
      ∙ on_data_chunks grants (drain_into room q).0 (wire (drain_into room q).1) st
      ∙ ap (λ w. on_data grants w st) d.joined

  abbrev IsSettled : CallState → Type 0
  IsSettled st = on_data grants [] st ≡ st

  on_data-IsSettled : (bytes : List ℕ) (st : CallState) → IsSettled (on_data grants bytes st)
  on_data-IsSettled bytes st =
      on_data_chunks grants bytes [] st ∙ ap (λ w. on_data grants w st) (append-nil bytes)

  pump-IsSettled :
      (rooms : List ℕ) (q : OutQueue) (st : CallState)
      → IsSettled st
      → IsSettled (pump grants rooms q st).0
  unfolding pump
  pump-IsSettled [] q st s = s
  pump-IsSettled (room ∷ rooms) q st s =
      pump-IsSettled rooms _ (on_data grants (drain_into room q).0 st) (on_data-IsSettled _ st)

abbrev frames : List (List ℕ) → List ℕ
frames [] = []
frames (b ∷ bs) = encode_header false (length b) ++ (b ++ frames bs)

abbrev pub IsShort : List ℕ → Type 0
IsShort b = length b ≤ max_message_len

wire-enqueue_all :
    (bs : List (List ℕ)) (q : OutQueue)
    → IsValid q
    → q.backpressure ≡ unbounded
    → All IsShort bs
    → IsValid (enqueue_all bs q) × (wire (enqueue_all bs q) ≡ wire q ++ frames bs)
unfolding enqueue_all
wire-enqueue_all [] q v e short = (v, sym (append-nil (wire q)))
wire-enqueue_all (b ∷ bs) q v e (hb, hbs) =
    let (v', w) =
      wire-enqueue_all bs (enqueue_owned true b q).0 (enqueue_owned-IsValid true b v)
        (backpressure-enqueue_owned true b q ∙ e) hbs in
    let pushed = wire-enqueue_owned b q v (HasRoom-of_unbounded q e) (omega arith) in
    (
      v',
      w
          ∙ ap (λ t. t ++ frames bs) pushed.1
          ∙ append_assoc (wire q) (encode_header false (length b) ++ b) (frames bs)
          ∙ ap (◌++◌ (wire q)) (append_assoc (encode_header false (length b)) b (frames bs)),
    )

deframe_bytes-nil : (grants : ℕ → Bool) → deframe_bytes grants [] ≡ ([], [])
unfolding deframe_bytes deframe_loop decode_header
deframe_bytes-nil grants = refl

reset-IsSettled :
    (grants : ℕ → Bool) (req : List ℕ) (st : CallState) → IsSettled grants (reset req st)
unfolding on_data reset
reset-IsSettled grants req st = rw (deframe_bytes-nil grants)

deframe_bytes-frames :
    (grants : ℕ → Bool) (bs : List (List ℕ))
    → ((n : ℕ) → grants n ≡ true)
    → All IsShort bs
    → deframe_bytes grants (frames bs) ≡ (bs, [])
deframe_bytes-frames grants [] g short = deframe_bytes-nil grants
deframe_bytes-frames grants (b ∷ bs) g (hb, hbs) =
    deframe_bytes-frame grants b (frames bs) g hb ∙ rw (deframe_bytes-frames grants bs g hbs)

wire-fresh :
    (bs : List (List ℕ))
    → All IsShort bs
    → IsValid (enqueue_all bs new) × (wire (enqueue_all bs new) ≡ frames bs)
unfolding new
wire-fresh bs short = wire-enqueue_all bs new new-IsValid refl short

abbrev HasAll : List (List ℕ) → CallState → Type 0
HasAll bs st = (st.messages ≡ bs) × (st.inbuf ≡ [])

on_data-frames :
    (grants : ℕ → Bool) (bs : List (List ℕ)) (req : List ℕ) (st : CallState)
    → ((n : ℕ) → grants n ≡ true)
    → All IsShort bs
    → HasAll bs (on_data grants (frames bs) (reset req st))
unfolding on_data reset
on_data-frames grants bs req st g short = rw (deframe_bytes-frames grants bs g short) (refl, refl)

-- A fresh stream onto which a handler writes messages of at most the client's limit, drained in
-- rounds of any sizes into a client's fresh call with memory to be had: the messages that the
-- client has are at every moment the first of those written, unchanged and in order, and all of
-- them once nothing is left to be sent.
pub pump_delivers :
    (grants : ℕ → Bool) (bs : List (List ℕ)) (rooms : List ℕ) (req : List ℕ) (st : CallState)
    → ((n : ℕ) → grants n ≡ true)
    → All IsShort bs
    → let (st', q') = pump grants rooms (enqueue_all bs new) (reset req st) in
      ((more : List (List ℕ)) × (st'.messages ++ more ≡ bs))
      × (wire q' ≡ [] → (st'.messages ≡ bs) × (st'.inbuf ≡ []))
unfolding on_data
pump_delivers grants bs rooms req st g short = (
  (_, ap (λ (s : CallState). s.messages) final ∙ all.0),
  λ e. subst (HasAll bs) (sym (sym settled ∙ ap (λ w. on_data grants w st') (sym e) ∙ final)) all,
)
  where
    st' : CallState
    st' = (pump grants rooms (enqueue_all bs new) (reset req st)).0

    q' : OutQueue
    q' = (pump grants rooms (enqueue_all bs new) (reset req st)).1

    settled : on_data grants [] st' ≡ st'
    settled = pump-IsSettled grants rooms _ (reset req st) (reset-IsSettled grants req st)

    final : on_data grants (wire q') st' ≡ on_data grants (frames bs) (reset req st)
    final =
        pump-on_data grants rooms (enqueue_all bs new) (reset req st) (wire-fresh bs short).0
        ∙ ap (λ w. on_data grants w (reset req st)) (wire-fresh bs short).1

    all : HasAll bs (on_data grants (frames bs) (reset req st))
    all = on_data-frames grants bs req st g short
