-- ===== src/Capi/Client/Unary.antt =====
-- The response of a unary call through the C interface, against the bytes handed over since its
-- submission.

use grpc_uds.Prelude.{
  ℕ, ◌≡◌, refl, sym, ap, ◌∙◌, Bool, true, false, List, [], ◌∷◌, Option, ok, err, if◌then◌else◌,
  ◌||◌, ◌&&◌,
}
use grpc_uds.Client.Call.{CallState, reset, deframe_bytes}
use grpc_uds.Client.Conn.{ClientConn, Turn, Pumped, pump}
use grpc_uds.Client.Conn.Receive.{HearsAll, pump-HearsAll}
use grpc_uds.Client.Conn.Recv.{
  message, ended, waiting, failed, Outcome, recv_next, recv_round, recv_last, has_status, recv,
  unary_loop,
}
use grpc_uds.Client.Conn.Recv.Order.{deframe_bytes-nil}
use grpc_uds.Client.Conn.Submit.{Reply, Made, on_submitted, submit, unary}
use grpc_uds.Client.Conn.Submit.Request.{Fresh, Submitted, submit-Submitted}
use grpc_uds.Capi.{slice}
use grpc_uds.Capi.Client.{null, handle, pending, Answer, body_of, response_of, on_end, unary_on}

abbrev pub first : List (List ℕ) → List ℕ
first [] = []
first (m ∷ ms) = m

if_true :
    {A : Type 0} (P : A → Type 0) (b : Bool) (x y : A) → b ≡ true → P x → P (if b then x else y)
if_true P true x y e p = p
if_true P false x y e p = absurd (cc)

module _ (grants : ℕ → Bool) where
  -- The body of a response is the first of the messages of the bytes that came, or empty.
  abbrev pub IsFirst : Answer → Type 0
  IsFirst (c, null) = Unit
  IsFirst (c, handle r) = r.body ≡ first (deframe_bytes grants c.received).0
  IsFirst (c, pending) = Unit

  -- The loop of a unary call ends at a closed call.
  abbrev Done : Outcome → Type 0
  Done (c, ts, message m) = ⊥
  Done (c, ts, ended) = HearsAll grants [] c × (c.state.closed ≡ true)
  Done (c, ts, waiting) = Unit
  Done (c, ts, failed e) = Unit

  recv_next-Done :
      (next : ClientConn → Outcome) (ts : List Turn) (p : Pumped)
      → HearsAll grants [] p.0
      → ((c : ClientConn) → HearsAll grants [] c → Done (next c))
      → Done (recv_next next ts p)
  recv_next-Done next ts (c, ok _) h later = later c h
  recv_next-Done next ts (c, err e) h later = tt

  unary_loop-Done :
      (ts : List Turn) (c : ClientConn) → HearsAll grants [] c → Done (unary_loop grants ts c)
  unfolding unary_loop
  unary_loop-Done [] c h = go c.state.closed refl
    where
      go : (b : Bool) → c.state.closed ≡ b → Done (c, [], if b then ended else waiting)
      go true e = (h, e)
      go false e = tt
  unary_loop-Done (t ∷ ts) c h = go c.state.closed refl (
      recv_next-Done (unary_loop grants ts) ts (pump grants t c) (pump-HearsAll grants [] t c h)
        (unary_loop-Done ts))
    where
      go :
          (b : Bool)
          → c.state.closed ≡ b
          → Done (recv_next (unary_loop grants ts) ts (pump grants t c))
          → Done (
              if b
              then (c, t ∷ ts, ended)
              else recv_next (unary_loop grants ts) ts (pump grants t c))
      go true e later = (h, e)
      go false e later = later

  -- On a closed call, `recv` gives the message at the front, or ends.
  abbrev Takes : ClientConn → Outcome → Type 0
  Takes c (c', ts, got) = (body_of got ≡ first c.state.messages) × (c'.received ≡ c.received)

  recv-Takes :
      (ts : List Turn) (c : ClientConn) → c.state.closed ≡ true → Takes c (recv grants ts c)
  unfolding recv
  recv-Takes [] c e = go c.state.messages refl
    where
      go : (ms : List (List ℕ)) → c.state.messages ≡ ms → Takes c (recv_last c ms)
      go [] m =
          if_true (Takes c) c.state.closed (c, [], ended) (c, [], waiting) e
            (sym (ap first m), refl)
      go (x ∷ ms) m = (sym (ap first m), refl)
  recv-Takes (t ∷ ts) c e = go c.state.messages refl
    where
      go :
          (ms : List (List ℕ))
          → c.state.messages ≡ ms
          → Takes c (recv_round grants (recv grants ts) t ts c ms)
      go [] m =
          if_true (Takes c) (c.state.closed || (t.idle && has_status c.state.grpc_status))
            (c, t ∷ ts, ended) (recv_next (recv grants ts) ts (pump grants t c))
            (ap (λ b. b || (t.idle && has_status c.state.grpc_status)) e) (sym (ap first m), refl)
      go (x ∷ ms) m = (sym (ap first m), refl)

  response_of-IsFirst :
      (c : ClientConn) (o : Outcome) → HearsAll grants [] c → Takes c o → IsFirst (response_of c o)
  response_of-IsFirst c (c', ts, got) h (body, same) =
      body ∙ sym (ap (λ r. first r.0) h) ∙ ap (λ l. first (deframe_bytes grants l).0) (sym same)

  on_end-IsFirst :
      (c : ClientConn) (closed : List ℕ) (o : Outcome)
      → Done o
      → IsFirst (on_end grants (o.0, closed, o.1, o.2))
  on_end-IsFirst c closed (c', ts, message m) d = elim d [ ]
  on_end-IsFirst c closed (c', ts, ended) (h, e) =
      response_of-IsFirst c' (recv grants ts c') h (recv-Takes ts c' e)
  on_end-IsFirst c closed (c', ts, waiting) d = tt
  on_end-IsFirst c closed (c', ts, failed x) d = tt

  Fresh-HearsAll :
      (req : List ℕ) (sid : ℕ) (timeout deadline : Option ℕ) (c : ClientConn)
      → Fresh req sid timeout deadline c
      → HearsAll grants [] c
  unfolding reset
  Fresh-HearsAll req sid timeout deadline c (none_yet, state, i, t, d) =
      ap (deframe_bytes grants) none_yet
      ∙ deframe_bytes-nil grants
      ∙ sym (ap (λ (s : CallState). (s.messages, s.inbuf)) state)

  on_submitted-IsFirst :
      (r : Reply) (req : List ℕ) (timeout : Option ℕ) (ts : List Turn) (m : Made ℕ)
      → Submitted r req timeout m
      → IsFirst (on_end grants (on_submitted grants ts m))
  on_submitted-IsFirst r req timeout ts (c, closed, err e) h = tt
  on_submitted-IsFirst r req timeout ts (c, closed, ok sid) h =
      on_end-IsFirst c closed (unary_loop grants ts c)
        (unary_loop-Done ts c (Fresh-HearsAll req sid _ _ c h))

  -- When `grpcuds_client_unary` returns a response, its body is the first message of the body bytes
  -- that nghttp2 handed over since the submission of this call, of whatever stream, or empty when
  -- they hold no message; bytes or messages from before the submission are not in it.
  pub unary_on-IsFirst :
      (r : Reply) (ts : List Turn) (path : List ℕ) (req : Option (List ℕ)) (req_len : ℕ)
      (c : ClientConn)
      → IsFirst (unary_on grants r ts path req req_len c)
  unfolding unary_on unary
  unary_on-IsFirst r ts path req req_len c =
      on_submitted-IsFirst r (slice req req_len) c.timeout_ms ts
        (submit r path (slice req req_len) c) (submit-Submitted r path (slice req req_len) c)
