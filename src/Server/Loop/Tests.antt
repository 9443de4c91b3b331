-- ===== src/Server/Loop/Tests.antt =====
-- The loop on two rounds: a connection arrives, then its peer closes it.
use grpc_uds.Prelude.{
  ℕ, ◌≡◌, refl, arith, Bool, true, false, List, [], ◌∷◌, none, Result, ok, pos, negsuc,
}
use grpc_uds.Conn.{Conn, Answers}
use grpc_uds.Uds.{Recv, ReadAnswer, reads}
use grpc_uds.Uds.Listener.{AcceptAnswer}
use grpc_uds.Server.{CallShared, Status, OutOp, write, unary, find_slot, apply_op, tell, die, Flags}
use grpc_uds.Server.Routes.{on_conn}
use grpc_uds.Server.Loop.{
  Method, Revents, TickAnswers, Polled, Arrival, Round, Serving, PollAnswer, interrupted, polls,
  serve, handles, event, apply_mailbox,
}
use grpc_uds.Server.Loop.Tokens.{IsOrderly, serve-IsOrderly}
use grpc_uds.Server.Loop.Gone.{serve-Bounces}
use grpc_uds.Server.Loop.Rounds.{answered, apply_mailbox-unary}

abbrev session : Answers
session done cmd = pos 0

abbrev takes_all : Recv
takes_all bytes c = (c, ok 0)

abbrev tick : List ReadAnswer → TickAnswers
tick inputs = record {
  session = session;
  now = 5;
  recv = takes_all;
  inputs = inputs;
  room = true;
  stash = true;
  wants = true;
  pulls = [];
  answers = [];
}

abbrev readable : Revents
readable = record {
  pollin = true;
  pollout = false;
  pollhup = false;
  pollerr = false;
  pollnval = false;
}

abbrev ends : Polled
ends = record {
  revents = readable;
  tick = tick (reads [] ∷ []);
  events = [];
  wants_to_write = false;
  flush = tick [];
}

abbrev arrival : Arrival
arrival = record {
  session = session;
  created = ok tt;
  answer = AcceptAnswer.accepts 7;
  grants = (true, true) ∷ [];
}

abbrev turn : Bool → Round
turn ready = record {
  listener_ready = ready;
  arrivals = arrival ∷ [];
  woken = false;
  polled = λ t. ends;
  late = [];
  grants = λ k. true;
}

abbrev methods : List Method
methods = record { path = 47 ∷ []; entry = 100 } ∷ []

abbrev steps : List (Bool × PollAnswer)
steps =
    (false, polls (turn true))
    ∷ (false, interrupted)
    ∷ (false, polls (turn false))
    ∷ (true, interrupted)
    ∷ []

abbrev unused : CallShared
unused = record { finished = false; dead = false; overflow = false }

abbrev at_start : Serving
at_start = record {
  slots = [];
  next_token = 1;
  world = record { mailbox = record { ops = []; pokes = 0 }; flags = λ k. unused };
}

serve-IsOrderly_example : IsOrderly (serve methods steps at_start).0
serve-IsOrderly_example = serve-IsOrderly methods steps at_start (omega arith, tt)

abbrev later : Serving
later = record at_start { next_token = 2 }

abbrev lost : OutOp
lost = record { token = 1; call_id = 3; kind = write (7 ∷ []); shared = 50 }

abbrev flags : Flags
flags k = unused

serve-Bounces_example :
    let slots = (serve methods steps later).0.slots in
    apply_op true lost (record { slots = slots; flags = flags })
    ≡ record { slots = slots; flags = tell 50 die flags }
serve-Bounces_example = serve-Bounces 1 methods steps later true lost flags (omega arith, tt) refl

abbrev bare : Conn
bare = record {
  commands = [];
  streams = [];
  methods = [];
  max_message_len = 100;
  fd = negsuc 0;
  out_pending = [];
  fired = [];
  sent = [];
}

abbrev echo : List ℕ → Result (List ℕ) Status
echo req = ok req

abbrev one : Serving
one = record at_start {
  slots = record { token = 1; conn = bare; dead = false } ∷ [];
  next_token = 2;
}

abbrev grants : ℕ → Bool
grants k = true

apply_mailbox-unary_example :
    let world = event 1 (handles 50 3 none (7 ∷ []) (unary echo)) one.world in
    let st' = apply_mailbox grants (record one { world = world }) in
    (find_slot 1 st'.slots ≡ on_conn (answered grants 3 (ok (7 ∷ []))) (find_slot 1 one.slots))
    × (st'.world.mailbox.ops ≡ [])
apply_mailbox-unary_example = apply_mailbox-unary grants 50 1 3 none (7 ∷ []) echo one refl
