-- ===== src/Tests/Workers.antt =====
-- The pool of database workers.
use iocp_echo_server.Base.{
  ℕ, ◌+◌, ◌≡◌, refl, ◌∙◌, Bool, true, false, List, [], ◌∷◌, ◌++◌, map, arith,
}
use iocp_echo_server.Db.Types.{RequestKind, Request, new_request}
use iocp_echo_server.Db.Dispatcher.{RequestDispatcher, new_dispatcher, push, at, or_empty}
use iocp_echo_server.Base.Table.{find, set, text_key}
use iocp_echo_server.Db.Worker.{Database, Dispatch}
use iocp_echo_server.Db.Worker.Answers.{asks, tells}
use iocp_echo_server.Db.Pool.{Seat, WorkerPool}
use iocp_echo_server.Db.Pool.Accounts.{Op, places, rounds, tails, halts, run, pool_answers}
use iocp_echo_server.Db.Pool.Turns.{waits_at}
use iocp_echo_server.Db.Pool.Shared.{Desk, shared_round}
use iocp_echo_server.Db.Pool.Shared.Held.{Elsewhere, shared_round_answers}
use iocp_echo_server.Db.Dispatcher.Order.{Homed, push-Homed, push-working}

abbrev asking : Request
asking = record new_request {
  kind = RequestKind.history;
  conn_id = 4;
  session_key = 65 ∷ [];
  limit = 3;
}

abbrev saving : Request
saving = record asking { kind = RequestKind.save; payload = 1 ∷ [] }

-- A database on a counter, which is its clock too.
abbrev counting : Database ℕ
counting = record {
  now_us = λ n. (n, n + 1);
  usable = λ n. true;
  ensure_usable = λ n. (true, n + 1);
  save = λ key payload n. (true, n, n + 1);
  history = λ key limit n. (true, [], n + 1);
  counter = λ key request n. (true, n, false, n + 1);
  begin_batch = λ n. (true, n + 1);
  commit_batch = λ n. (true, n + 1);
  rollback_batch = λ n. n + 1;
}

abbrev first_byte : List ℕ → ℕ
first_byte [] = 0
first_byte (c ∷ key) = c

abbrev seat : Seat ℕ
seat = record {
  worker = record { world = 0; handled = 0; depth = 0; finished = [] };
  queue = record { first = []; second = []; write = false };
  signaled = false;
  connected = true;
}

abbrev pool : WorkerPool ℕ
pool = record {
  running = true;
  draining = false;
  dispatch = Dispatch.static;
  batch_size = 8;
  workers = seat ∷ seat ∷ [];
  shared = new_dispatcher;
}

abbrev morning : List Op
morning = places saving ∷ places asking ∷ rounds 1 ∷ places saving ∷ halts ∷ tails 1 ∷ []

pool_answers_example :
    let (put, sent, pool') = run counting first_byte 1 morning pool in
    map tells sent ++ waits_at 1 pool'.workers ≡ waits_at 1 pool.workers ++ map asks put
pool_answers_example = pool_answers counting first_byte 1 morning pool (omega arith)

abbrev stocked : RequestDispatcher
stocked = (push asking 10 (push saving 10 new_dispatcher).1).1

abbrev desk : Desk ℕ
desk = record {
  worker = record { world = 0; handled = 0; depth = 0; finished = [] };
  saves = [];
  shared = stocked;
}

abbrev always : ℕ → Bool
always n = true

new_dispatcher-Homed : Homed new_dispatcher
unfolding at or_empty find
new_dispatcher-Homed k = tt

stocked-Homed : Homed stocked
stocked-Homed =
    push-Homed asking 10 (push saving 10 new_dispatcher).1
      (push-Homed saving 10 new_dispatcher new_dispatcher-Homed)

-- A lane puts in one more request for the key before each call of `take`.
abbrev lane_pushes : ℕ → RequestDispatcher → RequestDispatcher
lane_pushes n d = (push asking 10 d).1

lane_pushes-Elsewhere : Elsewhere counting 8 (65 ∷ []) lane_pushes
lane_pushes-Elsewhere = record {
  own_keys = λ n d h. push-Homed asking 10 d h;
  unmarked = λ n d e. push-working (65 ∷ []) asking 10 d ∙ e;
}

stocked_free : (at (65 ∷ []) stocked).working ≡ false
unfolding push at or_empty find set
stocked_free = refl

shared_round_answers_example :
    let (done, last) = shared_round counting 8 5 always lane_pushes desk in
    (map tells done.sent ≡ map asks done.taken)
    × (last.saves ≡ [])
    × ((at (65 ∷ []) last.shared).working ≡ false)
shared_round_answers_example =
    shared_round_answers counting 8 (65 ∷ []) 5 always lane_pushes desk refl stocked-Homed
      stocked_free lane_pushes-Elsewhere
