-- ===== src/Tests/Database.antt =====
-- The dispatcher of database requests, and a worker.
use iocp_echo_server.Base.{ℕ, ◌+◌, ◌≡◌, refl, true, false, List, [], ◌∷◌, ◌++◌}
use iocp_echo_server.Base.{◌⊎◌, ◌↔◌, some}
use iocp_echo_server.Base.Table.{find, set, text_key}
use iocp_echo_server.Db.Types.{RequestKind, Status, Request, new_request, new_response}
use iocp_echo_server.Db.Dispatcher.{
  RequestDispatcher, new_dispatcher, at, or_empty, push, take, take_loop, give, pick, front, finish,
  settle,
}
use iocp_echo_server.Db.Dispatcher.Order
use iocp_echo_server.Db.Dispatcher.Order.{Homed, of_key, step-Homed, run_order}
use iocp_echo_server.Db.Dispatcher.Ready.{take_excludes}
use iocp_echo_server.Db.Worker.{Database, Dispatch, Worker, check_late, handle}
use iocp_echo_server.Db.Worker.Queries.{save_once}

abbrev ask : Request
ask = record new_request {
  kind = RequestKind.history;
  conn_id = 4;
  session_key = 65 ∷ [];
  limit = 3;
}

abbrev ask_again : Request
ask_again = record ask { kind = RequestKind.save; payload = 1 ∷ [] }

abbrev script : List Order.Op
script =
    Order.pushes ask 10
    ∷ Order.pushes ask_again 10
    ∷ Order.takes
    ∷ Order.takes
    ∷ Order.finishes (65 ∷ [])
    ∷ Order.takes
    ∷ []

empty-Homed : Homed new_dispatcher
unfolding at or_empty find
empty-Homed k = tt

-- The second request waits until the first is finished with.
script_gives : (Order.run script new_dispatcher).0 ≡ ask ∷ ask_again ∷ []
unfolding Order.run Order.step push take take_loop give pick front at or_empty find set finish
    settle Order.optional
script_gives = refl

run_order_example :
    let (given, accepted, d') = Order.run script new_dispatcher in
    of_key (65 ∷ []) given ++ (at (65 ∷ []) d').waiting
    ≡ (at (65 ∷ []) new_dispatcher).waiting ++ of_key (65 ∷ []) accepted
run_order_example = run_order (65 ∷ []) script new_dispatcher empty-Homed

abbrev pushed : RequestDispatcher
pushed = (push ask 10 new_dispatcher).1

pushed-Homed : Homed pushed
unfolding push Order.step
pushed-Homed = step-Homed (Order.pushes ask 10) new_dispatcher empty-Homed

pushed_gives : (take pushed).0 ≡ some ask
unfolding push take take_loop give pick front at or_empty find set
pushed_gives = refl

take_excludes_example :
    ((at (65 ∷ []) pushed).working ≡ false) × ((at (65 ∷ []) (take pushed).1).working ≡ true)
take_excludes_example = take_excludes pushed ask pushed-Homed pushed_gives

-- A database on a counter: it goes up by one with each call, and is the clock too.
abbrev toy : Database ℕ
toy = record {
  now_us = λ n. (n, n + 1);
  usable = λ n. true;
  ensure_usable = λ n. (true, n + 1);
  save = λ key payload n. (true, n, n + 1);
  history = λ key limit n. (true, [], n + 1);
  counter = λ key request n. (true, n, false, n + 1);
  begin_batch = λ n. (true, n + 1);
  commit_batch = λ n. (true, n + 1);
  rollback_batch = λ n. n + 1;
}

abbrev idle_worker : Worker ℕ
idle_worker = record { world = 0; handled = 0; depth = 3; finished = [] }

save_once_example :
    (((handle toy Dispatch.static 8 ask_again new_response 5).1 ≡ 5)
      × ((handle toy Dispatch.static 8 ask_again new_response 5).0.log_id ≡ 0)
      × (((handle toy Dispatch.static 8 ask_again new_response 5).0.status ≡ Status.expired)
          ⊎ ((handle toy Dispatch.static 8 ask_again new_response 5).0.status
              ≡ Status.unavailable)))
    ⊎ (((handle toy Dispatch.static 8 ask_again new_response 5).1 ≡ 6)
        × ((handle toy Dispatch.static 8 ask_again new_response 5).0.log_id ≡ 5)
        × (((handle toy Dispatch.static 8 ask_again new_response 5).0.status ≡ Status.ok)
            ↔ (true ≡ true)))
unfolding check_late
save_once_example = save_once toy Dispatch.static 8 ask_again new_response 5 refl
