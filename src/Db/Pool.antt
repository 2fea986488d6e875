-- ===== src/Db/Pool.antt =====
-- src/db/db_worker_pool.h and db_worker_pool.cpp: the pool and its workers with their queues. The
-- hash of the standard library is a parameter. A count of workers is a natural number here: the
-- program takes a negative one for 1. Threads are started and joined by the operating system.
pub mod Turns
pub mod Accounts
pub mod Ends
pub mod Queues
pub mod Shared
pub mod Upkeep
use iocp_echo_server.Base.{
  ℕ, zero, suc, ◌+◌, ◌-◌, ◌*◌, ◌%◌, min, max, Bool, true, false, not, ◌&&◌, ◌||◌, ◌==◌, leb, ltb,
  if◌then◌else◌, List, [], ◌∷◌, ◌++◌, map, length, is_nil, replicate,
}
use iocp_echo_server.Base.Table.{same_text}
use iocp_echo_server.Core.SwapQueue.{SwapQueue, new_queue, swap, clear_taken}
use iocp_echo_server.Core.SwapQueue
use iocp_echo_server.Db.Types.{Request, Response}
use iocp_echo_server.Db.Dispatcher.{RequestDispatcher, new_dispatcher, take_all}
use iocp_echo_server.Db.Dispatcher
use iocp_echo_server.Db.Worker.{Dispatch, Worker, reject}

abbrev pub max_queue_per_worker : ℕ
max_queue_per_worker = 4096

abbrev dynamic_name : List ℕ
dynamic_name = b'd' ∷ b'y' ∷ b'n' ∷ b'a' ∷ b'm' ∷ b'i' ∷ b'c' ∷ []

abbrev static_name : List ℕ
static_name = b's' ∷ b't' ∷ b'a' ∷ b't' ∷ b'i' ∷ b'c' ∷ []

unfoldable pub parse_dispatch : List ℕ → Dispatch
parse_dispatch name = if same_text name dynamic_name then Dispatch.dynamic else Dispatch.static

unfoldable pub dispatch_name : Dispatch → List ℕ
dispatch_name Dispatch.dynamic = dynamic_name
dispatch_name Dispatch.static = static_name

-- `Worker` of the program: what it works with, its queue and its flags.
pub record Seat (World : Type 0) : Type 0 where
  pub worker : Worker World
  pub queue : SwapQueue Request
  pub signaled : Bool
  pub connected : Bool

pub record WorkerPool (World : Type 0) : Type 0 where
  pub running : Bool
  pub draining : Bool
  pub dispatch : Dispatch
  pub batch_size : ℕ
  pub workers : List (Seat World)
  pub shared : RequestDispatcher

abbrev pub clamp : ℕ → ℕ → ℕ → ℕ
clamp low high n = min high (max low n)

-- One element of a list is changed.
abbrev pub update_at {ℓ} : {A : Type ℓ} → ℕ → (A → A) → List A → List A
update_at i f [] = []
update_at zero f (x ∷ xs) = f x ∷ xs
update_at (suc i) f (x ∷ xs) = x ∷ update_at i f xs

abbrev pub seat_at {ℓ κ} : {A : Type ℓ} {B : Type κ} → B → (A → B) → ℕ → List A → B
seat_at none f i [] = none
seat_at none f zero (x ∷ xs) = f x
seat_at none f (suc i) (x ∷ xs) = seat_at none f i xs

module _ {World : Type 0} where
  abbrev new_pool : WorkerPool World
  new_pool = record {
    running = false;
    draining = false;
    dispatch = Dispatch.static;
    batch_size = 1;
    workers = [];
    shared = new_dispatcher;
  }

  unfoldable pub new_seat : World → Seat World
  new_seat w = record {
    worker = record { world = w; handled = 0; depth = 0; finished = [] };
    queue = new_queue;
    signaled = false;
    connected = false;
  }

  -- `draining_` keeps its value.
  unfoldable pub start :
      World → ℕ → Bool → Dispatch → ℕ → WorkerPool World → Bool × WorkerPool World
  start w count has_sink dispatch batch pool =
      if pool.running
      then (true, pool)
      else if not has_sink
      then (false, pool)
      else if count == 0
      then (true, pool)
      else (
        true,
        record pool {
          running = true;
          dispatch = dispatch;
          batch_size = clamp 1 256 batch;
          workers = pool.workers ++ replicate (clamp 1 64 count) (new_seat w);
        },
      )

  unfoldable pub notify : Seat World → Seat World
  notify seat = record seat { signaled = true }

  -- `drain` up to its wait.
  unfoldable pub drain : WorkerPool World → WorkerPool World
  drain pool =
      if pool.running
      then record pool { draining = true; workers = map notify pool.workers }
      else pool

  -- `stop` up to its wait for the threads.
  unfoldable pub halt : WorkerPool World → WorkerPool World
  halt pool =
      if pool.running
      then record pool { running = false; workers = map notify pool.workers }
      else pool

  -- `stop` after it: what is answered for the shared dispatcher, and the pool without workers.
  unfoldable pub clean_up : WorkerPool World → List Response × WorkerPool World
  clean_up pool = clean pool.dispatch
    where
      clean : Dispatch → List Response × WorkerPool World
      clean Dispatch.static = ([], record pool { workers = [] })
      clean Dispatch.dynamic =
          let (left, rest) = take_all pool.shared in
          (map reject left, record pool { workers = []; shared = rest })

  -- `stop` and `drain` go through `wake_shared`, which changes no state.
  unfoldable pub queued : WorkerPool World → ℕ
  queued pool = count pool.dispatch
    where
      total : List (Seat World) → ℕ
      total [] = 0
      total (seat ∷ seats) = seat.worker.depth + total seats

      count : Dispatch → ℕ
      count Dispatch.dynamic = pool.shared.depth
      count Dispatch.static = total pool.workers

  unfoldable pub count_connected : List (Seat World) → ℕ
  count_connected [] = 0
  count_connected (seat ∷ seats) =
      let rest = count_connected seats in if seat.connected then rest + 1 else rest

  unfoldable pub connected_workers : WorkerPool World → ℕ
  connected_workers pool = count_connected pool.workers
