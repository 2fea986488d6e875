-- ===== src/Db/Pool/Queues.antt =====
-- src/db/db_worker_pool.cpp: `submit`, and what a worker does with its own queue.
use iocp_echo_server.Base.{
  ℕ, ◌+◌, ◌-◌, ◌*◌, ◌%◌, Bool, true, false, not, ◌&&◌, ltb, if◌then◌else◌, List, [], ◌∷◌, length,
  is_nil,
}
use iocp_echo_server.Core.SwapQueue.{SwapQueue, new_queue, swap, clear_taken}
use iocp_echo_server.Core.SwapQueue
use iocp_echo_server.Db.Types.{Request, Response}
use iocp_echo_server.Db.Dispatcher
use iocp_echo_server.Db.Worker.{Database, Dispatch, Worker, reject, serve}
use iocp_echo_server.Db.Pool.{WorkerPool, Seat, notify, max_queue_per_worker, seat_at, update_at}

unfoldable pub shard_of : (List ℕ → ℕ) → List ℕ → ℕ → ℕ
shard_of hash key count = hash key % count

module _ {World : Type 0} where
  -- The first conditions of `submit`.
  unfoldable pub accepts : WorkerPool World → Bool
  accepts pool = pool.running && not (is_nil pool.workers) && not pool.draining

  -- `submit` to a worker's own queue: the look at its depth, and the rest.
  unfoldable pub has_room : Seat World → Bool
  has_room seat = ltb seat.worker.depth max_queue_per_worker

  unfoldable pub place : Request → Seat World → Seat World
  place req seat =
      let worker = seat.worker in
      notify (record seat {
        worker = record worker { depth = worker.depth + 1 };
        queue = SwapQueue.push req seat.queue;
      })

  unfoldable pub shard : (List ℕ → ℕ) → Request → WorkerPool World → ℕ
  shard hash req pool = shard_of hash req.session_key (length pool.workers)

  unfoldable pub submit_static : (List ℕ → ℕ) → Request → WorkerPool World → Bool × WorkerPool World
  submit_static hash req pool =
      let i = shard hash req pool in
      if seat_at false has_room i pool.workers
      then (true, record pool { workers = update_at i (place req) pool.workers })
      else (false, pool)

  unfoldable pub submit_shared : Request → WorkerPool World → Bool × WorkerPool World
  submit_shared req pool =
      let (done, rest) =
        Dispatcher.push req (max_queue_per_worker * length pool.workers) pool.shared in
      (done, record pool { shared = rest })

  unfoldable pub submit : (List ℕ → ℕ) → Request → WorkerPool World → Bool × WorkerPool World
  submit hash req pool = if accepts pool then submit_to pool.dispatch else (false, pool)
    where
      submit_to : Dispatch → Bool × WorkerPool World
      submit_to Dispatch.static = submit_static hash req pool
      submit_to Dispatch.dynamic = submit_shared req pool

  -- A round of `run` over the worker's own queue, as one step: the depth is lowered after each
  -- request in the program, and here it is read after the round.
  unfoldable pub serve_round : Database World → ℕ → Seat World → List Response × Seat World
  serve_round db batch_size seat =
      let (batch, q) = swap seat.queue in
      let (sent, worker) = serve db Dispatch.static batch_size batch [] seat.worker in
      (sent, record seat { worker = worker; queue = clear_taken q })

  -- The end of `run`: what is left is answered and not carried out.
  unfoldable pub tail_loop : List Request → Worker World → List Response × Worker World
  tail_loop [] worker = ([], worker)
  tail_loop (req ∷ reqs) worker =
      let (sent, worker') = tail_loop reqs (record worker { depth = worker.depth - 1 }) in
      (reject req ∷ sent, worker')

  unfoldable pub tail : Seat World → List Response × Seat World
  tail seat =
      let (left, q) = swap seat.queue in
      let (sent, worker) = tail_loop left seat.worker in
      (sent, record seat { worker = worker; queue = clear_taken q })
