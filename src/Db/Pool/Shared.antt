-- ===== src/Db/Pool/Shared.antt =====
-- src/db/db_worker_pool.cpp: the round of a worker that takes its requests from the shared
-- dispatcher. `going` is what the worker reads from `running_` after each request, and `others` what
-- the lanes and the other workers do to the dispatcher before each call of `take`. The fuel of the
-- loop is a number of requests.
pub mod Keys
pub mod Held
pub mod Answered
use iocp_echo_server.Base.{
  ℕ, zero, suc, ◌+◌, Bool, true, false, leb, if◌then◌else◌, List, [], ◌∷◌, ◌++◌, Option, none, some,
  length,
}
use iocp_echo_server.Db.Types.{Request, Response}
use iocp_echo_server.Db.Dispatcher.{RequestDispatcher, take, finish}
use iocp_echo_server.Db.Worker.{Database, Dispatch, Worker, batchable, flush_saves, process}

-- A worker in its round: the saves that it has gathered, and the dispatcher that all share.
pub record Desk (World : Type 0) : Type 0 where
  pub worker : Worker World
  pub saves : List Request
  pub shared : RequestDispatcher

-- What a part of the round took and sent.
pub record Done : Type 0 where
  pub taken : List Request
  pub sent : List Response

abbrev pub nothing_done : Done
nothing_done = record { taken = []; sent = [] }

abbrev pub and_then : Done → Done → Done
and_then a b = record { taken = a.taken ++ b.taken; sent = a.sent ++ b.sent }

unfoldable pub finish_all : List (List ℕ) → RequestDispatcher → RequestDispatcher
finish_all [] d = d
finish_all (key ∷ keys) d = finish_all keys (finish key d)

module _ {World : Type 0} (db : Database World) (batch_size : ℕ) where
  -- `flush_saves`, whose `release` hands each key to the dispatcher.
  unfoldable pub flush : Desk World → List Response × Desk World
  flush desk =
      let fresh = record (desk.worker) { finished = [] } in
      let (sent, worker) = flush_saves db Dispatch.dynamic batch_size desk.saves fresh in
      (
        sent,
        record {
          worker = record worker { finished = desk.worker.finished ++ worker.finished };
          saves = [];
          shared = finish_all worker.finished desk.shared;
        },
      )

  -- A request that is not gathered: the saves first, then it, and its key is finished.
  unfoldable pub run_single : Request → Desk World → List Response × Desk World
  run_single req desk =
      let (sent, flushed) = flush desk in
      let (res, worker) = process db Dispatch.dynamic batch_size req flushed.worker in
      (
        sent ++ (res ∷ []),
        record flushed {
          worker = record worker { finished = worker.finished ++ (req.session_key ∷ []) };
          shared = finish req.session_key flushed.shared;
        },
      )

  unfoldable pub gather : Request → Desk World → List Response × Desk World
  gather req desk =
      let gathered = record desk { saves = desk.saves ++ (req ∷ []) } in
      if leb batch_size (length gathered.saves) then flush gathered else ([], gathered)

  -- The body of the loop, with the request that `take` gave out.
  unfoldable pub serve_taken : Request → Desk World → List Response × Desk World
  serve_taken req desk =
      let (collect, w) = batchable db Dispatch.dynamic batch_size req desk.worker.world in
      let looked = record desk { worker = record (desk.worker) { world = w } } in
      if collect then gather req looked else run_single req looked

  -- A call of `take` and its request; whether there was one.
  unfoldable pub turn : Desk World → Bool × Done × Desk World
  turn desk = let (o, rest) = take desk.shared in with_taken o (record desk { shared = rest })
    where
      with_taken : Option Request → Desk World → Bool × Done × Desk World
      with_taken none desk' = (false, nothing_done, desk')
      with_taken (some req) desk' =
          let (sent, after) = serve_taken req desk' in
          (true, record { taken = req ∷ []; sent = sent }, after)

  unfoldable pub shared_loop :
      ℕ → (ℕ → Bool) → (ℕ → RequestDispatcher → RequestDispatcher) → Desk World → Done × Desk World
  shared_loop zero going others desk = (nothing_done, desk)
  shared_loop (suc n) going others desk =
      let (found, done, after) = turn (record desk { shared = others 0 desk.shared }) in
      let (rest, last) = shared_loop n (λ k. going (suc k)) (λ k. others (suc k)) after in
      if found then if going 0 then (and_then done rest, last) else (done, after) else (done, after)

  -- The loop, and what is still gathered after it.
  unfoldable pub shared_round :
      ℕ → (ℕ → Bool) → (ℕ → RequestDispatcher → RequestDispatcher) → Desk World → Done × Desk World
  shared_round fuel going others desk =
      let (done, after) = shared_loop fuel going others desk in
      let (sent, last) = flush after in (record done { sent = done.sent ++ sent }, last)
