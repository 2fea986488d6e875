-- ===== src/Db/Pool/Ends.antt =====
-- src/db/db_worker_pool.cpp: what the end of a worker's thread leaves.
use iocp_echo_server.Base.{
  ℕ, zero, suc, ◌<◌, ◌≡◌, refl, sym, ap, ◌∙◌, List, [], ◌∷◌, ◌++◌, map, append-nil, arith, length,
}
use mathlib.Core.List.{map-append}
use iocp_echo_server.Core.SwapQueue.{swap, clear_taken}
use iocp_echo_server.Db.Worker.{Database}
use iocp_echo_server.Db.Worker.Answers.{asks, tells}
use iocp_echo_server.Db.Pool.{Seat, WorkerPool}
use iocp_echo_server.Db.Pool.Queues.{tail}
use iocp_echo_server.Db.Pool.Accounts.{
  Op, tails, step, run, pool_answers, step-Balanced, length-run,
}
use iocp_echo_server.Db.Pool.Turns.{waits_at, turn}

module _ {World : Type 0} where
  turn-tail-empty : (i : ℕ) (seats : List (Seat World)) → waits_at i (turn tail i seats).1 ≡ []
  unfolding turn tail swap clear_taken
  turn-tail-empty i [] = refl
  turn-tail-empty zero (seat ∷ seats) = ground arith
  turn-tail-empty (suc i) (seat ∷ seats) = turn-tail-empty i seats

module _ {World : Type 0} (db : Database World) (hash : List ℕ → ℕ) (i : ℕ) where
  -- Where nothing waited at first and the worker's end comes last, every request placed with it
  -- was answered once and in order, and none waits.
  pub stop_answers :
      (ops : List Op) (pool : WorkerPool World)
      → i < length pool.workers
      → waits_at i pool.workers ≡ []
      → let (put, sent, pool') = run db hash i ops pool in
        let last = step db hash i (tails i) pool' in
        (map tells (sent ++ last.1) ≡ map asks put) × (waits_at i last.2.workers ≡ [])
  unfolding step
  stop_answers ops pool h e =
      let r = run db hash i ops pool in
      let a = pool_answers db hash i ops pool h in
      let s = step db hash i (tails i) r.2 in
      let b =
        step-Balanced db hash i (tails i) r.2 (omega (arith, h, length-run db hash i ops pool h)) in
      let left = map tells s.1 in
      let gone = turn-tail-empty i r.2.workers in
      (
        map-append tells r.1 s.1
            ∙ ap (◌++◌ (map tells r.1)) (
                sym (append-nil left)
                ∙ ap (◌++◌ left) (sym gone)
                ∙ b.0
                ∙ append-nil (waits_at i r.2.workers))
            ∙ a
            ∙ ap (λ xs. xs ++ map asks r.0) e,
        gone,
      )
