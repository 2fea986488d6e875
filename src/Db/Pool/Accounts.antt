-- ===== src/Db/Pool/Accounts.antt =====
-- src/db/db_worker_pool.cpp: the workers' own queues over a sequence of steps, any interleaving of
-- the lanes that submit, the workers and the thread that stops them. A lane's look at the flags and
-- at the depth, and its placing of the request, are apart: the flags may have changed in between.
use iocp_echo_server.Base.{
  ℕ, ◌<◌, ◌≡◌, refl, sym, ap, ◌∙◌, if◌then◌else◌, ◌==◌, List, [], ◌∷◌, ◌++◌, map, append-nil,
  append_assoc, arith, length,
}
use mathlib.Core.List.{map-append}
use iocp_echo_server.Db.Types.{Request, Response}
use iocp_echo_server.Db.Worker.{Database}
use iocp_echo_server.Db.Worker.Answers.{asks, tells}
use iocp_echo_server.Db.Pool.{WorkerPool, update_at, drain, halt}
use iocp_echo_server.Db.Pool.Queues.{place, shard, serve_round, tail}
use iocp_echo_server.Db.Pool.Turns.{
  waits_at, turn, tail-Fair, serve_round-Fair, turn_accounts, place_accounts, notify_accounts,
  length-turn, length-update_at, length-notified,
}

pub data Op : Type 0 where
  places : Request → Op
  rounds tails : ℕ → Op
  drains halts : Op

module _ {World : Type 0} (db : Database World) (hash : List ℕ → ℕ) (i : ℕ) where
  -- What a step places in the queue of worker `i`, what that worker sends, and the pool.
  unfoldable pub step : Op → WorkerPool World → List Request × List Response × WorkerPool World
  step (places req) pool =
      let j = shard hash req pool in
      (
        if j == i then req ∷ [] else [],
        [],
        record pool { workers = update_at j (place req) pool.workers },
      )
  step (rounds j) pool =
      let (sent, seats) = turn (serve_round db pool.batch_size) j pool.workers in
      ([], (if j == i then sent else []), record pool { workers = seats })
  step (tails j) pool =
      let (sent, seats) = turn tail j pool.workers in
      ([], (if j == i then sent else []), record pool { workers = seats })
  step drains pool = ([], [], drain pool)
  step halts pool = ([], [], halt pool)

  unfoldable pub run : List Op → WorkerPool World → List Request × List Response × WorkerPool World
  run [] pool = ([], [], pool)
  run (op ∷ ops) pool =
      let (put, sent, pool') = step op pool in
      let (put', sent', pool'') = run ops pool' in (put ++ put', sent ++ sent', pool'')

module _ {World : Type 0} (db : Database World) (hash : List ℕ → ℕ) (i : ℕ) where
  -- A step keeps the account of worker `i`, and the number of workers.
  abbrev pub Balanced : List Request → List Response → WorkerPool World → WorkerPool World → Type 0
  Balanced put sent pool pool' =
      (map tells sent ++ waits_at i pool'.workers ≡ waits_at i pool.workers ++ map asks put)
      × (length pool'.workers ≡ length pool.workers)

  pub step-Balanced :
      (op : Op) (pool : WorkerPool World)
      → i < length pool.workers
      → let s = step db hash i op pool in Balanced s.0 s.1 pool s.2
  unfolding step drain halt
  step-Balanced (places req) pool h =
      let j = shard hash req pool in
      (place_accounts req i j pool.workers h, length-update_at (place req) j pool.workers)
  step-Balanced (rounds j) pool h =
      let f = serve_round db pool.batch_size in
      (
        turn_accounts f i j pool.workers (serve_round-Fair db pool.batch_size)
            ∙ sym (append-nil (waits_at i pool.workers)),
        length-turn f j pool.workers,
      )
  step-Balanced (tails j) pool h = (
    turn_accounts tail i j pool.workers tail-Fair ∙ sym (append-nil (waits_at i pool.workers)),
    length-turn tail j pool.workers,
  )
  step-Balanced drains pool h = ground (
    arith,
    notify_accounts i pool.workers,
    length-notified pool.workers,
    append-nil (waits_at i pool.workers),
  )
  step-Balanced halts pool h = ground (
    arith,
    notify_accounts i pool.workers,
    length-notified pool.workers,
    append-nil (waits_at i pool.workers),
  )

  pub length-run :
      (ops : List Op) (pool : WorkerPool World)
      → i < length pool.workers
      → length (run db hash i ops pool).2.workers ≡ length pool.workers
  unfolding run
  length-run [] pool h = refl
  length-run (op ∷ ops) pool h =
      let b = step-Balanced op pool h in
      length-run ops (step db hash i op pool).2 (omega (arith, b.1)) ∙ b.1

  -- With each worker's own queue, over any interleaving of requests placed, rounds and ends of
  -- workers, drain and stop: what a worker answers, followed by what waits in its queue, is in
  -- order what waited and what was placed with it, each once, whatever the database does.
  pub pool_answers :
      (ops : List Op) (pool : WorkerPool World)
      → i < length pool.workers
      → let (put, sent, pool') = run db hash i ops pool in
        map tells sent ++ waits_at i pool'.workers ≡ waits_at i pool.workers ++ map asks put
  unfolding run
  pool_answers [] pool h = sym (append-nil (waits_at i pool.workers))
  pool_answers (op ∷ ops) pool h =
      let s = step db hash i op pool in
      let b = step-Balanced op pool h in
      let r = run db hash i ops s.2 in
      let put = map asks s.0 in
      ap (λ xs. xs ++ waits_at i r.2.workers) (map-append tells s.1 r.1)
      ∙ append_assoc (map tells s.1) (map tells r.1) (waits_at i r.2.workers)
      ∙ ap (◌++◌ (map tells s.1)) (pool_answers ops s.2 (omega (arith, b.1)))
      ∙ sym (append_assoc (map tells s.1) (waits_at i s.2.workers) (map asks r.0))
      ∙ ap (λ xs. xs ++ map asks r.0) b.0
      ∙ append_assoc (waits_at i pool.workers) put (map asks r.0)
      ∙ ap (◌++◌ (waits_at i pool.workers)) (sym (map-append asks s.0 r.0))
