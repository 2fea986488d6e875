-- ===== src/Db/Pool/Turns.antt =====
-- src/db/db_worker_pool.cpp: one worker's turn, and what it and the others leave in the queues.
use iocp_echo_server.Base.{
  ℕ, zero, suc, ◌<◌, ◌≡◌, refl, ap, if◌then◌else◌, ◌==◌, List, [], ◌∷◌, ◌++◌, map, append-nil,
  arith, length,
}
use mathlib.Core.List.{map-append}
use iocp_echo_server.Core.SwapQueue.{filling, swap, clear_taken, push}
use iocp_echo_server.Db.Types.{Request, Response}
use iocp_echo_server.Db.Worker.{Database, Dispatch, Worker, reject, blank}
use iocp_echo_server.Db.Worker.Answers.{Ticket, asks, tells, serve_answers}
use iocp_echo_server.Db.Pool.{Seat, notify, update_at, seat_at}
use iocp_echo_server.Db.Pool.Queues.{place, serve_round, tail, tail_loop}

module _ {World : Type 0} where
  -- What the requests that wait ask for.
  abbrev pub waiting : Seat World → List Ticket
  waiting seat = map asks (filling seat.queue)

  abbrev pub waits_at : ℕ → List (Seat World) → List Ticket
  waits_at i seats = seat_at [] waiting i seats

  -- A worker's part of a step: what it sent, and the workers after it.
  unfoldable pub turn :
      (Seat World → List Response × Seat World)
      → ℕ
      → List (Seat World)
      → List Response × List (Seat World)
  turn f i [] = ([], [])
  turn f zero (seat ∷ seats) = let (sent, seat') = f seat in (sent, seat' ∷ seats)
  turn f (suc i) (seat ∷ seats) = let (sent, seats') = turn f i seats in (sent, seat ∷ seats')

  -- A function of one worker that answers what it takes, in order.
  abbrev pub Fair : (Seat World → List Response × Seat World) → Type 0
  Fair f = (seat : Seat World) → map tells (f seat).0 ++ waiting (f seat).1 ≡ waiting seat

  tail_loop-tells :
      (reqs : List Request) (worker : Worker World)
      → map tells (tail_loop reqs worker).0 ≡ map asks reqs
  unfolding tail_loop reject blank
  tail_loop-tells [] worker = refl
  tail_loop-tells (req ∷ reqs) worker = ap (◌∷◌ (asks req)) (tail_loop-tells reqs _)

  pub tail-Fair : Fair tail
  unfolding tail swap clear_taken
  tail-Fair seat = ground (
    arith,
    tail_loop-tells (filling seat.queue) seat.worker,
    append-nil (map asks seat.queue.first),
    append-nil (map asks seat.queue.second),
  )

  pub serve_round-Fair : (db : Database World) (batch_size : ℕ) → Fair (serve_round db batch_size)
  unfolding serve_round swap clear_taken
  serve_round-Fair db batch_size seat = ground (
    arith,
    serve_answers db Dispatch.static batch_size (filling seat.queue) [] seat.worker,
    append-nil (map asks seat.queue.first),
    append-nil (map asks seat.queue.second),
  )

  pub turn_accounts :
      (f : Seat World → List Response × Seat World) (i j : ℕ) (seats : List (Seat World))
      → Fair f
      → map tells (if j == i then (turn f j seats).0 else []) ++ waits_at i (turn f j seats).1
        ≡ waits_at i seats
  unfolding turn
  turn_accounts f i j [] h = ground arith
  turn_accounts f zero zero (seat ∷ seats) h = h seat
  turn_accounts f (suc i) zero (seat ∷ seats) h = ground arith
  turn_accounts f zero (suc j) (seat ∷ seats) h = ground arith
  turn_accounts f (suc i) (suc j) (seat ∷ seats) h = ground (arith, turn_accounts f i j seats h)

  pub place_accounts :
      (req : Request) (i j : ℕ) (seats : List (Seat World))
      → i < length seats
      → waits_at i (update_at j (place req) seats)
        ≡ waits_at i seats ++ map asks (if j == i then req ∷ [] else [])
  unfolding place push notify
  place_accounts req i j [] h = absurd (omega arith)
  place_accounts req zero zero (seat ∷ seats) h = ground (
    arith,
    map-append asks seat.queue.first (req ∷ []),
    map-append asks seat.queue.second (req ∷ []),
  )
  place_accounts req (suc i) zero (seat ∷ seats) h = ground (arith, append-nil (waits_at i seats))
  place_accounts req zero (suc j) (seat ∷ seats) h = ground (arith, append-nil (waiting seat))
  place_accounts req (suc i) (suc j) (seat ∷ seats) h =
      ground (arith, place_accounts req i j seats (omega arith))

  pub notify_accounts :
      (i : ℕ) (seats : List (Seat World)) → waits_at i (map notify seats) ≡ waits_at i seats
  unfolding notify
  notify_accounts i [] = refl
  notify_accounts zero (seat ∷ seats) = refl
  notify_accounts (suc i) (seat ∷ seats) = notify_accounts i seats

  pub length-turn :
      (f : Seat World → List Response × Seat World) (j : ℕ) (seats : List (Seat World))
      → length (turn f j seats).1 ≡ length seats
  unfolding turn
  length-turn f j [] = refl
  length-turn f zero (seat ∷ seats) = refl
  length-turn f (suc j) (seat ∷ seats) = ap suc (length-turn f j seats)

  pub length-update_at :
      (f : Seat World → Seat World) (j : ℕ) (seats : List (Seat World))
      → length (update_at j f seats) ≡ length seats
  length-update_at f j [] = refl
  length-update_at f zero (seat ∷ seats) = refl
  length-update_at f (suc j) (seat ∷ seats) = ap suc (length-update_at f j seats)

  pub length-notified : (seats : List (Seat World)) → length (map notify seats) ≡ length seats
  length-notified [] = refl
  length-notified (seat ∷ seats) = ap suc (length-notified seats)
