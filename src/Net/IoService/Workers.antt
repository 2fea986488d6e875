-- ===== src/Net/IoService/Workers.antt =====
-- src/net/io_service.cpp: the start and the stop of the service, and the loop of its workers. What
-- `GetQueuedCompletionStatus` gives is a notice; the port hands notices out in the order in which
-- they were put in. A pointer to an operation is a number, and `ov` is none for the null pointer.
use iocp_echo_server.Base.{
  ℕ, zero, suc, ◌/◌, ◌<◌, ◌≡◌, refl, min, max, Bool, true, false, not, ◌&&◌, ltb, ◌==◌,
  if◌then◌else◌, List, [], ◌∷◌, ◌++◌, Option, none, some, replicate, All, arith,
}
use iocp_echo_server.Base.Table.{Table}
use iocp_echo_server.Net.Connection.{Connection, close}
use iocp_echo_server.Net.IoService.{IoService}

-- Half the processors, at least 2 and at most 4, unless a number is asked for.
unfoldable pub decide_worker_count : ℕ → ℕ → ℕ
decide_worker_count requested processors =
    if ltb 0 requested
    then requested
    else min 4 (max 2 (if processors == 0 then 2 else processors / 2))

pub record Notice : Type 0 where
  pub ok : Bool
  pub key : ℕ
  pub transferred : ℕ
  pub ov : Option ℕ

-- `kExitKey`, 0 and the null pointer.
abbrev pub exit_notice : Notice
exit_notice = record { ok = true; key = 0; transferred = 0; ov = none }

unfoldable pub is_null : Option ℕ → Bool
is_null none = true
is_null (some op) = false

-- What a worker does with what the wait returned.
pub data Verdict : Type 0 where
  ends waits dispatches : Verdict

unfoldable pub worker_round : Bool → Bool → Notice → Verdict
worker_round running timed_out n =
    if n.ok
    then if n.key == 0 && n.transferred == 0 && is_null n.ov then ends else dispatches
    else if is_null n.ov
    then if timed_out then waits else if not running then ends else waits
    else dispatches

-- `stop` closes every connection, and later clears the table.
unfoldable pub close_all : Table ℕ Connection → Table ℕ Connection
close_all [] = []
close_all ((id, c) ∷ t) = (id, close c) ∷ close_all t

unfoldable pub gone_from : Table ℕ Connection → List Connection
gone_from [] = []
gone_from ((id, c) ∷ t) = c ∷ gone_from t

unfoldable pub stop_begin : IoService → IoService
stop_begin io = record io { connections = close_all io.connections }

unfoldable pub stop_end : IoService → IoService
stop_end io = record io { connections = []; abandoned = io.abandoned ++ gone_from io.connections }

-- The exit notices of `stop`, one for each worker.
unfoldable pub exits : ℕ → List Notice
exits workers = replicate workers exit_notice

-- The workers take notices until none of them is left, or no notice: what they dispatched, how many
-- workers are left, and what is still in the port.
unfoldable pub run_workers : Bool → List Notice → ℕ → List Notice × ℕ × List Notice
run_workers running notices zero = ([], zero, notices)
run_workers running [] (suc n) = ([], suc n, [])
run_workers running (notice ∷ notices) (suc n) =
    let fewer = run_workers running notices n in
    let same = run_workers running notices (suc n) in
    after (worker_round running false notice) fewer same
  where
    after :
        Verdict
        → List Notice × ℕ × List Notice
        → List Notice × ℕ × List Notice
        → List Notice × ℕ × List Notice
    after ends fewer same = fewer
    after waits fewer same = same
    after dispatches (done, workers, left) (done', workers', left') =
        (notice ∷ done', workers', left')

-- A completion of an operation, or a notice that the service posted itself.
abbrev pub HasOp : Notice → Type 0
HasOp n = is_null n.ov ≡ false

round-dispatches :
    (running timed_out : Bool) (n : Notice)
    → HasOp n
    → worker_round running timed_out n ≡ dispatches
unfolding worker_round
round-dispatches running timed_out n h = ground (arith, h)

exits_end :
    (running : Bool) (n : ℕ) (later : List Notice)
    → run_workers running (exits n ++ later) n ≡ ([], 0, later)
unfolding run_workers exits worker_round is_null
exits_end running zero later = refl
exits_end running (suc n) later = exits_end running n later

served_first :
    (running : Bool) (pending later : List Notice) (n : ℕ)
    → All HasOp pending
    → 0 < n
    → run_workers running (pending ++ (exits n ++ later)) n ≡ (pending, 0, later)
unfolding run_workers
served_first running [] later n h some_left = exits_end running n later
served_first running (notice ∷ pending) later zero h some_left = absurd (omega arith)
served_first running (notice ∷ pending) later (suc n) h some_left =
    simp
      (
        round-dispatches running false notice h.0,
        served_first running pending later (suc n) h.1 some_left,
      )
      refl

-- Whatever count of workers is decided on, there is one, and when the exit notices are put in
-- behind notices that all have an operation, the workers dispatch these in order and each of
-- them ends.
pub stop_serves :
    (requested processors : ℕ) (running : Bool) (pending later : List Notice)
    → All HasOp pending
    → let n = decide_worker_count requested processors in
      (0 < n) × (run_workers running (pending ++ (exits n ++ later)) n ≡ (pending, 0, later))
unfolding decide_worker_count
stop_serves requested processors running pending later h =
    let enough : 0 < decide_worker_count requested processors = ground arith in
    (enough, served_first running pending later (decide_worker_count requested processors) h enough)
