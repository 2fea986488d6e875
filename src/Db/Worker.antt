-- ===== src/Db/Worker.antt =====
-- src/db/db_worker_pool.cpp: what one worker does with the requests that it has taken. `World` is
-- all that a call may change beyond the worker: the connection of src/db/mysql_connection.h, and
-- the clock. Responses go to `sink_` in the order of the list. `depth` is the static queue's count,
-- and `finished` lists the keys handed to the shared dispatcher's `finish`. The flag `connected`,
-- which only the statistics read, is left out.
pub mod Answers
pub mod Queries
use iocp_echo_server.Base.{
  ℕ, ◌+◌, ◌-◌, ◌/◌, Bool, true, false, not, ◌&&◌, ◌||◌, ◌==◌, ltb, leb, if◌then◌else◌, List, [],
  ◌∷◌, ◌++◌, length, is_nil, replicate,
}
use iocp_echo_server.Db.Types.{RequestKind, Status, Request, LogRow, Response, new_response}
use iocp_echo_server.Db.Types

-- `Connection` of mysql_connection.h as its callers meet it: whether the call worked, what it wrote
-- to its output arguments, and the world after it.
pub record Database (World : Type 0) : Type 0 where
  pub now_us : World → ℕ × World
  pub usable : World → Bool
  pub ensure_usable : World → Bool × World
  pub save : List ℕ → List ℕ → World → Bool × ℕ × World
  pub history : List ℕ → ℕ → World → Bool × List LogRow × World
  pub counter : List ℕ → List ℕ → World → Bool × ℕ × Bool × World
  pub begin_batch : World → Bool × World
  pub commit_batch : World → Bool × World
  pub rollback_batch : World → World

pub data Dispatch : Type 0 where
  static dynamic : Dispatch

unfoldable pub is_retry_safe : RequestKind → Bool
is_retry_safe RequestKind.save = false
is_retry_safe RequestKind.history = true
is_retry_safe RequestKind.counter = true

pub record Worker (World : Type 0) : Type 0 where
  pub world : World
  pub handled : ℕ
  pub depth : ℕ
  pub finished : List (List ℕ)

-- The response that a request starts from.
unfoldable pub blank : Request → Response
blank req = record new_response {
  kind = req.kind;
  conn_id = req.conn_id;
  submitted_us = req.submitted_us;
}

-- `reject`: a request that no worker will run is answered all the same.
unfoldable pub reject : Request → Response
reject req = record (blank req) { status = Status.unavailable }

-- The deadline has passed; 0 is none.
unfoldable pub late : ℕ → Request → Bool
late now req = ltb 0 req.deadline_us && ltb req.deadline_us now

unfoldable pub is_save : RequestKind → Bool
is_save RequestKind.save = true
is_save _ = false

module _ {World : Type 0} (db : Database World) (dispatch : Dispatch) (batch_size : ℕ) where
  -- The clock is read only where the deadline is set.
  unfoldable pub check_late : Request → World → Bool × World
  check_late req w =
      if ltb 0 req.deadline_us
      then (let (now, w') = db.now_us w in (late now req, w'))
      else (false, w)

  unfoldable pub batchable : Request → World → Bool × World
  batchable req w =
      if leb batch_size 1
      then (false, w)
      else if not (is_save req.kind)
      then (false, w)
      else let (expired, w') = check_late req w in (not expired, w')

  unfoldable pub run_kind : RequestKind → Request → Response → World → Bool × Response × World
  run_kind RequestKind.save req res w =
      let (done, id, w') = db.save req.session_key req.payload w in
      (done, record res { log_id = id }, w')
  run_kind RequestKind.history req res w =
      let (done, found, w') = db.history req.session_key req.limit w in
      (done, record res { rows = found }, w')
  run_kind RequestKind.counter req res w =
      let (done, hits, applied, w') = db.counter req.session_key req.request_key w in
      (done, record res { hit_count = hits; already_applied = applied }, w')

  unfoldable pub run_once : Request → Response → World → Bool × Response × World
  run_once req res w = run_kind req.kind req res w

  -- The end of `handle`: the request was not carried out.
  unfoldable pub failed : Response → World → Response × World
  failed res w =
      (record res { status = if db.usable w then Status.failed else Status.unavailable }, w)

  -- One more attempt on a new connection.
  unfoldable pub retry : Request → Response → World → Response × World
  retry req res w =
      let (up, w') = db.ensure_usable w in
      if up
      then (let (done, res', w'') = run_once req res w' in
          if done then (record res' { status = Status.ok }, w'') else failed res' w'')
      else failed res w'

  unfoldable pub attempt : Request → Response → World → Response × World
  attempt req res w =
      let (done, res', w') = run_once req res w in
      if done
      then (record res' { status = Status.ok }, w')
      else if not (db.usable w') && is_retry_safe req.kind
      then retry req res' w'
      else failed res' w'

  unfoldable pub handle : Request → Response → World → Response × World
  handle req res w =
      let (expired, w') = check_late req w in
      if expired
      then (record res { status = Status.expired }, w')
      else if not (db.usable w')
      then (record res { status = Status.unavailable }, w')
      else attempt req res w'

  unfoldable pub process : Request → Worker World → Response × Worker World
  process req worker =
      let (begin_us, w0) = db.now_us worker.world in
      let (res, w1) = handle req (blank req) w0 in
      let (end_us, w2) = db.now_us w1 in
      (
        record res { db_us = end_us - begin_us },
        record worker { world = w2; handled = worker.handled + 1 },
      )

  unfoldable pub release : List ℕ → Worker World → Worker World
  release key worker = release_in dispatch
    where
      release_in : Dispatch → Worker World
      release_in Dispatch.dynamic = record worker { finished = worker.finished ++ (key ∷ []) }
      release_in Dispatch.static = record worker { depth = worker.depth - 1 }

  unfoldable pub release_all : List Request → Worker World → Worker World
  release_all [] worker = worker
  release_all (req ∷ reqs) worker = release_all reqs (release req.session_key worker)

  -- The saves of a batch, up to the first that fails: whether none did, and the ids so far.
  unfoldable pub save_each : List Request → World → Bool × List ℕ × World
  save_each [] w = (true, [], w)
  save_each (req ∷ reqs) w =
      let (done, id, w') = db.save req.session_key req.payload w in
      let (rest, ids, w'') = save_each reqs w' in
      if done then (rest, id ∷ ids, w'') else (false, id ∷ [], w')

  -- The whole transaction.
  unfoldable pub transact : List Request → World → Bool × List ℕ × World
  transact saves w =
      let (begun, w1) = db.begin_batch w in
      let (saved, ids, w2) = save_each saves w1 in
      let (committed, w3) = db.commit_batch w2 in
      if not begun
      then (false, [], db.rollback_batch w1)
      else if not saved
      then (false, ids, db.rollback_batch w2)
      else if not committed
      then (false, ids, db.rollback_batch w3)
      else (true, ids, w3)

  unfoldable pub answers : Status → ℕ → List Request → List ℕ → List Response
  answers status per_us [] ids = []
  answers status per_us (req ∷ reqs) [] =
      record (blank req) { status = status; db_us = per_us } ∷ answers status per_us reqs []
  answers status per_us (req ∷ reqs) (id ∷ ids) =
      record (blank req) { status = status; log_id = id; db_us = per_us }
      ∷ answers status per_us reqs ids

  unfoldable pub flush_batch : List Request → Worker World → List Response × Worker World
  flush_batch saves worker =
      let (begin_us, w0) = db.now_us worker.world in
      let (ok, ids, w1) = transact saves w0 in
      let (end_us, w2) = db.now_us w1 in
      let status =
        if ok then Status.ok else if db.usable w2 then Status.failed else Status.unavailable in
      (
        answers status ((end_us - begin_us) / length saves) saves (if ok then ids else []),
        release_all saves (record worker { world = w2; handled = worker.handled + length saves }),
      )

  unfoldable pub flush_saves : List Request → Worker World → List Response × Worker World
  flush_saves [] worker = ([], worker)
  flush_saves (req ∷ []) worker =
      let (res, worker') = process req worker in (res ∷ [], release req.session_key worker')
  flush_saves (req ∷ next ∷ more) worker = flush_batch (req ∷ next ∷ more) worker

  -- The static queue's batch, with the saves gathered so far.
  unfoldable pub serve : List Request → List Request → Worker World → List Response × Worker World
  serve [] saves worker = flush_saves saves worker
  serve (req ∷ reqs) saves worker =
      let (gather, w) = batchable req worker.world in
      let worker' = record worker { world = w } in
      let gathered = saves ++ (req ∷ []) in
      let (sent, flushed) = flush_saves (if gather then gathered else saves) worker' in
      let (res, processed) = process req flushed in
      let after_full = serve reqs [] flushed in
      let after_gather = serve reqs gathered worker' in
      let after_one = serve reqs [] (record processed { depth = processed.depth - 1 }) in
      if gather
      then if leb batch_size (length gathered)
        then (sent ++ after_full.0, after_full.1)
        else after_gather
      else (sent ++ (res ∷ after_one.0), after_one.1)
