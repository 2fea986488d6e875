-- ===== src/Db/Worker/Queries.antt =====
-- src/db/db_worker_pool.cpp: how often a request reaches the database.
use iocp_echo_server.Base.{ℕ, ◌↔◌, ◌≡◌, true, ◌⊎◌, arith}
use iocp_echo_server.Db.Types.{RequestKind, Status, Request, Response}
use iocp_echo_server.Db.Worker.{
  Database, Dispatch, is_retry_safe, check_late, run_kind, run_once, failed, attempt, handle,
}

module _ {World : Type 0} (db : Database World) (dispatch : Dispatch) (batch_size : ℕ) where
  -- Handling a save leaves the world as the clock's reading left it, with the request refused,
  -- or as one call of save left it, with that call's id, and answers Ok exactly when that call
  -- worked.
  pub save_once :
      (req : Request) (res : Response) (w : World)
      → req.kind ≡ RequestKind.save
      → let out = handle db dispatch batch_size req res w in
        let before = (check_late db dispatch batch_size req w).1 in
        let saved = db.save req.session_key req.payload before in
        ((out.1 ≡ before)
          × (out.0.log_id ≡ res.log_id)
          × ((out.0.status ≡ Status.expired) ⊎ (out.0.status ≡ Status.unavailable)))
        ⊎ ((out.1 ≡ saved.2)
            × (out.0.log_id ≡ saved.1)
            × ((out.0.status ≡ Status.ok) ↔ (saved.0 ≡ true)))
  unfolding handle attempt failed run_once run_kind is_retry_safe
  save_once req res w e =
      let (expired, w') = check_late db dispatch batch_size req w in
      let (done, id, w'') = db.save req.session_key req.payload w' in simp e (ground arith)
