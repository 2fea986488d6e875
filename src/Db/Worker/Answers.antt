-- ===== src/Db/Worker/Answers.antt =====
-- src/db/db_worker_pool.cpp: requests and their answers.
use iocp_echo_server.Base.{
  ℕ, ◌-◌, ◌≡◌, refl, sym, ap, ap₂, ◌∙◌, leb, List, [], ◌∷◌, ◌++◌, map, length, Bool-cases, inl, inr,
  arith, append-nil, append_assoc,
}
use mathlib.Core.List.{map-append}
use iocp_echo_server.Db.Types.{RequestKind, Status, Request, Response}
use iocp_echo_server.Db.Worker.{
  Database, Dispatch, Worker, blank, check_late, batchable, run_kind, run_once, failed, retry,
  attempt, handle, process, answers, flush_batch, flush_saves, serve,
}

-- By what the logic thread knows which request a response belongs to.
pub record Ticket : Type 0 where
  pub kind : RequestKind
  pub conn_id : ℕ
  pub submitted_us : ℕ

abbrev pub asks : Request → Ticket
asks req = record { kind = req.kind; conn_id = req.conn_id; submitted_us = req.submitted_us }

abbrev pub tells : Response → Ticket
tells res = record { kind = res.kind; conn_id = res.conn_id; submitted_us = res.submitted_us }

joined :
    (xs ys : List Response) (reqs more : List Request)
    → map tells xs ≡ map asks reqs
    → map tells ys ≡ map asks more
    → map tells (xs ++ ys) ≡ map asks (reqs ++ more)
joined xs ys reqs more p q = map-append tells xs ys ∙ ap₂ ◌++◌ p q ∙ sym (map-append asks reqs more)

module _ {World : Type 0} (db : Database World) (dispatch : Dispatch) (batch_size : ℕ) where
  run_kind-tells :
      (k : RequestKind) (req : Request) (res : Response) (w : World)
      → tells (run_kind db dispatch batch_size k req res w).1 ≡ tells res
  unfolding run_kind
  run_kind-tells RequestKind.save req res w = refl
  run_kind-tells RequestKind.history req res w = refl
  run_kind-tells RequestKind.counter req res w = refl

  retry-tells :
      (req : Request) (res : Response) (w : World)
      → tells (retry db dispatch batch_size req res w).0 ≡ tells res
  unfolding retry failed run_once
  retry-tells req res w =
      let (up, w') = db.ensure_usable w in
      let t = run_kind-tells req.kind req res w' in ground arith

  attempt-tells :
      (req : Request) (res : Response) (w : World)
      → tells (attempt db dispatch batch_size req res w).0 ≡ tells res
  unfolding attempt failed run_once
  attempt-tells req res w =
      let (done, res', w') = run_kind db dispatch batch_size req.kind req res w in
      let t = run_kind-tells req.kind req res w in
      let u = retry-tells req res' w' in ground (arith, t, u)

  pub process-tells :
      (req : Request) (worker : Worker World)
      → tells (process db dispatch batch_size req worker).0 ≡ asks req
  unfolding process handle blank
  process-tells req worker =
      let w0 = (db.now_us worker.world).1 in
      let w1 = (check_late db dispatch batch_size req w0).1 in
      ground (arith, attempt-tells req (blank req) w1)

  answers-tells :
      (status : Status) (per_us : ℕ) (reqs : List Request) (ids : List ℕ)
      → map tells (answers db dispatch batch_size status per_us reqs ids) ≡ map asks reqs
  unfolding answers blank
  answers-tells status per_us [] ids = refl
  answers-tells status per_us (req ∷ reqs) [] =
      ap (◌∷◌ (asks req)) (answers-tells status per_us reqs [])
  answers-tells status per_us (req ∷ reqs) (id ∷ ids) =
      ap (◌∷◌ (asks req)) (answers-tells status per_us reqs ids)

  pub flush_saves-tells :
      (saves : List Request) (worker : Worker World)
      → map tells (flush_saves db dispatch batch_size saves worker).0 ≡ map asks saves
  unfolding flush_saves flush_batch
  flush_saves-tells [] worker = refl
  flush_saves-tells (req ∷ []) worker = ap (λ t. t ∷ []) (process-tells req worker)
  flush_saves-tells (req ∷ next ∷ more) worker = answers-tells _ _ (req ∷ next ∷ more) _

  -- The worker answers every request of the static queue's batch and every save gathered before
  -- it, once each and in order, whatever the database does and however saves are grouped.
  pub serve_answers :
      (reqs saves : List Request) (worker : Worker World)
      → map tells (serve db dispatch batch_size reqs saves worker).0 ≡ map asks (saves ++ reqs)
  unfolding serve
  serve_answers [] saves worker =
      flush_saves-tells saves worker ∙ ap (map asks) (sym (append-nil saves))
  serve_answers (req ∷ reqs) saves worker =
      let gathered = saves ++ (req ∷ []) in
      let w = (batchable db dispatch batch_size req worker.world).1 in
      let worker' = record worker { world = w } in
      elim (Bool-cases (batchable db dispatch batch_size req worker.world).0) [
        | inl gather ↦ elim (Bool-cases (leb batch_size (length gathered))) [
          | inl full ↦
              simp (gather, full)
                (joined _ _ gathered reqs (flush_saves-tells gathered worker')
                    (serve_answers reqs [] (flush_saves db dispatch batch_size gathered worker').1)
                  ∙ ap (map asks) (append_assoc saves (req ∷ []) reqs))
          | inr room ↦
              simp (gather, room)
                (serve_answers reqs gathered worker'
                  ∙ ap (map asks) (append_assoc saves (req ∷ []) reqs))
        ]
        | inr single ↦ simp single (
            let flushed = (flush_saves db dispatch batch_size saves worker').1 in
            let processed = (process db dispatch batch_size req flushed).1 in
            joined _ _ saves (req ∷ reqs) (flush_saves-tells saves worker') (
              ap₂ ◌∷◌ (process-tells req flushed)
                (serve_answers reqs [] (record processed { depth = processed.depth - 1 }))))
      ]
