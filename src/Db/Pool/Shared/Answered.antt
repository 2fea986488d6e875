-- ===== src/Db/Pool/Shared/Answered.antt =====
-- src/db/db_worker_pool.cpp: what a worker of the shared dispatcher took, sent and finished.
use iocp_echo_server.Base.{
  ℕ, zero, suc, ◌≡◌, refl, sym, ap, ◌∙◌, Bool, leb, List, [], ◌∷◌, ◌++◌, length, map, append-nil,
  append_assoc, Bool-cases, Option-cases, inl, inr,
}
use mathlib.Core.List.{map-append}
use iocp_echo_server.Db.Types.{Request, Response}
use iocp_echo_server.Db.Dispatcher.{RequestDispatcher, take}
use iocp_echo_server.Db.Worker.{
  Database, Dispatch, Worker, batchable, flush_saves, flush_batch, release_all, release, process,
}
use iocp_echo_server.Db.Worker.Answers.{asks, tells, flush_saves-tells, process-tells}
use iocp_echo_server.Db.Pool.Shared.{
  Desk, flush, run_single, gather, serve_taken, turn, shared_loop, shared_round,
}

abbrev pub key_of : Request → List ℕ
key_of req = req.session_key

module _ {World : Type 0} (db : Database World) (batch_size : ℕ) where
  release_all-finished :
      (reqs : List Request) (worker : Worker World)
      → (release_all db Dispatch.dynamic batch_size reqs worker).finished
        ≡ worker.finished ++ map key_of reqs
  unfolding release_all release
  release_all-finished [] worker = sym (append-nil worker.finished)
  release_all-finished (req ∷ reqs) worker =
      release_all-finished reqs _
      ∙ append_assoc worker.finished (req.session_key ∷ []) (map key_of reqs)

  pub flush_saves-finished :
      (saves : List Request) (worker : Worker World)
      → (flush_saves db Dispatch.dynamic batch_size saves worker).1.finished
        ≡ worker.finished ++ map key_of saves
  unfolding flush_saves flush_batch release process
  flush_saves-finished [] worker = sym (append-nil worker.finished)
  flush_saves-finished (req ∷ []) worker = refl
  flush_saves-finished (req ∷ next ∷ more) worker = release_all-finished (req ∷ next ∷ more) _

  -- What was sent, and what is gathered, answers what was gathered and what was taken; the same of
  -- the keys that are finished.
  abbrev pub Balanced : List Request → List Response → Desk World → Desk World → Type 0
  Balanced taken sent desk after =
      (map tells sent ++ map asks after.saves ≡ map asks desk.saves ++ map asks taken)
      × (after.worker.finished ++ map key_of after.saves
          ≡ desk.worker.finished ++ (map key_of desk.saves ++ map key_of taken))

  flush-Balanced :
      (desk : Desk World)
      → Balanced [] (flush db batch_size desk).0 desk (flush db batch_size desk).1
  unfolding flush
  flush-Balanced desk =
      let fresh = record (desk.worker) { finished = [] } in
      (
        append-nil _
            ∙ flush_saves-tells db Dispatch.dynamic batch_size desk.saves fresh
            ∙ sym (append-nil _),
        append-nil _
            ∙ ap (◌++◌ desk.worker.finished)
                (flush_saves-finished desk.saves fresh ∙ sym (append-nil _)),
      )

  -- Two parts of a round, one after the other.
  Balanced-append :
      (t u : List Request) (s r : List Response) (a b c : Desk World)
      → Balanced t s a b
      → Balanced u r b c
      → Balanced (t ++ u) (s ++ r) a c
  Balanced-append t u s r a b c p q = (
    ap (λ xs. xs ++ map asks c.saves) (map-append tells s r)
        ∙ append_assoc (map tells s) (map tells r) (map asks c.saves)
        ∙ ap (◌++◌ (map tells s)) q.0
        ∙ sym (append_assoc (map tells s) (map asks b.saves) (map asks u))
        ∙ ap (λ xs. xs ++ map asks u) p.0
        ∙ append_assoc (map asks a.saves) (map asks t) (map asks u)
        ∙ ap (◌++◌ (map asks a.saves)) (sym (map-append asks t u)),
    q.1
        ∙ sym (append_assoc b.worker.finished (map key_of b.saves) (map key_of u))
        ∙ ap (λ xs. xs ++ map key_of u) p.1
        ∙ append_assoc a.worker.finished (map key_of a.saves ++ map key_of t) (map key_of u)
        ∙ ap (◌++◌ a.worker.finished) (
            append_assoc (map key_of a.saves) (map key_of t) (map key_of u)
            ∙ ap (◌++◌ (map key_of a.saves)) (sym (map-append key_of t u))),
  )

  gather-Balanced :
      (req : Request) (desk : Desk World)
      → let (sent, after) = gather db batch_size req desk in Balanced (req ∷ []) sent desk after
  unfolding gather
  gather-Balanced req desk =
      let gathered = record desk { saves = desk.saves ++ (req ∷ []) } in
      let f = flush db batch_size gathered in
      let kept : Balanced (req ∷ []) [] desk gathered = (
        map-append asks desk.saves (req ∷ []),
        ap (◌++◌ desk.worker.finished) (map-append key_of desk.saves (req ∷ [])),
      ) in
      elim (Bool-cases (leb batch_size (length gathered.saves))) [
        | inl full ↦
            simp full (
              Balanced-append (req ∷ []) [] [] f.0 desk gathered f.1 kept (flush-Balanced gathered))
        | inr room ↦ simp room kept
      ]

  run_single-Balanced :
      (req : Request) (desk : Desk World)
      → let (sent, after) = run_single db batch_size req desk in Balanced (req ∷ []) sent desk after
  unfolding run_single flush process
  run_single-Balanced req desk =
      let f = flush db batch_size desk in
      let p = process-tells db Dispatch.dynamic batch_size req f.1.worker in
      let r = process db Dispatch.dynamic batch_size req f.1.worker in
      let alone : Balanced (req ∷ []) (r.0 ∷ []) f.1 (run_single db batch_size req desk).1 =
        (ap (λ t. t ∷ []) p, append-nil _) in
      Balanced-append [] (req ∷ []) f.0 (r.0 ∷ []) desk f.1 (run_single db batch_size req desk).1
        (flush-Balanced desk) alone

  serve_taken-Balanced :
      (req : Request) (desk : Desk World)
      → let (sent, after) = serve_taken db batch_size req desk in
        Balanced (req ∷ []) sent desk after
  unfolding serve_taken
  serve_taken-Balanced req desk =
      let b = batchable db Dispatch.dynamic batch_size req desk.worker.world in
      let looked = record desk { worker = record (desk.worker) { world = b.1 } } in
      elim (Bool-cases b.0) [
        | inl collect ↦ simp collect (gather-Balanced req looked)
        | inr single ↦ simp single (run_single-Balanced req looked)
      ]

  turn-Balanced :
      (desk : Desk World)
      → let (found, done, after) = turn db batch_size desk in
        Balanced done.taken done.sent desk after
  unfolding turn
  turn-Balanced desk =
      let rest = record desk { shared = (take desk.shared).1 } in
      elim (Option-cases (take desk.shared).0) [
        | inl no_more ↦
            simp no_more (sym (append-nil _), ap (◌++◌ desk.worker.finished) (sym (append-nil _)))
        | inr (req, e) ↦ simp e (serve_taken-Balanced req rest)
      ]

  loop-Balanced :
      (n : ℕ) (going : ℕ → Bool) (others : ℕ → RequestDispatcher → RequestDispatcher)
      (desk : Desk World)
      → let (done, after) = shared_loop db batch_size n going others desk in
        Balanced done.taken done.sent desk after
  unfolding shared_loop
  loop-Balanced zero going others desk =
      (sym (append-nil _), ap (◌++◌ desk.worker.finished) (sym (append-nil _)))
  loop-Balanced (suc n) going others desk =
      let now = record desk { shared = others 0 desk.shared } in
      let t = turn db batch_size now in
      let b = turn-Balanced now in
      let later : ℕ → Bool = λ (k : ℕ). going (suc k) in
      let others' : ℕ → RequestDispatcher → RequestDispatcher = λ (k : ℕ). others (suc k) in
      let r = shared_loop db batch_size n later others' t.2 in
      let rest = loop-Balanced n later others' t.2 in
      elim (Bool-cases t.0) [
        | inl found ↦ elim (Bool-cases (going 0)) [
          | inl on ↦
              simp (found, on)
                (Balanced-append t.1.taken r.0.taken t.1.sent r.0.sent desk t.2 r.1 b rest)
          | inr stopped ↦ simp (found, stopped) b
        ]
        | inr over ↦ simp over b
      ]

  -- What a round, begun with no saves gathered, took and sent, and the saves that it leaves.
  pub round_answers :
      (n : ℕ) (going : ℕ → Bool) (others : ℕ → RequestDispatcher → RequestDispatcher)
      (desk : Desk World)
      → desk.saves ≡ []
      → let (done, last) = shared_round db batch_size n going others desk in
        (map tells done.sent ≡ map asks done.taken)
        × (last.worker.finished ≡ desk.worker.finished ++ map key_of done.taken)
        × (last.saves ≡ [])
  unfolding shared_round flush
  round_answers n going others desk e =
      let l = shared_loop db batch_size n going others desk in
      let f = flush db batch_size l.1 in
      let got = l.0.taken in
      let whole =
        Balanced-append got [] l.0.sent f.0 desk l.1 f.1 (loop-Balanced n going others desk)
          (flush-Balanced l.1) in
      (
        sym (append-nil _)
            ∙ whole.0
            ∙ ap (λ xs. map asks xs ++ map asks (got ++ [])) e
            ∙ ap (map asks) (append-nil got),
        sym (append-nil _)
            ∙ whole.1
            ∙ ap (λ xs. desk.worker.finished ++ (map key_of xs ++ map key_of (got ++ []))) e
            ∙ ap (λ xs. desk.worker.finished ++ map key_of xs) (append-nil got),
        refl,
      )
