-- ===== src/Db/Pool/Shared/Held.antt =====
-- src/db/db_worker_pool.cpp: the keys that a worker of the shared dispatcher holds in its round.
use iocp_echo_server.Base.{
  ℕ, zero, suc, ◌≡◌, sym, Bool, false, leb, List, [], ◌∷◌, ◌++◌, length, map, subst, append-nil,
  Bool-cases, Option-cases, inl, inr,
}
use mathlib.Core.List.{map-append}
use iocp_echo_server.Base.Table.{text_key}
use iocp_echo_server.Db.Types.{Request}
use iocp_echo_server.Db.Dispatcher.{RequestDispatcher, at, take, finish}
use iocp_echo_server.Db.Dispatcher.Order.{Homed}
use iocp_echo_server.Db.Worker.{Database, Dispatch, batchable, flush_saves}
use iocp_echo_server.Db.Worker.Answers.{asks, tells}
use iocp_echo_server.Db.Pool.Shared.{
  Desk, finish_all, flush, run_single, gather, serve_taken, turn, shared_loop, shared_round,
}
use iocp_echo_server.Db.Pool.Shared.Answered.{key_of, flush_saves-finished, round_answers}
use iocp_echo_server.Db.Pool.Shared.Keys.{
  HeldBy, Inv, given, take-Inv, finish_all-Homed, finish-HeldBy, finish_all-HeldBy, free_of,
}

module _ {World : Type 0} (db : Database World) (batch_size : ℕ) (k : List ℕ) where
  flush-Inv :
      (desk : Desk World) (more : List (List ℕ))
      → Inv k (map key_of desk.saves ++ more) desk.shared
      → Inv k more (flush db batch_size desk).1.shared
  unfolding flush
  flush-Inv desk more (h, held) =
      let fresh = record (desk.worker) { finished = [] } in
      let keys = (flush_saves db Dispatch.dynamic batch_size desk.saves fresh).1.finished in
      let same : keys ≡ map key_of desk.saves =
        flush_saves-finished db batch_size desk.saves fresh in
      (
        finish_all-Homed keys desk.shared h,
        finish_all-HeldBy k keys more desk.shared
            (subst (λ xs. HeldBy k (xs ++ more) desk.shared) (sym same) held),
      )

  -- The keys of the saves that a worker has gathered are those it holds.
  abbrev Holds : Desk World → Type 0
  Holds desk = Inv k (map key_of desk.saves) desk.shared

  flush-Holds : (desk : Desk World) → Holds desk → Holds (flush db batch_size desk).1
  flush-Holds desk v =
      unfold flush in flush-Inv desk [] (subst (λ xs. Inv k xs desk.shared) (sym (append-nil _)) v)

  run_single-Holds :
      (req : Request) (desk : Desk World)
      → Inv k (map key_of desk.saves ++ (req.session_key ∷ [])) desk.shared
      → Holds (run_single db batch_size req desk).1
  unfolding run_single finish finish_all
  run_single-Holds req desk v =
      let flushed = (flush db batch_size desk).1.shared in
      let w = flush-Inv desk (req.session_key ∷ []) v in
      unfold flush in
      (
        finish_all-Homed (req.session_key ∷ []) flushed w.0,
        finish-HeldBy k req.session_key [] flushed w.1,
      )

  gather-Holds :
      (req : Request) (desk : Desk World)
      → Inv k (map key_of desk.saves ++ (req.session_key ∷ [])) desk.shared
      → Holds (gather db batch_size req desk).1
  unfolding gather
  gather-Holds req desk v =
      let gathered = record desk { saves = desk.saves ++ (req ∷ []) } in
      let w : Holds gathered =
        subst (λ xs. Inv k xs desk.shared) (sym (map-append key_of desk.saves (req ∷ []))) v in
      elim (Bool-cases (leb batch_size (length gathered.saves))) [
        | inl full ↦ simp full (flush-Holds gathered w)
        | inr room ↦ simp room w
      ]

  serve_taken-Holds :
      (req : Request) (desk : Desk World)
      → Inv k (map key_of desk.saves ++ (req.session_key ∷ [])) desk.shared
      → Holds (serve_taken db batch_size req desk).1
  unfolding serve_taken
  serve_taken-Holds req desk v =
      let b = batchable db Dispatch.dynamic batch_size req desk.worker.world in
      let looked = record desk { worker = record (desk.worker) { world = b.1 } } in
      elim (Bool-cases b.0) [
        | inl collect ↦ simp collect (gather-Holds req looked v)
        | inr single ↦ simp single (run_single-Holds req looked v)
      ]

  turn-Holds : (desk : Desk World) → Holds desk → Holds (turn db batch_size desk).2
  unfolding turn given
  turn-Holds desk v =
      let keys = map key_of desk.saves in
      let rest = record desk { shared = (take desk.shared).1 } in
      let w = take-Inv k keys desk.shared v in
      elim (Option-cases (take desk.shared).0) [
        | inl no_more ↦ simp no_more (
            subst (λ xs. Inv k xs rest.shared) (append-nil keys)
              (subst (λ o. Inv k (keys ++ given o) rest.shared) no_more w))
        | inr (req, e) ↦ simp e (
            serve_taken-Holds req rest
              (unfold given in (subst (λ o. Inv k (keys ++ given o) rest.shared) e w)))
      ]

  -- The other threads put in, take and finish, but they do not work on the key.
  pub record Elsewhere (others : ℕ → RequestDispatcher → RequestDispatcher) : Type 0 where
    pub own_keys : (n : ℕ) (d : RequestDispatcher) → Homed d → Homed (others n d)
    pub unmarked :
        (n : ℕ) (d : RequestDispatcher)
        → (at k d).working ≡ false
        → (at k (others n d)).working ≡ false

  others-Holds :
      (others : ℕ → RequestDispatcher → RequestDispatcher) (desk : Desk World)
      → Elsewhere others
      → Holds desk
      → Holds (record desk { shared = others 0 desk.shared })
  others-Holds others desk calm (h, inl free) =
      (calm.own_keys 0 desk.shared h, inl (calm.unmarked 0 desk.shared free))
  others-Holds others desk calm (h, inr l) = (calm.own_keys 0 desk.shared h, inr l)

  loop-Holds :
      (n : ℕ) (going : ℕ → Bool) (others : ℕ → RequestDispatcher → RequestDispatcher)
      (desk : Desk World)
      → Elsewhere others
      → Holds desk
      → Holds (shared_loop db batch_size n going others desk).1
  unfolding shared_loop
  loop-Holds zero going others desk calm v = v
  loop-Holds (suc n) going others desk calm v =
      let now = record desk { shared = others 0 desk.shared } in
      let t = turn db batch_size now in
      let w = turn-Holds now (others-Holds others desk calm v) in
      let others' : ℕ → RequestDispatcher → RequestDispatcher = λ (m : ℕ). others (suc m) in
      let later : Elsewhere others' = record {
        own_keys = λ m. calm.own_keys (suc m);
        unmarked = λ m. calm.unmarked (suc m);
      } in
      let rest = loop-Holds n (λ m. going (suc m)) others' t.2 later w in
      elim (Bool-cases t.0) [
        | inl got ↦ elim (Bool-cases (going 0)) [
          | inl on ↦ simp (got, on) rest
          | inr stopped ↦ simp (got, stopped) w
        ]
        | inr over ↦ simp over w
      ]

  round_frees :
      (n : ℕ) (going : ℕ → Bool) (others : ℕ → RequestDispatcher → RequestDispatcher)
      (desk : Desk World)
      → Elsewhere others
      → Holds desk
      → (at k (shared_round db batch_size n going others desk).1.shared).working ≡ false
  unfolding shared_round
  round_frees n going others desk calm v =
      let l = shared_loop db batch_size n going others desk in
      let w = flush-Inv l.1 [] (
        subst (λ xs. Inv k xs l.1.shared) (sym (append-nil _))
          (loop-Holds n going others desk calm v)) in
      free_of k _ w.1

  -- In a round over the shared dispatcher, whose queues hold requests of their own keys, begun
  -- with no saves gathered, a worker answers each request that it took once and in order and
  -- keeps no save; and a key that nobody worked on before, and that the lanes and the other
  -- workers, who use the dispatcher before each call of take, do not mark, is marked by nobody
  -- after it: the worker has handed every key that it took to finish.
  pub shared_round_answers :
      (n : ℕ) (going : ℕ → Bool) (others : ℕ → RequestDispatcher → RequestDispatcher)
      (desk : Desk World)
      → desk.saves ≡ []
      → Homed desk.shared
      → (at k desk.shared).working ≡ false
      → Elsewhere others
      → let (done, last) = shared_round db batch_size n going others desk in
        (map tells done.sent ≡ map asks done.taken)
        × (last.saves ≡ [])
        × ((at k last.shared).working ≡ false)
  shared_round_answers n going others desk e h free calm =
      let a = round_answers db batch_size n going others desk e in
      (a.0, a.2, round_frees n going others desk calm (h, inl free))
