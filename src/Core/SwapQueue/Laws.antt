-- ===== src/Core/SwapQueue/Laws.antt =====
-- src/core/swap_queue.h: a queue over a sequence of calls.
use iocp_echo_server.Base.{
  ℕ, ◌≤◌, ◌<◌, ◌≡◌, sym, ap, ◌∙◌, true, false, List, [], ◌∷◌, ◌++◌, append_assoc, append-nil, arith,
  length-append, if◌then◌else◌,
}
use iocp_echo_server.Core.SwapQueue.{
  SwapQueue, filling, push, emplace, try_emplace, swap, clear_taken, pending,
}

pub data Op {ℓ} (T : Type ℓ) : Type ℓ where
  pushes emplaces : T → Op T
  tries : ℕ → T → Op T
  swaps clears : Op T

module _ {ℓ} {T : Type ℓ} where
  -- What an operation adds to the items taken and to those put in, and its new queue.
  unfoldable pub step : Op T → SwapQueue T → List T × List T × SwapQueue T
  step (pushes x) q = ([], x ∷ [], push x q)
  step (emplaces x) q = ([], x ∷ [], emplace x q)
  step (tries cap x) q =
      let (done, q') = try_emplace cap x q in ([], (if done then x ∷ [] else []), q')
  step swaps q = let (batch, q') = swap q in (batch, [], q')
  step clears q = ([], [], clear_taken q)

  unfoldable pub run : List (Op T) → SwapQueue T → List T × List T × SwapQueue T
  run [] q = ([], [], q)
  run (op ∷ ops) q =
      let (taken, put, q') = step op q in
      let (taken', put', q'') = run ops q' in (taken ++ taken', put ++ put', q'')

  step_fifo :
      (op : Op T) (q : SwapQueue T)
      → let (taken, put, q') = step op q in taken ++ filling q' ≡ filling q ++ put
  unfolding step push emplace try_emplace swap clear_taken
  step_fifo (pushes x) q = ground arith
  step_fifo (emplaces x) q = ground arith
  step_fifo (tries cap x) q =
      ground (arith, append-nil (filling q), append-nil q.first, append-nil q.second)
  step_fifo swaps q =
      ground (arith, append-nil (filling q), append-nil q.first, append-nil q.second)
  step_fifo clears q =
      ground (arith, append-nil (filling q), append-nil q.first, append-nil q.second)

  -- Over any sequence of calls by producers and the consumer, the batches taken and what still
  -- waits are together exactly the items put in, in the order in which they were put in.
  pub run_fifo :
      (ops : List (Op T)) (q : SwapQueue T)
      → let (taken, put, q') = run ops q in taken ++ filling q' ≡ filling q ++ put
  unfolding run
  run_fifo [] q = sym (append-nil (filling q))
  run_fifo (op ∷ ops) q =
      let s = step op q in
      let r = run ops s.2 in
      append_assoc s.0 r.0 (filling r.2)
      ∙ ap (◌++◌ s.0) (run_fifo ops s.2)
      ∙ sym (append_assoc s.0 (filling s.2) r.1)
      ∙ ap (λ xs. xs ++ r.1) (step_fifo op q)
      ∙ append_assoc (filling q) s.1 r.1

  -- On a queue within its bound, the bounded insertion keeps the bound, refuses and changes
  -- nothing when the queue is full, and accepts otherwise.
  pub try_emplace_bound :
      (cap : ℕ) (x : T) (q : SwapQueue T)
      → pending q ≤ cap
      → (pending (try_emplace cap x q).1 ≤ cap)
        × (pending q ≡ cap → try_emplace cap x q ≡ (false, q))
        × (pending q < cap → (try_emplace cap x q).0 ≡ true)
  unfolding try_emplace pending
  try_emplace_bound cap x q h =
      ground (arith, length-append q.first (x ∷ []), length-append q.second (x ∷ []))
