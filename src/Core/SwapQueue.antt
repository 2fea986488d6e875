-- ===== src/Core/SwapQueue.antt =====
-- src/core/swap_queue.h. Each method runs under the queue's mutex, so it is one step. `write`
-- says whether the second buffer is the one being filled.
pub mod Laws
use iocp_echo_server.Base.{
  ℕ, Bool, true, false, not, List, [], ◌∷◌, ◌++◌, leb, if◌then◌else◌, length,
}

pub record SwapQueue {ℓ} (T : Type ℓ) : Type ℓ where
  pub first : List T
  pub second : List T
  pub write : Bool

module _ {ℓ} {T : Type ℓ} where
  -- `buffers_[write_]`, and the same written back.
  abbrev pub filling : SwapQueue T → List T
  filling q = if q.write then q.second else q.first

  abbrev set_filling : List T → SwapQueue T → SwapQueue T
  set_filling xs q = if q.write then record q { second = xs } else record q { first = xs }

  unfoldable pub new_queue : SwapQueue T
  new_queue = record { first = []; second = []; write = false }

  unfoldable pub push : T → SwapQueue T → SwapQueue T
  push item q = set_filling (filling q ++ (item ∷ [])) q

  -- The caller fills the new element in place; `item` is what it makes of it.
  unfoldable pub emplace : T → SwapQueue T → SwapQueue T
  emplace item q = set_filling (filling q ++ (item ∷ [])) q

  unfoldable pub try_emplace : ℕ → T → SwapQueue T → Bool × SwapQueue T
  try_emplace cap item q =
      if leb cap (length (filling q))
      then (false, q)
      else (true, set_filling (filling q ++ (item ∷ [])) q)

  -- The filled buffer goes to the consumer, and the other one is emptied and filled from now on.
  unfoldable pub swap : SwapQueue T → List T × SwapQueue T
  swap q =
      let filled = filling q in
      let turned = record q { write = not q.write } in (filled, set_filling [] turned)

  -- The consumer's `clear()` of the buffer that `swap` returned.
  unfoldable pub clear_taken : SwapQueue T → SwapQueue T
  clear_taken q = if q.write then record q { first = [] } else record q { second = [] }

  unfoldable pub pending : SwapQueue T → ℕ
  pending q = length (filling q)
