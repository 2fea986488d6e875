-- ===== src/Core/LogicThread/Progress.antt =====
-- src/core/logic_thread.cpp: the loop on its own, when no call is under way.
use iocp_echo_server.Base.{ℕ, zero, suc, ◌<◌, ◌≤◌, ◌≡◌, refl, Bool, true, false, arith}
use iocp_echo_server.Core.LogicThread.{
  Pc, head, clearing, stepping, checking, spinning, entering, testing, parking, asleep, last_step,
  ended, LogicThread, advance_at, advance,
}
use iocp_echo_server.Core.LogicThread.Waking.{
  Reach, Reach-Inv, Inv, is_past_step, is_parking, is_asleep,
}

-- No call of `wake` or `stop` is between its first and its last step.
abbrev pub IsQuiet : LogicThread → Type 0
IsQuiet s =
    (s.putting ≡ 0) × (s.locking ≡ 0) × (s.notifying ≡ 0) × (s.stopping ≡ 0) × (s.announcing ≡ 0)

-- The steps of the thread alone, with the clock's answers always the same.
unfoldable pub advance_by : ℕ → Bool → Bool → LogicThread → LogicThread
advance_by zero spins over s = s
advance_by (suc n) spins over s = advance_by n spins over (advance spins over s)

unfoldable pub has_ended : Pc → Bool
has_ended ended = true
has_ended _ = false

progress_at :
    (spins over : Bool) (p : Pc) (s : LogicThread)
    → s.pc ≡ p
    → IsQuiet s
    → 0 < s.items
    → Inv s
    → has_ended s.pc ≡ false
    → (n : ℕ) × (n ≤ 5) × ((advance_by n spins over s).items ≡ 0)
unfolding advance_at advance advance_by is_past_step is_parking is_asleep has_ended
progress_at spins over head s e q h v a = (3, omega arith, ground arith)
progress_at spins over clearing s e q h v a = (2, omega arith, ground arith)
progress_at spins over stepping s e q h v a = (1, omega arith, ground arith)
progress_at spins over checking s e q h v a = (4, omega arith, ground arith)
progress_at spins over spinning s e q h v a = (4, omega arith, ground arith)
progress_at spins over entering s e q h v a = (5, omega arith, ground arith)
progress_at spins over testing s e q h v a = (4, omega arith, ground arith)
progress_at spins over parking s e q h v a = absurd (ground arith)
progress_at spins over asleep s e q h v a = absurd (ground arith)
progress_at spins over last_step s e q h v a = (1, omega arith, ground arith)
progress_at spins over ended s e q h v a = absurd (ground arith)

-- From any state that the steps of clients, of calls of wake and stop and of the logic thread
-- reach in any order, in which no call is under way, an item waits and the loop has not ended:
-- the logic thread alone has taken every item after at most five of its steps, whether it spins
-- or not, if the clock's answer stays the same.
pub items_taken :
    {s : LogicThread} (spins over : Bool)
    → Reach s
    → IsQuiet s
    → 0 < s.items
    → has_ended s.pc ≡ false
    → (n : ℕ) × (n ≤ 5) × ((advance_by n spins over s).items ≡ 0)
items_taken {s} spins over r q h a = progress_at spins over s.pc s refl q h (Reach-Inv r) a
