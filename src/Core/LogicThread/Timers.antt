-- ===== src/Core/LogicThread/Timers.antt =====
-- src/core/logic_thread.cpp: the timers of the logic thread. A timer's function is the client's;
-- a round says which timers it calls, by their places in the list. Differences that the program
-- takes as signed numbers and raises to 0 are those of the natural numbers.
use iocp_echo_server.Base.{
  ℕ, ◌+◌, ◌-◌, ◌≤◌, ◌<◌, min, max, Bool, true, false, if◌then◌else◌, leb, List, [], ◌∷◌, ◌++◌, ◌==◌,
  arith, All, Bool-cases, inl, inr,
}

pub record TimerSlot : Type 0 where
  pub interval_ms : ℕ
  pub next_ms : ℕ

-- `start`: the bounds of what the caller asks for.
unfoldable pub max_idle_wait : ℕ → ℕ
max_idle_wait ms = max 1 ms

-- `add_timer` with a function; an interval of 0 or less adds none.
unfoldable pub add_timer : ℕ → List TimerSlot → List TimerSlot
add_timer interval timers =
    if interval == 0
    then timers
    else timers ++ (record { interval_ms = interval; next_ms = 0 } ∷ [])

-- The start of `run`.
unfoldable pub arm : ℕ → List TimerSlot → List TimerSlot
arm start_ms [] = []
arm start_ms (t ∷ timers) = record t { next_ms = start_ms + t.interval_ms } ∷ arm start_ms timers

-- A round's timers: for each, whether its function is called, and the slots after it.
unfoldable pub fire : ℕ → List TimerSlot → List Bool × List TimerSlot
fire current [] = ([], [])
fire current (t ∷ timers) =
    let rest = fire current timers in
    if leb t.next_ms current
    then (true ∷ rest.0, record t { next_ms = current + t.interval_ms } ∷ rest.1)
    else (false ∷ rest.0, t ∷ rest.1)

unfoldable pub wait_budget : ℕ → ℕ → List TimerSlot → ℕ
wait_budget budget now [] = budget
wait_budget budget now (t ∷ timers) = wait_budget (min budget (t.next_ms - now)) now timers

-- A slot is in the future, by no more than its interval.
abbrev pub Armed : ℕ → TimerSlot → Type 0
Armed now t = (now < t.next_ms) × (t.next_ms ≤ now + t.interval_ms)

abbrev pub HasInterval : TimerSlot → Type 0
HasInterval t = 0 < t.interval_ms

-- In a list armed by `arm` or by a round before `current`, none is later than its interval.
abbrev pub Within : ℕ → TimerSlot → Type 0
Within now t = (0 < t.interval_ms) × (t.next_ms ≤ now + t.interval_ms)

fire-Armed :
    (current : ℕ) (timers : List TimerSlot)
    → All (Within current) timers
    → All (Armed current) (fire current timers).1
unfolding fire
fire-Armed current [] h = tt
fire-Armed current (t ∷ timers) h = elim (Bool-cases (leb t.next_ms current)) [
  | inl due ↦ simp due ((omega (arith, h.0.0), omega arith), fire-Armed current timers h.1)
  | inr not_yet ↦ simp not_yet ((ground arith, h.0.1), fire-Armed current timers h.1)
]

wait_budget-le : (budget now : ℕ) (timers : List TimerSlot) → wait_budget budget now timers ≤ budget
unfolding wait_budget
wait_budget-le budget now [] = omega arith
wait_budget-le budget now (t ∷ timers) =
    omega (arith, wait_budget-le (min budget (t.next_ms - now)) now timers)

-- The wait ends before the timer's time, or at it.
abbrev pub Reached : ℕ → ℕ → TimerSlot → Type 0
Reached now budget t = now ≤ t.next_ms → now + budget ≤ t.next_ms

Reached-le :
    (now a b : ℕ) (timers : List TimerSlot)
    → a ≤ b
    → All (Reached now b) timers
    → All (Reached now a) timers
Reached-le now a b [] le h = tt
Reached-le now a b (t ∷ timers) le h =
    (λ soon. omega (arith, h.0 soon), Reached-le now a b timers le h.1)

wait_budget-Reached :
    (budget now : ℕ) (timers : List TimerSlot)
    → All (Reached now (wait_budget budget now timers)) timers
unfolding wait_budget
wait_budget-Reached budget now [] = tt
wait_budget-Reached budget now (t ∷ timers) = (
  λ soon. omega (arith, wait_budget-le (min budget (t.next_ms - now)) now timers),
  wait_budget-Reached (min budget (t.next_ms - now)) now timers,
)

-- After a round whose timers were no later than their intervals, every timer is in the future by
-- at most its interval, and the wait ends no later than the first of them and the longest idle
-- wait.
pub wait_meets_timers :
    (idle current now : ℕ) (timers : List TimerSlot)
    → All (Within current) timers
    → let after = (fire current timers).1 in
      let budget = wait_budget (max_idle_wait idle) now after in
      All (Armed current) after × All (Reached now budget) after × (budget ≤ max 1 idle)
unfolding max_idle_wait
wait_meets_timers idle current now timers h =
    let after = (fire current timers).1 in
    (
      fire-Armed current timers h,
      wait_budget-Reached (max 1 idle) now after,
      wait_budget-le (max 1 idle) now after,
    )
