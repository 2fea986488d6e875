-- ===== src/Core/LogicThread/Waking.antt =====
-- src/core/logic_thread.cpp: `wake` and `stop` against the thread that goes to sleep, over any
-- interleaving of their steps.
use iocp_echo_server.Base.{◌+◌, ◌<◌, ◌≡◌, refl, Bool, true, false, ◌⊎◌, arith}
use iocp_echo_server.Core.LogicThread.{
  Pc, head, clearing, stepping, checking, spinning, entering, testing, parking, asleep, last_step,
  ended, LogicThread, started, holds_mutex, put, signal, pass_lock, woken, notify, stop, stop_lock,
  notify_all, advance_at, advance,
}

-- What any thread may do next.
pub data Moves : LogicThread → LogicThread → Type 0 where
  puts : (s : LogicThread) → Moves s (put s)
  signals : (s : LogicThread) → 0 < s.putting → Moves s (signal s)
  passes : (s : LogicThread) → 0 < s.locking → holds_mutex s.pc ≡ false → Moves s (pass_lock s)
  notifies : (s : LogicThread) → 0 < s.notifying → Moves s (notify s)
  stops : (s : LogicThread) → Moves s (stop s)
  locks : (s : LogicThread) → 0 < s.stopping → holds_mutex s.pc ≡ false → Moves s (stop_lock s)
  announces : (s : LogicThread) → 0 < s.announcing → Moves s (notify_all s)
  runs : (spins over : Bool) (s : LogicThread) → Moves s (advance spins over s)

pub data Reach : LogicThread → Type 0 where
  start : Reach started
  later : {s t : LogicThread} → Reach s → Moves s t → Reach t

-- The loop has run its step and has not yet come back to the clearing of the signal.
unfoldable pub is_past_step : Pc → Bool
is_past_step checking = true
is_past_step spinning = true
is_past_step entering = true
is_past_step testing = true
is_past_step parking = true
is_past_step asleep = true
is_past_step _ = false

unfoldable pub is_parking : Pc → Bool
is_parking parking = true
is_parking _ = false

unfoldable pub is_asleep : Pc → Bool
is_asleep asleep = true
is_asleep _ = false

-- What was put is signalled or about to be; and no one who set a flag on a thread that goes to
-- sleep has yet notified it.
abbrev pub Inv : LogicThread → Type 0
Inv s =
    (is_past_step s.pc ≡ true → 0 < s.items → (s.signaled ≡ true) ⊎ (0 < s.putting))
    × (is_parking s.pc ≡ true → s.signaled ≡ true → 0 < s.locking)
    × (is_parking s.pc ≡ true → s.running ≡ false → 0 < s.stopping)
    × (is_asleep s.pc ≡ true → s.signaled ≡ true → 0 < s.locking + s.notifying + s.announcing)
    × (is_asleep s.pc ≡ true → s.running ≡ false → 0 < s.stopping + s.announcing)

advance_at-Inv :
    (spins over : Bool) (p : Pc) (s : LogicThread)
    → s.pc ≡ p
    → Inv s
    → Inv (advance_at spins over p s)
unfolding advance_at is_past_step is_parking is_asleep
advance_at-Inv spins over head s e v = ground arith
advance_at-Inv spins over clearing s e v = ground arith
advance_at-Inv spins over stepping s e v = ground arith
advance_at-Inv spins over checking s e v = ground arith
advance_at-Inv spins over spinning s e v = ground arith
advance_at-Inv spins over entering s e v = ground arith
advance_at-Inv spins over testing s e v = ground arith
advance_at-Inv spins over parking s e v = ground arith
advance_at-Inv spins over asleep s e v = ground arith
advance_at-Inv spins over last_step s e v = ground arith
advance_at-Inv spins over ended s e v = ground arith

-- The steps of other threads, whatever this one is at.
others-Inv :
    (p : Pc) (s : LogicThread)
    → s.pc ≡ p
    → Inv s
    → Inv (put s)
      × (0 < s.putting → Inv (signal s))
      × (0 < s.locking → holds_mutex s.pc ≡ false → Inv (pass_lock s))
      × (0 < s.notifying → Inv (notify s))
      × Inv (stop s)
      × (0 < s.stopping → holds_mutex s.pc ≡ false → Inv (stop_lock s))
      × (0 < s.announcing → Inv (notify_all s))
unfolding is_past_step is_parking is_asleep put signal pass_lock notify woken stop stop_lock
    notify_all holds_mutex
others-Inv head s e v = ground arith
others-Inv clearing s e v = ground arith
others-Inv stepping s e v = ground arith
others-Inv checking s e v = ground arith
others-Inv spinning s e v = ground arith
others-Inv entering s e v = ground arith
others-Inv testing s e v = ground arith
others-Inv parking s e v = ground arith
others-Inv asleep s e v = ground arith
others-Inv last_step s e v = ground arith
others-Inv ended s e v = ground arith

Moves-Inv : {s t : LogicThread} → Moves s t → Inv s → Inv t
unfolding advance
Moves-Inv (puts s) v = (others-Inv s.pc s refl v).0
Moves-Inv (signals s h) v = (others-Inv s.pc s refl v).1 h
Moves-Inv (passes s h m) v = (others-Inv s.pc s refl v).2 h m
Moves-Inv (notifies s h) v = (others-Inv s.pc s refl v).3 h
Moves-Inv (stops s) v = (others-Inv s.pc s refl v).4
Moves-Inv (locks s h m) v = (others-Inv s.pc s refl v).5 h m
Moves-Inv (announces s h) v = (others-Inv s.pc s refl v).6 h
Moves-Inv (runs spins over s) v = advance_at-Inv spins over s.pc s refl v

pub Reach-Inv : {s : LogicThread} → Reach s → Inv s
unfolding is_past_step is_parking is_asleep
Reach-Inv start = ground arith
Reach-Inv (later r m) = Moves-Inv m (Reach-Inv r)

-- In any interleaving of the steps of clients, of calls of wake and stop, and of the logic
-- thread: while the thread is in its wait, an item that was put is matched by a call that is
-- under way and is yet to signal or to notify, and a stop by a call of stop that is yet to
-- notify.
pub asleep_awaits :
    {s : LogicThread}
    → Reach s
    → s.pc ≡ asleep
    → (0 < s.items → 0 < s.putting + s.locking + s.notifying + s.announcing)
      × (s.running ≡ false → 0 < s.stopping + s.announcing)
unfolding is_past_step is_parking is_asleep
asleep_awaits {s} r e = let v = Reach-Inv r in ground arith
