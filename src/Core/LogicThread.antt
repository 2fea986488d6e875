-- ===== src/Core/LogicThread.antt =====
-- src/core/logic_thread.cpp: the loop of the logic thread and the calls that wake it. The atomics
-- and the mutex make each read, write, lock and wait one step; `wake` holds the mutex for nothing,
-- so its lock and unlock are one step that needs the mutex free. `items` counts what clients have
-- put for the step and the step has not taken. Calls under way are counted by where they are. The
-- step itself is the client's; here it takes what was put.
pub mod Timers
pub mod Waking
pub mod Progress
use iocp_echo_server.Base.{
  ℕ, zero, suc, ◌+◌, ◌-◌, Bool, true, false, not, ◌&&◌, ◌||◌, if◌then◌else◌,
}

-- Where `run` is. `testing` and `parking` hold the mutex: the predicate is read, and the wait begun.
pub data Pc : Type 0 where
  head clearing stepping checking spinning entering testing parking asleep last_step ended : Pc

pub record LogicThread : Type 0 where
  pub pc : Pc
  pub running : Bool
  pub signaled : Bool
  pub ticks : ℕ
  pub items : ℕ
  -- Calls of `wake` that have put their item, that found no signal, and that are yet to notify.
  pub putting : ℕ
  pub locking : ℕ
  pub notifying : ℕ
  -- Calls of `stop` before the mutex, and before `notify_all`.
  pub stopping : ℕ
  pub announcing : ℕ

abbrev pub started : LogicThread
started = record {
  pc = head;
  running = true;
  signaled = false;
  ticks = 0;
  items = 0;
  putting = 0;
  locking = 0;
  notifying = 0;
  stopping = 0;
  announcing = 0;
}

unfoldable pub holds_mutex : Pc → Bool
holds_mutex testing = true
holds_mutex parking = true
holds_mutex _ = false

-- A client puts an item, and then calls `wake`.
unfoldable pub put : LogicThread → LogicThread
put s = record s { items = s.items + 1; putting = s.putting + 1 }

-- `signaled_.exchange(true)`: where the signal was up, the call is over.
unfoldable pub signal : LogicThread → LogicThread
signal s =
    if s.signaled
    then record s { putting = s.putting - 1 }
    else record s { putting = s.putting - 1; signaled = true; locking = s.locking + 1 }

unfoldable pub pass_lock : LogicThread → LogicThread
pass_lock s = record s { locking = s.locking - 1; notifying = s.notifying + 1 }

-- A notification reaches the thread if it waits, and is lost otherwise.
unfoldable pub woken : Pc → Pc
woken asleep = entering
woken p = p

unfoldable pub notify : LogicThread → LogicThread
notify s = record s { notifying = s.notifying - 1; pc = woken s.pc }

-- `running_.exchange(false)`: where it was down, the call is over.
unfoldable pub stop : LogicThread → LogicThread
stop s = if s.running then record s { running = false; stopping = s.stopping + 1 } else s

unfoldable pub stop_lock : LogicThread → LogicThread
stop_lock s = record s { stopping = s.stopping - 1; signaled = true; announcing = s.announcing + 1 }

unfoldable pub notify_all : LogicThread → LogicThread
notify_all s = record s { announcing = s.announcing - 1; pc = woken s.pc }

-- The conditions that end a wait and a spin.
abbrev pub has_cause : LogicThread → Bool
has_cause s = s.signaled || not s.running

-- One step of `run`. `spins` and `over` are what `spin_us_` and the clock say: whether there is a
-- spin, and whether its time or the wait's is over.
unfoldable pub advance_at : Bool → Bool → Pc → LogicThread → LogicThread
advance_at spins over head s = record s { pc = if s.running then clearing else last_step }
advance_at spins over clearing s = record s { pc = stepping; signaled = false }
advance_at spins over stepping s = record s { pc = checking; items = 0; ticks = s.ticks + 1 }
advance_at spins over checking s = record s {
  pc = if has_cause s then head else if spins then spinning else entering;
}
advance_at spins over spinning s = record s {
  pc = if has_cause s then head else if over then entering else spinning;
}
advance_at spins over entering s = record s { pc = testing }
advance_at spins over testing s = record s { pc = if has_cause s then head else parking }
advance_at spins over parking s = record s { pc = asleep }
advance_at spins over asleep s = record s { pc = if over then head else asleep }
advance_at spins over last_step s = record s { pc = ended; items = 0 }
advance_at spins over ended s = s

unfoldable pub advance : Bool → Bool → LogicThread → LogicThread
advance spins over s = advance_at spins over s.pc s
