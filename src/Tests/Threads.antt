-- ===== src/Tests/Threads.antt =====
-- The logic thread.
use iocp_echo_server.Base.{ℕ, ◌+◌, ◌≤◌, ◌<◌, ◌≡◌, refl, true, false, arith}
use iocp_echo_server.Core.LogicThread.{
  Pc, asleep, ended, LogicThread, started, holds_mutex, put, signal, advance, advance_at, pass_lock,
  notify,
}
use iocp_echo_server.Core.LogicThread
use iocp_echo_server.Core.LogicThread.Waking.{
  Reach, start, later, runs, puts, signals, passes, notifies, asleep_awaits,
}
use iocp_echo_server.Core.LogicThread.Progress.{IsQuiet, advance_by, has_ended, items_taken}

-- A round with nothing to do, up to the wait.
abbrev sleeper : LogicThread
sleeper = advance false false (
    advance false false (
      advance false false (
        advance false false
          (advance false false (advance false false (advance false false started))))))

sleeper-Reach : Reach sleeper
sleeper-Reach =
    later
      (later
        (later
          (later
            (later (later (later start (runs false false _)) (runs false false _))
              (runs false false _))
            (runs false false _))
          (runs false false _))
        (runs false false _))
      (runs false false _)

-- An item that has been put and not yet signalled.
abbrev visited : LogicThread
visited = put sleeper

visited_sleeps : visited.pc ≡ asleep
unfolding put advance advance_at
visited_sleeps = refl

asleep_awaits_example :
    (0 < visited.items
      → 0 < visited.putting + visited.locking + visited.notifying + visited.announcing)
    × (visited.running ≡ false → 0 < visited.stopping + visited.announcing)
asleep_awaits_example = asleep_awaits (later sleeper-Reach (puts sleeper)) visited_sleeps

-- The thread is about to wait when an item is put and signalled; the call of `wake` goes on to its
-- end while the thread is in the wait.
abbrev woken : LogicThread
woken = notify (pass_lock (signal visited))

woken-Reach : Reach woken
unfolding put signal pass_lock advance advance_at holds_mutex
woken-Reach =
    later
      (later (later (later sleeper-Reach (puts sleeper)) (signals visited (omega arith)))
        (passes (signal visited) (omega arith) refl))
      (notifies (pass_lock (signal visited)) (omega arith))

woken-IsQuiet : IsQuiet woken
unfolding put signal pass_lock notify advance advance_at
woken-IsQuiet = (refl, refl, refl, refl, refl)

woken_waits : 0 < woken.items
unfolding put signal pass_lock notify advance advance_at
woken_waits = omega arith

woken_runs : has_ended woken.pc ≡ false
unfolding put signal pass_lock notify advance advance_at has_ended LogicThread.woken
woken_runs = refl

items_taken_example : (n : ℕ) × (n ≤ 5) × ((advance_by n true false woken).items ≡ 0)
items_taken_example = items_taken true false woken-Reach woken-IsQuiet woken_waits woken_runs
