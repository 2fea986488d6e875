-- ===== src/Db/Pool/Upkeep.antt =====
-- src/db/db_worker_pool.cpp: how a worker's thread looks after its connection between requests.
-- `World` is the connection and the clock, as for the requests; `ping` is the one call of the
-- connection that the requests do not make. Times are in milliseconds.
use iocp_echo_server.Base.{
  ℕ, ◌+◌, ◌-◌, ◌≤◌, ◌≡◌, min, max, Bool, true, false, not, ltb, if◌then◌else◌, arith,
}

-- `kReconnectIntervalMs` and `kIdlePingIntervalMs`.
abbrev pub reconnect_interval : ℕ
reconnect_interval = 1000

abbrev pub ping_interval : ℕ
ping_interval = 3000

pub record Link (World : Type 0) : Type 0 where
  pub now_ms : World → ℕ × World
  pub usable : World → Bool
  pub connect_first : World → Bool × World
  pub ensure_usable : World → Bool × World
  pub ping : World → Bool × World

-- The times of the next attempt and of the next ping, and the worker's flag.
pub record Upkeep : Type 0 where
  pub next_retry_ms : ℕ
  pub next_ping_ms : ℕ
  pub connected : Bool

module _ {World : Type 0} (link : Link World) where
  -- The start of `run`.
  unfoldable pub begin_run : World → Upkeep × World
  begin_run w =
      let (now, w1) = link.now_ms w in
      let (up, w2) = link.connect_first w1 in
      let (later, w3) = link.now_ms w2 in
      let fresh : Upkeep = record {
        next_retry_ms = 0;
        next_ping_ms = now + ping_interval;
        connected = up;
      } in
      if up then (fresh, w2) else (record fresh { next_retry_ms = later + reconnect_interval }, w3)

  -- A connection that is down is opened again when it is time.
  unfoldable pub reconnect : Upkeep → World → Upkeep × World
  reconnect u w =
      let (now, w1) = link.now_ms w in
      let (up, w2) = link.ensure_usable w1 in
      if link.usable w
      then (u, w)
      else if ltb now u.next_retry_ms
      then (u, w1)
      else if up
      then (record u { connected = true }, w2)
      else (record u { connected = false; next_retry_ms = now + reconnect_interval }, w2)

  -- An idle connection is asked whether it lives; a dead one is tried again at once.
  unfoldable pub check_alive : Upkeep → World → Upkeep × World
  check_alive u w =
      let (now, w1) = link.now_ms w in
      let (later, w2) = link.now_ms w1 in
      let (alive, w3) = link.ping w2 in
      let asked = record u { next_ping_ms = later + ping_interval } in
      if not (link.usable w)
      then (u, w)
      else if ltb now u.next_ping_ms
      then (u, w1)
      else if alive
      then (asked, w3)
      else (record asked { connected = false; next_retry_ms = 0 }, w3)

  -- The beginning of a round.
  unfoldable pub keep_up : Upkeep → World → Upkeep × World
  keep_up u w = let (u1, w1) = reconnect u w in check_alive u1 w1

  -- After a round that handled requests.
  unfoldable pub postpone_ping : ℕ → Upkeep → World → Upkeep × World
  postpone_ping handled u w =
      let (now, w1) = link.now_ms w in
      if ltb 0 handled then (record u { next_ping_ms = now + ping_interval }, w1) else (u, w)

  -- How long the thread waits at most.
  unfoldable pub wait_ms : Upkeep → World → ℕ × World
  wait_ms u w =
      let (now, w1) = link.now_ms w in
      if link.usable w
      then (50, w)
      else (min (max 1 (u.next_retry_ms - now)) reconnect_interval, w1)

module _ {World : Type 0} (link : Link World) (time : World → ℕ) where
  -- What the clock and the connection promise: a reading lies between the time before it and the
  -- time after it and changes nothing else, and the connection's calls take time and tell whether it
  -- can be used after them.
  abbrev pub IsHonest : Type 0
  IsHonest =
      ((w : World) → time w ≤ (link.now_ms w).0)
      × ((w : World) → (link.now_ms w).0 ≤ time (link.now_ms w).1)
      × ((w : World) → link.usable (link.now_ms w).1 ≡ link.usable w)
      × ((w : World) → time w ≤ time (link.ensure_usable w).1)
      × ((w : World) → link.usable (link.ensure_usable w).1 ≡ (link.ensure_usable w).0)
      × ((w : World) → time w ≤ time (link.ping w).1)
      × ((w : World) → (link.ping w).0 ≡ true → link.usable (link.ping w).1 ≡ true)

  -- A flag that is up does not keep from trying again.
  abbrev pub IsPrompt : Upkeep → World → Type 0
  IsPrompt u w = u.connected ≡ true → u.next_retry_ms ≤ time w

  -- The flag is true.
  abbrev pub IsTrue : Upkeep → World → Type 0
  IsTrue u w = u.connected ≡ true → link.usable w ≡ true

  reconnect-IsTrue :
      (u : Upkeep) (w : World)
      → IsHonest
      → IsPrompt u w
      → IsTrue (reconnect link u w).0 (reconnect link u w).1
        × IsPrompt (reconnect link u w).0 (reconnect link u w).1
  unfolding reconnect
  reconnect-IsTrue u w h p =
      let w1 = (link.now_ms w).1 in ground (arith, h.0 w, h.1 w, h.3 w1, h.4 w1, p)

  check_alive-IsTrue :
      (u : Upkeep) (w : World)
      → IsHonest
      → IsTrue u w
      → IsPrompt u w
      → IsTrue (check_alive link u w).0 (check_alive link u w).1
        × IsPrompt (check_alive link u w).0 (check_alive link u w).1
  unfolding check_alive
  check_alive-IsTrue u w h t p =
      let w1 = (link.now_ms w).1 in
      let w2 = (link.now_ms w1).1 in
      ground (arith, h.0 w, h.1 w, h.2 w, h.0 w1, h.1 w1, h.5 w2, h.6 w2, t, p)

  -- Whatever happened to the connection since the last round: after the upkeep a flag that is up is
  -- true, and keeps from no attempt later.
  pub keep_up-IsTrue :
      (u : Upkeep) (w : World)
      → IsHonest
      → IsPrompt u w
      → let (u', w') = keep_up link u w in IsTrue u' w' × IsPrompt u' w'
  unfolding keep_up
  keep_up-IsTrue u w h p =
      let r = reconnect-IsTrue u w h p in
      check_alive-IsTrue (reconnect link u w).0 (reconnect link u w).1 h r.0 r.1
