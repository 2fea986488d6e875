-- ===== src/Net/IoService/Limits.antt =====
-- src/net/io_service.cpp: the limit on connections, the heartbeat, and `adopt` when it fails.
use iocp_echo_server.Base.{
  ℕ, ◌+◌, ◌≤◌, ◌<◌, ◌≡◌, refl, ap, Bool, false, List, [], ◌∷◌, some, length, arith, Bool-cases, inl,
  inr, ◌==◌,
}
use iocp_echo_server.Base.Table.{
  Table, find, emplace, number_key, Values, length-set, length-emplace, length-erase, find-emplace,
}
use iocp_echo_server.Net.Connection.{Connection, close}
use iocp_echo_server.Net.Connection.Receive.{Act, start, acts}
use iocp_echo_server.Net.IoService.{
  Options, IoService, new_service, adopt, admit, launch, reserve_id, full, sweep, keep_live,
  close_expired, expired,
}
use iocp_echo_server.Net.IoService.System.{Moves, adopts, uses, sweeps, Runs, here, next}

abbrev pub Bounded : IoService → Type 0
Bounded io = 0 < io.opt.max_connections → length io.connections ≤ io.opt.max_connections

length-launch :
    (accepted : Bool) (setup : List Act) (id : ℕ) (c : Connection) (io : IoService) (d : Connection)
    → find id io.connections ≡ some d
    → length (launch accepted setup id c io).1.connections ≤ length io.connections
unfolding launch
length-launch accepted setup id c io d e = elim (Bool-cases (start accepted (acts setup c)).0) [
  | inl ok ↦
      simp ok (omega (arith, length-set id (start accepted (acts setup c)).1 d io.connections e))
  | inr bad ↦ simp bad (length-erase id io.connections)
]

launch_opt :
    (accepted : Bool) (setup : List Act) (id : ℕ) (c : Connection) (io : IoService)
    → (launch accepted setup id c io).1.opt ≡ io.opt
unfolding launch
launch_opt accepted setup id c io = ground arith

full-lt :
    (io : IoService)
    → full io ≡ false
    → 0 < io.opt.max_connections
    → length io.connections < io.opt.max_connections
unfolding full
full-lt io e h = ground arith

admit-Bounded :
    (accepted : Bool) (setup : List Act) (id : ℕ) (c : Connection) (io : IoService)
    → Bounded io
    → Bounded (admit accepted setup id c io).1
unfolding admit
admit-Bounded accepted setup id c io v = elim (Bool-cases (full io)) [
  | inl no_place ↦ simp no_place v
  | inr place ↦ simp place (
      let io' = record io { connections = emplace id c io.connections } in
      let (d, e) = find-emplace id c io.connections in
      let l = length-launch accepted setup id c io' d e in
      let o = launch_opt accepted setup id c io' in
      λ h. omega (
        arith,
        l,
        ap (λ p. p.max_connections) o,
        full-lt io place,
        length-emplace id c io.connections,
      ))
]

adopt-Bounded :
    (bound accepted : Bool) (now : ℕ) (setup : List Act) (bound_id : ℕ) (io : IoService)
    → Bounded io
    → Bounded (adopt bound accepted now setup bound_id io).1
unfolding adopt reserve_id
adopt-Bounded bound accepted now setup bound_id io v = elim (Bool-cases (bound_id == 0)) [
  | inl unnamed ↦ elim (Bool-cases bound) [
    | inl ok ↦ simp (unnamed, ok) (admit-Bounded accepted setup io.next_id _ _ v)
    | inr unbound ↦ simp (unnamed, unbound) v
  ]
  | inr named ↦ simp named (admit-Bounded accepted setup bound_id _ io v)
]

length-keep_live : (t : Table ℕ Connection) → length (keep_live t) ≤ length t
unfolding keep_live
length-keep_live [] = omega arith
length-keep_live ((id, c) ∷ t) = ground (arith, length-keep_live t)

length-close_expired :
    (now : ℕ) (opt : Options) (t : Table ℕ Connection) → length (close_expired now opt t) ≡ length t
unfolding close_expired
length-close_expired now opt [] = refl
length-close_expired now opt ((id, c) ∷ t) = omega (arith, length-close_expired now opt t)

Moves-Bounded : {s t : IoService} → Moves s t → Bounded s → Bounded t
Moves-Bounded (adopts bound accepted now setup bound_id io h) v =
    adopt-Bounded bound accepted now setup bound_id io v
Moves-Bounded (uses id io {c} {d} e s) v =
    λ h. omega (arith, v h, length-set id d c io.connections e)
Moves-Bounded (sweeps now io) v =
    unfold sweep in
    (λ h. omega (
      arith,
      v h,
      length-keep_live io.connections,
      length-close_expired now io.opt (keep_live io.connections),
    ))

-- Over any history of a new service there are never more connections in the table than the
-- limit, where one is set.
pub connections_bound : (opt : Options) {io : IoService} → Runs (new_service opt) io → Bounded io
unfolding new_service
connections_bound opt here = λ h. omega arith
connections_bound opt (next r m) = Moves-Bounded m (connections_bound opt r)

-- Not idle for longer than the timeout, or closed.
abbrev pub Awake : ℕ → Options → Connection → Type 0
Awake now opt c =
    0 < opt.heartbeat_timeout_ms
    → c.closed ≡ false
    → now ≤ c.last_active_ms + opt.heartbeat_timeout_ms

close_expired-Awake :
    (now : ℕ) (opt : Options) (t : Table ℕ Connection)
    → Values (Awake now opt) (close_expired now opt t)
unfolding close_expired
close_expired-Awake now opt [] = tt
close_expired-Awake now opt ((id, c) ∷ t) =
    (unfold expired close in (λ h e. ground arith), close_expired-Awake now opt t)

-- After a round of the sweep every connection in the table is closed, or was active within the
-- heartbeat's timeout, where one is set.
pub sweep-Awake : (now : ℕ) (io : IoService) → Values (Awake now io.opt) (sweep now io).connections
unfolding sweep
sweep-Awake now io = close_expired-Awake now io.opt (keep_live io.connections)
