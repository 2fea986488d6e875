-- ===== src/Net/IoService.antt =====
-- src/net/io_service.h and io_service.cpp: the table of connections. `adopt` and the sweep hold
-- `mutex_` while they read or change the table. What is beyond the program is an argument: whether
-- the port took the socket (`bound`) and the first WSARecv (`accepted`), the time, and what other
-- threads have done to a connection between its registration and its first receive (`setup`).
-- `reclaimed` and `abandoned` are histories: the connections that the sweep and a failed `adopt`
-- took out of the table.
pub mod System
pub mod Safety
pub mod Limits
pub mod Workers
use iocp_echo_server.Base.{
  ℕ, suc, ◌+◌, ◌-◌, Bool, true, false, not, ◌&&◌, ltb, leb, ◌==◌, if◌then◌else◌, List, [], ◌∷◌,
  ◌++◌, Option, none, some, length,
}
use iocp_echo_server.Base.Table.{Table, find, set, erase, emplace, number_key}
use iocp_echo_server.Net.Connection.{Connection, new_connection, close}
use iocp_echo_server.Net.Connection.Receive.{Act, acts, start}
use iocp_echo_server.Net.Connection.Safety.{reclaimable}

pub record Options : Type 0 where
  pub heartbeat_timeout_ms : ℕ
  pub max_connections : ℕ
  pub send_buffer_limit : ℕ
  pub direct_send : Bool

pub record IoService : Type 0 where
  pub opt : Options
  pub connections : Table ℕ Connection
  pub next_id : ℕ
  pub refused : ℕ
  pub reclaimed : List Connection
  pub abandoned : List Connection

unfoldable pub new_service : Options → IoService
new_service opt = record {
  opt = opt;
  connections = [];
  next_id = 1;
  refused = 0;
  reclaimed = [];
  abandoned = [];
}

-- `fetch_add(1)`
unfoldable pub reserve_id : IoService → ℕ × IoService
reserve_id io = (io.next_id, record io { next_id = io.next_id + 1 })

-- No place is left.
unfoldable pub full : IoService → Bool
full io = ltb 0 io.opt.max_connections && leb io.opt.max_connections (length io.connections)

-- `adopt` from the registration on: whether the connection stays.
unfoldable pub launch : Bool → List Act → ℕ → Connection → IoService → Option ℕ × IoService
launch accepted setup id conn io =
    let (started, c) = start accepted (acts setup conn) in
    if started then (some id, record io { connections = set id c io.connections }) else (
      none,
      record io { connections = erase id io.connections; abandoned = io.abandoned ++ (c ∷ []) },
    )

-- The check and the registration, under one lock.
unfoldable pub admit : Bool → List Act → ℕ → Connection → IoService → Option ℕ × IoService
admit accepted setup id conn io =
    if full io
    then (none, record io { refused = io.refused + 1 })
    else launch accepted setup id conn (record io { connections = emplace id conn io.connections })

-- A socket that is bound already comes with its id; 0 is none.
unfoldable pub adopt : Bool → Bool → ℕ → List Act → ℕ → IoService → Option ℕ × IoService
adopt bound accepted now setup bound_id io =
    let (id, io') = if bound_id == 0 then reserve_id io else (bound_id, io) in
    let conn = new_connection id io.opt.direct_send io.opt.send_buffer_limit now in
    if (bound_id == 0) && not bound then (none, io') else admit accepted setup id conn io'

-- The heartbeat has run out on an open connection.
unfoldable pub expired : ℕ → Options → Connection → Bool
expired now opt c =
    ltb 0 opt.heartbeat_timeout_ms
    && (not c.closed && ltb (c.last_active_ms + opt.heartbeat_timeout_ms) now)

-- One entry of the sweep's loop: what it reclaims is left out.
unfoldable pub keep_live : Table ℕ Connection → Table ℕ Connection
keep_live [] = []
keep_live ((id, c) ∷ t) = let rest = keep_live t in if reclaimable c then rest else (id, c) ∷ rest

unfoldable pub take_dead : Table ℕ Connection → List Connection
take_dead [] = []
take_dead ((id, c) ∷ t) = let rest = take_dead t in if reclaimable c then c ∷ rest else rest

-- `close` for each that has expired, once the lock is given back.
unfoldable pub close_expired : ℕ → Options → Table ℕ Connection → Table ℕ Connection
close_expired now opt [] = []
close_expired now opt ((id, c) ∷ t) =
    (id, if expired now opt c then close c else c) ∷ close_expired now opt t

-- One round of `sweep_loop`.
unfoldable pub sweep : ℕ → IoService → IoService
sweep now io = record io {
  connections = close_expired now io.opt (keep_live io.connections);
  reclaimed = io.reclaimed ++ take_dead io.connections;
}
