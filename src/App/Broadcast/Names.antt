-- ===== src/App/Broadcast/Names.antt =====
-- src/app/broadcast_service.cpp: a member's name and its connection come by two queues.
use iocp_echo_server.Base.{ℕ, ◌≡◌, true, List, [], none, some}
use iocp_echo_server.Base.Table.{find, set, number_key, find-set, find-erase}
use iocp_echo_server.App.Handlers.{InboundEvent}
use iocp_echo_server.App.Broadcast.{BroadcastService, name_or, name_of, on_connected, on_service}

-- Whether a connection's notice or its session's key comes first: the connection is a member of
-- the chat under that key, and no name is left waiting for it, provided that before it was no
-- member and no name waited.
pub names_meet :
    (ev : InboundEvent) (key : List ℕ) (s : BroadcastService)
    → ev.conn ≡ true
    → find ev.conn_id s.members ≡ none
    → find ev.conn_id s.pending_names ≡ none
    → let early = on_connected ev (on_service ev.conn_id key s) in
      let late = on_service ev.conn_id key (on_connected ev s) in
      (find ev.conn_id early.members ≡ some (record { name = key }))
      × (find ev.conn_id late.members ≡ some (record { name = key }))
      × (find ev.conn_id early.pending_names ≡ none)
      × (find ev.conn_id late.pending_names ≡ none)
unfolding on_connected on_service name_or name_of
names_meet ev key s c m p =
    let id = ev.conn_id in
    let waits = find-set id key s.pending_names in
    let unnamed = find-set id (record { name = [] }) s.members in
    (
      simp (c, m, waits, find-set id (record { name = key }) s.members),
      simp (
        c,
        m,
        p,
        unnamed,
        find-set id (record { name = key }) (set id (record { name = [] }) s.members),
      ),
      simp (c, m, find-erase id (set id key s.pending_names)),
      simp (c, m, p, unnamed, find-erase id s.pending_names),
    )
