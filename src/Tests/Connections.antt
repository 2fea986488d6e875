-- ===== src/Tests/Connections.antt =====
-- The table of connections.
use iocp_echo_server.Base.{◌≡◌, ◌<◌, true, false, [], ◌∷◌, arith, some}
use iocp_echo_server.Base.Table.{number_key, find, set, emplace}
use iocp_echo_server.Net.Connection.Receive.{
  Handler, start, acts, post_receive, rearm, on_receive_done, receive_failed,
}
use iocp_echo_server.Net.Connection.{Connection, new_connection, close, sub_pending, add_pending}
use iocp_echo_server.Net.Connection.Port.{receive_out, received}
use iocp_echo_server.Net.Connection.Safety.{reclaimable}
use iocp_echo_server.Net.IoService.{
  Options, IoService, new_service, adopt, take_dead, full, launch, admit, reserve_id,
}
use iocp_echo_server.Net.IoService.System.{adopts, uses, Runs, here, next}
use iocp_echo_server.Tests.Links.{room}

abbrev takes_all : Handler
takes_all c frame = ([], true)

abbrev opt : Options
opt = record {
  heartbeat_timeout_ms = 100;
  max_connections = 2;
  send_buffer_limit = 0;
  direct_send = false;
}

abbrev one_adopted : IoService
one_adopted = (adopt true true 5 [] 0 (new_service opt)).1

-- The one connection, before and after its first receive fails.
abbrev first : Connection
first = (start true (new_connection 1 false 0 5)).1

abbrev ended : Connection
ended = (on_receive_done takes_all true 6 0 false (receive_out [] first)).1

abbrev one_ended : IoService
one_ended = record one_adopted { connections = set 1 ended one_adopted.connections }

first_started : (start true (new_connection 1 false 0 5)).0 ≡ true
unfolding start post_receive rearm new_connection close
first_started = ground (arith, room)

one_there : find 1 one_adopted.connections ≡ some first
unfolding find adopt admit launch full reserve_id new_service acts set emplace start post_receive
    new_connection rearm
one_there = ground (arith, room)

first_receives : 0 < first.outside.recv_ops
unfolding start post_receive rearm new_connection close
first_receives = ground (arith, room)

abbrev history : Runs (new_service opt) one_ended
history = next (next here (adopts true true 5 [] 0 (new_service opt) tt)) (
    uses 1 one_adopted one_there
      (received takes_all true 6 [] false first first_receives (omega arith)))

-- The sweep takes it.
ended-taken : take_dead one_ended.connections ≡ ended ∷ []
unfolding find adopt admit launch full reserve_id new_service acts set emplace start post_receive
    new_connection rearm take_dead reclaimable on_receive_done receive_failed receive_out close
    sub_pending add_pending
ended-taken = ground (arith, room)
