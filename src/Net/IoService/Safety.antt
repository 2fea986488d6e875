-- ===== src/Net/IoService/Safety.antt =====
-- src/net/io_service.cpp: the table of connections over a history.
use iocp_echo_server.Base.Table.{Table, number_key}
use iocp_echo_server.Net.Connection.{Connection}
use iocp_echo_server.Net.IoService.{IoService}
