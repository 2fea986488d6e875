-- ===== src/Lib.antt =====
-- A verification library for iocp-echo-server, a message server on the Windows completion port.
--
-- The program. Workers take completions from the port (src/net/io_service.cpp) and run the method
-- of the connection that each is for (src/net/connection.cpp). A connection receives into a buffer
-- (src/net/receive_buffer.cpp), cuts frames from it (src/proto/frame.h), hands them to a handler of
-- the services (src/app), and queues what the services send. The services run on threads of their
-- own, fed by double-buffered queues (src/core/swap_queue.h), read and write bodies by
-- src/proto/byte_reader.h and byte_writer.h, and ask the database through workers
-- (src/db/request_dispatcher.cpp, src/db/db_worker_pool.cpp).
--
-- Where each part is.
--   Proto.ByteOrder  src/proto/byte_order.h: load_be16 ... store_be64.
--   Proto.Codec      src/proto/byte_reader.h and byte_writer.h. A reader is its bytes, its size, its
--                    position and `ok`; a method is a function that also returns the new reader.
--   Proto.Frame      src/proto/frame.h: peek_frame, write_header and the limits.
--   Proto.Messages   src/proto/messages.h: message ids, error codes, limits on fields.
--   Net.ReceiveBuffer  src/net/receive_buffer.h and receive_buffer.cpp, with the memory as a list.
--   Net.Connection   src/net/connection.h and connection.cpp: `Send` and `Receive` are its two
--                    halves, and `Port` is the completion port as a connection meets it.
--   Net.IoService    src/net/io_service.h and io_service.cpp: the table of connections, adopt and the
--                    sweep; `System` lets all connections' steps happen in any order.
--                    `Workers` is the loop of the port's workers and the stop.
--   Net.Acceptor, Net.Connector  src/net/acceptor.cpp and connector.cpp: where each socket and each
--                    operation is.
--   Net.AdminServer  src/net/admin_server.cpp: requests and responses.
--   Core.SwapQueue   src/core/swap_queue.h.
--   Core.LogicThread  src/core/logic_thread.h and logic_thread.cpp: the loop, `wake` and `stop` as
--                    steps of threads (`Waking`), and the timers.
--   Core.Log         src/core/log.cpp: the queue, the file and its rotation.
--   Core.IniReader   src/core/ini_reader.cpp.
--   Core.Uuid        src/core/uuid.h.
--   Core.Latency     src/core/latency.h and latency.cpp.
--   Db.Types         src/db/db_types.h.
--   Db.Dispatcher    src/db/request_dispatcher.h and request_dispatcher.cpp.
--   Db.Worker        src/db/db_worker_pool.cpp: how a worker runs a request, a batch of saves, and
--                    the requests of its own queue.
--   Db.Pool          src/db/db_worker_pool.cpp: the pool; `Queues` is submit and the workers' own
--                    queues, `Shared` a worker's round over the shared dispatcher, and `Upkeep` the
--                    care for its connection.
--   Db.Mysql         src/db/mysql_connection.h and mysql_connection.cpp, over an interface for the
--                    MySQL client library: `Session` opens and prepares, `Direct` and `Procedures`
--                    are the two paths, `Rows` reads results, and `Port` fills the interface
--                    that the workers use.
--   App.Reply, App.Handlers  src/app/reply.cpp, handlers.cpp and session_table.cpp: a handler
--                    returns the calls that it made and the lane's new state.
--   App.Broadcast    src/app/broadcast_service.cpp, in the same way.
--   App.Service      src/app/service.h and service.cpp: lanes, their rounds and the ways in; `Hooks`
--                    is what a derived service overrides. `Spec` is a lane as its users see it,
--                    and `System` any interleaving of the steps of its threads.
--   App.Game, App.Chat  src/app/game_service.cpp and broadcast_service.cpp as such services.
--   App.Router       src/app/service_router.h and service_router.cpp.
--   App.Startup      src/main.cpp: what is started and stopped on each path.
--   Tests            the development's runs on concrete inputs.
--
-- How it is modelled. A method is a function from the object's state to its new state, and one step:
-- each method runs under a mutex, or on the one thread that may call it. On the receiving side of a
-- connection this takes one receive or one resume to be at work at a time: a resume that another
-- worker runs before the end of the receive that paused the connection is outside of `Step`, and is
-- what `Net.Connection.Overtaking` is about. In the table's `Moves` a connection is used while it
-- is in the table; a lane's list of paused connections may hold it for longer. A lane's refusal of
-- a message and a worker's round over its own queue are one step each, where the program takes
-- locks in between.
-- What the system answers (whether WSASend, WSARecv or a post to the port was accepted, the time,
-- the bytes that arrived) is an argument, so statements are about every answer.
-- `Net.Connection.Port.Step` lets the methods and the completions that are owed happen in any order.
-- A connection has a history of bytes sent and bytes accepted, which the program does not keep.
--
-- Bounds and fuel. Byte values are numbers, and 16-bit, 32-bit and 64-bit arithmetic wraps where the
-- source could. The positions of the receive buffer are plain numbers, as they stay below its limit
-- of 16384, and so are the sums of `reserve_free`, for a request that is not close to 2^31. The
-- loop of `drain_frames` runs on one round more than there are bytes: a round that goes on consumes
-- a header of six. `reserve_free`'s loop runs a round for each byte asked for, and
-- each adds 8192. The loops over rows and further results of a database statement run a round for
-- each that is left and one more, and the loop over the shared dispatcher any number of rounds.
-- `rotated_target` tries its 100 names. Counters of messages are unbounded.
--
-- Not modelled. The MySQL client library, the operating system's calls and the clock are interfaces
-- or arguments. The message handler of a connection is an argument of its model; the router's
-- `post_message` returns what such a handler has its connection do. A name that a text stands
-- for is the list of its bytes. The text of log lines and of metrics, socket options and addresses,
-- the limit on requests (src/net/rate_limiter.h), which is computed in floating point,
-- the making of threads and the waiting of a drain have no model, and neither have the
-- settings and the report of `main`, and the load generator. Exceptions reach
-- a lane by the interface of its service; the two services throw none here, as only an allocation
-- that fails would. Distributions of times are kept by a lane, and left out within the game and chat
-- services.
pub mod Base
pub mod Proto
pub mod Net
pub mod Core
pub mod App
mod Tests
pub mod Db
