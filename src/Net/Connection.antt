-- ===== src/Net/Connection.antt =====
-- src/net/connection.h and connection.cpp: one socket and the operations outstanding on it. A
-- method is one atomic step: each runs under `send_mutex_` or, on the receiving side, on the one
-- worker that holds the completion.
--
-- `outside` is what a connection's calls change beyond itself: the completions that the port still
-- owes it, the bytes that the peer was sent (`wire`), those that `send` has accepted (`queued`: no
-- field of the program, a history that statements are about), the runs of `on_close_`, and the
-- counters of IoService. What the operating system answers is an argument.
pub mod Send
pub mod Receive
pub mod Port
pub mod Invariant
pub mod Safety
pub mod Stream
pub mod Drain
pub mod Receives
pub mod Willing
pub mod Overtaking
use iocp_echo_server.Base.{ℕ, ◌+◌, ◌-◌, Bool, true, false, List, [], if◌then◌else◌}
use iocp_echo_server.Net.ReceiveBuffer.{ReceiveBuffer}
use iocp_echo_server.Net.ReceiveBuffer

pub record Outside : Type 0 where
  pub recv_ops : ℕ
  pub send_ops : ℕ
  pub flush_ops : ℕ
  pub resume_ops : ℕ
  pub wire : List ℕ
  pub queued : List ℕ
  pub close_calls : ℕ
  pub flush_posts : ℕ
  pub send_issues : ℕ
  pub send_messages : ℕ
  pub partial_sends : ℕ
  pub send_overflow : ℕ

pub record Connection : Type 0 where
  pub id : ℕ
  pub socket_open : Bool
  pub recv_buf : ReceiveBuffer
  pub flush_queued : Bool
  pub recv_paused : Bool
  pub resume_queued : Bool
  pub send_pending : List ℕ
  pub send_staging : List ℕ
  pub sending : Bool
  pub direct_send : Bool
  pub send_limit : ℕ
  pub pending_messages : ℕ
  pub pending : ℕ
  pub closed : Bool
  pub last_active_ms : ℕ
  pub outside : Outside

abbrev quiet : Outside
quiet = record {
  recv_ops = 0;
  send_ops = 0;
  flush_ops = 0;
  resume_ops = 0;
  wire = [];
  queued = [];
  close_calls = 0;
  flush_posts = 0;
  send_issues = 0;
  send_messages = 0;
  partial_sends = 0;
  send_overflow = 0;
}

-- The constructor, with the two settings that IoService makes before the first receive.
unfoldable pub new_connection : ℕ → Bool → ℕ → ℕ → Connection
new_connection id direct limit now = record {
  id = id;
  socket_open = true;
  recv_buf = ReceiveBuffer.fresh;
  flush_queued = false;
  recv_paused = false;
  resume_queued = false;
  send_pending = [];
  send_staging = [];
  sending = false;
  direct_send = direct;
  send_limit = limit;
  pending_messages = 0;
  pending = 0;
  closed = false;
  last_active_ms = now;
  outside = quiet;
}

-- Only the first call closes the socket and runs the callback.
unfoldable pub close : Connection → Connection
close c = if c.closed then c else record c {
  closed = true;
  socket_open = false;
  outside = record (c.outside) { close_calls = c.outside.close_calls + 1 };
}

unfoldable pub touch : ℕ → Connection → Connection
touch now c = record c { last_active_ms = now }

unfoldable pub add_pending : Connection → Connection
add_pending c = record c { pending = c.pending + 1 }

-- `fetch_sub(1)`; the invariant shows that the count is never 0 there.
unfoldable pub sub_pending : Connection → Connection
sub_pending c = record c { pending = c.pending - 1 }
