-- ===== src/Net/Connection/Port.antt =====
-- The completion port as a connection meets it: it hands over a completion that it owes, and no
-- other, and a worker runs the method for it (src/net/io_service.cpp, `dispatch`). A completed
-- receive has put its bytes at `writable()`, no more of them than there was room for; a completed
-- send reports bytes of the buffer that it was given, which the peer then gets.
use iocp_echo_server.Base.{ℕ, ◌-◌, ◌≤◌, ◌<◌, Bool, List, [], ◌++◌, if◌then◌else◌, length, take}
use iocp_echo_server.Net.ReceiveBuffer.{fill, writable_size}
use iocp_echo_server.Net.Connection.{Connection, close}
use iocp_echo_server.Net.Connection.Send.{send, on_flush, on_send_done}
use iocp_echo_server.Net.Connection.Receive.{Handler, resume_receive, on_receive_done, on_resume}

unfoldable pub flush_out : Connection → Connection
flush_out c = record c { outside = record (c.outside) { flush_ops = c.outside.flush_ops - 1 } }

unfoldable pub resume_out : Connection → Connection
resume_out c = record c { outside = record (c.outside) { resume_ops = c.outside.resume_ops - 1 } }

unfoldable pub send_out : ℕ → Bool → Connection → Connection
send_out transferred success c = record c {
  outside = record (c.outside) {
    send_ops = c.outside.send_ops - 1;
    wire = c.outside.wire ++ (if success then take transferred c.send_staging else []);
  };
}

unfoldable pub receive_out : List ℕ → Connection → Connection
receive_out bytes c = record c {
  recv_buf = fill bytes c.recv_buf;
  outside = record (c.outside) { recv_ops = c.outside.recv_ops - 1 };
}

-- One thing that can happen to a connection: a service or a worker calls a method, or the port
-- hands over a completion. All orders of these are possible, and what the handler does with a frame
-- may differ from one completion to the next.
pub data Step : Connection → Connection → Type 0 where
  sending :
      (posted accepted : Bool) (msg_id : ℕ) (body : List ℕ) (c : Connection)
      → Step c (send posted accepted msg_id body c)
  closing : (c : Connection) → Step c (close c)
  resuming : (posted : Bool) (c : Connection) → Step c (resume_receive posted c)
  flushed :
      (accepted : Bool) (c : Connection)
      → 0 < c.outside.flush_ops
      → Step c (on_flush accepted (flush_out c))
  sent :
      (accepted : Bool) (now transferred : ℕ) (success : Bool) (c : Connection)
      → 0 < c.outside.send_ops
      → transferred ≤ length c.send_staging
      → Step c (on_send_done accepted now transferred success (send_out transferred success c))
  received :
      (handler : Handler) (accepted : Bool) (now : ℕ) (bytes : List ℕ) (success : Bool)
      (c : Connection)
      → 0 < c.outside.recv_ops
      → length bytes ≤ writable_size c.recv_buf
      → Step c (on_receive_done handler accepted now (length bytes) success (receive_out bytes c)).1
  resumed :
      (handler : Handler) (accepted : Bool) (c : Connection)
      → 0 < c.outside.resume_ops
      → Step c (on_resume handler accepted (resume_out c)).1

pub data Reach (s : Connection) : Connection → Type 0 where
  here : Reach s s
  next : {t u : Connection} → Reach s t → Step t u → Reach s u
