-- ===== src/App/Reply.antt =====
-- src/app/reply.cpp. What a service's thread has other parts do is a list of calls, in order: the
-- connection's `send` and `close`, the database pool's `submit`, and the relay to the chat service.
use iocp_echo_server.Base.{ℕ, if◌then◌else◌, List, [], ◌∷◌}
use iocp_echo_server.Proto.Codec.{Writer, put_u16, put_str}
use iocp_echo_server.Proto.Messages.{ErrorCode, code, is_fatal}
use iocp_echo_server.Proto.Messages.MsgId.{error_ack}
use iocp_echo_server.Db.Types.{Request}

pub data Call : Type 0 where
  sends : ℕ → ℕ → List ℕ → Call
  closes : ℕ → Call
  submits : Request → Call
  relays : ℕ → List ℕ → Call

-- The body of an error reply.
unfoldable pub error_body : ℕ → ErrorCode → List ℕ → Writer
error_body origin error detail = put_str detail (put_u16 (code error) (put_u16 origin []))

unfoldable pub send_error : ℕ → ℕ → ErrorCode → List ℕ → List Call
send_error conn origin error detail =
    sends conn error_ack (error_body origin error detail)
    ∷ (if is_fatal error then closes conn ∷ [] else [])
