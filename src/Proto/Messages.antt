-- ===== src/Proto/Messages.antt =====
-- src/proto/messages.h: message ids, error codes, and the limits on a body's fields. The header's
-- table of ids is the child `MsgId`.
pub mod MsgId
use iocp_echo_server.Base.{ℕ, ◌+◌, ◌%◌, ◌^◌, Bool, ltb}

abbrev pub ack_offset : ℕ
ack_offset = 100

pub ack_of : ℕ → ℕ
ack_of req = (req + ack_offset) % 2 ^ 16

pub data ErrorCode : Type 0 where
  malformed_frame unknown_message invalid_field : ErrorCode
  payload_too_long limit_out_of_range : ErrorCode
  db_unavailable db_timeout : ErrorCode
  server_busy : ErrorCode

-- The number of each enumerator.
abbrev pub code : ErrorCode → ℕ
code ErrorCode.malformed_frame = 1
code ErrorCode.unknown_message = 2
code ErrorCode.invalid_field = 3
code ErrorCode.payload_too_long = 10
code ErrorCode.limit_out_of_range = 11
code ErrorCode.db_unavailable = 20
code ErrorCode.db_timeout = 21
code ErrorCode.server_busy = 30

unfoldable pub is_fatal : ErrorCode → Bool
is_fatal c = ltb (code c) 10

abbrev pub max_payload_bytes : ℕ
max_payload_bytes = 512

abbrev pub min_history_limit : ℕ
min_history_limit = 1

abbrev pub max_history_limit : ℕ
max_history_limit = 100
