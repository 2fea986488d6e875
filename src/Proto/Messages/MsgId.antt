-- ===== src/Proto/Messages/MsgId.antt =====
-- src/proto/messages.h, `enum MsgId`: the requests, and the replies 100 above them.
use iocp_echo_server.Base.{ℕ}

abbrev pub echo_req : ℕ
echo_req = 1

abbrev pub save_req : ℕ
save_req = 2

abbrev pub history_req : ℕ
history_req = 3

abbrev pub counter_req : ℕ
counter_req = 4

abbrev pub ping_req : ℕ
ping_req = 5

abbrev pub chat_req : ℕ
chat_req = 6

abbrev pub session_ack : ℕ
session_ack = 100

abbrev pub echo_ack : ℕ
echo_ack = 101

abbrev pub save_ack : ℕ
save_ack = 102

abbrev pub history_ack : ℕ
history_ack = 103

abbrev pub counter_ack : ℕ
counter_ack = 104

abbrev pub pong_ack : ℕ
pong_ack = 105

abbrev pub chat_push : ℕ
chat_push = 106

abbrev pub error_ack : ℕ
error_ack = 199
