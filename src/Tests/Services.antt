-- ===== src/Tests/Services.antt =====
-- The game service's handlers.
use iocp_echo_server.Base.{◌≡◌, refl, true, false, [], ◌∷◌, ◌++◌, some, All, length, arith}
use iocp_echo_server.Base.Table.{find, number_key}
use iocp_echo_server.Proto.Codec.{put_str}
use iocp_echo_server.Proto.Messages.MsgId
use iocp_echo_server.App.Reply.{sends}
use iocp_echo_server.App.Handlers.{
  Session, AppContext, InboundEvent, EventKind, Answers, handle_echo, dispatch, process_event,
}
use iocp_echo_server.App.Handlers.Laws.{
  Answered, Own, process_event_answers, dispatch-Own, echo_roundtrip,
}
use iocp_echo_server.App.Broadcast.{BroadcastService}

abbrev someone : Session
someone = record { conn_id = 4; session_key = 65 ∷ []; connected_ms = 1; message_count = 0 }

abbrev lane : AppContext
lane = record {
  sessions = (4, someone) ∷ [];
  db_enabled = true;
  db_deadline_us = 0;
  has_relay = true;
  handled = 0;
  rejected = 0;
  db_requests = 0;
  db_responses = 0;
  db_failures = 0;
  db_expired = 0;
}

abbrev now : Answers
now = record {
  new_key = 66 ∷ [];
  now_ms = 5;
  now_us = 5000;
  unix_ms = 7;
  accepts = λ req. true;
  text = λ detail. [];
}

-- A save of the text `hi`.
abbrev saving : InboundEvent
saving = record {
  kind = EventKind.message;
  conn_id = 4;
  msg_id = 2;
  size = 4;
  oversized = false;
  conn = false;
  body = 0 ∷ 2 ∷ 104 ∷ 105 ∷ [];
}

someone_here : find saving.conn_id lane.sessions ≡ some someone
unfolding find
someone_here = refl

process_event_answers_example : Answered now lane (process_event now saving lane)
process_event_answers_example = process_event_answers now saving someone lane refl someone_here

dispatch-Own_example : All (Own someone) (dispatch now someone saving lane).0
dispatch-Own_example = dispatch-Own now someone saving lane

abbrev echoing : InboundEvent
echoing = record saving {
  msg_id = 1;
  size = length (put_str (104 ∷ []) []);
  body = put_str (104 ∷ []) [] ++ (9 ∷ []);
}

echo_roundtrip_example :
    handle_echo now someone echoing lane
    ≡ (sends 4 MsgId.echo_ack (put_str (104 ∷ []) []) ∷ [], lane)
echo_roundtrip_example =
    echo_roundtrip now someone echoing lane (104 ∷ []) (9 ∷ []) (omega arith) refl refl

abbrev chat : BroadcastService
chat = record {
  members = [];
  pending_names = [];
  handled = 0;
  rejected = 0;
  broadcasts = 0;
  broadcast_sends = 0;
  orphan_names = 0;
}

abbrev joining : InboundEvent
joining = record saving { kind = EventKind.connected; conn = true }
