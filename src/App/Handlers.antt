-- ===== src/App/Handlers.antt =====
-- src/app/handlers.cpp and session_table.cpp: the game service's lane. A handler takes the lane's
-- state and returns it with the calls that it made, in order. The texts of error
-- replies, new session keys, clock readings and the answer of the database pool's `submit` are
-- arguments. The distributions and counters of database times are left out.
pub mod Laws
use iocp_echo_server.Base.{
  ℕ, ◌+◌, ◌%◌, ◌^◌, Bool, true, false, not, ◌&&◌, ◌||◌, ◌==◌, ltb, leb, if◌then◌else◌, List, [],
  ◌∷◌, ◌++◌, Option, none, some, length,
}
use iocp_echo_server.Base.Table.{Table, find, set, erase, number_key}
use iocp_echo_server.Proto.Codec.{
  Reader, new_reader, str, u16, u64, consumed_all, Writer, put_str, put_u64, put_u16, put_u8,
}
use iocp_echo_server.Proto.Messages.{
  ErrorCode, max_payload_bytes, min_history_limit, max_history_limit,
}
use iocp_echo_server.Proto.Messages.MsgId
use iocp_echo_server.Db.Types.{RequestKind, Status, Request, Response, LogRow, new_request}
use iocp_echo_server.App.Reply.{Call, sends, closes, submits, relays, send_error}

pub record Session : Type 0 where
  pub conn_id : ℕ
  pub session_key : List ℕ
  pub connected_ms : ℕ
  pub message_count : ℕ

-- `AppContext` with the table that it points to.
pub record AppContext : Type 0 where
  pub sessions : Table ℕ Session
  pub db_enabled : Bool
  pub db_deadline_us : ℕ
  pub has_relay : Bool
  pub handled : ℕ
  pub rejected : ℕ
  pub db_requests : ℕ
  pub db_responses : ℕ
  pub db_failures : ℕ
  pub db_expired : ℕ

pub data EventKind : Type 0 where
  connected disconnected message : EventKind

-- `conn` is whether the event holds a connection; its id is `conn_id`.
pub record InboundEvent : Type 0 where
  pub kind : EventKind
  pub conn_id : ℕ
  pub msg_id : ℕ
  pub size : ℕ
  pub oversized : Bool
  pub conn : Bool
  pub body : List ℕ

-- The texts for people in error replies.
pub data Detail : Type 0 where
  echo_body ping_body save_body history_body counter_body : Detail
  payload_limit history_range key_length body_too_large unknown_id : Detail
  db_disabled db_queue_full db_request_failed db_request_expired : Detail

-- What the lane's surroundings answer while one event is handled.
pub record Answers : Type 0 where
  pub new_key : List ℕ
  pub now_ms : ℕ
  pub now_us : ℕ
  pub unix_ms : ℕ
  pub accepts : Request → Bool
  pub text : Detail → List ℕ

unfoldable pub reject : Answers → ErrorCode → Detail → ℕ → ℕ → AppContext → List Call × AppContext
reject env error detail conn origin ctx =
    (send_error conn origin error (env.text detail), record ctx { rejected = ctx.rejected + 1 })

unfoldable pub submit_db : Answers → ℕ → Request → Session → AppContext → List Call × AppContext
submit_db env origin req session ctx =
    if not ctx.db_enabled
    then reject env ErrorCode.db_unavailable db_disabled session.conn_id origin ctx
    else let filled = record req {
      conn_id = session.conn_id;
      session_key = session.session_key;
      submitted_us = env.now_us;
      deadline_us =
          if ltb 0 ctx.db_deadline_us then env.now_us + ctx.db_deadline_us else req.deadline_us;
    } in
      let (calls, ctx') =
        reject env ErrorCode.server_busy db_queue_full session.conn_id origin ctx in
      if not (env.accepts filled)
      then (submits filled ∷ calls, ctx')
      else (submits filled ∷ [], record ctx { db_requests = ctx.db_requests + 1 })

unfoldable pub handle_echo : Answers → Session → InboundEvent → AppContext → List Call × AppContext
handle_echo env session ev ctx =
    let (payload, r) = str (new_reader ev.body ev.size) in
    if not (consumed_all r)
    then reject env ErrorCode.invalid_field echo_body session.conn_id ev.msg_id ctx
    else if ltb max_payload_bytes (length payload)
    then reject env ErrorCode.payload_too_long payload_limit session.conn_id ev.msg_id ctx
    else (sends session.conn_id MsgId.echo_ack (put_str payload []) ∷ [], ctx)

unfoldable pub handle_ping : Answers → Session → InboundEvent → AppContext → List Call × AppContext
handle_ping env session ev ctx =
    let (client_ms, r) = u64 (new_reader ev.body ev.size) in
    if not (consumed_all r)
    then reject env ErrorCode.invalid_field ping_body session.conn_id ev.msg_id ctx
    else (
      sends session.conn_id MsgId.pong_ack (put_u64 (env.unix_ms % 2 ^ 64) (put_u64 client_ms []))
          ∷ [],
      ctx,
    )

unfoldable pub handle_save : Answers → Session → InboundEvent → AppContext → List Call × AppContext
handle_save env session ev ctx =
    let (payload, r) = str (new_reader ev.body ev.size) in
    if not (consumed_all r)
    then reject env ErrorCode.invalid_field save_body session.conn_id ev.msg_id ctx
    else if ltb max_payload_bytes (length payload)
    then reject env ErrorCode.payload_too_long payload_limit session.conn_id ev.msg_id ctx
    else submit_db env ev.msg_id (record new_request { kind = RequestKind.save; payload = payload })
        session ctx

unfoldable pub handle_history :
    Answers → Session → InboundEvent → AppContext → List Call × AppContext
handle_history env session ev ctx =
    let (limit, r) = u16 (new_reader ev.body ev.size) in
    if not (consumed_all r)
    then reject env ErrorCode.invalid_field history_body session.conn_id ev.msg_id ctx
    else if ltb limit min_history_limit || ltb max_history_limit limit
    then reject env ErrorCode.limit_out_of_range history_range session.conn_id ev.msg_id ctx
    else submit_db env ev.msg_id (record new_request { kind = RequestKind.history; limit = limit })
        session ctx

unfoldable pub handle_counter :
    Answers → Session → InboundEvent → AppContext → List Call × AppContext
handle_counter env session ev ctx =
    let (request_key, r) = str (new_reader ev.body ev.size) in
    if not (consumed_all r)
    then reject env ErrorCode.invalid_field counter_body session.conn_id ev.msg_id ctx
    else if not (length request_key == 36)
    then reject env ErrorCode.invalid_field key_length session.conn_id ev.msg_id ctx
    else submit_db env ev.msg_id
        (record new_request { kind = RequestKind.counter; request_key = request_key }) session ctx

unfoldable pub new_session : Answers → ℕ → Session
new_session env id = record {
  conn_id = id;
  session_key = env.new_key;
  connected_ms = env.now_ms;
  message_count = 0;
}

-- `SessionTable::add`
unfoldable pub add_session : Answers → ℕ → Table ℕ Session → Session × Table ℕ Session
add_session env id sessions = kept (find id sessions)
  where
    kept : Option Session → Session × Table ℕ Session
    kept (some session) = (session, sessions)
    kept none = let session = new_session env id in (session, set id session sessions)

unfoldable pub on_connected : Answers → InboundEvent → AppContext → List Call × AppContext
on_connected env ev ctx =
    let (session, table) = add_session env ev.conn_id ctx.sessions in
    if not ev.conn then ([], ctx) else (
      sends session.conn_id MsgId.session_ack (put_str session.session_key [])
          ∷ (if ctx.has_relay then relays session.conn_id session.session_key ∷ [] else []),
      record ctx { sessions = table },
    )

unfoldable pub on_disconnected : InboundEvent → AppContext → List Call × AppContext
on_disconnected ev ctx = ([], record ctx { sessions = erase ev.conn_id ctx.sessions })

-- The `switch` on the message's id.
unfoldable pub dispatch : Answers → Session → InboundEvent → AppContext → List Call × AppContext
dispatch env session ev ctx =
    if ev.msg_id == MsgId.echo_req
    then handle_echo env session ev ctx
    else if ev.msg_id == MsgId.ping_req
    then handle_ping env session ev ctx
    else if ev.msg_id == MsgId.save_req
    then handle_save env session ev ctx
    else if ev.msg_id == MsgId.history_req
    then handle_history env session ev ctx
    else if ev.msg_id == MsgId.counter_req
    then handle_counter env session ev ctx
    else reject env ErrorCode.unknown_message unknown_id session.conn_id ev.msg_id ctx

unfoldable pub on_session : Answers → Session → InboundEvent → AppContext → List Call × AppContext
on_session env session ev ctx =
    let counted = record session { message_count = session.message_count + 1 } in
    let ctx' = record ctx {
      sessions = set ev.conn_id counted ctx.sessions;
      handled = ctx.handled + 1;
    } in
    if ev.oversized
    then reject env ErrorCode.payload_too_long body_too_large session.conn_id ev.msg_id ctx'
    else dispatch env counted ev ctx'

unfoldable pub on_message : Answers → InboundEvent → AppContext → List Call × AppContext
on_message env ev ctx = met (find ev.conn_id ctx.sessions)
  where
    met : Option Session → List Call × AppContext
    met none = ([], ctx)
    met (some session) = on_session env session ev ctx

unfoldable pub process_event : Answers → InboundEvent → AppContext → List Call × AppContext
process_event env ev ctx = by_kind ev.kind
  where
    by_kind : EventKind → List Call × AppContext
    by_kind connected = on_connected env ev ctx
    by_kind disconnected = on_disconnected ev ctx
    by_kind message = on_message env ev ctx

unfoldable pub request_msg_id : RequestKind → ℕ
request_msg_id RequestKind.save = MsgId.save_req
request_msg_id RequestKind.history = MsgId.history_req
request_msg_id RequestKind.counter = MsgId.counter_req

unfoldable pub put_rows : List LogRow → Writer → Writer
put_rows [] w = w
put_rows (row ∷ rows) w =
    put_rows rows (put_u64 row.created_at_ms (put_str row.payload (put_u64 row.log_id w)))

-- The reply to a request that the database carried out.
unfoldable pub reply_to : RequestKind → ℕ → Response → Call
reply_to RequestKind.save conn res = sends conn MsgId.save_ack (put_u64 res.log_id [])
reply_to RequestKind.history conn res =
    sends conn MsgId.history_ack (put_rows res.rows (put_u16 (length res.rows % 2 ^ 16) []))
reply_to RequestKind.counter conn res =
    sends conn MsgId.counter_ack
      (put_u8 (if res.already_applied then 1 else 0) (put_u64 res.hit_count []))

unfoldable pub failure : Answers → Status → ℕ → ℕ → AppContext → List Call × AppContext
failure env Status.unavailable conn origin ctx =
    (send_error conn origin ErrorCode.db_unavailable (env.text db_request_failed), ctx)
failure env Status.expired conn origin ctx = (
  send_error conn origin ErrorCode.db_timeout (env.text db_request_expired),
  record ctx { db_expired = ctx.db_expired + 1 },
)
failure env _ conn origin ctx =
    (send_error conn origin ErrorCode.db_timeout (env.text db_request_failed), ctx)

unfoldable pub worked : Status → Bool
worked Status.ok = true
worked _ = false

unfoldable pub answer_to : Answers → Response → Session → AppContext → List Call × AppContext
answer_to env res session ctx =
    if worked res.status
    then (reply_to res.kind session.conn_id res ∷ [], ctx)
    else failure env res.status session.conn_id (request_msg_id res.kind)
        (record ctx { db_failures = ctx.db_failures + 1 })

unfoldable pub process_db_response : Answers → Response → AppContext → List Call × AppContext
process_db_response env res ctx = met (find res.conn_id ctx.sessions)
  where
    counted : AppContext
    counted = record ctx { db_responses = ctx.db_responses + 1 }

    met : Option Session → List Call × AppContext
    met none = ([], counted)
    met (some session) = answer_to env res session counted
