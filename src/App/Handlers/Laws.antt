-- ===== src/App/Handlers/Laws.antt =====
-- src/app/handlers.cpp: messages and their answers.
use iocp_echo_server.Base.{
  ℕ, ◌+◌, ◌≤◌, ◌≡◌, refl, if◌then◌else◌, List, [], ◌∷◌, ◌++◌, append-nil, length-append, le→ltb,
  some, length, arith, All,
}
use iocp_echo_server.Base.Table.{find, set, number_key}
use iocp_echo_server.Proto.Codec.{new_reader, str, u16, put_str}
use iocp_echo_server.Proto.Codec.RoundTrip.{
  At, new_reader-At, str-At, str_bytes, put_str_lem, consumed_all-At,
}
use iocp_echo_server.Proto.ByteOrder.{store_be16}
use iocp_echo_server.Proto.ByteOrder.Laws.{length-store_be16}
use iocp_echo_server.Proto.Messages.{ErrorCode, is_fatal}
use iocp_echo_server.Proto.Messages.MsgId
use iocp_echo_server.Db.Types.{RequestKind, Request, new_request}
use iocp_echo_server.App.Reply.{Call, sends, closes, submits, relays, send_error}
use iocp_echo_server.App.Handlers.{
  Session, AppContext, InboundEvent, message, Answers, Detail, reject, submit_db, handle_echo,
  handle_ping, handle_save, handle_history, handle_counter, dispatch, on_session, on_message,
  process_event,
}

-- The messages that a list of calls sends.
unfoldable pub replies : List Call → ℕ
replies [] = 0
replies (sends conn id body ∷ calls) = replies calls + 1
replies (_ ∷ calls) = replies calls

-- The requests in a list of calls that the database's pool accepts.
unfoldable pub accepted : Answers → List Call → ℕ
accepted env [] = 0
accepted env (submits req ∷ calls) = accepted env calls + (if env.accepts req then 1 else 0)
accepted env (_ ∷ calls) = accepted env calls

-- The requests in a list of calls that are offered to the database's pool.
unfoldable pub offered : List Call → ℕ
offered [] = 0
offered (submits req ∷ calls) = offered calls + 1
offered (_ ∷ calls) = offered calls

-- One reply to the message, or one request of it accepted by the pool, and the count of requests
-- is the count of those accepted.
pub record Answered (env : Answers) (ctx : AppContext) (out : List Call × AppContext) : Type 0 where
  pub once : replies out.0 + accepted env out.0 ≡ 1
  pub one_offer : offered out.0 ≤ 1
  pub counted : out.1.db_requests ≡ ctx.db_requests + accepted env out.0

reject-Answered :
    (env : Answers) (error : ErrorCode) (detail : Detail) (conn origin : ℕ) (ctx : AppContext)
    → Answered env ctx (reject env error detail conn origin ctx)
unfolding reject send_error replies accepted offered
reject-Answered env error detail conn origin ctx = ground arith

submit_db-Answered :
    (env : Answers) (origin : ℕ) (req : Request) (session : Session) (ctx : AppContext)
    → Answered env ctx (submit_db env origin req session ctx)
unfolding submit_db reject send_error replies accepted offered is_fatal
submit_db-Answered env origin req session ctx = ground arith

handle_echo-Answered :
    (env : Answers) (session : Session) (ev : InboundEvent) (ctx : AppContext)
    → Answered env ctx (handle_echo env session ev ctx)
unfolding handle_echo reject send_error replies accepted offered is_fatal
handle_echo-Answered env session ev ctx = ground arith

handle_ping-Answered :
    (env : Answers) (session : Session) (ev : InboundEvent) (ctx : AppContext)
    → Answered env ctx (handle_ping env session ev ctx)
unfolding handle_ping reject send_error replies accepted offered is_fatal
handle_ping-Answered env session ev ctx = ground arith

handle_save-Answered :
    (env : Answers) (session : Session) (ev : InboundEvent) (ctx : AppContext)
    → Answered env ctx (handle_save env session ev ctx)
unfolding handle_save
handle_save-Answered env session ev ctx = ground (
  arith,
  reject-Answered env ErrorCode.invalid_field Detail.save_body session.conn_id ev.msg_id ctx,
  reject-Answered env ErrorCode.payload_too_long Detail.payload_limit session.conn_id ev.msg_id ctx,
  submit_db-Answered env ev.msg_id
      (record new_request {
        kind = RequestKind.save;
        payload = (str (new_reader ev.body ev.size)).0;
      })
      session ctx,
)

handle_history-Answered :
    (env : Answers) (session : Session) (ev : InboundEvent) (ctx : AppContext)
    → Answered env ctx (handle_history env session ev ctx)
unfolding handle_history
handle_history-Answered env session ev ctx = ground (
  arith,
  reject-Answered env ErrorCode.invalid_field Detail.history_body session.conn_id ev.msg_id ctx,
  reject-Answered env ErrorCode.limit_out_of_range Detail.history_range session.conn_id ev.msg_id
      ctx,
  submit_db-Answered env ev.msg_id
      (record new_request {
        kind = RequestKind.history;
        limit = (u16 (new_reader ev.body ev.size)).0;
      })
      session ctx,
)

handle_counter-Answered :
    (env : Answers) (session : Session) (ev : InboundEvent) (ctx : AppContext)
    → Answered env ctx (handle_counter env session ev ctx)
unfolding handle_counter
handle_counter-Answered env session ev ctx = ground (
  arith,
  reject-Answered env ErrorCode.invalid_field Detail.counter_body session.conn_id ev.msg_id ctx,
  reject-Answered env ErrorCode.invalid_field Detail.key_length session.conn_id ev.msg_id ctx,
  submit_db-Answered env ev.msg_id
      (record new_request {
        kind = RequestKind.counter;
        request_key = (str (new_reader ev.body ev.size)).0;
      })
      session ctx,
)

dispatch-Answered :
    (env : Answers) (session : Session) (ev : InboundEvent) (ctx : AppContext)
    → Answered env ctx (dispatch env session ev ctx)
unfolding dispatch
dispatch-Answered env session ev ctx = ground (
  arith,
  handle_echo-Answered env session ev ctx,
  handle_ping-Answered env session ev ctx,
  handle_save-Answered env session ev ctx,
  handle_history-Answered env session ev ctx,
  handle_counter-Answered env session ev ctx,
  reject-Answered env ErrorCode.unknown_message Detail.unknown_id session.conn_id ev.msg_id ctx,
)

-- Every message of a connection with a session, of any id, size and content, is answered once:
-- one reply is sent and the pool accepts no request, or one request is submitted that the pool
-- accepts and no reply is sent. At most one request is submitted, and the count of requests
-- rises by those accepted.
pub process_event_answers :
    (env : Answers) (ev : InboundEvent) (session : Session) (ctx : AppContext)
    → ev.kind ≡ message
    → find ev.conn_id ctx.sessions ≡ some session
    → Answered env ctx (process_event env ev ctx)
unfolding process_event on_message on_session
process_event_answers env ev session ctx k e =
    let counted = record session { message_count = session.message_count + 1 } in
    let ctx' = record ctx {
      sessions = set ev.conn_id counted ctx.sessions;
      handled = ctx.handled + 1;
    } in
    simp (k, e)
      (ground (
        arith,
        dispatch-Answered env counted ev ctx',
        reject-Answered env ErrorCode.payload_too_long Detail.body_too_large session.conn_id
            ev.msg_id ctx',
      ))

-- A request of a session is for that session's connection and key alone.
abbrev pub Own : Session → Call → Type 0
Own session (submits req) =
    (req.session_key ≡ session.session_key) × (req.conn_id ≡ session.conn_id)
Own session (sends conn id body) = conn ≡ session.conn_id
Own session (closes conn) = conn ≡ session.conn_id
Own session (relays conn key) = conn ≡ session.conn_id

-- Whatever a message says, what it sets off concerns its own session: replies go to the
-- session's connection, and a request for the database carries the session's own key.
pub dispatch-Own :
    (env : Answers) (session : Session) (ev : InboundEvent) (ctx : AppContext)
    → All (Own session) (dispatch env session ev ctx).0
unfolding dispatch handle_echo handle_ping handle_save handle_history handle_counter submit_db
    reject send_error is_fatal
dispatch-Own env session ev ctx = ground arith

starts :
    (text beyond bytes : List ℕ) (n : ℕ)
    → length text ≤ 512
    → bytes ≡ put_str text [] ++ beyond
    → n ≡ length (put_str text [])
    → At (new_reader bytes n) (str_bytes text ++ []) beyond
starts text beyond bytes n short b e =
    rw (b, e, put_str_lem text [] (omega arith), append-nil (str_bytes text))
      (new_reader-At (str_bytes text) beyond (
        omega
          (arith, length-append (store_be16 (length text)) text, length-store_be16 (length text))))

-- An echo request that carries a text of at most 512 bytes is answered with the bytes that it
-- came with, and nothing else happens; what the event's array holds behind them plays no part.
pub echo_roundtrip :
    (env : Answers) (session : Session) (ev : InboundEvent) (ctx : AppContext)
    (text beyond : List ℕ)
    → length text ≤ 512
    → ev.body ≡ put_str text [] ++ beyond
    → ev.size ≡ length (put_str text [])
    → handle_echo env session ev ctx
      ≡ (sends session.conn_id MsgId.echo_ack (put_str text []) ∷ [], ctx)
unfolding handle_echo
echo_roundtrip env session ev ctx text beyond short b n =
    let bytes = put_str_lem text [] (omega arith) in
    let (r, read, at) =
      str-At text (new_reader ev.body ev.size) [] beyond (omega arith)
        (starts text beyond ev.body ev.size short b n) in
    let all = (consumed_all-At r [] beyond at).1 refl in
    simp (read, all, le→ltb 512 (length text) short)
