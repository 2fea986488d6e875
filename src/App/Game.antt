-- ===== src/App/Game.antt =====
-- src/app/game_service.h and game_service.cpp: what the game service adds to a lane. Its state
-- counts the items handled: `surroundings` gives what the n-th of them meets. No handler ends by an
-- exception here: what throws is an allocation that fails, and memory is taken for granted.
use iocp_echo_server.Base.{
  ℕ, ◌+◌, ◌*◌, Bool, false, ltb, if◌then◌else◌, List, [], ◌∷◌, ◌++◌, Option, none, some, length,
}
use iocp_echo_server.Base.Table.{find, erase, number_key}
use iocp_echo_server.Core.SwapQueue.{SwapQueue, new_queue, push, swap, clear_taken, pending}
use iocp_echo_server.Db.Types.{Response}
use iocp_echo_server.App.Reply.{Call, closes}
use iocp_echo_server.App.Handlers.{
  Session, AppContext, InboundEvent, Answers, process_event, process_db_response,
}
use iocp_echo_server.App.Service.{ServiceStats, Result, Hooks, Lane, Service}
use iocp_echo_server.App.Service.Turns.{is_empty}
use iocp_echo_server.App.Service.Post.{on_lane}

-- `GameService::State`, with the number of items handled.
pub record State : Type 0 where
  pub db_inbox : SwapQueue Response
  pub ctx : AppContext
  pub drawn : ℕ

-- What `configure` keeps; a timeout that is negative in the source is 0.
pub record Config : Type 0 where
  pub has_db : Bool
  pub db_request_timeout_ms : ℕ
  pub has_relay : Bool

unfoldable pub deadline_us : Config → ℕ
deadline_us c = if ltb 0 c.db_request_timeout_ms then c.db_request_timeout_ms * 1000 else 0

unfoldable pub new_state : Config → State
new_state c = record {
  db_inbox = new_queue;
  ctx = record {
    sessions = [];
    db_enabled = c.has_db;
    db_deadline_us = deadline_us c;
    has_relay = c.has_relay;
    handled = 0;
    rejected = 0;
    db_requests = 0;
    db_responses = 0;
    db_failures = 0;
    db_expired = 0;
  };
  drawn = 0;
}

unfoldable pub on_fault : ℕ → State → List Call × State
on_fault id state = drop_session (find id state.ctx.sessions)
  where
    drop_session : Option Session → List Call × State
    drop_session none = ([], state)
    drop_session (some session) = (
      closes session.conn_id ∷ [],
      record state { ctx = record (state.ctx) { sessions = erase id state.ctx.sessions } },
    )

-- `db_responses` is the source's `db_responses_total`.
unfoldable pub on_report : State → ServiceStats → ServiceStats × State
on_report state out = (
  record out {
    entries = length state.ctx.sessions;
    handled = state.ctx.handled;
    rejected = state.ctx.rejected;
    db_requests = state.ctx.db_requests;
    db_responses = state.ctx.db_responses;
    db_failures = state.ctx.db_failures;
    db_expired = state.ctx.db_expired;
  },
  state,
)

module _ (surroundings : ℕ → Answers) where
  unfoldable pub reply_loop : List Response → State → List Call × State
  reply_loop [] state = ([], state)
  reply_loop (res ∷ rest) state =
      let (calls, ctx) = process_db_response (surroundings state.drawn) res state.ctx in
      let (more, state') = reply_loop rest (record state { ctx = ctx; drawn = state.drawn + 1 }) in
      (calls ++ more, state')

  unfoldable pub on_before_batch : State → List Call × State
  on_before_batch state =
      let (replies, inbox) = swap state.db_inbox in
      let (calls, state') = reply_loop replies (record state { db_inbox = inbox }) in
      (calls, record state' { db_inbox = clear_taken state'.db_inbox })

  unfoldable pub on_event : InboundEvent → State → Result State
  on_event ev state =
      let (calls, ctx) = process_event (surroundings state.drawn) ev state.ctx in
      record {
        threw = false;
        calls = calls;
        after = record state { ctx = ctx; drawn = state.drawn + 1 };
      }

  unfoldable pub hooks : Config → Hooks State
  hooks config = record {
    on_created = λ count. some (new_state config);
    on_event = on_event;
    on_service = λ msg state. record { threw = false; calls = []; after = state };
    on_fault = on_fault;
    on_report = on_report;
    on_pending = λ state. pending state.db_inbox;
    on_before_batch = on_before_batch;
    on_after_batch = λ state. state;
  }

unfoldable pub lane_response : Response → Lane State → Lane State
lane_response res lane = record lane {
  state = record (lane.state) { db_inbox = push res lane.state.db_inbox };
}

unfoldable pub post_db_response : Response → Service State → Service State
post_db_response res s = if is_empty s.lanes then s else on_lane res.conn_id (lane_response res) s
