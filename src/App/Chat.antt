-- ===== src/App/Chat.antt =====
-- src/app/broadcast_service.cpp: the chat service as a service of one lane. Its state counts the
-- events handled: `closed` says which connections are closed when the n-th is.
pub mod Has
pub mod Names
use iocp_echo_server.Base.{
  ℕ, ◌+◌, Bool, false, ◌==◌, if◌then◌else◌, List, [], Option, none, some, length,
}
use iocp_echo_server.App.Reply.{Call}
use iocp_echo_server.App.Handlers.{InboundEvent}
use iocp_echo_server.App.Broadcast.{BroadcastService, Notice}
use iocp_echo_server.App.Broadcast
use iocp_echo_server.App.Service.{ServiceMessage, ServiceStats, Result, Hooks}

pub record State : Type 0 where
  pub chat : BroadcastService
  pub drawn : ℕ

unfoldable pub new_state : State
new_state = record {
  chat = record {
    members = [];
    pending_names = [];
    handled = 0;
    rejected = 0;
    broadcasts = 0;
    broadcast_sends = 0;
    orphan_names = 0;
  };
  drawn = 0;
}

unfoldable pub on_created : ℕ → Option State
on_created count = if count == 1 then some new_state else none

unfoldable pub on_report : State → ServiceStats → ServiceStats × State
on_report state out = (
  record out {
    entries = length state.chat.members;
    handled = state.chat.handled;
    rejected = state.chat.rejected;
    broadcasts = state.chat.broadcasts;
    broadcast_sends = state.chat.broadcast_sends;
  },
  state,
)

unfoldable pub on_service : ServiceMessage → State → Result State
on_service msg state = record {
  threw = false;
  calls = [];
  after = record state { chat = Broadcast.on_service msg.conn_id msg.text state.chat };
}

unfoldable pub on_after_batch : State → State
on_after_batch state = record state { chat = Broadcast.on_after_batch state.chat }

unfoldable pub on_fault : ℕ → State → List Call × State
on_fault id state =
    let (calls, chat) = Broadcast.on_fault id state.chat in (calls, record state { chat = chat })

module _ (closed : ℕ → ℕ → Bool) (text : Notice → List ℕ) where
  unfoldable pub on_event : InboundEvent → State → Result State
  on_event ev state =
      let (calls, chat) = Broadcast.on_event (closed state.drawn) text ev state.chat in
      record {
        threw = false;
        calls = calls;
        after = record { chat = chat; drawn = state.drawn + 1 };
      }

  unfoldable pub hooks : Hooks State
  hooks = record {
    on_created = on_created;
    on_event = on_event;
    on_service = on_service;
    on_fault = on_fault;
    on_report = on_report;
    on_pending = λ state. 0;
    on_before_batch = λ state. ([], state);
    on_after_batch = on_after_batch;
  }
