-- ===== src/App/Service/Spec.antt =====
-- What a lane of src/app/service.cpp is to its users: two lists of items that wait, a list of
-- connections that wait to be woken, and a state that the items go through one by one. The lane's
-- buffers, distributions and counts of times have no place in it.
use iocp_echo_server.Base.{ℕ, ◌+◌, false, leb, if◌then◌else◌, List, [], ◌∷◌, ◌++◌, length}
use iocp_echo_server.Core.SwapQueue.{filling}
use iocp_echo_server.Proto.Frame.{FrameView}
use iocp_echo_server.Proto.Messages.{ErrorCode}
use iocp_echo_server.Net.Connection.Receive.{pauses}
use iocp_echo_server.App.Reply.{Call}
use iocp_echo_server.App.Handlers.{InboundEvent}
use iocp_echo_server.App.Service.{
  OverflowPolicy, rejects, backpressure, ServiceMessage, Result, Hooks, Lane,
}
use iocp_echo_server.App.Service.Post.{
  Way, connected_event, disconnected_event, message_event, error_acts,
}
use iocp_echo_server.App.Service.System.{
  Op, connects, disconnects, says, relays, takes_relays, takes_batch, resumes, Trace, no_turn,
  silent,
}

pub record Mailbox {ℓ} (S : Type ℓ) : Type ℓ where
  pub events : List InboundEvent
  pub inbox : List ServiceMessage
  pub waiting : List ℕ
  pub faults : ℕ
  pub state : S

-- What of a lane its users can tell.
unfoldable pub view {ℓ} : {S : Type ℓ} → Lane S → Mailbox S
view lane = record {
  events = filling lane.inbound;
  inbox = filling lane.service_inbox;
  waiting = lane.paused;
  faults = lane.faults;
  state = lane.state;
}

-- The calls made, the items that failed, and the state.
pub record Served {ℓ} (S : Type ℓ) : Type ℓ where
  pub calls : List Call
  pub failed : ℕ
  pub state : S

module _ {ℓ} {S : Type ℓ} (hooks : Hooks S) where
  -- An item that fails costs its connection what `on_fault` takes, and no other item.
  unfoldable pub serve_one : ℕ → Result S → Served S
  serve_one id r =
      let (more, state) = hooks.on_fault id r.after in
      if r.threw
      then record { calls = r.calls ++ more; failed = 1; state = state }
      else record { calls = r.calls; failed = 0; state = r.after }

  unfoldable pub serve_all {κ} : {A : Type κ} → (A → ℕ) → (A → S → Result S) → List A → S → Served S
  serve_all owner handle [] s = record { calls = []; failed = 0; state = s }
  serve_all owner handle (a ∷ rest) s =
      let first = serve_one (owner a) (handle a s) in
      let others = serve_all owner handle rest first.state in
      record {
        calls = first.calls ++ others.calls;
        failed = first.failed + others.failed;
        state = others.state;
      }

  module _ (text : ErrorCode → List ℕ) (cap : ℕ) (policy : OverflowPolicy) where
    unfoldable pub refuse : Way → ℕ → FrameView → OverflowPolicy → Mailbox S → Trace × Mailbox S
    refuse way id frame rejects m = (
      record silent {
        reply = error_acts way frame.msg_id ErrorCode.server_busy (text ErrorCode.server_busy);
      },
      m,
    )
    refuse way id frame backpressure m = (
      record silent { reply = pauses ∷ []; keep = false; refused = id ∷ [] },
      record m { waiting = m.waiting ++ (id ∷ []) },
    )

    unfoldable pub does_message : Way → ℕ → FrameView → Mailbox S → Trace × Mailbox S
    does_message way id frame m =
        let ev = message_event id frame in
        if leb cap (length m.events)
        then refuse way id frame policy m
        else (record silent { put = ev ∷ [] }, record m { events = m.events ++ (ev ∷ []) })

    unfoldable pub does_relays : Mailbox S → Trace × Mailbox S
    does_relays m =
        let (early, state) = hooks.on_before_batch m.state in
        let served = serve_all (λ msg. msg.conn_id) hooks.on_service m.inbox state in
        (
          record silent {
            turn = record no_turn { calls = early ++ served.calls; relays = m.inbox };
          },
          record m { inbox = []; faults = m.faults + served.failed; state = served.state },
        )

    unfoldable pub does_batch : Mailbox S → Trace × Mailbox S
    does_batch m =
        let served = serve_all (λ ev. ev.conn_id) hooks.on_event m.events m.state in
        (
          record silent { turn = record no_turn { calls = served.calls; events = m.events } },
          record m {
            events = [];
            faults = m.faults + served.failed;
            state = hooks.on_after_batch served.state;
          },
        )

    unfoldable pub does : Op → Mailbox S → Trace × Mailbox S
    does (connects id) m =
        let ev = connected_event id in
        (record silent { put = ev ∷ [] }, record m { events = m.events ++ (ev ∷ []) })
    does (disconnects id) m =
        let ev = disconnected_event id in
        (record silent { put = ev ∷ [] }, record m { events = m.events ++ (ev ∷ []) })
    does (says way id frame) m = does_message way id frame m
    does (relays msg) m =
        (record silent { carried = msg ∷ [] }, record m { inbox = m.inbox ++ (msg ∷ []) })
    does (takes_relays times) m = does_relays m
    does (takes_batch times) m = does_batch m
    does resumes m =
        (record silent { turn = record no_turn { resumed = m.waiting } }, record m { waiting = [] })

    unfoldable pub lives : List Op → Mailbox S → List Trace × Mailbox S
    lives [] m = ([], m)
    lives (op ∷ ops) m = let (t, m') = does op m in let (ts, m'') = lives ops m' in (t ∷ ts, m'')
