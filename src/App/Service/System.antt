-- ===== src/App/Service/System.antt =====
-- src/app/service.cpp: a lane among the threads. Each call and each part of the lane's own round is
-- one step; a sequence of them is any interleaving of the threads. A trace keeps what a step did.
use iocp_echo_server.Base.{ℕ, Bool, true, if◌then◌else◌, List, [], ◌∷◌, ◌++◌}
use iocp_echo_server.Core.SwapQueue.{try_emplace}
use iocp_echo_server.Proto.Frame.{FrameView}
use iocp_echo_server.Proto.Messages.{ErrorCode}
use iocp_echo_server.Net.Connection.Receive.{Act}
use iocp_echo_server.App.Handlers.{InboundEvent}
use iocp_echo_server.App.Service.{OverflowPolicy, ServiceMessage, Hooks, Lane}
use iocp_echo_server.App.Service.Turns.{Times, Turn, take_relays, take_batch, resume_paused}
use iocp_echo_server.App.Service.Post.{
  Way, connected_event, disconnected_event, message_event, lane_connected, lane_disconnected,
  lane_service, lane_message,
}

pub data Op : Type 0 where
  connects disconnects : ℕ → Op
  says : Way → ℕ → FrameView → Op
  relays : ServiceMessage → Op
  takes_relays takes_batch : Times → Op
  resumes : Op

-- `turn` is what the lane's thread did; `reply` and `keep` are what the poster of a message sees;
-- the others are the items put in and the connections told to wait.
pub record Trace : Type 0 where
  pub turn : Turn
  pub reply : List Act
  pub keep : Bool
  pub put : List InboundEvent
  pub carried : List ServiceMessage
  pub refused : List ℕ

abbrev pub no_turn : Turn
no_turn = record { calls = []; relays = []; events = []; resumed = [] }

abbrev pub silent : Trace
silent = record { turn = no_turn; reply = []; keep = true; put = []; carried = []; refused = [] }

module _ {ℓ} {S : Type ℓ} (hooks : Hooks S) (text : ErrorCode → List ℕ) (cap : ℕ)
    (policy : OverflowPolicy) where
  unfoldable pub step_message : Way → ℕ → FrameView → Lane S → Trace × Lane S
  step_message way id frame lane =
      let (todo, keep, lane') = lane_message way text cap policy id frame lane in
      let ev = message_event id frame in
      (
        record silent {
          reply = todo;
          keep = keep;
          put = if (try_emplace cap ev lane.inbound).0 then ev ∷ [] else [];
          refused = if keep then [] else id ∷ [];
        },
        lane',
      )

  unfoldable pub step : Op → Lane S → Trace × Lane S
  step (connects id) lane =
      (record silent { put = connected_event id ∷ [] }, lane_connected id lane)
  step (disconnects id) lane =
      (record silent { put = disconnected_event id ∷ [] }, lane_disconnected id lane)
  step (says way id frame) lane = step_message way id frame lane
  step (relays msg) lane = (record silent { carried = msg ∷ [] }, lane_service msg lane)
  step (takes_relays times) lane =
      let (turn, lane') = take_relays hooks times lane in (record silent { turn = turn }, lane')
  step (takes_batch times) lane =
      let (turn, lane') = take_batch hooks times lane in (record silent { turn = turn }, lane')
  step resumes lane =
      let (turn, lane') = resume_paused hooks lane in (record silent { turn = turn }, lane')

  unfoldable pub run : List Op → Lane S → List Trace × Lane S
  run [] lane = ([], lane)
  run (op ∷ ops) lane =
      let (t, lane') = step op lane in let (ts, lane'') = run ops lane' in (t ∷ ts, lane'')

-- What a history put in, handled, told to wait and woke, in order.
abbrev pub all_put : List Trace → List InboundEvent
all_put [] = []
all_put (t ∷ ts) = t.put ++ all_put ts

abbrev pub all_events : List Trace → List InboundEvent
all_events [] = []
all_events (t ∷ ts) = t.turn.events ++ all_events ts

abbrev pub all_carried : List Trace → List ServiceMessage
all_carried [] = []
all_carried (t ∷ ts) = t.carried ++ all_carried ts

abbrev pub all_relays : List Trace → List ServiceMessage
all_relays [] = []
all_relays (t ∷ ts) = t.turn.relays ++ all_relays ts

abbrev pub all_refused : List Trace → List ℕ
all_refused [] = []
all_refused (t ∷ ts) = t.refused ++ all_refused ts

abbrev pub all_resumed : List Trace → List ℕ
all_resumed [] = []
all_resumed (t ∷ ts) = t.turn.resumed ++ all_resumed ts
