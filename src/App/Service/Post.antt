-- ===== src/App/Service/Post.antt =====
-- src/app/service.cpp: start, stop and the methods by which other threads put items in. A message
-- that is refused has its effect on the connection: those are the `Act`s of the connection's
-- handler.
use iocp_echo_server.Base.{
  ℕ, zero, suc, ◌+◌, ◌%◌, ◌^◌, min, max, Bool, true, false, not, ltb, ◌==◌, if◌then◌else◌, List, [],
  ◌∷◌, ◌++◌, Option, none, some, length,
}
use iocp_echo_server.Core.SwapQueue.{push, emplace, try_emplace, pending}
use iocp_echo_server.Proto.Frame.{FrameView}
use iocp_echo_server.Proto.Messages.{ErrorCode, is_fatal}
use iocp_echo_server.Proto.Messages.MsgId.{error_ack}
use iocp_echo_server.Net.Connection.Receive.{Act, sends, closes, pauses}
use iocp_echo_server.App.Reply.{error_body}
use iocp_echo_server.App.Handlers.{InboundEvent, EventKind}
use iocp_echo_server.App.Service.{
  OverflowPolicy, rejects, backpressure, ServiceMessage, Hooks, Lane, Service, new_lane,
}
use iocp_echo_server.App.Service.Turns.{is_empty}

abbrev pub max_event_body : ℕ
max_event_body = 640

-- What `send` meets: whether the completion port takes a notice, and the kernel a send.
pub record Way : Type 0 where
  pub posted : Bool
  pub accepted : Bool

-- `Service::Options`; a number that is negative in the source is 0.
pub record Options : Type 0 where
  pub lane_count : ℕ
  pub inbound_queue_cap : ℕ
  pub overflow_policy : OverflowPolicy

unfoldable pub make_lanes {ℓ} : {S : Type ℓ} → ℕ → ℕ → S → List (Lane S)
make_lanes zero i s = []
make_lanes (suc n) i s = new_lane s i ∷ make_lanes n (i + 1) s

unfoldable pub clamp_lanes : ℕ → ℕ
clamp_lanes n = if n == 0 then 1 else min n 64

unfoldable pub connected_event : ℕ → InboundEvent
connected_event id = record {
  kind = EventKind.connected;
  conn_id = id;
  msg_id = 0;
  size = 0;
  oversized = false;
  conn = true;
  body = [];
}

unfoldable pub disconnected_event : ℕ → InboundEvent
disconnected_event id = record {
  kind = EventKind.disconnected;
  conn_id = id;
  msg_id = 0;
  size = 0;
  oversized = false;
  conn = false;
  body = [];
}

-- A body over the array's size is not carried.
unfoldable pub message_event : ℕ → FrameView → InboundEvent
message_event id frame =
    let big = ltb max_event_body frame.size in
    record {
      kind = EventKind.message;
      conn_id = id;
      msg_id = frame.msg_id;
      size = if big then 0 else frame.size % 2 ^ 16;
      oversized = big;
      conn = false;
      body = if big then [] else frame.body;
    }

-- `send_error` to the connection whose frame is being handled.
unfoldable pub error_acts : Way → ℕ → ErrorCode → List ℕ → List Act
error_acts way origin error detail =
    sends way.posted way.accepted error_ack (error_body origin error detail)
    ∷ (if is_fatal error then closes ∷ [] else [])

module _ {ℓ} {S : Type ℓ} where
  unfoldable pub lane_at : ℕ → List (Lane S) → Option (Lane S)
  lane_at i [] = none
  lane_at zero (lane ∷ rest) = some lane
  lane_at (suc i) (lane ∷ rest) = lane_at i rest

  unfoldable pub change_lane : ℕ → (Lane S → Lane S) → List (Lane S) → List (Lane S)
  change_lane i f [] = []
  change_lane zero f (lane ∷ rest) = f lane ∷ rest
  change_lane (suc i) f (lane ∷ rest) = lane ∷ change_lane i f rest

  -- The index of `lane_of`, where there are lanes.
  unfoldable pub lane_index : ℕ → Service S → ℕ
  lane_index id s = id % length s.lanes

  -- A change of the lane of a connection.
  unfoldable pub on_lane : ℕ → (Lane S → Lane S) → Service S → Service S
  on_lane id f s = record s { lanes = change_lane (lane_index id s) f s.lanes }

  unfoldable pub lane_connected : ℕ → Lane S → Lane S
  lane_connected id lane = record lane { inbound = emplace (connected_event id) lane.inbound }

  unfoldable pub lane_disconnected : ℕ → Lane S → Lane S
  lane_disconnected id lane = record lane { inbound = emplace (disconnected_event id) lane.inbound }

  unfoldable pub lane_service : ServiceMessage → Lane S → Lane S
  lane_service msg lane = record lane { service_inbox = push msg lane.service_inbox }

  -- The refusal of a message by either policy, as one step: the program takes the lock of the
  -- queue, pauses the connection, and takes the lock of the list of those paused.
  unfoldable pub lane_full :
      Way
      → (ErrorCode → List ℕ)
      → OverflowPolicy
      → ℕ
      → FrameView
      → Lane S
      → List Act × Bool × Lane S
  lane_full way text rejects id frame lane = (
    error_acts way frame.msg_id ErrorCode.server_busy (text ErrorCode.server_busy),
    true,
    record lane { overflow = lane.overflow + 1 },
  )
  lane_full way text backpressure id frame lane = (
    pauses ∷ [],
    false,
    record lane { overflow = lane.overflow + 1; paused = lane.paused ++ (id ∷ []) },
  )

  -- `post_message` on the lane that it chose: what it does to the connection, whether it takes the
  -- frame, and the lane.
  unfoldable pub lane_message :
      Way
      → (ErrorCode → List ℕ)
      → ℕ
      → OverflowPolicy
      → ℕ
      → FrameView
      → Lane S
      → List Act × Bool × Lane S
  lane_message way text cap policy id frame lane =
      let (queued, queue) = try_emplace cap (message_event id frame) lane.inbound in
      if queued
      then ([], true, record lane { inbound = queue })
      else lane_full way text policy id frame lane

  unfoldable pub post_connected : Bool → ℕ → Service S → Service S
  post_connected conn id s =
      if not conn then s else if is_empty s.lanes then s else on_lane id (lane_connected id) s

  unfoldable pub post_disconnected : ℕ → Service S → Service S
  post_disconnected id s = if is_empty s.lanes then s else on_lane id (lane_disconnected id) s

  unfoldable pub post_message :
      Way → (ErrorCode → List ℕ) → ℕ → FrameView → Service S → List Act × Bool × Service S
  post_message way text id frame s = at_lane (lane_at (lane_index id s) s.lanes)
    where
      at_lane : Option (Lane S) → List Act × Bool × Service S
      at_lane none = ([], true, s)
      at_lane (some lane) =
          let (todo, keep, lane') = lane_message way text s.inbound_cap s.policy id frame lane in
          (todo, keep, on_lane id (λ _. lane') s)

  unfoldable pub post_service : ServiceMessage → Service S → Service S
  post_service msg s = if is_empty s.lanes then s else on_lane msg.conn_id (lane_service msg) s

  module _ (hooks : Hooks S) where
    -- The state that `start` has made before it starts the threads; `none` where it gives up.
    unfoldable pub start : Options → Service S → Option (Service S)
    start opt s = if not (is_empty s.lanes) then some s else made (hooks.on_created count)
      where
        count : ℕ
        count = clamp_lanes opt.lane_count

        made : Option S → Option (Service S)
        made none = none
        made (some state) = some (record {
          lanes = make_lanes count 0 state;
          inbound_cap = max 64 opt.inbound_queue_cap;
          policy = opt.overflow_policy;
        })

    unfoldable pub pending_loop : List (Lane S) → ℕ
    pending_loop [] = 0
    pending_loop (lane ∷ rest) =
        pending lane.inbound
        + pending lane.service_inbox
        + hooks.on_pending lane.state
        + pending_loop rest

    unfoldable pub pending_items : Service S → ℕ
    pending_items s = pending_loop s.lanes

  unfoldable pub stop : Service S → Service S
  stop s = record s { lanes = [] }
