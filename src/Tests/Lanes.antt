-- ===== src/Tests/Lanes.antt =====
-- The services' lanes and the router.
use iocp_echo_server.Base.{ℕ, ◌≡◌, refl, Bool, true, false, List, [], ◌∷◌, ◌++◌, none, some}
use iocp_echo_server.Base.Table.{find}
use iocp_echo_server.Core.SwapQueue.{filling}
use iocp_echo_server.Core.SwapQueue
use iocp_echo_server.Proto.Frame.{FrameView}
use iocp_echo_server.Proto.Messages.{ErrorCode}
use iocp_echo_server.App.Broadcast.{Notice}
use iocp_echo_server.App.Service.{Hooks, Lane, new_lane, backpressure, rejects}
use iocp_echo_server.App.Service.Turns.{Times, run_step}
use iocp_echo_server.App.Service.Post.{Way, connected_event, lane_connected, lane_service}
use iocp_echo_server.App.Service.System.{
  Op, connects, says, relays, takes_relays, takes_batch, resumes, run,
}
use iocp_echo_server.App.Service.Spec.{view, lives}
use iocp_echo_server.App.Service.Refine.{ShowsAll, run_refines}
use iocp_echo_server.App.Chat.{State, new_state, hooks}
use iocp_echo_server.App.Chat.Has.{Has}
use iocp_echo_server.App.Chat.Names.{opened, named_in_time, late_notice_unnamed}
use iocp_echo_server.App.Router.{ServiceRouter, new_table}

abbrev none_closed : ℕ → ℕ → Bool
none_closed n id = false

abbrev no_text : Notice → List ℕ
no_text notice = []

abbrev no_words : ErrorCode → List ℕ
no_words error = []

abbrev chat_hooks : Hooks State
chat_hooks = hooks none_closed no_text

abbrev times : Times
times = record {
  relay_wait_us = λ msg. 3;
  queue_wait_us = λ ev. 4;
  process_ns = λ ev. 500;
  batch_us = 6;
}

abbrev empty_lane : Lane State
empty_lane = new_lane new_state 0

abbrev way : Way
way = record { posted = true; accepted = true }

abbrev greeting : FrameView
greeting = record { msg_id = 6; body = 0 ∷ 1 ∷ 104 ∷ []; size = 3 }

-- A full queue stops a connection, and the lane's round wakes it.
abbrev busy_day : List Op
busy_day =
    connects 4
    ∷ says way 4 greeting
    ∷ relays (opened 4 (75 ∷ []))
    ∷ takes_relays times
    ∷ takes_batch times
    ∷ resumes
    ∷ says way 4 greeting
    ∷ []

run_refines_example :
    ShowsAll
      (run chat_hooks no_words 1 backpressure busy_day empty_lane)
      (lives chat_hooks no_words 1 backpressure busy_day (view empty_lane))
run_refines_example = run_refines chat_hooks no_words 1 backpressure busy_day empty_lane

-- Both queues hold something.
abbrev met_lane : Lane State
met_lane = lane_service (opened 4 (75 ∷ [])) (lane_connected 4 empty_lane)

relay_there : filling met_lane.service_inbox ≡ [] ++ (opened 4 (75 ∷ []) ∷ [])
unfolding lane_service lane_connected SwapQueue.push SwapQueue.new_queue
relay_there = refl

notice_there : filling met_lane.inbound ≡ [] ++ (connected_event 4 ∷ [])
unfolding lane_service lane_connected SwapQueue.emplace SwapQueue.new_queue
notice_there = refl

nothing_known : Has 4 none none met_lane.state
unfolding lane_service lane_connected find new_state
nothing_known = (refl, refl)

named_in_time_example :
    Has 4 (some (record { name = 75 ∷ [] })) none (run_step chat_hooks times met_lane).1.state
named_in_time_example =
    named_in_time none_closed no_text 4 (75 ∷ []) times met_lane [] [] [] [] relay_there
      notice_there tt tt tt tt nothing_known

abbrev early_lane : Lane State
early_lane = lane_service (opened 4 (75 ∷ [])) empty_lane

early_relay : filling early_lane.service_inbox ≡ opened 4 (75 ∷ []) ∷ []
unfolding lane_service SwapQueue.push SwapQueue.new_queue
early_relay = refl

no_notice : filling early_lane.inbound ≡ []
unfolding lane_service SwapQueue.new_queue
no_notice = refl

nothing_yet : Has 4 none none early_lane.state
unfolding lane_service find new_state
nothing_yet = (refl, refl)

late_notice_unnamed_example :
    let lane' = (run_step chat_hooks times early_lane).1 in
    Has 4
      (some (record { name = [] }))
      none
      (run_step chat_hooks times (lane_connected 4 lane')).1.state
late_notice_unnamed_example =
    late_notice_unnamed none_closed no_text 4 (75 ∷ []) times times early_lane early_relay no_notice
      nothing_yet

abbrev router : ServiceRouter
router = record {
  game_service = record { lanes = []; inbound_cap = 64; policy = rejects };
  chat_service = record { lanes = empty_lane ∷ []; inbound_cap = 64; policy = rejects };
  table = new_table;
  unknown = 0;
}
