-- ===== src/App/Service.antt =====
-- src/app/service.h and service.cpp: the frame that every service shares. A service is a list of
-- lanes, each with its two queues and the state of its own thread; what a derived class overrides
-- is the interface `Hooks`. The methods of the queues and of the list of paused connections run
-- under their mutexes. What the clocks show for an item is an argument (`Times`), and so is what a
-- call of the connection's `send` meets (`Way`). The logic threads' wake-ups are left out: a lane's
-- step may run at any time.
pub mod Turns
pub mod Post
pub mod Stats
pub mod System
pub mod Spec
pub mod Loops
pub mod Refine
pub mod Round
use iocp_echo_server.Base.{ℕ, ◌+◌, Bool, List, [], Option}
use iocp_echo_server.Core.SwapQueue.{SwapQueue, new_queue}
use iocp_echo_server.Core.Latency.{LatencyHistogram}
use iocp_echo_server.Core.Latency
use iocp_echo_server.App.Reply.{Call}
use iocp_echo_server.App.Handlers.{InboundEvent}

pub data OverflowPolicy : Type 0 where
  rejects backpressure : OverflowPolicy

pub data ServiceEvent : Type 0 where
  session_opened : ServiceEvent

pub record ServiceMessage : Type 0 where
  pub kind : ServiceEvent
  pub conn_id : ℕ
  pub text : List ℕ

pub record ServiceStats : Type 0 where
  pub entries : ℕ
  pub handled : ℕ
  pub rejected : ℕ
  pub faults : ℕ
  pub overflow : ℕ
  pub relay_messages : ℕ
  pub db_requests : ℕ
  pub db_responses : ℕ
  pub db_failures : ℕ
  pub db_expired : ℕ
  pub broadcasts : ℕ
  pub broadcast_sends : ℕ
  pub process_dist : LatencyHistogram
  pub queue_dist : LatencyHistogram
  pub relay_dist : LatencyHistogram
  pub db_round_dist : LatencyHistogram
  pub broadcast_dist : LatencyHistogram

abbrev pub new_stats : ServiceStats
new_stats = record {
  entries = 0;
  handled = 0;
  rejected = 0;
  faults = 0;
  overflow = 0;
  relay_messages = 0;
  db_requests = 0;
  db_responses = 0;
  db_failures = 0;
  db_expired = 0;
  broadcasts = 0;
  broadcast_sends = 0;
  process_dist = Latency.reset;
  queue_dist = Latency.reset;
  relay_dist = Latency.reset;
  db_round_dist = Latency.reset;
  broadcast_dist = Latency.reset;
}

-- What a hook does with an item: the calls that it makes and the state it leaves, and whether an
-- exception ended it there.
pub record Result {ℓ} (S : Type ℓ) : Type ℓ where
  pub threw : Bool
  pub calls : List Call
  pub after : S

-- The virtual functions. `on_created` gives a lane's first state, or refuses the number of lanes.
pub record Hooks {ℓ} (S : Type ℓ) : Type ℓ where
  pub on_created : ℕ → Option S
  pub on_event : InboundEvent → S → Result S
  pub on_service : ServiceMessage → S → Result S
  pub on_fault : ℕ → S → List Call × S
  pub on_report : S → ServiceStats → ServiceStats × S
  pub on_pending : S → ℕ
  pub on_before_batch : S → List Call × S
  pub on_after_batch : S → S

pub record Lane {ℓ} (S : Type ℓ) : Type ℓ where
  pub index : ℕ
  pub inbound : SwapQueue InboundEvent
  pub service_inbox : SwapQueue ServiceMessage
  pub overflow : ℕ
  pub faults : ℕ
  pub batches : ℕ
  pub batch_messages : ℕ
  pub queue_wait_us : ℕ
  pub process_us : ℕ
  pub relay_messages : ℕ
  pub process_dist : LatencyHistogram
  pub queue_dist : LatencyHistogram
  pub relay_dist : LatencyHistogram
  pub stats : ServiceStats
  pub paused : List ℕ
  pub state : S

pub record Service {ℓ} (S : Type ℓ) : Type ℓ where
  pub lanes : List (Lane S)
  pub inbound_cap : ℕ
  pub policy : OverflowPolicy

-- `std::make_unique<Lane>()` with its index and the state that the derived class keeps for it.
abbrev pub new_lane {ℓ} : {S : Type ℓ} → S → ℕ → Lane S
new_lane s i = record {
  index = i;
  inbound = new_queue;
  service_inbox = new_queue;
  overflow = 0;
  faults = 0;
  batches = 0;
  batch_messages = 0;
  queue_wait_us = 0;
  process_us = 0;
  relay_messages = 0;
  process_dist = Latency.reset;
  queue_dist = Latency.reset;
  relay_dist = Latency.reset;
  stats = new_stats;
  paused = [];
  state = s;
}
