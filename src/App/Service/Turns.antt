-- ===== src/App/Service/Turns.antt =====
-- src/app/service.cpp: `run_step`, what a lane's thread does in each round. Its parts take the
-- relays, take the batch and wake the paused connections; other threads may put items in between.
use iocp_echo_server.Base.{ℕ, ◌+◌, Bool, true, false, if◌then◌else◌, List, [], ◌∷◌, ◌++◌, length}
use iocp_echo_server.Core.SwapQueue.{swap, clear_taken}
use iocp_echo_server.Core.Latency
use iocp_echo_server.App.Reply.{Call}
use iocp_echo_server.App.Handlers.{InboundEvent}
use iocp_echo_server.App.Service.{ServiceMessage, Result, Hooks, Lane}

-- What the clocks show: how long an item waited, how long its handling took, and a whole batch's.
pub record Times : Type 0 where
  pub relay_wait_us : ServiceMessage → ℕ
  pub queue_wait_us : InboundEvent → ℕ
  pub process_ns : InboundEvent → ℕ
  pub batch_us : ℕ

-- What one round did: the calls made, the items handled and the connections woken, in order.
pub record Turn : Type 0 where
  pub calls : List Call
  pub relays : List ServiceMessage
  pub events : List InboundEvent
  pub resumed : List ℕ

unfoldable pub is_empty {ℓ} : {A : Type ℓ} → List A → Bool
is_empty [] = true
is_empty (x ∷ xs) = false

module _ {ℓ} {S : Type ℓ} (hooks : Hooks S) where
  unfoldable pub note_fault : ℕ → Lane S → List Call × Lane S
  note_fault id lane =
      let (calls, state) = hooks.on_fault id lane.state in
      (calls, record lane { faults = lane.faults + 1; state = state })

  -- The end of the `try` around one item.
  unfoldable pub caught : ℕ → Result S → Lane S → List Call × Lane S
  caught id r lane =
      let left = record lane { state = r.after } in
      let (more, lane') = note_fault id left in
      if r.threw then (r.calls ++ more, lane') else (r.calls, left)

  unfoldable pub relay_one : Times → ServiceMessage → Lane S → List Call × Lane S
  relay_one times msg lane = caught msg.conn_id (hooks.on_service msg lane.state) (record lane {
    relay_dist = Latency.add (times.relay_wait_us msg) lane.relay_dist;
    relay_messages = lane.relay_messages + 1;
  })

  unfoldable pub relay_loop : Times → List ServiceMessage → Lane S → List Call × Lane S
  relay_loop times [] lane = ([], lane)
  relay_loop times (msg ∷ rest) lane =
      let (calls, lane') = relay_one times msg lane in
      let (more, lane'') = relay_loop times rest lane' in (calls ++ more, lane'')

  unfoldable pub event_one : Times → InboundEvent → Lane S → List Call × Lane S
  event_one times ev lane =
      let waited = record lane {
        queue_wait_us = lane.queue_wait_us + times.queue_wait_us ev;
        queue_dist = Latency.add (times.queue_wait_us ev) lane.queue_dist;
      } in
      let (calls, lane') = caught ev.conn_id (hooks.on_event ev lane.state) waited in
      (calls, record lane' { process_dist = Latency.add (times.process_ns ev) lane'.process_dist })

  unfoldable pub event_loop : Times → List InboundEvent → Lane S → List Call × Lane S
  event_loop times [] lane = ([], lane)
  event_loop times (ev ∷ rest) lane =
      let (calls, lane') = event_one times ev lane in
      let (more, lane'') = event_loop times rest lane' in (calls ++ more, lane'')

  -- Up to the batch: what the derived class empties first, and the relays.
  unfoldable pub take_relays : Times → Lane S → Turn × Lane S
  take_relays times lane =
      let (early, state) = hooks.on_before_batch lane.state in
      let (relays, inbox) = swap lane.service_inbox in
      let (calls, lane') =
        relay_loop times relays (record lane { state = state; service_inbox = inbox }) in
      (
        record { calls = early ++ calls; relays = relays; events = []; resumed = [] },
        record lane' { service_inbox = clear_taken lane'.service_inbox },
      )

  -- The counts of a batch that held something, and the clearing of it.
  unfoldable pub batch_done : Times → List InboundEvent → Lane S → Lane S
  batch_done times batch lane = record lane {
    process_us = lane.process_us + times.batch_us;
    batch_messages = lane.batch_messages + length batch;
    batches = lane.batches + 1;
    inbound = clear_taken lane.inbound;
  }

  unfoldable pub after_batch : Lane S → Lane S
  after_batch lane = record lane { state = hooks.on_after_batch lane.state }

  unfoldable pub take_batch : Times → Lane S → Turn × Lane S
  take_batch times lane =
      let (batch, queue) = swap lane.inbound in
      let taken = record lane { inbound = queue } in
      let (calls, lane') = event_loop times batch taken in
      if is_empty batch
      then (record { calls = []; relays = []; events = []; resumed = [] }, after_batch taken)
      else (
        record { calls = calls; relays = []; events = batch; resumed = [] },
        after_batch (batch_done times batch lane'),
      )

  -- Each connection taken from the list has its `resume_receive` called.
  unfoldable pub resume_paused : Lane S → Turn × Lane S
  resume_paused lane = (
    record { calls = []; relays = []; events = []; resumed = lane.paused },
    record lane { paused = [] },
  )

  unfoldable pub then_ : Turn → Turn → Turn
  then_ a b = record {
    calls = a.calls ++ b.calls;
    relays = a.relays ++ b.relays;
    events = a.events ++ b.events;
    resumed = a.resumed ++ b.resumed;
  }

  unfoldable pub run_step : Times → Lane S → Turn × Lane S
  run_step times lane =
      let (first, lane') = take_relays times lane in
      let (second, lane'') = take_batch times lane' in
      let (third, lane''') = resume_paused lane'' in (then_ first (then_ second third), lane''')
