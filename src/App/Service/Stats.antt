-- ===== src/App/Service/Stats.antt =====
-- src/app/service.cpp: a lane's report and the sum over the lanes. The lines of the log are left
-- out.
use iocp_echo_server.Base.{◌+◌, List, [], ◌∷◌}
use iocp_echo_server.Core.Latency
use iocp_echo_server.App.Service.{ServiceStats, new_stats, Hooks, Lane, Service}

-- One round of the loop in `stats`.
unfoldable pub add_stats : ServiceStats → ServiceStats → ServiceStats
add_stats s total = record {
  entries = total.entries + s.entries;
  handled = total.handled + s.handled;
  rejected = total.rejected + s.rejected;
  faults = total.faults + s.faults;
  overflow = total.overflow + s.overflow;
  relay_messages = total.relay_messages + s.relay_messages;
  db_requests = total.db_requests + s.db_requests;
  db_responses = total.db_responses + s.db_responses;
  db_failures = total.db_failures + s.db_failures;
  db_expired = total.db_expired + s.db_expired;
  broadcasts = total.broadcasts + s.broadcasts;
  broadcast_sends = total.broadcast_sends + s.broadcast_sends;
  process_dist = Latency.merge s.process_dist total.process_dist;
  queue_dist = Latency.merge s.queue_dist total.queue_dist;
  relay_dist = Latency.merge s.relay_dist total.relay_dist;
  db_round_dist = Latency.merge s.db_round_dist total.db_round_dist;
  broadcast_dist = Latency.merge s.broadcast_dist total.broadcast_dist;
}

module _ {ℓ} {S : Type ℓ} where
  unfoldable pub stats_loop : List (Lane S) → ServiceStats → ServiceStats
  stats_loop [] total = total
  stats_loop (lane ∷ rest) total = stats_loop rest (add_stats lane.stats total)

  unfoldable pub stats : Service S → ServiceStats
  stats s = stats_loop s.lanes new_stats

  -- The copy that others read, before the derived class adds its own.
  unfoldable pub snapshot : Lane S → ServiceStats
  snapshot lane = record new_stats {
    faults = lane.faults;
    overflow = lane.overflow;
    process_dist = lane.process_dist;
    queue_dist = lane.queue_dist;
    relay_dist = lane.relay_dist;
    relay_messages = lane.relay_messages;
  }

  unfoldable pub report : Hooks S → Lane S → Lane S
  report hooks lane =
      let (snap, state) = hooks.on_report lane.state (snapshot lane) in
      record lane {
        state = state;
        stats = snap;
        batches = 0;
        batch_messages = 0;
        queue_wait_us = 0;
        process_us = 0;
        process_dist = Latency.reset;
        queue_dist = Latency.reset;
        relay_dist = Latency.reset;
      }
