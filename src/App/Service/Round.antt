-- ===== src/App/Service/Round.antt =====
-- src/app/service.cpp: `run_step` as a whole, when no other thread comes between its parts.
use iocp_echo_server.Base.{◌≡◌, refl, ap, ap₂, ◌∙◌, append-nil, [], ◌++◌}
use iocp_echo_server.Core.SwapQueue.{filling}
use iocp_echo_server.App.Service.{rejects, Hooks, Lane}
use iocp_echo_server.App.Service.Turns.{Times, run_step, then_, resume_paused}
use iocp_echo_server.App.Service.System.{takes_relays, takes_batch, step}
use iocp_echo_server.App.Service.Spec.{serve_all, Mailbox, view, does_relays, does_batch, does}
use iocp_echo_server.App.Service.Refine.{step-Shows}

module _ {ℓ} {S : Type ℓ} (hooks : Hooks S) where
  -- One round of a lane takes every relay and every event that waits, in order, wakes every
  -- connection that was stopped, and leaves nothing waiting.
  pub run_step_serves :
      (times : Times) (lane : Lane S)
      → let (turn, lane') = run_step hooks times lane in
        (turn.relays ≡ filling lane.service_inbox)
        × (turn.events ≡ filling lane.inbound)
        × (turn.resumed ≡ lane.paused)
        × (filling lane'.inbound ≡ [])
        × (filling lane'.service_inbox ≡ [])
        × (lane'.paused ≡ [])
  unfolding run_step then_ step resume_paused does does_relays does_batch view
  run_step_serves times lane =
      let first = step hooks (λ _. []) 0 rejects (takes_relays times) lane in
      let second = step hooks (λ _. []) 0 rejects (takes_batch times) first.1 in
      let (t, m) = step-Shows hooks (λ _. []) 0 rejects (takes_relays times) lane in
      let (t', m') = step-Shows hooks (λ _. []) 0 rejects (takes_batch times) first.1 in
      let no_more_relays : second.0.turn.relays ≡ [] = ap (λ a. a.turn.relays) t' in
      let no_events : first.0.turn.events ≡ [] = ap (λ a. a.turn.events) t in
      let none_woken : first.0.turn.resumed ≡ [] = ap (λ a. a.turn.resumed) t in
      let none_woken' : second.0.turn.resumed ≡ [] = ap (λ a. a.turn.resumed) t' in
      let all_relayed : first.0.turn.relays ≡ filling lane.service_inbox =
        ap (λ a. a.turn.relays) t in
      let all_handled : second.0.turn.events ≡ filling first.1.inbound =
        ap (λ a. a.turn.events) t' in
      let kept : filling first.1.inbound ≡ filling lane.inbound = ap (λ b. b.events) m in
      let inbox_empty : filling first.1.service_inbox ≡ [] = ap (λ b. b.inbox) m in
      (
        ap (λ xs. first.0.turn.relays ++ (xs ++ [])) no_more_relays ∙ append-nil _ ∙ all_relayed,
        ap₂ (λ a b. a ++ (b ++ [])) no_events (all_handled ∙ kept) ∙ append-nil _,
        ap₂ (λ a b. a ++ (b ++ second.1.paused)) none_woken none_woken'
            ∙ ap (λ b. b.waiting) m'
            ∙ ap (λ b. b.waiting) m,
        ap (λ b. b.events) m',
        ap (λ b. b.inbox) m' ∙ inbox_empty,
        refl,
      )

  pub run_step_state :
      (times : Times) (lane : Lane S)
      → (run_step hooks times lane).1.state
        ≡ hooks.on_after_batch
            (serve_all hooks
              (λ ev. ev.conn_id)
              hooks.on_event
              (filling lane.inbound)
              (serve_all hooks
                (λ msg. msg.conn_id)
                hooks.on_service
                (filling lane.service_inbox)
                (hooks.on_before_batch lane.state).1).state).state
  unfolding run_step step resume_paused does does_relays does_batch view
  run_step_state times lane =
      let first = step hooks (λ _. []) 0 rejects (takes_relays times) lane in
      let m = (step-Shows hooks (λ _. []) 0 rejects (takes_relays times) lane).1 in
      let m' = (step-Shows hooks (λ _. []) 0 rejects (takes_batch times) first.1).1 in
      ap (λ b. b.state) m'
      ∙ ap
          (λ (b : Mailbox S).
            hooks.on_after_batch
              (serve_all hooks (λ ev. ev.conn_id) hooks.on_event b.events b.state).state)
          m
