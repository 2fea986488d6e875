-- ===== src/App/Service/Loops.antt =====
-- src/app/service.cpp: the two loops of a round against the folding of items in `Spec`.
use iocp_echo_server.Base.{ℕ, ◌+◌, ◌≡◌, refl, ap₂, subst, ◌∙◌, List, [], ◌∷◌, ◌++◌, arith}
use iocp_echo_server.App.Reply.{Call}
use iocp_echo_server.App.Handlers.{InboundEvent}
use iocp_echo_server.App.Service.{ServiceMessage, Result, Hooks, Lane}
use iocp_echo_server.App.Service.Turns.{
  Times, note_fault, caught, relay_one, relay_loop, event_one, event_loop,
}
use iocp_echo_server.App.Service.Spec.{Served, serve_one, serve_all}

module _ {ℓ} {S : Type ℓ} (hooks : Hooks S) where
  -- A loop over items leaves a lane with the calls, the state and the faults of `serve_all`, and
  -- its queues and its waiting connections as they were.
  abbrev pub Agrees : Lane S → Served S → List Call × Lane S → Type ℓ
  Agrees lane served done =
      (done.0 ≡ served.calls)
      × (done.1.state ≡ served.state)
      × (done.1.faults ≡ lane.faults + served.failed)
      × (done.1.inbound ≡ lane.inbound)
      × (done.1.service_inbox ≡ lane.service_inbox)
      × (done.1.paused ≡ lane.paused)

  caught-Agrees :
      (id : ℕ) (r : Result S) (lane : Lane S)
      → Agrees lane (serve_one hooks id r) (caught hooks id r lane)
  unfolding caught note_fault serve_one
  caught-Agrees id r lane = ground arith

  join : Served S → Served S → Served S
  join a b = record { calls = a.calls ++ b.calls; failed = a.failed + b.failed; state = b.state }

  Agrees-then :
      (lane : Lane S) (a b : Served S) (c d : List Call × Lane S)
      → Agrees lane a c
      → Agrees c.1 b d
      → Agrees lane (join a b) (c.0 ++ d.0, d.1)
  unfolding join
  Agrees-then lane a b c d (u, v, w, x, y, z) (u', v', w', x', y', z') =
      (ap₂ (λ p q. p ++ q) u u', v', omega (arith, w, w'), x' ∙ x, y' ∙ y, z' ∙ z)

  pub relay_loop-Agrees :
      (times : Times) (msgs : List ServiceMessage) (lane : Lane S)
      → Agrees lane
          (serve_all hooks (λ m. m.conn_id) hooks.on_service msgs lane.state)
          (relay_loop hooks times msgs lane)
  unfolding relay_loop serve_all relay_one join
  relay_loop-Agrees times [] lane = (refl, refl, omega arith, refl, refl, refl)
  relay_loop-Agrees times (msg ∷ rest) lane =
      let done = relay_one hooks times msg lane in
      let one = serve_one hooks msg.conn_id (hooks.on_service msg lane.state) in
      let first = caught-Agrees msg.conn_id (hooks.on_service msg lane.state) _ in
      Agrees-then lane one _ done (relay_loop hooks times rest done.1) first (
        subst
          (λ s.
            Agrees done.1 (serve_all hooks (λ m. m.conn_id) hooks.on_service rest s)
              (relay_loop hooks times rest done.1))
          first.1 (relay_loop-Agrees times rest done.1))

  pub event_loop-Agrees :
      (times : Times) (evs : List InboundEvent) (lane : Lane S)
      → Agrees lane
          (serve_all hooks (λ ev. ev.conn_id) hooks.on_event evs lane.state)
          (event_loop hooks times evs lane)
  unfolding event_loop serve_all event_one join
  event_loop-Agrees times [] lane = (refl, refl, omega arith, refl, refl, refl)
  event_loop-Agrees times (ev ∷ rest) lane =
      let done = event_one hooks times ev lane in
      let one = serve_one hooks ev.conn_id (hooks.on_event ev lane.state) in
      let first = caught-Agrees ev.conn_id (hooks.on_event ev lane.state) _ in
      Agrees-then lane one _ done (event_loop hooks times rest done.1) first (
        subst
          (λ s.
            Agrees done.1 (serve_all hooks (λ e. e.conn_id) hooks.on_event rest s)
              (event_loop hooks times rest done.1))
          first.1 (event_loop-Agrees times rest done.1))
