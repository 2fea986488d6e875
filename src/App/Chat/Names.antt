-- ===== src/App/Chat/Names.antt =====
-- src/app/broadcast_service.cpp: a session's key comes by the relays, the notice of its connection
-- by the lane's queue, and `on_after_batch` drops what still waits for a notice.
use iocp_echo_server.Base.{
  ℕ, ◌≡◌, ◌==◌, refl, sym, ap, ap₂, subst, ◌∙◌, Bool, false, List, [], ◌∷◌, ◌++◌, none, some, All,
}
use iocp_echo_server.Base.Table.{find, number_key, find-set, find-erase}
use iocp_echo_server.Core.SwapQueue.{filling}
use iocp_echo_server.App.Handlers.{InboundEvent}
use iocp_echo_server.App.Broadcast.{
  Member, Notice, BroadcastService, on_member, broadcast, name_or, name_of,
}
use iocp_echo_server.App.Broadcast
use iocp_echo_server.App.Service.{ServiceMessage, session_opened, Result, Lane}
use iocp_echo_server.App.Service.Turns.{Times}
use iocp_echo_server.App.Service.Post.{connected_event}
use iocp_echo_server.App.Service.Spec.{serve_one, serve_all}
use iocp_echo_server.App.Service.Refine.{filling-emplace}
use iocp_echo_server.App.Chat.{State, on_service, on_event, on_after_batch, hooks}
use iocp_echo_server.App.Service.{Hooks}
use iocp_echo_server.App.Service.Turns.{run_step}
use iocp_echo_server.App.Service.Post.{lane_connected}
use iocp_echo_server.App.Service.Round.{run_step_state, run_step_serves}
use iocp_echo_server.App.Chat.Has.{
  Has, relays-Has, events-Has, name_comes, name_placed, after_relays, after_events,
}

serve_all-append {κ} :
    {A : Type κ} (owner : A → ℕ) (handle : A → State → Result State) (h : Hooks State)
    (xs ys : List A) (s : State)
    → (serve_all h owner handle (xs ++ ys) s).state
      ≡ (serve_all h owner handle ys (serve_all h owner handle xs s).state).state
unfolding serve_all
serve_all-append owner handle h [] ys s = refl
serve_all-append owner handle h (x ∷ xs) ys s =
    serve_all-append owner handle h xs ys (serve_one h (owner x) (handle x s)).state

-- The relay that carries a session's key.
unfoldable pub opened : ℕ → List ℕ → ServiceMessage
opened id key = record { kind = session_opened; conn_id = id; text = key }

-- Nothing on the connection, and a notice: a member without a name.
placed_unnamed :
    (id : ℕ) (s : BroadcastService)
    → find id s.members ≡ none
    → find id s.pending_names ≡ none
    → (find id (Broadcast.on_connected (connected_event id) s).members
        ≡ some (record { name = [] }))
      × (find id (Broadcast.on_connected (connected_event id) s).pending_names ≡ none)
unfolding Broadcast.on_connected name_or name_of connected_event
placed_unnamed id s m p =
    simp (p, m) (find-set id (record { name = [] }) s.members, find-erase id s.pending_names)

module _ (closed : ℕ → ℕ → Bool) (text : Notice → List ℕ) where
  -- What a round of the lane makes of the relays and the events that wait.
  round_state :
      (id : ℕ) (times : Times) (lane : Lane State) (msgs : List ServiceMessage)
      (evs : List InboundEvent)
      → filling lane.service_inbox ≡ msgs
      → filling lane.inbound ≡ evs
      → (run_step (hooks closed text) times lane).1.state
        ≡ on_after_batch
            (after_events id closed text evs (after_relays id closed text msgs lane.state))
  unfolding hooks on_after_batch
  round_state id times lane msgs evs r e =
      run_step_state (hooks closed text) times lane
      ∙ ap₂
          (λ xs ys.
            on_after_batch
              (after_events id closed text ys (after_relays id closed text xs lane.state)))
          r e

  -- Where a round of the chat finds both the relay with a session's key and the notice of its
  -- connection, each at any place among items of other connections, and knew nothing of the
  -- connection: after the round the connection is a member under that key, and no name waits for
  -- it.
  pub named_in_time :
      (id : ℕ) (key : List ℕ) (times : Times) (lane : Lane State)
      (before after : List ServiceMessage) (pre post : List InboundEvent)
      → filling lane.service_inbox ≡ before ++ (opened id key ∷ after)
      → filling lane.inbound ≡ pre ++ (connected_event id ∷ post)
      → All (λ msg. (id == msg.conn_id) ≡ false) before
      → All (λ msg. (id == msg.conn_id) ≡ false) after
      → All (λ ev. (id == ev.conn_id) ≡ false) pre
      → All (λ ev. (id == ev.conn_id) ≡ false) post
      → Has id none none lane.state
      → Has id (some (record { name = key })) none (run_step (hooks closed text) times lane).1.state
  unfolding on_after_batch Broadcast.on_after_batch opened serve_all serve_one on_service on_event
      Broadcast.on_event connected_event find
  named_in_time id key times lane before after pre post r e b a p q h =
      let h1 = relays-Has id closed text before none none lane.state b h in
      let s1 = after_relays id closed text before lane.state in
      let h2 = relays-Has id closed text after none (some key) _ a (name_comes id key s1 h1) in
      let s2 = after_relays id closed text (opened id key ∷ after) s1 in
      let (m, n) = events-Has id closed text pre none (some key) s2 p h2 in
      let s3 = after_events id closed text pre s2 in
      let (m', n') =
        events-Has id closed text post (some (record { name = key })) none _ q
          (name_placed id key s3.chat m n) in
      let relayed =
        serve_all-append (λ m. m.conn_id) on_service (hooks closed text) before
          (opened id key ∷ after) lane.state in
      let handled =
        serve_all-append (λ ev. ev.conn_id) (on_event closed text) (hooks closed text) pre
          (connected_event id ∷ post) s2 in
      subst (Has id (some (record { name = key })) none)
        (sym (
          round_state id times lane _ _ r e
          ∙ ap
              (λ s.
                on_after_batch (after_events id closed text (pre ++ (connected_event id ∷ post)) s))
              relayed
          ∙ ap on_after_batch handled))
        (m', refl)

  -- Where a round of the chat finds the relay with a session's key alone and knows nothing of
  -- the connection, and the notice of the connection is put in after it: after the next round
  -- the connection is a member without a name, and no name waits for it.
  pub late_notice_unnamed :
      (id : ℕ) (key : List ℕ) (times times' : Times) (lane : Lane State)
      → filling lane.service_inbox ≡ opened id key ∷ []
      → filling lane.inbound ≡ []
      → Has id none none lane.state
      → let lane' = (run_step (hooks closed text) times lane).1 in
        Has id
          (some (record { name = [] }))
          none
          (run_step (hooks closed text) times' (lane_connected id lane')).1.state
  unfolding on_after_batch Broadcast.on_after_batch opened serve_all serve_one on_service on_event
      Broadcast.on_event connected_event lane_connected find
  late_notice_unnamed id key times times' lane r e h =
      let lane' = (run_step (hooks closed text) times lane).1 in
      let served = run_step_serves (hooks closed text) times lane in
      let (m, n) = name_comes id key lane.state h in
      let forgotten : Has id none none lane'.state =
        subst (Has id none none) (sym (round_state id times lane _ _ r e)) (m, refl) in
      let (m', n') = placed_unnamed id lane'.state.chat forgotten.0 forgotten.1 in
      subst (Has id (some (record { name = [] })) none)
        (sym (
          round_state id times' (lane_connected id lane') [] (connected_event id ∷ []) served.4 (
            filling-emplace (connected_event id) lane'.inbound
            ∙ ap (λ xs. xs ++ (connected_event id ∷ [])) served.3)))
        (m', refl)
