-- ===== src/App/Chat/Has.antt =====
-- src/app/broadcast_service.cpp: what the chat has on one connection, while it handles items.
use iocp_echo_server.Base.{
  ℕ, ◌≡◌, ◌==◌, refl, ap, ◌∙◌, Bool, false, List, [], ◌∷◌, Bool-cases, Option, none, some, All,
  Option-cases, inl, inr, arith,
}
use iocp_echo_server.Base.Table.{
  find, number_key, find-set, find-set_other, find-erase, find-erase_other,
}
use iocp_echo_server.App.Handlers.{EventKind, InboundEvent}
use iocp_echo_server.App.Broadcast.{
  Member, Notice, BroadcastService, on_member, broadcast, name_or, name_of,
}
use iocp_echo_server.App.Broadcast
use iocp_echo_server.App.Service.{ServiceMessage, session_opened}
use iocp_echo_server.App.Service.Post.{connected_event}
use iocp_echo_server.App.Service.Spec.{serve_one, serve_all}
use iocp_echo_server.App.Chat.{State, on_service, on_event, hooks}

-- What the chat has on a connection: its entry, and a name that waits.
abbrev pub Has : ℕ → Option Member → Option (List ℕ) → State → Type 0
Has id entry name s = (find id s.chat.members ≡ entry) × (find id s.chat.pending_names ≡ name)

module _ (id : ℕ) where
  on_service-Has :
      (msg : ServiceMessage) (entry : Option Member) (name : Option (List ℕ)) (s : State)
      → (id == msg.conn_id) ≡ false
      → Has id entry name s
      → Has id entry name (on_service msg s).after
  unfolding on_service Broadcast.on_service
  on_service-Has msg entry name s other (m, p) =
      elim (Option-cases (find msg.conn_id s.chat.members)) [
        | inl e ↦ simp e (m, find-set_other id msg.conn_id msg.text s.chat.pending_names other ∙ p)
        | inr (member, e) ↦ simp e (find-set_other id msg.conn_id _ s.chat.members other ∙ m, p)
      ]

  module _ (closed : ℕ → ℕ → Bool) (text : Notice → List ℕ) where
    on_member_keeps :
        (shut : ℕ → Bool) (member : Member) (ev : InboundEvent) (s : BroadcastService)
        → ((on_member shut text member ev s).1.members ≡ s.members)
          × ((on_member shut text member ev s).1.pending_names ≡ s.pending_names)
    unfolding on_member broadcast Broadcast.refuse
    on_member_keeps shut member ev s = ground arith

    on_connected-Has :
        (ev : InboundEvent) (entry : Option Member) (name : Option (List ℕ)) (s : BroadcastService)
        → (id == ev.conn_id) ≡ false
        → (find id (Broadcast.on_connected ev s).members ≡ find id s.members)
          × (find id (Broadcast.on_connected ev s).pending_names ≡ find id s.pending_names)
    unfolding Broadcast.on_connected
    on_connected-Has ev entry name s other = elim (Bool-cases ev.conn) [
      | inl e ↦ simp e (
        find-set_other id ev.conn_id _ s.members other,
        find-erase_other id ev.conn_id s.pending_names other,
      )
      | inr e ↦ simp e (refl, refl)
    ]

    by_kind :
        (shut : ℕ → Bool) (ev : InboundEvent) (s : BroadcastService)
        → (id == ev.conn_id) ≡ false
        → (k : EventKind) → ev.kind ≡ k
        → (find id (Broadcast.on_event shut text ev s).1.members ≡ find id s.members)
          × (find id (Broadcast.on_event shut text ev s).1.pending_names ≡ find id s.pending_names)
    unfolding Broadcast.on_event Broadcast.on_disconnected
    by_kind shut ev s other EventKind.connected k = simp k (on_connected-Has ev none none s other)
    by_kind shut ev s other EventKind.disconnected k = simp k (
      find-erase_other id ev.conn_id s.members other,
      find-erase_other id ev.conn_id s.pending_names other,
    )
    by_kind shut ev s other EventKind.message k = elim (Option-cases (find ev.conn_id s.members)) [
      | inl e ↦ simp (k, e) (refl, refl)
      | inr (member, e) ↦
          let (m, p) = on_member_keeps shut member ev s in
          simp (k, e) (ap (find id) m, ap (find id) p)
    ]

    on_event-Has :
        (ev : InboundEvent) (entry : Option Member) (name : Option (List ℕ)) (s : State)
        → (id == ev.conn_id) ≡ false
        → Has id entry name s
        → Has id entry name (on_event closed text ev s).after
    unfolding on_event
    on_event-Has ev entry name s other (m, p) =
        let (m', p') = by_kind (closed s.drawn) ev s.chat other ev.kind refl in (m' ∙ m, p' ∙ p)

    abbrev pub after_relays : List ServiceMessage → State → State
    after_relays msgs s = (serve_all (hooks closed text) (λ m. m.conn_id) on_service msgs s).state

    abbrev pub after_events : List InboundEvent → State → State
    after_events evs s =
        (serve_all (hooks closed text) (λ ev. ev.conn_id) (on_event closed text) evs s).state

    pub relays-Has :
        (msgs : List ServiceMessage) (entry : Option Member) (name : Option (List ℕ)) (s : State)
        → All (λ msg. (id == msg.conn_id) ≡ false) msgs
        → Has id entry name s
        → Has id entry name (after_relays msgs s)
    unfolding serve_all serve_one on_service
    relays-Has [] entry name s others h = h
    relays-Has (msg ∷ rest) entry name s (other, others) h =
        relays-Has rest entry name _ others (on_service-Has msg entry name s other h)

    pub events-Has :
        (evs : List InboundEvent) (entry : Option Member) (name : Option (List ℕ)) (s : State)
        → All (λ ev. (id == ev.conn_id) ≡ false) evs
        → Has id entry name s
        → Has id entry name (after_events evs s)
    unfolding serve_all serve_one on_event
    events-Has [] entry name s others h = h
    events-Has (ev ∷ rest) entry name s (other, others) h =
        events-Has rest entry name _ others (on_event-Has ev entry name s other h)

  pub name_comes :
      (key : List ℕ) (s : State)
      → Has id none none s
      → Has id none
          (some key)
          (on_service (record { kind = session_opened; conn_id = id; text = key }) s).after
  unfolding on_service Broadcast.on_service
  name_comes key s (m, p) = simp m (refl, find-set id key s.chat.pending_names)

  pub name_placed :
      (key : List ℕ) (s : BroadcastService)
      → find id s.members ≡ none
      → find id s.pending_names ≡ some key
      → (find id (Broadcast.on_connected (connected_event id) s).members
          ≡ some (record { name = key }))
        × (find id (Broadcast.on_connected (connected_event id) s).pending_names ≡ none)
  unfolding Broadcast.on_connected name_or name_of connected_event
  name_placed key s m p =
      simp (p, m) (find-set id (record { name = key }) s.members, find-erase id s.pending_names)
