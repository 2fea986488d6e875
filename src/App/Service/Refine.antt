-- ===== src/App/Service/Refine.antt =====
-- src/app/service.cpp: a lane's queues and steps against the mailbox of `Spec`.
use iocp_echo_server.Base.{
  ℕ, ◌≡◌, refl, sym, ap, ap₂, ◌∙◌, true, false, Bool-cases, inl, inr, if◌then◌else◌, List, [], ◌∷◌,
  ◌++◌, leb, length, arith,
}
use iocp_echo_server.Core.SwapQueue.{
  SwapQueue, filling, swap, clear_taken, push, emplace, try_emplace,
}
use iocp_echo_server.Proto.Frame.{FrameView}
use iocp_echo_server.Proto.Messages.{ErrorCode}
use iocp_echo_server.App.Handlers.{InboundEvent}
use iocp_echo_server.App.Service.{OverflowPolicy, rejects, backpressure, Hooks, Lane}
use iocp_echo_server.App.Service.Turns.{
  Times, is_empty, take_relays, batch_done, after_batch, take_batch, resume_paused,
}
use iocp_echo_server.App.Service.Post.{
  Way, lane_connected, lane_disconnected, lane_service, lane_full, lane_message, message_event,
}
use iocp_echo_server.App.Service.System.{
  Op, connects, disconnects, says, relays, takes_relays, takes_batch, resumes, Trace, silent,
  no_turn, step, step_message, run,
}
use iocp_echo_server.App.Service.Spec.{
  Mailbox, view, serve_all, refuse, does_message, does_relays, does_batch, does, lives,
}
use iocp_echo_server.App.Service.Loops.{relay_loop-Agrees, event_loop-Agrees}

-- A step of the lane shows what the mailbox's step shows.
abbrev pub Shows {ℓ} : {S : Type ℓ} → Trace × Lane S → Trace × Mailbox S → Type ℓ
Shows concrete abstract_ = (concrete.0 ≡ abstract_.0) × (view concrete.1 ≡ abstract_.1)

abbrev pub ShowsAll {ℓ} : {S : Type ℓ} → List Trace × Lane S → List Trace × Mailbox S → Type ℓ
ShowsAll concrete abstract_ = (concrete.0 ≡ abstract_.0) × (view concrete.1 ≡ abstract_.1)

module _ {ℓ} {S : Type ℓ} (hooks : Hooks S) where
  view_eq :
      {a b : Mailbox S}
      → a.events ≡ b.events
      → a.inbox ≡ b.inbox
      → a.waiting ≡ b.waiting
      → a.faults ≡ b.faults
      → a.state ≡ b.state
      → a ≡ b
  view_eq p q r s t i = record {
    events = p i;
    inbox = q i;
    waiting = r i;
    faults = s i;
    state = t i;
  }

is_empty→≡ {ℓ} : {A : Type ℓ} (xs : List A) → is_empty xs ≡ true → xs ≡ []
unfolding is_empty
is_empty→≡ [] e = refl
is_empty→≡ (x ∷ xs) e = ground arith

module _ {ℓ} {T : Type ℓ} where
  filling-push : (x : T) (q : SwapQueue T) → filling (push x q) ≡ filling q ++ (x ∷ [])
  unfolding push
  filling-push x q = ground arith

  pub filling-emplace : (x : T) (q : SwapQueue T) → filling (emplace x q) ≡ filling q ++ (x ∷ [])
  unfolding emplace
  filling-emplace x q = ground arith

  filling-swap : (q : SwapQueue T) → filling (swap q).1 ≡ []
  unfolding swap
  filling-swap q = ground arith

  filling-clear_taken : (q : SwapQueue T) → filling (clear_taken q) ≡ filling q
  unfolding clear_taken
  filling-clear_taken q = ground arith

  filling-try_emplace :
      (cap : ℕ) (x : T) (q : SwapQueue T)
      → leb cap (length (filling q)) ≡ false
      → filling (try_emplace cap x q).1 ≡ filling q ++ (x ∷ [])
  unfolding try_emplace
  filling-try_emplace cap x q e = ground arith

module _ {ℓ} {S : Type ℓ} (hooks : Hooks S) (text : ErrorCode → List ℕ) (cap : ℕ)
    (policy : OverflowPolicy) where
  take_relays-Shows :
      (times : Times) (lane : Lane S)
      → Shows
          (step hooks text cap policy (takes_relays times) lane)
          (does hooks text cap policy (takes_relays times) (view lane))
  unfolding step take_relays does does_relays view swap
  take_relays-Shows times lane =
      let (early, state) = hooks.on_before_batch lane.state in
      let q = lane.service_inbox in
      let lane' = record lane { state = state; service_inbox = (swap q).1 } in
      let (u, v, w, x, y, z) = relay_loop-Agrees hooks times (filling q) lane' in
      (
        ap
            (λ calls. record silent {
              turn = record no_turn { calls = early ++ calls; relays = filling q };
            })
            u,
        view_eq hooks (ap filling x) (filling-clear_taken _ ∙ ap filling y ∙ filling-swap q) z w v,
      )

  take_batch-Shows :
      (times : Times) (lane : Lane S)
      → Shows
          (step hooks text cap policy (takes_batch times) lane)
          (does hooks text cap policy (takes_batch times) (view lane))
  unfolding step take_batch after_batch batch_done does does_batch serve_all view swap
  take_batch-Shows times lane =
      let q = lane.inbound in
      let lane' = record lane { inbound = (swap q).1 } in
      let (u, v, w, x, y, z) = event_loop-Agrees hooks times (filling q) lane' in
      elim (Bool-cases (is_empty (filling q))) [
        | inl e ↦
            let none_wait = is_empty→≡ (filling q) e in
            let served = λ (evs : List InboundEvent).
              serve_all hooks (λ ev. ev.conn_id) hooks.on_event evs lane.state in
            simp e (
              ap
                  (λ evs. record silent {
                    turn = record no_turn { calls = (served evs).calls; events = evs };
                  })
                  (sym none_wait),
              view_eq hooks (filling-swap q) refl refl
                  (omega (arith, ap (λ evs. (served evs).failed) none_wait))
                  (ap (λ evs. hooks.on_after_batch (served evs).state) (sym none_wait)),
            )
        | inr e ↦ simp e (
          ap
              (λ calls. record silent {
                turn = record no_turn { calls = calls; events = filling q };
              })
              u,
          view_eq hooks (filling-clear_taken _ ∙ ap filling x ∙ filling-swap q) (ap filling y) z w
              (ap hooks.on_after_batch v),
        )
      ]

  full-Shows :
      (p : OverflowPolicy) (way : Way) (id : ℕ) (frame : FrameView) (lane : Lane S)
      → let (todo, keep, lane') = lane_full way text p id frame lane in
        Shows
          (
            record silent { reply = todo; keep = keep; refused = if keep then [] else id ∷ [] },
            lane',
          )
          (refuse hooks text cap policy way id frame p (view lane))
  unfolding lane_full refuse view
  full-Shows rejects way id frame lane = (refl, refl)
  full-Shows backpressure way id frame lane = (refl, refl)

  message-Shows :
      (way : Way) (id : ℕ) (frame : FrameView) (lane : Lane S)
      → Shows
          (step hooks text cap policy (says way id frame) lane)
          (does hooks text cap policy (says way id frame) (view lane))
  unfolding step step_message lane_message does does_message view try_emplace emplace
  message-Shows way id frame lane = elim (Bool-cases (leb cap (length (filling lane.inbound)))) [
    | inl e ↦ simp e (full-Shows policy way id frame lane)
    | inr e ↦ simp e (
      refl,
      view_eq hooks (filling-emplace (message_event id frame) lane.inbound) refl refl refl refl,
    )
  ]

  -- Each step of a lane.
  pub step-Shows :
      (op : Op) (lane : Lane S)
      → Shows (step hooks text cap policy op lane) (does hooks text cap policy op (view lane))
  unfolding step does view lane_connected lane_disconnected lane_service resume_paused
  step-Shows (connects id) lane =
      (refl, view_eq hooks (filling-emplace _ lane.inbound) refl refl refl refl)
  step-Shows (disconnects id) lane =
      (refl, view_eq hooks (filling-emplace _ lane.inbound) refl refl refl refl)
  step-Shows (says way id frame) lane = message-Shows way id frame lane
  step-Shows (relays msg) lane =
      (refl, view_eq hooks refl (filling-push msg lane.service_inbox) refl refl refl)
  step-Shows (takes_relays times) lane = take_relays-Shows times lane
  step-Shows (takes_batch times) lane = take_batch-Shows times lane
  step-Shows resumes lane = (refl, refl)

  -- A lane with its swapped buffers, loops and counts, over any interleaving of the steps of all
  -- threads, does and shows what the mailbox does: two lists of waiting items, a list of stopped
  -- connections, and a state that the items go through one by one.
  pub run_refines :
      (ops : List Op) (lane : Lane S)
      → ShowsAll (run hooks text cap policy ops lane) (lives hooks text cap policy ops (view lane))
  unfolding run lives
  run_refines [] lane = (refl, refl)
  run_refines (op ∷ ops) lane =
      let (t, m) = step-Shows op lane in
      let done = step hooks text cap policy op lane in
      let (ts, m') = run_refines ops done.1 in
      let next = λ (n : Mailbox S). lives hooks text cap policy ops n in
      (ap₂ (λ a b. a ∷ b) t (ts ∙ ap (λ n. (next n).0) m), m' ∙ ap (λ n. (next n).1) m)
