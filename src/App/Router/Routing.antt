-- ===== src/App/Router/Routing.antt =====
-- src/app/service_router.cpp: which service a message's id leads to.
use iocp_echo_server.Base.{
  ℕ, zero, suc, ◌+◌, ◌≤◌, ◌≡◌, refl, ap, ◌∙◌, true, leb, ◌==◌, ◌&&◌, if◌then◌else◌, List, Option,
  none, some, arith, replicate,
}
use iocp_echo_server.Proto.Frame.{FrameView}
use iocp_echo_server.Proto.Messages.{ErrorCode}
use iocp_echo_server.App.Service.Post.{Way, error_acts}
use iocp_echo_server.App.Router.{
  ServiceId, game, chat, service_at, slot_at, assign, new_table, route, no_service, ServiceRouter,
  post_message, post_to_service,
}

-- The service that the ids of requests stand for.
unfoldable pub owner : ℕ → Option ServiceId
owner msg_id =
    if leb 1 msg_id && leb msg_id 5 then some game else if msg_id == 6 then some chat else none

slot_at-replicate : (n k : ℕ) → slot_at n (replicate k no_service) ≡ no_service
unfolding slot_at
slot_at-replicate n zero = refl
slot_at-replicate zero (suc k) = refl
slot_at-replicate (suc n) (suc k) = slot_at-replicate n k

others : (n : ℕ) → slot_at (suc (suc (suc (suc (suc (suc (suc n))))))) new_table ≡ no_service
unfolding new_table assign slot_at
others n = slot_at-replicate n 93

route-others : (m : ℕ) → 7 ≤ m → slot_at m new_table ≡ no_service → route m new_table ≡ owner m
unfolding route owner
route-others m h e = ground arith

route-owner : (msg_id : ℕ) → route msg_id new_table ≡ owner msg_id
unfolding route new_table assign slot_at service_at owner
route-owner zero = refl
route-owner (suc zero) = refl
route-owner (suc (suc zero)) = refl
route-owner (suc (suc (suc zero))) = refl
route-owner (suc (suc (suc (suc zero)))) = refl
route-owner (suc (suc (suc (suc (suc zero))))) = refl
route-owner (suc (suc (suc (suc (suc (suc zero)))))) = refl
route-owner (suc (suc (suc (suc (suc (suc (suc n))))))) =
    route-others (suc (suc (suc (suc (suc (suc (suc n))))))) (omega arith) (others n)

-- With the routing table that start makes: a message whose id is not one of the six requests is
-- answered unknown_message, counted, and reaches no service; echo, save, history, counter and
-- ping go to the game service, and a chat message to the chat service.
pub post_message_routes :
    (way : Way) (text : ErrorCode → List ℕ) (id : ℕ) (frame : FrameView) (r : ServiceRouter)
    → r.table ≡ new_table
    → (owner frame.msg_id ≡ none
        → post_message way text id frame r ≡ (
          error_acts way frame.msg_id ErrorCode.unknown_message (text ErrorCode.unknown_message),
          true,
          record r { unknown = r.unknown + 1 },
        ))
      × ((service : ServiceId)
          → owner frame.msg_id ≡ some service
          → post_message way text id frame r ≡ post_to_service way text service id frame r)
unfolding post_message
post_message_routes way text id frame r t =
    let routed = ap (route frame.msg_id) t ∙ route-owner frame.msg_id in
    (λ e. simp (routed, e) refl, λ service e. simp (routed, e) refl)
