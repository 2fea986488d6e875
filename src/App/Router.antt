-- ===== src/App/Router.antt =====
-- src/app/service_router.h and service_router.cpp. The table of 100 slots is a list. A loop over the
-- services goes to the game service first. `drain`, which waits and looks, is left out.
pub mod Routing
use iocp_echo_server.Base.{
  ℕ, zero, suc, ◌+◌, Bool, true, false, ltb, leb, ◌==◌, if◌then◌else◌, List, [], ◌∷◌, ◌++◌, Option,
  none, some, replicate, length,
}
use iocp_echo_server.Proto.Frame.{FrameView}
use iocp_echo_server.Proto.Messages.{ErrorCode}
use iocp_echo_server.Proto.Messages.MsgId
use iocp_echo_server.Net.Connection.Receive.{Act}
use iocp_echo_server.Db.Types.{Response}
use iocp_echo_server.App.Reply.{Call, sends, closes, submits, relays}
use iocp_echo_server.App.Service.{
  OverflowPolicy, ServiceEvent, session_opened, ServiceMessage, ServiceStats, new_stats, Hooks,
  Service,
}
use iocp_echo_server.App.Service.Post.{Way, error_acts, stop}
use iocp_echo_server.App.Service.Post
use iocp_echo_server.App.Service.Stats.{stats}
use iocp_echo_server.App.Game
use iocp_echo_server.App.Chat

pub data ServiceId : Type 0 where
  game chat : ServiceId

abbrev pub route_table_size : ℕ
route_table_size = 100

abbrev pub no_service : ℕ
no_service = 255

-- `static_cast<std::uint8_t>(id)`
abbrev pub slot_of : ServiceId → ℕ
slot_of game = 0
slot_of chat = 1

unfoldable pub service_at : ℕ → Option ServiceId
service_at index = if index == 0 then some game else if index == 1 then some chat else none

-- `table_[msg_id] = value`; a place outside changes nothing here.
unfoldable pub assign : ℕ → ServiceId → List ℕ → List ℕ
assign msg_id id [] = []
assign zero id (slot ∷ slots) = slot_of id ∷ slots
assign (suc n) id (slot ∷ slots) = slot ∷ assign n id slots

-- `table_[msg_id]`, where it is in the table.
unfoldable pub slot_at : ℕ → List ℕ → ℕ
slot_at n [] = no_service
slot_at zero (slot ∷ slots) = slot
slot_at (suc n) (slot ∷ slots) = slot_at n slots

unfoldable pub new_table : List ℕ
new_table = assign MsgId.chat_req chat (
    assign MsgId.ping_req game (
      assign MsgId.counter_req game (
        assign MsgId.history_req game (
          assign MsgId.save_req game
            (assign MsgId.echo_req game (replicate route_table_size no_service))))))

unfoldable pub route : ℕ → List ℕ → Option ServiceId
route msg_id table =
    if leb route_table_size msg_id
    then none
    else let slot = slot_at msg_id table in if slot == no_service then none else service_at slot

-- What the two services override.
pub record Setting : Type 0 where
  pub game_hooks : Hooks Game.State
  pub chat_hooks : Hooks Chat.State

pub record ServiceRouter : Type 0 where
  pub game_service : Service Game.State
  pub chat_service : Service Chat.State
  pub table : List ℕ
  pub unknown : ℕ

-- `ServiceRouter::Options`, as far as the services take them.
pub record Options : Type 0 where
  pub game_lane_count : ℕ
  pub inbound_queue_cap : ℕ
  pub overflow_policy : OverflowPolicy

unfoldable pub game_options : Options → Post.Options
game_options opt = record {
  lane_count = opt.game_lane_count;
  inbound_queue_cap = opt.inbound_queue_cap;
  overflow_policy = opt.overflow_policy;
}

-- `start`: whether both services run, and the router; a chat service that fails stops the other.
unfoldable pub start : Setting → Options → ServiceRouter → Bool × ServiceRouter
start env opt r = game_made (Post.start env.game_hooks (game_options opt) r.game_service)
  where
    chat_made : ServiceRouter → Option (Service Chat.State) → Bool × ServiceRouter
    chat_made r' none = (false, record r' { game_service = stop r'.game_service })
    chat_made r' (some s) = (true, record r' { chat_service = s })

    game_made : Option (Service Game.State) → Bool × ServiceRouter
    game_made none = (false, record r { table = new_table })
    game_made (some s) =
        chat_made (record r { table = new_table; game_service = s })
          (Post.start env.chat_hooks (record (game_options opt) { lane_count = 1 }) r.chat_service)

unfoldable pub stop_router : ServiceRouter → ServiceRouter
stop_router r = record r { chat_service = stop r.chat_service; game_service = stop r.game_service }

-- One round of the loop in `post_connected`.
unfoldable pub connect_at : ServiceId → Bool → ℕ → ServiceRouter → ServiceRouter
connect_at game conn id r = record r { game_service = Post.post_connected conn id r.game_service }
connect_at chat conn id r = record r { chat_service = Post.post_connected conn id r.chat_service }

unfoldable pub post_connected : Bool → ℕ → ServiceRouter → ServiceRouter
post_connected conn id r = connect_at chat conn id (connect_at game conn id r)

unfoldable pub post_disconnected : ℕ → ServiceRouter → ServiceRouter
post_disconnected id r = record r {
  game_service = Post.post_disconnected id r.game_service;
  chat_service = Post.post_disconnected id r.chat_service;
}

unfoldable pub post_to_service :
    Way
    → (ErrorCode → List ℕ)
    → ServiceId
    → ℕ
    → FrameView
    → ServiceRouter
    → List Act × Bool × ServiceRouter
post_to_service way text game id frame r =
    let (todo, keep, s) = Post.post_message way text id frame r.game_service in
    (todo, keep, record r { game_service = s })
post_to_service way text chat id frame r =
    let (todo, keep, s) = Post.post_message way text id frame r.chat_service in
    (todo, keep, record r { chat_service = s })

unfoldable pub post_message :
    Way → (ErrorCode → List ℕ) → ℕ → FrameView → ServiceRouter → List Act × Bool × ServiceRouter
post_message way text id frame r = target (route frame.msg_id r.table)
  where
    target : Option ServiceId → List Act × Bool × ServiceRouter
    target none = (
      error_acts way frame.msg_id ErrorCode.unknown_message (text ErrorCode.unknown_message),
      true,
      record r { unknown = r.unknown + 1 },
    )
    target (some service) = post_to_service way text service id frame r

unfoldable pub post_db_response : Response → ServiceRouter → ServiceRouter
post_db_response res r = record r { game_service = Game.post_db_response res r.game_service }

unfoldable pub post_to : ServiceId → ServiceMessage → ServiceRouter → ServiceRouter
post_to game msg r = record r { game_service = Post.post_service msg r.game_service }
post_to chat msg r = record r { chat_service = Post.post_service msg r.chat_service }

-- The relay that `start` gives the game service, for each of its calls.
unfoldable pub relay_calls : List Call → ServiceRouter → ServiceRouter
relay_calls [] r = r
relay_calls (relays id key ∷ rest) r =
    relay_calls rest (post_to chat (record { kind = session_opened; conn_id = id; text = key }) r)
relay_calls (sends id msg_id body ∷ rest) r = relay_calls rest r
relay_calls (closes id ∷ rest) r = relay_calls rest r
relay_calls (submits req ∷ rest) r = relay_calls rest r

-- The counts of one service added to the total; the distributions are not.
unfoldable pub add_counts : ServiceStats → ServiceStats → ServiceStats
add_counts s total = record total {
  entries = total.entries + s.entries;
  handled = total.handled + s.handled;
  rejected = total.rejected + s.rejected;
  faults = total.faults + s.faults;
  overflow = total.overflow + s.overflow;
  relay_messages = total.relay_messages + s.relay_messages;
  db_requests = total.db_requests + s.db_requests;
  db_responses = total.db_responses + s.db_responses;
  db_failures = total.db_failures + s.db_failures;
  db_expired = total.db_expired + s.db_expired;
  broadcasts = total.broadcasts + s.broadcasts;
  broadcast_sends = total.broadcast_sends + s.broadcast_sends;
}

unfoldable pub router_stats : ServiceRouter → ServiceStats
router_stats r =
    let total = add_counts (stats r.chat_service) (add_counts (stats r.game_service) new_stats) in
    record total { rejected = total.rejected + r.unknown }
