-- ===== src/App/Broadcast.antt =====
-- src/app/broadcast_service.cpp: the chat service's lane. A member whose connection is closed is
-- passed over by `broadcast`; `closed` answers that for the connections. The distribution of the
-- times is left out, and so is the report.
pub mod Names
use iocp_echo_server.Base.{
  ℕ, ◌+◌, Bool, true, false, not, ltb, ◌==◌, if◌then◌else◌, List, [], ◌∷◌, ◌++◌, Option, none, some,
  length,
}
use iocp_echo_server.Base.Table.{Table, find, set, erase, number_key}
use iocp_echo_server.Proto.Codec.{Writer, new_reader, str, consumed_all, put_str}
use iocp_echo_server.Proto.Messages.{ErrorCode, max_payload_bytes}
use iocp_echo_server.Proto.Messages.MsgId
use iocp_echo_server.App.Reply.{Call, sends, closes, send_error}
use iocp_echo_server.App.Handlers.{EventKind, connected, disconnected, message, InboundEvent}

pub record Member : Type 0 where
  pub name : List ℕ

pub record BroadcastService : Type 0 where
  pub members : Table ℕ Member
  pub pending_names : Table ℕ (List ℕ)
  pub handled : ℕ
  pub rejected : ℕ
  pub broadcasts : ℕ
  pub broadcast_sends : ℕ
  pub orphan_names : ℕ

-- The texts for people in error replies.
pub data Notice : Type 0 where
  body_too_large chat_body payload_limit : Notice

unfoldable pub name_or : Option (List ℕ) → List ℕ → List ℕ
name_or none old = old
name_or (some name) old = name

unfoldable pub name_of : Option Member → List ℕ
name_of none = []
name_of (some m) = m.name

-- A connection is there: its entry, with the name that waits for it, if one does.
unfoldable pub on_connected : InboundEvent → BroadcastService → BroadcastService
on_connected ev s =
    if not ev.conn
    then s
    else let waiting = find ev.conn_id s.pending_names in
      let name = name_or waiting (name_of (find ev.conn_id s.members)) in
      record s {
        members = set ev.conn_id (record { name = name }) s.members;
        pending_names = erase ev.conn_id s.pending_names;
      }

unfoldable pub on_disconnected : InboundEvent → BroadcastService → BroadcastService
on_disconnected ev s = record s {
  members = erase ev.conn_id s.members;
  pending_names = erase ev.conn_id s.pending_names;
}

unfoldable pub refuse :
    (Notice → List ℕ)
    → ErrorCode
    → Notice
    → InboundEvent
    → BroadcastService
    → List Call × BroadcastService
refuse text error notice ev s =
    (send_error ev.conn_id ev.msg_id error (text notice), record s { rejected = s.rejected + 1 })

-- The loop over the members, each sent the same bytes unless its connection is closed.
unfoldable pub fan_out : (ℕ → Bool) → Writer → Table ℕ Member → List Call
fan_out closed w [] = []
fan_out closed w ((id, m) ∷ rest) =
    if closed id then fan_out closed w rest else sends id MsgId.chat_push w ∷ fan_out closed w rest

unfoldable pub broadcast :
    (ℕ → Bool) → List ℕ → List ℕ → BroadcastService → List Call × BroadcastService
broadcast closed from text s =
    let calls = fan_out closed (put_str text (put_str from [])) s.members in
    (
      calls,
      record s {
        broadcasts = s.broadcasts + 1;
        broadcast_sends = s.broadcast_sends + length calls;
      },
    )

unfoldable pub on_member :
    (ℕ → Bool)
    → (Notice → List ℕ)
    → Member
    → InboundEvent
    → BroadcastService
    → List Call × BroadcastService
on_member closed text member ev s =
    let counted = record s { handled = s.handled + 1 } in
    let (said, r) = str (new_reader ev.body ev.size) in
    if ev.oversized
    then refuse text ErrorCode.payload_too_long body_too_large ev counted
    else if not (consumed_all r)
    then refuse text ErrorCode.invalid_field chat_body ev counted
    else if ltb max_payload_bytes (length said)
    then refuse text ErrorCode.payload_too_long payload_limit ev counted
    else broadcast closed member.name said counted

unfoldable pub on_event :
    (ℕ → Bool) → (Notice → List ℕ) → InboundEvent → BroadcastService → List Call × BroadcastService
on_event closed text ev s = by_kind ev.kind (find ev.conn_id s.members)
  where
    by_kind : EventKind → Option Member → List Call × BroadcastService
    by_kind connected _ = ([], on_connected ev s)
    by_kind disconnected _ = ([], on_disconnected ev s)
    by_kind message none = ([], s)
    by_kind message (some member) = on_member closed text member ev s

-- The game service has given a session its key.
unfoldable pub on_service : ℕ → List ℕ → BroadcastService → BroadcastService
on_service id key s = place (find id s.members)
  where
    place : Option Member → BroadcastService
    place none = record s { pending_names = set id key s.pending_names }
    place (some m) = record s { members = set id (record m { name = key }) s.members }

unfoldable pub on_after_batch : BroadcastService → BroadcastService
on_after_batch s = record s {
  orphan_names = s.orphan_names + length s.pending_names;
  pending_names = [];
}

unfoldable pub on_fault : ℕ → BroadcastService → List Call × BroadcastService
on_fault id s = drop_member (find id s.members)
  where
    forgotten : BroadcastService
    forgotten = record s { pending_names = erase id s.pending_names }

    drop_member : Option Member → List Call × BroadcastService
    drop_member none = ([], forgotten)
    drop_member (some m) = (closes id ∷ [], record forgotten { members = erase id s.members })
