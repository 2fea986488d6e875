-- ===== src/Net/Connection/Send.antt =====
-- src/net/connection.cpp, the sending half. `accepted` says whether WSASend took the buffer, and
-- `posted` whether the flush notice was queued.
use iocp_echo_server.Base.{
  ℕ, ◌+◌, ◌-◌, Bool, true, false, not, List, [], ◌++◌, ltb, leb, ◌==◌, ◌&&◌, ◌||◌, if◌then◌else◌,
  length, drop, is_nil,
}
use iocp_echo_server.Proto.Frame.{header_size, max_outbound_body, write_header}
use iocp_echo_server.Net.Connection.{Connection, close, touch, sub_pending}

-- Put the unsent part of `staged` back in front of what has come in since.
unfoldable pub requeue_unsent : List ℕ → List ℕ → ℕ → List ℕ
requeue_unsent waiting staged sent =
    if leb (length staged) sent then waiting else drop sent staged ++ waiting

pub has_unsent : Connection → Bool
has_unsent c = c.sending || not (is_nil c.send_pending)

-- WSASend was called: the completion is owed, or the call failed and none will come.
unfoldable pub issued : Bool → Connection → Connection
issued accepted c =
    if accepted
    then record c {
      pending = c.pending + 1;
      sending = true;
      outside = record (c.outside) { send_ops = c.outside.send_ops + 1 };
    }
    else close (record c { pending = c.pending + 1 - 1; sending = false })

unfoldable pub post_send_locked : Bool → Connection → Connection
post_send_locked accepted c =
    if c.sending || (c.closed || is_nil c.send_pending)
    then c
    else issued accepted (record c {
      send_staging = c.send_pending;
      send_pending = [];
      pending_messages = 0;
      outside = record (c.outside) {
        send_issues = c.outside.send_issues + 1;
        send_messages = c.outside.send_messages + c.pending_messages;
      };
    })

-- The notice is on its way, or it failed and the sender issues the buffer itself.
unfoldable pub notify : Bool → Bool → Connection → Connection
notify posted accepted c =
    let counted = record c {
      outside = record (c.outside) { flush_posts = c.outside.flush_posts + 1 };
    } in
    if posted
    then record counted {
      flush_queued = true;
      pending = c.pending + 1;
      outside = record (counted.outside) { flush_ops = c.outside.flush_ops + 1 };
    }
    else post_send_locked accepted
        (record counted { flush_queued = false; pending = c.pending + 1 - 1 })

-- Who issues what has just been queued.
unfoldable pub schedule : Bool → Bool → Connection → Connection
schedule posted accepted c =
    if c.direct_send
    then post_send_locked accepted c
    else if not c.sending && not c.flush_queued
    then notify posted accepted c
    else c

abbrev pub frame_bytes : ℕ → List ℕ → List ℕ
frame_bytes msg_id body = write_header msg_id (length body) ++ body

-- Queueing a message that fits.
unfoldable pub enqueue : ℕ → List ℕ → Connection → Connection
enqueue msg_id body c = record c {
  send_pending = c.send_pending ++ frame_bytes msg_id body;
  pending_messages = c.pending_messages + 1;
  outside = record (c.outside) { queued = c.outside.queued ++ frame_bytes msg_id body };
}

-- Whether a message of that many bytes would pass the limit on unsent bytes.
unfoldable pub overflows : ℕ → Connection → Bool
overflows adding c =
    ltb 0 c.send_limit && ltb c.send_limit (length c.send_pending + length c.send_staging + adding)

unfoldable pub send : Bool → Bool → ℕ → List ℕ → Connection → Connection
send posted accepted msg_id body c =
    if c.closed
    then c
    else if ltb max_outbound_body (length body)
    then close c
    else if overflows (header_size + length body) c
    then close
        (record c { outside = record (c.outside) { send_overflow = c.outside.send_overflow + 1 } })
    else schedule posted accepted (enqueue msg_id body c)

unfoldable pub on_flush : Bool → Connection → Connection
on_flush accepted c = sub_pending (post_send_locked accepted (record c { flush_queued = false }))

-- A send that came back short: what is left goes back to the front, unless nothing was sent.
unfoldable pub recover : ℕ → Connection → Bool × Connection
recover transferred c =
    if ltb transferred (length c.send_staging)
    then if transferred == 0 then (true, c) else (
      false,
      record c {
        send_pending = requeue_unsent c.send_pending c.send_staging transferred;
        outside = record (c.outside) { partial_sends = c.outside.partial_sends + 1 };
      },
    )
    else (false, c)

-- The buffer has come back: whether the send failed, and the connection with nothing in flight.
unfoldable pub returned : ℕ → Bool → Connection → Bool × Connection
returned transferred success c =
    let (fail, c') = if success then recover transferred c else (true, c) in
    (fail, record c' { sending = false; send_staging = [] })

-- What is next: the following send, unless this one failed or the connection is closed.
unfoldable pub continue : Bool → ℕ → Bool → Connection → Connection
continue accepted now fail c =
    let next = if not fail && not c.closed then post_send_locked accepted (touch now c) else c in
    if fail then close next else next

unfoldable pub on_send_done : Bool → ℕ → ℕ → Bool → Connection → Connection
on_send_done accepted now transferred success c =
    let (fail, idle) = returned transferred success c in
    sub_pending (continue accepted now fail idle)
