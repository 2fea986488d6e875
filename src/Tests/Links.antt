-- ===== src/Tests/Links.antt =====
-- A connection.
use iocp_echo_server.Base.{
  ℕ, ◌+◌, ◌≤◌, ◌<◌, ◌≡◌, refl, true, false, List, [], ◌∷◌, ◌++◌, map, arith, is_nil, length-append,
  replicate, length-replicate,
}
use iocp_echo_server.Proto.Frame.{FrameView, peek_frame, write_header}
use iocp_echo_server.Proto.Frame.Laws.{encode, view}
use iocp_echo_server.Proto.ByteOrder.{load_be16, load_be32, store_be16, store_be32}
use iocp_echo_server.Net.ReceiveBuffer.{
  ReceiveBuffer, fill, commit_write, fresh, min_free, reserve_free, readable, consume,
}
use iocp_echo_server.Net.ReceiveBuffer.Bounds.{IsValid, reserve_free-Reserves}
use iocp_echo_server.Net.Connection.{
  Connection, new_connection, close, touch, sub_pending, add_pending,
}
use iocp_echo_server.Net.Connection.Send.{
  send, overflows, schedule, enqueue, post_send_locked, issued,
}
use iocp_echo_server.Net.Connection.Receive.{
  Handler, sends, drain_loop, drain_frames, resume_receive, start, post_receive, rearm,
  on_receive_done, drain_and_rearm, receive_landed, after, round, judge, offer, acts, act,
  rearm_receive, on_resume,
}
use iocp_echo_server.Net.Connection.Port.{receive_out, resume_out, Reach, here, next, sending}
use iocp_echo_server.Net.Connection.Invariant.System.{Sound, adopted, adopted-Sound}
use iocp_echo_server.Net.Connection.Safety.{
  reclaimable, IsQuiet, reclaimable-IsQuiet, at_most_one, wire-prefix, open-delivers,
}
use iocp_echo_server.Net.Connection.Stream.{encodes, Split}
use iocp_echo_server.Net.Connection.Receives.{Receives, none_more, one_more, concat, Receives-Split}
use iocp_echo_server.Net.Connection.Invariant.Receiving.{Handling}
use iocp_echo_server.Net.Connection.Overtaking.{resumed, overtaken_receives}
use iocp_echo_server.Net.Connection.Willing.{Receives-every}
use iocp_echo_server.Tests.Wire.{body, hello, hello_bytes, hello-IsInbound, fresh-IsValid}

-- Answers every frame with its own body, and takes it.
abbrev echo : Handler
echo c f = (sends true true 2 f.body ∷ [], true)

abbrev opened : Connection
opened = adopted 7 true 0 5 true

opened-Sound : Sound opened
opened-Sound = adopted-Sound 7 true 0 5 true

abbrev after_send : Connection
after_send = send true true 1 body opened

abbrev sent_history : Reach opened after_send
sent_history = next here (sending true true 1 body opened)

at_most_one_example :
    (after_send.outside.send_ops ≤ 1)
    × (after_send.outside.flush_ops ≤ 1)
    × (after_send.outside.resume_ops ≤ 1)
at_most_one_example = at_most_one 7 true 0 5 true sent_history

wire-prefix_example :
    (rest : List ℕ) × (after_send.outside.wire ++ rest ≡ after_send.outside.queued)
wire-prefix_example = wire-prefix 7 true 0 5 true sent_history

pub room : (reserve_free min_free fresh).0 ≡ true
room = (reserve_free-Reserves min_free fresh fresh-IsValid (omega arith)).0.verdict.1 (omega arith)

after_send_open : after_send.closed ≡ false
unfolding send adopted start new_connection post_receive rearm overflows schedule enqueue
    post_send_locked issued write_header store_be32 store_be16
after_send_open = ground (arith, room)

open-delivers_example :
    (after_send.outside.wire ++ (after_send.send_staging ++ after_send.send_pending)
      ≡ after_send.outside.queued)
    × (is_nil after_send.send_pending ≡ false
        → 0 < after_send.outside.send_ops + after_send.outside.flush_ops)
open-delivers_example = open-delivers 7 true 0 5 true sent_history after_send_open

-- The first receive is refused, so the connection closes and nothing is owed.
abbrev refused : Connection
refused = adopted 7 true 0 5 false

refused-reclaimable : reclaimable refused ≡ true
unfolding reclaimable adopted start new_connection post_receive rearm close sub_pending add_pending
refused-reclaimable = ground (arith, room)

reclaimable-IsQuiet_example : IsQuiet refused
reclaimable-IsQuiet_example = reclaimable-IsQuiet 7 true 0 5 false here refused-reclaimable

-- A connection whose buffer has received one whole message and the start of another.
abbrev filled : ReceiveBuffer
filled = record { buf = hello_bytes ++ replicate 8182 0; cap = 8192; write = 10; read = 0 }

filled-IsValid : IsValid filled
filled-IsValid =
    omega (arith, length-append hello_bytes (replicate 8182 0), length-replicate {A = ℕ} 8182 0)

abbrev busy : Connection
busy = record (new_connection 7 true 0 5) { recv_buf = filled }

busy_buffer : busy.recv_buf ≡ filled
busy_buffer = refl

busy_bytes : readable busy.recv_buf ++ [] ≡ encodes (hello ∷ [])
unfolding readable encodes encode write_header store_be32 store_be16
busy_bytes = refl

-- A message that comes in two receives.
abbrev empty_buffer : ReceiveBuffer
empty_buffer = record { buf = replicate 8192 0; cap = 8192; write = 0; read = 0 }

empty-IsValid : IsValid empty_buffer
empty-IsValid = omega (arith, length-replicate {A = ℕ} 8192 0)

abbrev listening : Connection
listening = record (new_connection 7 true 0 5) { recv_buf = empty_buffer }

abbrev landed : List FrameView × Connection
landed = on_receive_done echo true 6 10 true (receive_out hello_bytes listening)

landed_open : landed.1.closed ≡ false
unfolding on_receive_done receive_landed receive_out fill drain_and_rearm drain_frames drain_loop
    after round judge offer acts act send overflows schedule enqueue post_send_locked issued
    rearm_receive sub_pending post_receive rearm touch commit_write consume readable peek_frame
    load_be32 load_be16 write_header store_be32 store_be16 reserve_free new_connection
landed_open = refl

one_chunk : Receives echo listening (hello_bytes ∷ []) (landed.0 ++ []) landed.1
one_chunk = one_more true 6 hello_bytes refl (omega arith) refl landed_open (none_more landed.1)

stream : concat (hello_bytes ∷ []) ≡ encodes (hello ∷ [])
unfolding concat encodes encode write_header store_be32 store_be16
stream = refl

Receives-Split_example : Split (hello ∷ []) [] (landed.0 ++ []) landed.1
Receives-Split_example =
    Receives-Split one_chunk (hello ∷ []) (hello-IsInbound, tt) empty-IsValid
      (unfold readable in stream)

Receives-every_example :
    (landed.0 ++ [] ≡ map view (hello ∷ [])) × (readable landed.1.recv_buf ≡ [])
Receives-every_example =
    Receives-every echo (λ c f. refl) one_chunk (hello ∷ []) (hello-IsInbound, tt) empty-IsValid
      (unfold readable in refl) stream

busy_open : (drain_frames echo busy).1.closed ≡ false
unfolding drain_frames drain_loop after round judge offer acts act send overflows schedule enqueue
    post_send_locked issued touch commit_write consume readable peek_frame load_be32 load_be16
    write_header store_be32 store_be16 new_connection
busy_open = refl

-- The worker of a receive has drained and found the connection paused; before it asks whether to
-- post the next receive, the lane resumes the connection and another worker runs `on_resume`.
abbrev stopped : Connection
stopped = record listening { recv_paused = true; pending = 1 }

stopped-Handling : Handling stopped
unfolding new_connection
stopped-Handling = record {
  buffer = empty-IsValid;
  none_out = refl;
  resume_paused = λ e. absurd (ground (arith, e));
}

stopped_drains :
    ((drain_frames echo (resumed stopped)).1.closed ≡ false)
    × ((drain_frames echo (resumed stopped)).1.recv_paused ≡ false)
unfolding resume_out resume_receive drain_frames drain_loop after round judge readable peek_frame
    load_be32 load_be16 new_connection
stopped_drains = (refl, refl)

overtaken_receives_example :
    let other = (on_resume echo true (resume_out (resume_receive true stopped))).1 in
    (rearm_receive echo true other).outside.recv_ops ≡ 2
unfolding new_connection
overtaken_receives_example =
    overtaken_receives echo (λ c f. refl) stopped stopped-Handling refl refl stopped_drains.0
      stopped_drains.1
