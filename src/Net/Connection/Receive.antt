-- ===== src/Net/Connection/Receive.antt =====
-- src/net/connection.cpp, the receiving half. The message handler is code of the services: a
-- function from the connection and the frame to what it has the connection do, and whether it takes
-- the frame. `drain_frames` also returns the frames that were taken, in order. `accepted` says
-- whether WSARecv was accepted.
pub mod Rule
use iocp_echo_server.Base.{
  ℕ, zero, suc, ◌+◌, Bool, true, false, not, List, [], ◌∷◌, ◌&&◌, ◌||◌, if◌then◌else◌, ◌==◌,
}
use iocp_echo_server.Proto.Frame.{FrameView, FrameResult, ok, incomplete, too_large, peek_frame}
use iocp_echo_server.Net.ReceiveBuffer.{
  min_free, reserve_free, commit_write, consume, readable, readable_size,
}
use iocp_echo_server.Net.Connection.{Connection, close, touch, add_pending, sub_pending}
use iocp_echo_server.Net.Connection.Send.{send}

-- What a handler may have its connection do. The flags of `sends` answer for that call.
pub data Act : Type 0 where
  sends : Bool → Bool → ℕ → List ℕ → Act
  closes : Act
  pauses : Act

abbrev pub Handler : Type 0
Handler = Connection → FrameView → List Act × Bool

unfoldable pub pause_receive : Connection → Connection
pause_receive c = record c { recv_paused = true }

unfoldable pub act : Act → Connection → Connection
act (sends posted accepted msg_id body) c = send posted accepted msg_id body c
act closes c = close c
act pauses c = pause_receive c

unfoldable pub acts : List Act → Connection → Connection
acts [] c = c
acts (a ∷ rest) c = acts rest (act a c)

unfoldable pub resume_receive : Bool → Connection → Connection
resume_receive posted c =
    if not c.recv_paused
    then c
    else if c.resume_queued
    then c
    else if posted
    then record c {
      resume_queued = true;
      pending = c.pending + 1;
      outside = record (c.outside) { resume_ops = c.outside.resume_ops + 1 };
    }
    else sub_pending (add_pending (record c { resume_queued = false }))

-- The call of WSARecv in `post_receive`.
unfoldable pub rearm : Bool → Connection → Bool × Connection
rearm accepted c =
    if accepted
    then (
      true,
      record c {
        pending = c.pending + 1;
        outside = record (c.outside) { recv_ops = c.outside.recv_ops + 1 };
      },
    )
    else (false, close (sub_pending (add_pending c)))

unfoldable pub post_receive : Bool → Connection → Bool × Connection
post_receive accepted c =
    if c.closed
    then (false, c)
    else let (room, buf) = reserve_free min_free c.recv_buf in
      let c' = record c { recv_buf = buf } in if room then rearm accepted c' else (false, close c')

unfoldable pub start : Bool → Connection → Bool × Connection
start accepted c = post_receive accepted c

-- One round of the loop: the loop ends, or one frame was taken.
pub data Round : Type 0 where
  ends : Connection → Round
  taken : FrameView → Connection → Round

-- What follows a round: nothing once the loop has ended or the connection is closed.
unfoldable pub after :
    (Connection → List FrameView × Connection) → Round → List FrameView × Connection
after rest (ends c) = ([], c)
after rest (taken view c) =
    let more = rest c in if c.closed then (view ∷ [], c) else (view ∷ more.0, more.1)

-- A receive that failed or brought nothing: the peer is gone.
unfoldable pub receive_failed : Connection → Connection
receive_failed c = sub_pending (close c)

unfoldable pub receive_landed : ℕ → ℕ → Connection → Connection
receive_landed now transferred c =
    let c' = touch now c in record c' { recv_buf = commit_write transferred c'.recv_buf }

module _ (handler : Handler) where
  -- A complete frame goes to the handler, and is consumed if that takes it.
  unfoldable pub offer : Connection → FrameView → ℕ → Round
  offer c view consumed =
      let (todo, keep) = handler c view in
      let c' = acts todo c in
      if keep then taken view (record c' { recv_buf = consume consumed c'.recv_buf }) else ends c'

  unfoldable pub judge : Connection → FrameResult → Round
  judge c incomplete = ends c
  judge c too_large = ends (close c)
  judge c (ok view consumed) = offer c view consumed

  unfoldable pub round : Connection → Round
  round c = judge c (peek_frame (readable c.recv_buf))

  unfoldable pub drain_loop : ℕ → Connection → List FrameView × Connection
  drain_loop zero c = ([], c)
  drain_loop (suc fuel) c = after (drain_loop fuel) (round c)

  -- A round takes a frame, so one round a byte and one more are enough.
  unfoldable pub drain_frames : Connection → List FrameView × Connection
  drain_frames c = drain_loop (suc (readable_size c.recv_buf)) c

  -- The end of both completions: the next receive, unless closed or paused, and the count.
  unfoldable pub rearm_receive : Bool → Connection → Connection
  rearm_receive accepted c =
      sub_pending (if not c.closed && not c.recv_paused then (post_receive accepted c).1 else c)

  -- The part that both completions share.
  unfoldable pub drain_and_rearm : Bool → Connection → List FrameView × Connection
  drain_and_rearm accepted c =
      let (views, c') = drain_frames c in (views, rearm_receive accepted c')

  unfoldable pub on_receive_done : Bool → ℕ → ℕ → Bool → Connection → List FrameView × Connection
  on_receive_done accepted now transferred success c =
      if not success || (transferred == 0)
      then ([], receive_failed c)
      else drain_and_rearm accepted (receive_landed now transferred c)

  unfoldable pub on_resume : Bool → Connection → List FrameView × Connection
  on_resume accepted c =
      drain_and_rearm accepted (record c { recv_paused = false; resume_queued = false })
