-- ===== src/Net/Connection/Overtaking.antt =====
-- src/net/connection.cpp: a resume that runs before the end of the receive that paused the
-- connection. `rearm_receive` is what `on_receive_done` does once its frames are handled.
use iocp_echo_server.Base.{◌+◌, ◌≡◌, ap, ◌∙◌, true, false, arith, length}
use iocp_echo_server.Proto.Frame.{FrameView}
use iocp_echo_server.Net.ReceiveBuffer.{ReceiveBuffer, min_free, reserve_free}
use iocp_echo_server.Net.ReceiveBuffer.Bounds.{IsValid, length-readable, reserve_free-Reserves}
use iocp_echo_server.Net.Connection.{Connection, sub_pending}
use iocp_echo_server.Net.Connection.Receive.{
  Handler, drain_frames, on_resume, drain_and_rearm, rearm_receive, post_receive, rearm,
  resume_receive,
}
use iocp_echo_server.Net.Connection.Port.{resume_out}
use iocp_echo_server.Net.Connection.Invariant.Receiving.{Handling, drain_frames-Handling}
use iocp_echo_server.Net.Connection.Willing.{drain_frames_leaves_room}

-- The default request that was granted once is granted again.
reserve_again :
    (b : ReceiveBuffer)
    → IsValid b
    → (reserve_free min_free b).0 ≡ true
    → (reserve_free min_free (reserve_free min_free b).1).0 ≡ true
reserve_again b v room =
    let once = (reserve_free-Reserves min_free b v (omega arith)).0 in
    let b' = (reserve_free min_free b).1 in
    (reserve_free-Reserves min_free b' once.valid (omega arith)).0.verdict.1 (
      omega (
        arith,
        once.verdict.0 room,
        length-readable b v,
        length-readable b' once.valid,
        ap length once.bytes,
      ))

-- Two ends of a completion, one after the other, on a connection that is open and not paused.
rearm_twice :
    (handler : Handler) (d : Connection)
    → IsValid d.recv_buf
    → d.closed ≡ false
    → d.recv_paused ≡ false
    → (reserve_free min_free d.recv_buf).0 ≡ true
    → (rearm_receive handler true (rearm_receive handler true d)).outside.recv_ops
      ≡ d.outside.recv_ops + 2
unfolding rearm_receive post_receive rearm sub_pending
rearm_twice handler d v open_still running room =
    let room' = reserve_again d.recv_buf v room in ground (arith, room')

-- The connection whose frames `on_resume` handles.
abbrev pub resumed : Connection → Connection
resumed c = record (resume_out (resume_receive true c)) {
  recv_paused = false;
  resume_queued = false;
}

resumed-Handling :
    (c : Connection)
    → Handling c
    → c.recv_paused ≡ true
    → c.resume_queued ≡ false
    → Handling (resumed c)
unfolding resume_out resume_receive
resumed-Handling c v paused unqueued = ground (arith, v)

-- Where a handler takes every frame and the system accepts every call: if a connection was
-- paused while the frames of its receive were handled, and a lane resumes it and another worker
-- runs on_resume before the worker of the receive asks whether to post the next one, then, if
-- the frames that on_resume handles leave the connection open and not paused, both workers post
-- a receive and two are outstanding.
pub overtaken_receives :
    (handler : Handler) (willing : (c : Connection) (f : FrameView) → (handler c f).1 ≡ true)
    (c : Connection)
    → Handling c
    → c.recv_paused ≡ true
    → c.resume_queued ≡ false
    → (drain_frames handler (resumed c)).1.closed ≡ false
    → (drain_frames handler (resumed c)).1.recv_paused ≡ false
    → let other = (on_resume handler true (resume_out (resume_receive true c))).1 in
      (rearm_receive handler true other).outside.recv_ops ≡ 2
unfolding on_resume drain_and_rearm
overtaken_receives handler willing c v paused unqueued open_still running =
    let w = resumed-Handling c v paused unqueued in
    let d = (drain_frames handler (resumed c)).1 in
    let h = drain_frames-Handling handler (resumed c) w in
    rearm_twice handler d h.buffer open_still running
      (drain_frames_leaves_room handler willing (resumed c) w.buffer open_still)
    ∙ ap (λ n. n + 2) h.none_out
