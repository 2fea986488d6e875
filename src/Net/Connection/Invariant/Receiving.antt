-- ===== src/Net/Connection/Invariant/Receiving.antt =====
-- src/net/connection.cpp, the receiving half: the buffer and the outstanding receive.
use iocp_echo_server.Base.{ℕ, ◌≤◌, ◌≡◌, refl, sym, ◌∙◌, Bool, true, false, List, arith, subst}
use iocp_echo_server.Proto.Frame.{FrameView, ok, peek_frame}
use iocp_echo_server.Proto.Frame.Laws.{peek_bounds}
use iocp_echo_server.Net.ReceiveBuffer.{readable, min_free}
use iocp_echo_server.Net.ReceiveBuffer.Bounds.{IsValid, reserve_free-Reserves, length-readable}
use iocp_echo_server.Net.ReceiveBuffer.Stream.{consume-IsValid}
use iocp_echo_server.Net.Connection.{Connection, close, touch, add_pending, sub_pending}
use iocp_echo_server.Net.Connection.Send.{
  send, post_send_locked, on_flush, on_send_done, schedule, notify, enqueue, issued, recover,
  returned, continue,
}
use iocp_echo_server.Net.Connection.Receive.{
  Act, sends, closes, pauses, Handler, act, acts, rearm, pause_receive, post_receive, drain_frames,
  rearm_receive, drain_and_rearm,
}
use iocp_echo_server.Net.Connection.Receive.Rule.{drain_frames-keep, take_frame, acts-keep}
use iocp_echo_server.Net.Connection.Port.{flush_out, send_out}

pub record Receiving (c : Connection) : Type 0 where
  pub buffer : IsValid c.recv_buf
  pub gate : c.recv_paused ≡ true → c.outside.recv_ops ≡ 0
  pub one_receive : c.outside.recv_ops ≤ 1
  pub resume_paused : c.resume_queued ≡ true → c.recv_paused ≡ true

-- While a completion is handled, no receive is outstanding.
pub record Handling (c : Connection) : Type 0 where
  pub buffer : IsValid c.recv_buf
  pub none_out : c.outside.recv_ops ≡ 0
  pub resume_paused : c.resume_queued ≡ true → c.recv_paused ≡ true

-- The sending methods do not touch the receiving side.
pub record SameReceiving (c d : Connection) : Type 0 where
  pub same_buffer : d.recv_buf ≡ c.recv_buf
  pub same_paused : d.recv_paused ≡ c.recv_paused
  pub same_queued : d.resume_queued ≡ c.resume_queued
  pub same_ops : d.outside.recv_ops ≡ c.outside.recv_ops

pub close-Same : (c : Connection) → SameReceiving c (close c)
unfolding close
close-Same c = ground arith

pub send-Same :
    (posted accepted : Bool) (i : ℕ) (body : List ℕ) (c : Connection)
    → SameReceiving c (send posted accepted i body c)
unfolding send schedule notify enqueue post_send_locked issued close
send-Same posted accepted i body c = ground arith

pub on_flush-Same :
    (accepted : Bool) (c : Connection) → SameReceiving c (on_flush accepted (flush_out c))
unfolding on_flush flush_out post_send_locked issued close sub_pending
on_flush-Same accepted c = ground arith

pub on_send_done-Same :
    (accepted : Bool) (now n : ℕ) (success : Bool) (c : Connection)
    → SameReceiving c (on_send_done accepted now n success (send_out n success c))
unfolding on_send_done returned continue recover touch send_out post_send_locked issued close
    sub_pending
on_send_done-Same accepted now n success c = ground arith

pub Same-Receiving : {c d : Connection} → SameReceiving c d → Receiving c → Receiving d
Same-Receiving {c} {d} s v = record {
  buffer = subst IsValid (sym s.same_buffer) v.buffer;
  gate = ground arith;
  one_receive = ground arith;
  resume_paused = ground arith;
}

Same-Handling : {c d : Connection} → SameReceiving c d → Handling c → Handling d
Same-Handling s v = record {
  buffer = subst IsValid (sym s.same_buffer) v.buffer;
  none_out = ground arith;
  resume_paused = ground arith;
}

pub act-Handling : (a : Act) (c : Connection) → Handling c → Handling (act a c)
unfolding act pause_receive
act-Handling (sends posted accepted i body) c v =
    Same-Handling (send-Same posted accepted i body c) v
act-Handling closes c v = Same-Handling (close-Same c) v
act-Handling pauses c v = ground arith

pub act_buffer : (a : Act) (c : Connection) → (act a c).recv_buf ≡ c.recv_buf
unfolding act pause_receive
act_buffer (sends posted accepted i body) c = (send-Same posted accepted i body c).same_buffer
act_buffer closes c = (close-Same c).same_buffer
act_buffer pauses c = refl

pub acts_buffer : (todo : List Act) (c : Connection) → (acts todo c).recv_buf ≡ c.recv_buf
acts_buffer todo c =
    acts-keep (λ d. d.recv_buf ≡ c.recv_buf) (λ a d e. act_buffer a d ∙ e) todo c refl

take-Handling :
    (c : Connection) (todo : List Act) (view : FrameView) (n : ℕ)
    → peek_frame (readable c.recv_buf) ≡ ok view n
    → Handling c
    → Handling (acts todo c)
    → Handling (take_frame n (acts todo c))
take-Handling c todo view n e before v = record {
  buffer = consume-IsValid n (acts todo c).recv_buf v.buffer (
      rw (acts_buffer todo c) (
        omega (
          arith,
          (peek_bounds (readable c.recv_buf) view n e).1,
          length-readable c.recv_buf before.buffer,
        )));
  none_out = v.none_out;
  resume_paused = v.resume_paused;
}

pub post_receive-Receiving :
    (accepted : Bool) (c : Connection)
    → Handling c
    → c.recv_paused ≡ false
    → Receiving (post_receive accepted c).1
unfolding post_receive rearm sub_pending add_pending close
post_receive-Receiving accepted c v free =
    ground (arith, (reserve_free-Reserves min_free c.recv_buf v.buffer (omega arith)).0.valid)

rearm_receive-Receiving :
    (handler : Handler) (accepted : Bool) (c : Connection)
    → Handling c
    → Receiving (rearm_receive handler accepted c)
unfolding rearm_receive sub_pending
rearm_receive-Receiving handler accepted c v = ground (arith, post_receive-Receiving accepted c v)

pub drain_frames-Handling :
    (handler : Handler) (c : Connection) → Handling c → Handling (drain_frames handler c).1
drain_frames-Handling handler c v =
    drain_frames-keep handler Handling (λ d w. Same-Handling (close-Same d) w) act-Handling
      take-Handling c v

pub drain_and_rearm-Receiving :
    (handler : Handler) (accepted : Bool) (c : Connection)
    → Handling c
    → Receiving (drain_and_rearm handler accepted c).1
unfolding drain_and_rearm
drain_and_rearm-Receiving handler accepted c v =
    rearm_receive-Receiving handler accepted (drain_frames handler c).1
      (drain_frames-Handling handler c v)
