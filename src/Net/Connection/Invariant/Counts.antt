-- ===== src/Net/Connection/Invariant/Counts.antt =====
-- src/net/connection.cpp: `pending_` and the completions that the port owes.
use iocp_echo_server.Base.{
  ℕ, suc, ◌+◌, ◌<◌, ◌≡◌, inl, inr, Bool, List, [], ◌∷◌, arith, length, to_nat, Bool-cases, not,
  ◌||◌, ◌==◌,
}
use iocp_echo_server.Net.Connection.{Connection, close, touch, add_pending, sub_pending}
use iocp_echo_server.Net.Connection.Send.{
  send, schedule, notify, enqueue, issued, recover, returned, continue, post_send_locked, on_flush,
  on_send_done,
}
use iocp_echo_server.Net.Connection.Receive.Rule.{drain_frames-keep, take_frame}
use iocp_echo_server.Net.Connection.Port.{
  flush_out, send_out, receive_out, resume_out, Step, sending, closing, resuming, flushed, sent,
  received, resumed,
}
use iocp_echo_server.Net.Connection.Receive.{
  Act, sends, closes, pauses, Handler, act, acts, resume_receive, rearm, pause_receive,
  post_receive, drain_frames, rearm_receive, on_receive_done, on_resume, drain_and_rearm,
  receive_landed, receive_failed,
}

-- `running` completions are being handled.
pub record Counts (running : ℕ) (c : Connection) : Type 0 where
  pub balance :
      c.pending
      ≡ c.outside.recv_ops + c.outside.send_ops + c.outside.flush_ops + c.outside.resume_ops
        + running
  pub one_send : c.outside.send_ops ≡ to_nat c.sending
  pub one_flush : c.outside.flush_ops ≡ to_nat c.flush_queued
  pub one_resume : c.outside.resume_ops ≡ to_nat c.resume_queued

module _ (k : ℕ) where
  pub close-Counts : (c : Connection) → Counts k c → Counts k (close c)
  unfolding close
  close-Counts c v = ground arith

  pub post_send_locked-Counts :
      (accepted : Bool) (c : Connection) → Counts k c → Counts k (post_send_locked accepted c)
  unfolding post_send_locked issued close
  post_send_locked-Counts accepted c v = ground arith

  pub send-Counts :
      (posted accepted : Bool) (i : ℕ) (body : List ℕ) (c : Connection)
      → Counts k c
      → Counts k (send posted accepted i body c)
  unfolding send schedule notify enqueue post_send_locked issued close
  send-Counts posted accepted i body c v = ground arith

  pub act-Counts : (a : Act) (c : Connection) → Counts k c → Counts k (act a c)
  unfolding act pause_receive
  act-Counts (sends posted accepted i body) c v = send-Counts posted accepted i body c v
  act-Counts closes c v = close-Counts c v
  act-Counts pauses c v = ground arith

  acts-Counts : (todo : List Act) (c : Connection) → Counts k c → Counts k (acts todo c)
  unfolding acts
  acts-Counts [] c v = v
  acts-Counts (a ∷ todo) c v = acts-Counts todo (act a c) (act-Counts a c v)

  pub on_flush-Counts :
      (accepted : Bool) (c : Connection)
      → Counts k c
      → 0 < c.outside.flush_ops
      → Counts k (on_flush accepted (flush_out c))
  unfolding on_flush flush_out post_send_locked issued close sub_pending
  on_flush-Counts accepted c v h = ground arith

  pub on_send_done-Counts :
      (accepted : Bool) (now n : ℕ) (success : Bool) (c : Connection)
      → Counts k c
      → 0 < c.outside.send_ops
      → Counts k (on_send_done accepted now n success (send_out n success c))
  unfolding on_send_done returned continue recover touch send_out post_send_locked issued close
      sub_pending
  on_send_done-Counts accepted now n success c v h = ground arith

  pub resume_receive-Counts :
      (posted : Bool) (c : Connection) → Counts k c → Counts k (resume_receive posted c)
  unfolding resume_receive sub_pending add_pending
  resume_receive-Counts posted c v = ground arith

  pub post_receive-Counts :
      (accepted : Bool) (c : Connection) → Counts k c → Counts k (post_receive accepted c).1
  unfolding post_receive rearm sub_pending add_pending close
  post_receive-Counts accepted c v = ground arith

-- The method that ends a receive or a resumption has one completion running less.
rearm_receive-Counts :
    (k : ℕ) (handler : Handler) (accepted : Bool) (c : Connection)
    → Counts (suc k) c
    → Counts k (rearm_receive handler accepted c)
unfolding rearm_receive sub_pending
rearm_receive-Counts k handler accepted c v =
    ground (arith, post_receive-Counts (suc k) accepted c v)

take-Counts : (k n : ℕ) (c : Connection) → Counts k c → Counts k (take_frame n c)
take-Counts k n c v = ground arith

drain_and_rearm-Counts :
    (k : ℕ) (handler : Handler) (accepted : Bool) (c : Connection)
    → Counts (suc k) c
    → Counts k (drain_and_rearm handler accepted c).1
unfolding drain_and_rearm
drain_and_rearm-Counts k handler accepted c v =
    rearm_receive-Counts k handler accepted (drain_frames handler c).1 (
      drain_frames-keep handler (Counts (suc k)) (close-Counts (suc k)) (act-Counts (suc k))
        (λ d todo view n e before w. take-Counts (suc k) n (acts todo d) w) c v)

on_receive_done-Counts :
    (k : ℕ) (handler : Handler) (accepted : Bool) (now : ℕ) (bytes : List ℕ) (success : Bool)
    (c : Connection)
    → Counts k c
    → 0 < c.outside.recv_ops
    → Counts k (on_receive_done handler accepted now (length bytes) success (receive_out bytes c)).1
unfolding on_receive_done
on_receive_done-Counts k handler accepted now bytes success c v h =
    elim (Bool-cases (not success || (length bytes == 0))) [
      | inl failed ↦
          simp failed (unfold receive_failed receive_out close sub_pending in ground arith)
      | inr landed ↦ simp landed (
          drain_and_rearm-Counts k handler accepted
            (receive_landed now (length bytes) (receive_out bytes c))
            (unfold receive_landed touch receive_out in ground arith))
    ]

on_resume-Counts :
    (k : ℕ) (handler : Handler) (accepted : Bool) (c : Connection)
    → Counts k c
    → 0 < c.outside.resume_ops
    → Counts k (on_resume handler accepted (resume_out c)).1
unfolding on_resume resume_out
on_resume-Counts k handler accepted c v h =
    drain_and_rearm-Counts k handler accepted _ (ground arith)

-- Whatever happens to a connection, `pending_` is the number of completions that the port owes it.
pub Step-Counts : {c d : Connection} → Step c d → Counts 0 c → Counts 0 d
Step-Counts (sending posted accepted i body c) v = send-Counts 0 posted accepted i body c v
Step-Counts (closing c) v = close-Counts 0 c v
Step-Counts (resuming posted c) v = resume_receive-Counts 0 posted c v
Step-Counts (flushed accepted c h) v = on_flush-Counts 0 accepted c v h
Step-Counts (sent accepted now n success c h fits) v =
    on_send_done-Counts 0 accepted now n success c v h
Step-Counts (received handler accepted now bytes success c h fits) v =
    on_receive_done-Counts 0 handler accepted now bytes success c v h
Step-Counts (resumed handler accepted c h) v = on_resume-Counts 0 handler accepted c v h
