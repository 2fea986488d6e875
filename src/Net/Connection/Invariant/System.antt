-- ===== src/Net/Connection/Invariant/System.antt =====
-- All of a connection's invariants, over every order of calls and completions.
use iocp_echo_server.Base.{
  ℕ, ◌≤◌, ◌<◌, ◌≡◌, refl, inl, inr, Bool, true, List, arith, length, Bool-cases, ◌==◌, not, ◌||◌,
}
use iocp_echo_server.Net.ReceiveBuffer.{min_free, reserve_free}
use iocp_echo_server.Net.ReceiveBuffer
use iocp_echo_server.Net.ReceiveBuffer.Stream.{receive, receive-IsValid, fill-IsValid}
use iocp_echo_server.Net.Connection.{
  Connection, new_connection, close, touch, add_pending, sub_pending,
}
use iocp_echo_server.Net.Connection.Receive.{
  Act, sends, closes, pauses, Handler, act, acts, resume_receive, rearm, pause_receive,
  post_receive, drain_frames, rearm_receive, on_receive_done, on_resume, drain_and_rearm,
  receive_landed, receive_failed, start,
}
use iocp_echo_server.Net.Connection.Receive.Rule.{drain_frames-keep, take_frame}
use iocp_echo_server.Net.Connection.Port.{
  receive_out, resume_out, Step, Reach, here, next, sending, closing, resuming, flushed, sent,
  received, resumed,
}
use iocp_echo_server.Net.Connection.Invariant.Counts.{Counts, Step-Counts, post_receive-Counts}
use iocp_echo_server.Net.Connection.Invariant.Flow.{
  Flow, close-Flow, send-Flow, on_flush-Flow, on_send_done-Flow,
}
use iocp_echo_server.Net.Connection.Invariant.Receiving.{
  Receiving, Same-Receiving, close-Same, send-Same, on_flush-Same, on_send_done-Same,
  drain_and_rearm-Receiving, post_receive-Receiving,
}

pub act-Flow : (a : Act) (c : Connection) → Flow c → Flow (act a c)
unfolding act pause_receive
act-Flow (sends posted accepted i body) c v = send-Flow posted accepted i body c v
act-Flow closes c v = close-Flow c v
act-Flow pauses c v = ground arith

take-Flow : (n : ℕ) (c : Connection) → Flow c → Flow (take_frame n c)
take-Flow n c v = ground arith

pub post_receive-Flow :
    (accepted : Bool) (c : Connection) → Flow c → Flow (post_receive accepted c).1
unfolding post_receive rearm sub_pending add_pending close
post_receive-Flow accepted c v = ground arith

rearm_receive-Flow :
    (handler : Handler) (accepted : Bool) (c : Connection)
    → Flow c
    → Flow (rearm_receive handler accepted c)
unfolding rearm_receive sub_pending
rearm_receive-Flow handler accepted c v = ground (arith, post_receive-Flow accepted c v)

drain_and_rearm-Flow :
    (handler : Handler) (accepted : Bool) (c : Connection)
    → Flow c
    → Flow (drain_and_rearm handler accepted c).1
unfolding drain_and_rearm
drain_and_rearm-Flow handler accepted c v =
    rearm_receive-Flow handler accepted (drain_frames handler c).1 (
      drain_frames-keep handler Flow close-Flow act-Flow
        (λ d todo view n e before w. take-Flow n (acts todo d) w) c v)

resume_receive-Flow : (posted : Bool) (c : Connection) → Flow c → Flow (resume_receive posted c)
unfolding resume_receive sub_pending add_pending
resume_receive-Flow posted c v = ground arith

pub record Sound (c : Connection) : Type 0 where
  pub counts : Counts 0 c
  pub receiving : Receiving c
  pub flow : Flow c

received-Receiving :
    (handler : Handler) (accepted : Bool) (now : ℕ) (bytes : List ℕ) (success : Bool)
    (c : Connection)
    → Receiving c
    → 0 < c.outside.recv_ops
    → length bytes ≤ ReceiveBuffer.writable_size c.recv_buf
    → Receiving
        (on_receive_done handler accepted now (length bytes) success (receive_out bytes c)).1
unfolding on_receive_done
received-Receiving handler accepted now bytes success c v h fits =
    elim (Bool-cases (not success || (length bytes == 0))) [
      | inl failed ↦ simp failed (
          unfold receive_failed receive_out close sub_pending in
          ground (arith, fill-IsValid bytes c.recv_buf v.buffer fits))
      | inr landed ↦ simp landed (
          drain_and_rearm-Receiving handler accepted
            (receive_landed now (length bytes) (receive_out bytes c))
            (unfold receive_landed touch receive_out in
              (record {
                buffer = unfold receive in receive-IsValid bytes c.recv_buf v.buffer fits;
                none_out = omega (arith, v.one_receive);
                resume_paused = v.resume_paused;
              })))
    ]

received-Flow :
    (handler : Handler) (accepted : Bool) (now n : ℕ) (success : Bool) (bytes : List ℕ)
    (c : Connection)
    → Flow c
    → Flow (on_receive_done handler accepted now n success (receive_out bytes c)).1
unfolding on_receive_done
received-Flow handler accepted now n success bytes c v =
    elim (Bool-cases (not success || (n == 0))) [
      | inl failed ↦
          simp failed (unfold receive_failed receive_out close sub_pending in ground arith)
      | inr landed ↦ simp landed (
          drain_and_rearm-Flow handler accepted (receive_landed now n (receive_out bytes c))
            (unfold receive_landed touch receive_out in ground arith))
    ]

resumed-Receiving :
    (handler : Handler) (accepted : Bool) (c : Connection)
    → Sound c
    → 0 < c.outside.resume_ops
    → Receiving (on_resume handler accepted (resume_out c)).1
unfolding on_resume resume_out
resumed-Receiving handler accepted c v h =
    drain_and_rearm-Receiving handler accepted _
      (record { buffer = v.receiving.buffer; none_out = ground arith; resume_paused = λ e. cc })

resumed-Flow :
    (handler : Handler) (accepted : Bool) (c : Connection)
    → Flow c
    → Flow (on_resume handler accepted (resume_out c)).1
unfolding on_resume resume_out
resumed-Flow handler accepted c v = drain_and_rearm-Flow handler accepted _ (ground arith)

resume_receive-Receiving :
    (posted : Bool) (c : Connection) → Receiving c → Receiving (resume_receive posted c)
unfolding resume_receive sub_pending add_pending
resume_receive-Receiving posted c v = ground arith

Step-Receiving : {c d : Connection} → Step c d → Sound c → Receiving d
Step-Receiving (sending posted accepted i body c) v =
    Same-Receiving (send-Same posted accepted i body c) v.receiving
Step-Receiving (closing c) v = Same-Receiving (close-Same c) v.receiving
Step-Receiving (resuming posted c) v = resume_receive-Receiving posted c v.receiving
Step-Receiving (flushed accepted c h) v = Same-Receiving (on_flush-Same accepted c) v.receiving
Step-Receiving (sent accepted now n success c h fits) v =
    Same-Receiving (on_send_done-Same accepted now n success c) v.receiving
Step-Receiving (received handler accepted now bytes success c h fits) v =
    received-Receiving handler accepted now bytes success c v.receiving h fits
Step-Receiving (resumed handler accepted c h) v = resumed-Receiving handler accepted c v h

Step-Flow : {c d : Connection} → Step c d → Sound c → Flow d
Step-Flow (sending posted accepted i body c) v = send-Flow posted accepted i body c v.flow
Step-Flow (closing c) v = close-Flow c v.flow
Step-Flow (resuming posted c) v = resume_receive-Flow posted c v.flow
Step-Flow (flushed accepted c h) v = on_flush-Flow accepted c v.flow
Step-Flow (sent accepted now n success c h fits) v =
    on_send_done-Flow accepted now n success c v.flow (busy c v.counts h) fits
  where
    busy : (c : Connection) → Counts 0 c → 0 < c.outside.send_ops → c.sending ≡ true
    busy c v h = ground arith
Step-Flow (received handler accepted now bytes success c h fits) v =
    received-Flow handler accepted now (length bytes) success bytes c v.flow
Step-Flow (resumed handler accepted c h) v = resumed-Flow handler accepted c v.flow

-- Every call and every completion, in any order, keeps all of a connection's invariants.
pub Step-Sound : {c d : Connection} → Step c d → Sound c → Sound d
Step-Sound s v = record {
  counts = Step-Counts s v.counts;
  receiving = Step-Receiving s v;
  flow = Step-Flow s v;
}

-- A connection as `adopt` makes it: constructed, and the first receive posted.
unfoldable pub adopted : ℕ → Bool → ℕ → ℕ → Bool → Connection
adopted id direct limit now accepted = (start accepted (new_connection id direct limit now)).1

pub fresh-Sound :
    (id : ℕ) (direct : Bool) (limit now : ℕ) → Sound (new_connection id direct limit now)
unfolding new_connection
fresh-Sound id direct limit now = record {
  counts = ground arith;
  receiving = ground arith;
  flow = ground arith;
}

pub adopted-Sound :
    (id : ℕ) (direct : Bool) (limit now : ℕ) (accepted : Bool)
    → Sound (adopted id direct limit now accepted)
unfolding adopted start
adopted-Sound id direct limit now accepted =
    let c = new_connection id direct limit now in
    let v = fresh-Sound id direct limit now in
    record {
      counts = post_receive-Counts 0 accepted c v.counts;
      receiving =
          post_receive-Receiving accepted c
            (record {
              buffer = v.receiving.buffer;
              none_out = unfold new_connection in refl;
              resume_paused = v.receiving.resume_paused;
            })
            (unfold new_connection in refl);
      flow = post_receive-Flow accepted c v.flow;
    }

pub Reach-Sound : {c d : Connection} → Sound c → Reach c d → Sound d
Reach-Sound v here = v
Reach-Sound v (next r s) = Step-Sound s (Reach-Sound v r)
