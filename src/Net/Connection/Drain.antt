-- ===== src/Net/Connection/Drain.antt =====
-- src/net/connection.cpp: the rounds of `drain_frames`.
use iocp_echo_server.Base.{
  ℕ, zero, suc, ◌-◌, ◌≤◌, ◌<◌, ◌≡◌, refl, sym, ap, ◌⊎◌, inl, inr, true, List, [], ◌∷◌, arith,
  Bool-cases, if◌then◌else◌, subst,
}
use iocp_echo_server.Proto.Frame.{FrameView, FrameResult, ok, incomplete, too_large, peek_frame}
use iocp_echo_server.Proto.Frame.Laws.{peek_bounds}
use iocp_echo_server.Net.ReceiveBuffer.{readable, readable_size, writable_size, consume}
use iocp_echo_server.Net.ReceiveBuffer.Bounds.{IsValid, length-readable}
use iocp_echo_server.Net.ReceiveBuffer.Stream.{consume-IsValid}
use iocp_echo_server.Net.Connection.{Connection, close}
use iocp_echo_server.Net.Connection.Receive.{
  Handler, acts, taken, round, offer, judge, after, drain_loop, drain_frames,
}
use iocp_echo_server.Net.Connection.Receive.Rule.{take_frame, drain_frames-keep}
use iocp_echo_server.Net.Connection.Invariant.Receiving.{acts_buffer, act_buffer, close-Same}

-- A frame taken makes the buffer shorter.
size-consume :
    (n : ℕ) (b : iocp_echo_server.Net.ReceiveBuffer.ReceiveBuffer)
    → readable_size (consume n b) ≡ readable_size b - n
unfolding consume
size-consume n b = omega arith

-- What taking the frame `f` of `n` bytes leaves, whatever the handler did in between.
record Shorter (c d : Connection) : Type 0 where
  valid : IsValid d.recv_buf
  less : readable_size d.recv_buf < readable_size c.recv_buf

take-Shorter :
    (handler : Handler) (c : Connection) (f : FrameView) (n : ℕ)
    → IsValid c.recv_buf
    → peek_frame (readable c.recv_buf) ≡ ok f n
    → Shorter c (take_frame n (acts (handler c f).0 c))
take-Shorter handler c f n v found =
    let bounds = peek_bounds (readable c.recv_buf) f n found in
    let fits : n ≤ readable_size c.recv_buf =
      omega (arith, bounds.1, length-readable c.recv_buf v) in
    record {
      valid = rw (acts_buffer (handler c f).0 c) (consume-IsValid n c.recv_buf v fits);
      less =
          rw (acts_buffer (handler c f).0 c, size-consume n c.recv_buf)
            (omega (arith, bounds.0, fits));
    }

module _ (handler : Handler) where
  -- Two loops that agree after a shorter buffer agree after this round.
  judge_same :
      (p q : Connection → List FrameView × Connection) (c : Connection) (r : FrameResult)
      → IsValid c.recv_buf
      → peek_frame (readable c.recv_buf) ≡ r
      → ((d : Connection) → Shorter c d → p d ≡ q d)
      → after p (judge handler c r) ≡ after q (judge handler c r)
  unfolding judge after offer
  judge_same p q c incomplete v e same = refl
  judge_same p q c too_large v e same = refl
  judge_same p q c (ok f n) v e same =
      let d = take_frame n (acts (handler c f).0 c) in
      let agree : p d ≡ q d = same d (take-Shorter handler c f n v e) in
      elim (Bool-cases (handler c f).1) [
        | inl keep ↦ simp keep (ap (λ m. if d.closed then (f ∷ [], d) else (f ∷ m.0, m.1)) agree)
        | inr refuse ↦ simp refuse
      ]

  drain_loop_fuel :
      (j k : ℕ) (c : Connection)
      → IsValid c.recv_buf
      → readable_size c.recv_buf < j
      → readable_size c.recv_buf < k
      → drain_loop handler j c ≡ drain_loop handler k c
  unfolding drain_loop round
  drain_loop_fuel zero k c v hj hk = absurd (omega arith)
  drain_loop_fuel (suc j) zero c v hj hk = absurd (omega arith)
  drain_loop_fuel (suc j) (suc k) c v hj hk =
      judge_same (drain_loop handler j) (drain_loop handler k) c (peek_frame (readable c.recv_buf))
        v refl λ d s. drain_loop_fuel j k d s.valid (omega (arith, s.less)) (omega (arith, s.less))

  -- drain_frames on a valid buffer is its loop run to its end: any number of rounds above the
  -- readable bytes gives the same result.
  pub drain_frames_fuel :
      (fuel : ℕ) (c : Connection)
      → IsValid c.recv_buf
      → readable_size c.recv_buf < fuel
      → drain_loop handler fuel c ≡ drain_frames handler c
  unfolding drain_frames
  drain_frames_fuel fuel c v h =
      drain_loop_fuel fuel (suc (readable_size c.recv_buf)) c v h (omega arith)

  abbrev pub Drained : Connection → Type 0
  Drained c = (c.closed ≡ true) ⊎ (peek_frame (readable c.recv_buf) ≡ incomplete)

  module _ (willing : (c : Connection) (f : FrameView) → (handler c f).1 ≡ true) where
    after-Drained :
        (p : Connection → List FrameView × Connection) (c : Connection) (r : FrameResult)
        → IsValid c.recv_buf
        → peek_frame (readable c.recv_buf) ≡ r
        → ((d : Connection) → Shorter c d → Drained (p d).1)
        → Drained (after p (judge handler c r)).1
    unfolding judge after offer
    after-Drained p c incomplete v e ih = inr e
    after-Drained p c too_large v e ih = inl (unfold close in ground arith)
    after-Drained p c (ok f n) v e ih = simp (willing c f) (
        taken-Drained (take_frame n (acts (handler c f).0 c))
          (ih (take_frame n (acts (handler c f).0 c)) (take-Shorter handler c f n v e)))
      where
        taken-Drained : (d : Connection) → Drained (p d).1 → Drained (after p (taken f d)).1
        taken-Drained d more = elim (Bool-cases d.closed) [
          | inl shut ↦ simp shut (inl refl)
          | inr still_open ↦ simp still_open more
        ]

    drain_loop-Drained :
        (fuel : ℕ) (c : Connection)
        → IsValid c.recv_buf
        → readable_size c.recv_buf < fuel
        → Drained (drain_loop handler fuel c).1
    unfolding drain_loop round
    drain_loop-Drained zero c v h = absurd (omega arith)
    drain_loop-Drained (suc fuel) c v h =
        after-Drained (drain_loop handler fuel) c (peek_frame (readable c.recv_buf)) v refl
          λ d s. drain_loop-Drained fuel d s.valid (omega (arith, s.less))

    -- With a handler that takes every frame, one call of drain_frames on a valid buffer leaves
    -- the connection closed, or no complete frame in the buffer.
    pub drain_frames-Drained :
        (c : Connection) → IsValid c.recv_buf → Drained (drain_frames handler c).1
    unfolding drain_frames
    drain_frames-Drained c v = drain_loop-Drained (suc (readable_size c.recv_buf)) c v (omega arith)

-- `drain_frames` keeps the buffer valid.
pub drain_frames-IsValid :
    (handler : Handler) (c : Connection)
    → IsValid c.recv_buf
    → IsValid (drain_frames handler c).1.recv_buf
drain_frames-IsValid handler =
    drain_frames-keep handler (λ c. IsValid c.recv_buf)
      (λ c v. subst IsValid (sym (close-Same c).same_buffer) v)
      (λ a c v. subst IsValid (sym (act_buffer a c)) v)
      λ c todo f n found v w.
        let bounds = peek_bounds (readable c.recv_buf) f n found in
        consume-IsValid n (acts todo c).recv_buf w
          (rw (acts_buffer todo c) (omega (arith, bounds.1, length-readable c.recv_buf v)))
