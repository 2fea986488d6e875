-- ===== src/Net/Connection/Receive/Rule.antt =====
-- What `act`, `close` and the taking of a frame keep, `drain_frames` keeps.
use iocp_echo_server.Base.{ℕ, zero, suc, ◌≡◌, refl, List, [], ◌∷◌, inl, inr, Bool-cases}
use iocp_echo_server.Proto.Frame.{FrameView, FrameResult, ok, incomplete, too_large, peek_frame}
use iocp_echo_server.Net.ReceiveBuffer.{readable, consume, readable_size}
use iocp_echo_server.Net.Connection.{Connection, close}
use iocp_echo_server.Net.Connection.Receive.{
  Act, Handler, act, acts, Round, ends, taken, after, offer, judge, round, drain_loop, drain_frames,
}

abbrev pub take_frame : ℕ → Connection → Connection
take_frame n c = record c { recv_buf = consume n c.recv_buf }

pub acts-keep {ℓ} :
    (P : Connection → Type ℓ)
    → ((a : Act) (c : Connection) → P c → P (act a c))
    → (todo : List Act) (c : Connection) → P c
    → P (acts todo c)
unfolding acts
acts-keep P act-keep [] c v = v
acts-keep P act-keep (a ∷ todo) c v = acts-keep P act-keep todo (act a c) (act-keep a c v)

module _ {ℓ} (handler : Handler) (P : Connection → Type ℓ)
    (close-keep : (c : Connection) → P c → P (close c))
    (act-keep : (a : Act) (c : Connection) → P c → P (act a c))
    (take-keep : (c : Connection) (todo : List Act) (view : FrameView) (n : ℕ)
      → peek_frame (readable c.recv_buf) ≡ ok view n
      → P c
      → P (acts todo c)
      → P (take_frame n (acts todo c))) where
  abbrev RoundP : Round → Type ℓ
  RoundP (ends c) = P c
  RoundP (taken view c) = P c

  judge-keep :
      (c : Connection) (r : FrameResult)
      → peek_frame (readable c.recv_buf) ≡ r
      → P c
      → RoundP (judge handler c r)
  unfolding judge offer
  judge-keep c incomplete e v = v
  judge-keep c too_large e v = close-keep c v
  judge-keep c (ok view n) e v = elim (Bool-cases (handler c view).1) [
    | inl keep ↦
        rw keep
          (take-keep c (handler c view).0 view n e v (acts-keep P act-keep (handler c view).0 c v))
    | inr refuse ↦ rw refuse (acts-keep P act-keep (handler c view).0 c v)
  ]

  after-keep :
      (rest : Connection → List FrameView × Connection)
      → ((c : Connection) → P c → P (rest c).1)
      → (r : Round) → RoundP r
      → P (after rest r).1
  unfolding after
  after-keep rest rest-keep (ends c) v = v
  after-keep rest rest-keep (taken view c) v = elim (Bool-cases c.closed) [
    | inl shut ↦ simp shut v
    | inr still_open ↦ simp still_open (rest-keep c v)
  ]

  drain_loop-keep : (fuel : ℕ) (c : Connection) → P c → P (drain_loop handler fuel c).1
  unfolding drain_loop
  drain_loop-keep zero c v = v
  drain_loop-keep (suc fuel) c v =
      after-keep (drain_loop handler fuel) (drain_loop-keep fuel) (round handler c)
        (unfold round in judge-keep c (peek_frame (readable c.recv_buf)) refl v)

  pub drain_frames-keep : (c : Connection) → P c → P (drain_frames handler c).1
  unfolding drain_frames
  drain_frames-keep c v = drain_loop-keep (suc (readable_size c.recv_buf)) c v
