-- ===== src/Net/Connection/Stream.antt =====
-- src/net/connection.cpp: frames out of a stream of bytes.
use iocp_echo_server.Base.{
  ℕ, zero, suc, ◌≤◌, ◌≡◌, refl, sym, ap, ◌∙◌, inl, inr, List, [], ◌∷◌, ◌++◌, map, arith, length,
  drop, All, Bool-cases, drop-append_left, drop-append_exact, subst,
}
use iocp_echo_server.Proto.Frame.{FrameView, FrameResult, ok, incomplete, too_large, peek_frame}
use iocp_echo_server.Proto.Frame.Laws.{
  Message, encode, view, IsInbound, peek-encode, peek-append, peek_bounds,
}
use iocp_echo_server.Net.ReceiveBuffer.{readable, readable_size, consume}
use iocp_echo_server.Net.ReceiveBuffer.Bounds.{IsValid, length-readable}
use iocp_echo_server.Net.ReceiveBuffer.Stream.{readable-consume, consume-IsValid}
use iocp_echo_server.Net.Connection.{Connection, close}
use iocp_echo_server.Net.Connection.Receive.{
  Handler, acts, taken, round, offer, judge, after, drain_loop, drain_frames,
}
use iocp_echo_server.Net.Connection.Receive.Rule.{take_frame}
use iocp_echo_server.Net.Connection.Invariant.Receiving.{acts_buffer, close-Same}

-- The bytes of a sequence of messages.
unfoldable pub encodes : List Message → List ℕ
encodes [] = []
encodes (m ∷ ms) = encode m ++ encodes ms

-- The messages of a stream, of which `views` have been handed over and the rest has not been read.
pub record Split (ms : List Message) (future : List ℕ) (views : List FrameView) (c : Connection)
    : Type 0 where
  pub done : List Message
  pub rest : List Message
  pub all : ms ≡ done ++ rest
  pub handed : views ≡ map view done
  pub left : readable c.recv_buf ++ future ≡ encodes rest
  pub valid : IsValid c.recv_buf

nothing_handed :
    (ms : List Message) (future : List ℕ) (c d : Connection)
    → d.recv_buf ≡ c.recv_buf
    → IsValid c.recv_buf
    → readable c.recv_buf ++ future ≡ encodes ms
    → Split ms future [] d
nothing_handed ms future c d same v e = record {
  done = [];
  rest = ms;
  all = refl;
  handed = refl;
  left = ap (λ b. readable b ++ future) same ∙ e;
  valid = subst IsValid (sym same) v;
}

one_handed :
    (m : Message) (ms : List Message) (future : List ℕ) (views : List FrameView) (c : Connection)
    → Split ms future views c
    → Split (m ∷ ms) future (view m ∷ views) c
one_handed m ms future views c s = record {
  done = m ∷ s.done;
  rest = s.rest;
  all = ap (◌∷◌ m) s.all;
  handed = ap (◌∷◌ (view m)) s.handed;
  left = s.left;
  valid = s.valid;
}

-- A frame found in the buffer is the first message of the stream.
record First (future : List ℕ) (ms : List Message) (f : FrameView) (n : ℕ) : Type 0 where
  m : Message
  more : List Message
  split : ms ≡ m ∷ more
  same_view : f ≡ view m
  same_size : n ≡ length (encode m)
  more_inbound : All IsInbound more

begins_stream :
    (future : List ℕ) (ms : List Message) (bytes : List ℕ) (f : FrameView) (n : ℕ)
    → All IsInbound ms
    → peek_frame bytes ≡ ok f n
    → bytes ++ future ≡ encodes ms
    → First future ms f n
begins_stream future [] bytes f n inbound found e = absurd (none_in_nothing (sym whole))
  where
    whole : peek_frame [] ≡ ok f n
    whole = unfold encodes in sym (ap peek_frame e) ∙ (peek-append bytes future (λ q. cc) ∙ found)

    none_in_nothing : ok f n ≡ peek_frame [] → ⊥
    none_in_nothing q = unfold peek_frame in cc
begins_stream future (m ∷ more) bytes f n inbound found e = record {
  m = m;
  more = more;
  split = refl;
  same_view = cc (whole, peek-encode m (encodes more) inbound.0);
  same_size = cc (whole, peek-encode m (encodes more) inbound.0);
  more_inbound = inbound.1;
}
  where
    whole : peek_frame (encode m ++ encodes more) ≡ ok f n
    whole = unfold encodes in sym (ap peek_frame e) ∙ (peek-append bytes future (λ q. cc) ∙ found)

-- Taking that frame leaves the messages behind it.
take_left :
    (future : List ℕ) (m : Message) (more : List Message) (c d : Connection) (f : FrameView) (n : ℕ)
    → IsValid c.recv_buf
    → d.recv_buf ≡ c.recv_buf
    → peek_frame (readable c.recv_buf) ≡ ok f n
    → n ≡ length (encode m)
    → readable c.recv_buf ++ future ≡ encode m ++ encodes more
    → (readable (consume n d.recv_buf) ++ future ≡ encodes more) × IsValid (consume n d.recv_buf)
take_left future m more c d f n v same found size e = rw same (
  ap (λ xs. xs ++ future) (readable-consume n c.recv_buf v fits)
      ∙ sym (drop-append_left n (readable c.recv_buf) future bound)
      ∙ ap (drop n) e
      ∙ ap (λ k. drop k (encode m ++ encodes more)) size
      ∙ drop-append_exact (encode m) (encodes more),
  consume-IsValid n c.recv_buf v fits,
)
  where
    bound : n ≤ length (readable c.recv_buf)
    bound = (peek_bounds (readable c.recv_buf) f n found).1

    fits : n ≤ readable_size c.recv_buf
    fits = omega (arith, bound, length-readable c.recv_buf v)

-- Handing over the first message, when the rest goes as `s` says.
hands_begin :
    (future : List ℕ) (ms : List Message) (f : FrameView) (n : ℕ) (views : List FrameView)
    (d : Connection) (at : First future ms f n)
    → Split at.more future views d
    → Split ms future (f ∷ views) d
hands_begin future ms f n views d at s =
    subst (λ xs. Split xs future (f ∷ views) d) (sym at.split)
      (subst (λ g. Split (at.m ∷ at.more) future (g ∷ views) d) (sym at.same_view)
        (one_handed at.m at.more future views d s))

-- The drain loop's rest, started where this statement holds, splits the stream.
abbrev Splits : List ℕ → (Connection → List FrameView × Connection) → Type 0
Splits future rest =
    (ms : List Message) (c : Connection)
    → All IsInbound ms
    → IsValid c.recv_buf
    → readable c.recv_buf ++ future ≡ encodes ms
    → Split ms future (rest c).0 (rest c).1

module _ (handler : Handler) (future : List ℕ) (rest : Connection → List FrameView × Connection)
    (rest-Splits : Splits future rest) where
  taken-Split :
      (ms : List Message) (f : FrameView) (n : ℕ) (d : Connection) (at : First future ms f n)
      → Split at.more future [] d
      → Split at.more future (rest d).0 (rest d).1
      → Split ms future (after rest (taken f d)).0 (after rest (taken f d)).1
  unfolding after
  taken-Split ms f n d at stop more = elim (Bool-cases d.closed) [
    | inl shut ↦ simp shut (hands_begin future ms f n [] d at stop)
    | inr still_open ↦ simp still_open (hands_begin future ms f n (rest d).0 (rest d).1 at more)
  ]

  offer-Split :
      (ms : List Message) (c : Connection) (f : FrameView) (n : ℕ)
      → All IsInbound ms
      → IsValid c.recv_buf
      → readable c.recv_buf ++ future ≡ encodes ms
      → peek_frame (readable c.recv_buf) ≡ ok f n
      → Split ms future (after rest (offer handler c f n)).0 (after rest (offer handler c f n)).1
  unfolding offer after
  offer-Split ms c f n inbound v e found =
      let todo = (handler c f).0 in
      let d = acts todo c in
      let at = begins_stream future ms (readable c.recv_buf) f n inbound found e in
      let left =
        take_left future at.m at.more c d f n v (acts_buffer todo c) found at.same_size
          (unfold encodes in (e ∙ ap encodes at.split)) in
      elim (Bool-cases (handler c f).1) [
        | inr refuse ↦ simp refuse (nothing_handed ms future c d (acts_buffer todo c) v e)
        | inl keep ↦ simp keep (
            taken-Split ms f n (take_frame n d) at
              (nothing_handed at.more future (take_frame n d) (take_frame n d) refl left.1 left.0)
              (rest-Splits at.more (take_frame n d) at.more_inbound left.1 left.0))
      ]

  judge-Split :
      (ms : List Message) (c : Connection) (r : FrameResult)
      → All IsInbound ms
      → IsValid c.recv_buf
      → readable c.recv_buf ++ future ≡ encodes ms
      → peek_frame (readable c.recv_buf) ≡ r
      → Split ms future (after rest (judge handler c r)).0 (after rest (judge handler c r)).1
  unfolding judge after
  judge-Split ms c incomplete inbound v e found = nothing_handed ms future c c refl v e
  judge-Split ms c too_large inbound v e found =
      nothing_handed ms future c (close c) (close-Same c).same_buffer v e
  judge-Split ms c (ok f n) inbound v e found = offer-Split ms c f n inbound v e found

drain_loop-Splits :
    (handler : Handler) (future : List ℕ) (fuel : ℕ) → Splits future (drain_loop handler fuel)
unfolding drain_loop round
drain_loop-Splits handler future zero ms c inbound v e = nothing_handed ms future c c refl v e
drain_loop-Splits handler future (suc fuel) ms c inbound v e =
    judge-Split handler future (drain_loop handler fuel) (drain_loop-Splits handler future fuel) ms
      c (peek_frame (readable c.recv_buf)) inbound v e refl

-- One call of drain_frames on a valid buffer with a stream of acceptable messages, whatever the
-- handler does and wherever it stops: the frames handed over and taken are the stream's first
-- messages in order, and the buffer and the bytes still to come hold exactly the others.
pub drain_frames-Split :
    (handler : Handler) (ms : List Message) (future : List ℕ) (c : Connection)
    → All IsInbound ms
    → IsValid c.recv_buf
    → readable c.recv_buf ++ future ≡ encodes ms
    → Split ms future (drain_frames handler c).0 (drain_frames handler c).1
unfolding drain_frames
drain_frames-Split handler ms future c inbound v e =
    drain_loop-Splits handler future (suc (readable_size c.recv_buf)) ms c inbound v e
