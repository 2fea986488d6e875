-- ===== src/Net/Connection/Willing.antt =====
-- src/net/connection.cpp: the receiving half with a handler that takes every frame.
use iocp_echo_server.Base.{
  ℕ, ◌≤◌, ◌≡◌, refl, sym, ap, ◌∙◌, inl, inr, Bool, true, false, List, [], ◌∷◌, ◌++◌, map, arith,
  length, All, append-nil, subst, ◌==◌,
}
use iocp_echo_server.Proto.Frame.{FrameView, incomplete, peek_frame}
use iocp_echo_server.Proto.Frame.Laws.{Message, view, IsInbound, peek-encode, peek_incomplete}
use iocp_echo_server.Net.ReceiveBuffer.{
  ReceiveBuffer, readable, writable_size, min_free, reserve_free,
}
use iocp_echo_server.Net.ReceiveBuffer.Bounds.{IsValid, length-readable, reserve_free-Reserves}
use iocp_echo_server.Net.ReceiveBuffer.Stream.{receive-IsValid}
use iocp_echo_server.Net.Connection.{Connection}
use iocp_echo_server.Net.Connection.Receive.{
  Handler, drain_frames, on_receive_done, drain_and_rearm, receive_landed,
}
use iocp_echo_server.Net.Connection.Port.{receive_out}
use iocp_echo_server.Net.Connection.Stream.{encodes, Split}
use iocp_echo_server.Net.Connection.Drain.{drain_frames-Drained, drain_frames-IsValid}
use iocp_echo_server.Net.Connection.Receives.{
  Receives, none_more, one_more, concat, Receives-Split, rearm_keeps, landed_lem, landed_buffer,
  All-right,
}

-- A buffer with no complete frame in it can always take the default receive.
room_left :
    (b : ReceiveBuffer)
    → IsValid b
    → peek_frame (readable b) ≡ incomplete
    → (reserve_free min_free b).0 ≡ true
room_left b v e =
    (reserve_free-Reserves min_free b v (omega arith)).0.verdict.1
      (omega (arith, peek_incomplete (readable b) e, length-readable b v))

nothing_left :
    (rest : List Message) (bytes : List ℕ)
    → All IsInbound rest
    → bytes ++ [] ≡ encodes rest
    → peek_frame bytes ≡ incomplete
    → rest ≡ []
nothing_left [] bytes inbound e none = refl
nothing_left (m ∷ more) bytes inbound e none =
    absurd (clash (sym none ∙ ap peek_frame (sym (append-nil bytes) ∙ e)))
  where
    clash : incomplete ≡ peek_frame (encodes (m ∷ more)) → ⊥
    clash q = unfold encodes in cc (q, peek-encode m (encodes more) inbound.0)

module _ (handler : Handler)
    (willing : (c : Connection) (f : FrameView) → (handler c f).1 ≡ true) where
  -- Where a handler takes every frame, a connection with a valid buffer that is drained and
  -- still open never has its next receive refused for want of buffer.
  pub drain_frames_leaves_room :
      (c : Connection)
      → IsValid c.recv_buf
      → (drain_frames handler c).1.closed ≡ false
      → (reserve_free min_free (drain_frames handler c).1.recv_buf).0 ≡ true
  drain_frames_leaves_room c v open_still = elim (drain_frames-Drained handler willing c v) [
    | inl shut ↦ absurd (cc)
    | inr none ↦
        room_left (drain_frames handler c).1.recv_buf (drain_frames-IsValid handler c v) none
  ]

  drained_receive :
      (accepted : Bool) (now : ℕ) (bytes : List ℕ) (c : Connection)
      → (length bytes == 0) ≡ false
      → length bytes ≤ writable_size c.recv_buf
      → IsValid c.recv_buf
      → let r = on_receive_done handler accepted now (length bytes) true (receive_out bytes c) in
        r.1.closed ≡ false
        → (peek_frame (readable r.1.recv_buf) ≡ incomplete) × IsValid r.1.recv_buf
  drained_receive accepted now bytes c some_bytes fits v =
      rw (landed_lem handler accepted now bytes c some_bytes) (
        drained (receive_landed now (length bytes) (receive_out bytes c)) (
          subst IsValid (sym (landed_buffer now bytes c))
            (receive-IsValid bytes c.recv_buf v fits)))
    where
      drained :
          (b : Connection)
          → IsValid b.recv_buf
          → (drain_and_rearm handler accepted b).1.closed ≡ false
          → (peek_frame (readable (drain_and_rearm handler accepted b).1.recv_buf) ≡ incomplete)
            × IsValid (drain_and_rearm handler accepted b).1.recv_buf
      drained b w =
          unfold drain_and_rearm in
          λ open_still.
            let k =
              rearm_keeps handler accepted (drain_frames handler b).1
                (drain_frames-IsValid handler b w) in
            let still = k.2 open_still in
            elim (drain_frames-Drained handler willing b w) [
              | inl shut ↦ absurd (cc)
              | inr none ↦ (ap peek_frame k.0 ∙ none, k.1)
            ]

  Receives-drained :
      {c d : Connection} {chunks : List (List ℕ)} {views : List FrameView}
      → Receives handler c chunks views d
      → IsValid c.recv_buf
      → peek_frame (readable c.recv_buf) ≡ incomplete
      → peek_frame (readable d.recv_buf) ≡ incomplete
  Receives-drained (none_more c) v e = e
  Receives-drained {c} (one_more accepted now bytes some_bytes fits r open_still rest) v e =
      let p =
        drained_receive accepted now bytes c some_bytes fits v
          (ap (λ (q : List FrameView × Connection). q.1.closed) r ∙ open_still) in
      Receives-drained rest
        (subst (λ (q : List FrameView × Connection). IsValid q.1.recv_buf) r p.1)
        (subst
          (λ (q : List FrameView × Connection). peek_frame (readable q.1.recv_buf) ≡ incomplete) r
          p.0)

  -- Where a handler takes every frame and the connection stays open after each receive: however
  -- the bytes of a sequence of acceptable messages are cut into non-empty receives that fit the
  -- buffer, on a valid empty buffer, the handler is given exactly those messages, each once and
  -- in order, and no byte is left over.
  pub Receives-every :
      {c d : Connection} {chunks : List (List ℕ)} {views : List FrameView}
      → Receives handler c chunks views d
      → (ms : List Message) → All IsInbound ms
      → IsValid c.recv_buf
      → readable c.recv_buf ≡ []
      → concat chunks ≡ encodes ms
      → (views ≡ map view ms) × (readable d.recv_buf ≡ [])
  Receives-every {c} {d} {chunks} {views} r ms inbound v nothing e =
      let s = Receives-Split r ms inbound v (ap (λ xs. xs ++ concat chunks) nothing ∙ e) in
      let none = Receives-drained r v (ap peek_frame nothing ∙ (unfold peek_frame in refl)) in
      let over = nothing_left s.rest (readable d.recv_buf) (rest_inbound s) s.left none in
      (
        s.handed ∙ ap (map view) (sym (s.all ∙ ap (◌++◌ s.done) over ∙ append-nil s.done)),
        sym (append-nil (readable d.recv_buf))
            ∙ s.left
            ∙ ap encodes over
            ∙ (unfold encodes in refl),
      )
    where
      rest_inbound : (s : Split ms [] views d) → All IsInbound s.rest
      rest_inbound s = All-right IsInbound s.done s.rest (subst (All IsInbound) s.all inbound)
