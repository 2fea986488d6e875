-- ===== src/Net/Connection/Receives.antt =====
-- src/net/connection.cpp: a sequence of completed receives on an open connection.
use iocp_echo_server.Base.{
  ℕ, ◌≤◌, ◌≡◌, refl, sym, ap, ap₂, ◌∙◌, Bool, true, false, List, [], ◌∷◌, ◌++◌, arith, length, All,
  append_assoc, subst, ◌==◌,
}
use mathlib.Core.List.{map-append}
use iocp_echo_server.Proto.Frame.{FrameView}
use iocp_echo_server.Proto.Frame.Laws.{Message, view, IsInbound}
use iocp_echo_server.Net.ReceiveBuffer.{ReceiveBuffer, readable, writable_size, min_free}
use iocp_echo_server.Net.ReceiveBuffer.Bounds.{IsValid, reserve_free-Reserves}
use iocp_echo_server.Net.ReceiveBuffer.Stream.{receive, receive-IsValid, readable-receive}
use iocp_echo_server.Net.Connection.{Connection, close, touch, sub_pending, add_pending}
use iocp_echo_server.Net.Connection.Receive.{
  Handler, drain_frames, on_receive_done, rearm_receive, post_receive, rearm, drain_and_rearm,
  receive_landed,
}
use iocp_echo_server.Net.Connection.Port.{receive_out}
use iocp_echo_server.Net.Connection.Stream.{encodes, Split, drain_frames-Split}

-- Chunks received one after another, with the frames handed over, on a connection that stays open.
pub data Receives (handler : Handler)
    : Connection → List (List ℕ) → List FrameView → Connection → Type 0 where
  none_more : (c : Connection) → Receives handler c [] [] c
  one_more :
      {c d : Connection} {chunks : List (List ℕ)} {views more : List FrameView} {c' : Connection}
      (accepted : Bool) (now : ℕ) (bytes : List ℕ)
      → (length bytes == 0) ≡ false
      → length bytes ≤ writable_size c.recv_buf
      → on_receive_done handler accepted now (length bytes) true (receive_out bytes c) ≡ (views, c')
      → c'.closed ≡ false
      → Receives handler c' chunks more d
      → Receives handler c (bytes ∷ chunks) (views ++ more) d

unfoldable pub concat : List (List ℕ) → List ℕ
concat [] = []
concat (b ∷ bs) = b ++ concat bs

-- Posting the next receive keeps the bytes that wait.
pub rearm_keeps :
    (handler : Handler) (accepted : Bool) (c : Connection)
    → IsValid c.recv_buf
    → (readable (rearm_receive handler accepted c).recv_buf ≡ readable c.recv_buf)
      × IsValid (rearm_receive handler accepted c).recv_buf
      × ((rearm_receive handler accepted c).closed ≡ false → c.closed ≡ false)
unfolding rearm_receive post_receive rearm close sub_pending add_pending
rearm_keeps handler accepted c v =
    let kept = (reserve_free-Reserves min_free c.recv_buf v (omega arith)).0 in
    let same = kept.bytes in let valid = kept.valid in ground (arith, same, valid)

-- A receive that brought bytes is its bytes put behind the others, drained, and rearmed.
pub landed_lem :
    (handler : Handler) (accepted : Bool) (now : ℕ) (bytes : List ℕ) (c : Connection)
    → (length bytes == 0) ≡ false
    → on_receive_done handler accepted now (length bytes) true (receive_out bytes c)
      ≡ drain_and_rearm handler accepted (receive_landed now (length bytes) (receive_out bytes c))
unfolding on_receive_done
landed_lem handler accepted now bytes c some_bytes = simp some_bytes

pub landed_buffer :
    (now : ℕ) (bytes : List ℕ) (c : Connection)
    → (receive_landed now (length bytes) (receive_out bytes c)).recv_buf ≡ receive bytes c.recv_buf
unfolding receive_landed touch receive_out receive
landed_buffer now bytes c = refl

-- One receive on a stream of messages.
one_receive :
    (handler : Handler) (accepted : Bool) (now : ℕ) (bytes future : List ℕ) (ms : List Message)
    (c : Connection)
    → (length bytes == 0) ≡ false
    → length bytes ≤ writable_size c.recv_buf
    → All IsInbound ms
    → IsValid c.recv_buf
    → readable c.recv_buf ++ (bytes ++ future) ≡ encodes ms
    → let r = on_receive_done handler accepted now (length bytes) true (receive_out bytes c) in
      Split ms future r.0 r.1
one_receive handler accepted now bytes future ms c some_bytes fits inbound v e =
    rw (landed_lem handler accepted now bytes c some_bytes) (
      rearmed (receive_landed now (length bytes) (receive_out bytes c))
        (subst IsValid (sym (landed_buffer now bytes c)) (receive-IsValid bytes c.recv_buf v fits))
        (ap (λ b. readable b ++ future) (landed_buffer now bytes c)
          ∙ ap (λ xs. xs ++ future) (readable-receive bytes c.recv_buf v fits)
          ∙ append_assoc (readable c.recv_buf) bytes future
          ∙ e))
  where
    rearmed :
        (b : Connection)
        → IsValid b.recv_buf
        → readable b.recv_buf ++ future ≡ encodes ms
        → Split ms future
            (drain_and_rearm handler accepted b).0
            (drain_and_rearm handler accepted b).1
    rearmed b w eq =
        let s = drain_frames-Split handler ms future b inbound w eq in
        let k = rearm_keeps handler accepted (drain_frames handler b).1 s.valid in
        unfold drain_and_rearm in
        (record {
          done = s.done;
          rest = s.rest;
          all = s.all;
          handed = s.handed;
          left = ap (λ xs. xs ++ future) k.0 ∙ s.left;
          valid = k.1;
        })

pub All-right : (P : Message → Type 0) (xs ys : List Message) → All P (xs ++ ys) → All P ys
All-right P [] ys h = h
All-right P (x ∷ xs) ys h = All-right P xs ys h.1

join_splits :
    (ms : List Message) (future : List ℕ) (views more : List FrameView) (c d : Connection)
    (s : Split ms future views c)
    → Split s.rest [] more d
    → Split ms [] (views ++ more) d
join_splits ms future views more c d s t = record {
  done = s.done ++ t.done;
  rest = t.rest;
  all = s.all ∙ ap (◌++◌ s.done) t.all ∙ sym (append_assoc s.done t.done t.rest);
  handed = ap₂ ◌++◌ s.handed t.handed ∙ sym (map-append view s.done t.done);
  left = t.left;
  valid = t.valid;
}

-- However the bytes of a stream of acceptable messages are cut into receives on a valid buffer
-- and an open connection, and whatever the handler does and refuses: the frames taken are the
-- stream's first messages, each once and in order, and the buffer holds exactly the bytes of the
-- others.
pub Receives-Split :
    {handler : Handler} {c d : Connection} {chunks : List (List ℕ)} {views : List FrameView}
    → Receives handler c chunks views d
    → (ms : List Message) → All IsInbound ms
    → IsValid c.recv_buf
    → readable c.recv_buf ++ concat chunks ≡ encodes ms
    → Split ms [] views d
Receives-Split (none_more c) ms inbound v e = record {
  done = [];
  rest = ms;
  all = refl;
  handed = refl;
  left = unfold concat in e;
  valid = v;
}
Receives-Split {handler} {c} {d}
      (one_more {chunks = chunks} {views = views} {more = more} {c' = c'} accepted now bytes
        some_bytes fits r open_still rest)
      ms inbound v e =
    let s =
      subst (λ (p : List FrameView × Connection). Split ms (concat chunks) p.0 p.1) r
        (one_receive handler accepted now bytes (concat chunks) ms c some_bytes fits inbound v
          (chunk_first bytes chunks c.recv_buf ms e)) in
    join_splits ms (concat chunks) views more c' d s (
      Receives-Split rest s.rest
        (All-right IsInbound s.done s.rest (subst (All IsInbound) s.all inbound)) s.valid s.left)
  where
    chunk_first :
        (bytes : List ℕ) (chunks : List (List ℕ)) (b : ReceiveBuffer) (ms : List Message)
        → readable b ++ concat (bytes ∷ chunks) ≡ encodes ms
        → readable b ++ (bytes ++ concat chunks) ≡ encodes ms
    chunk_first bytes chunks b ms e = unfold concat in e
