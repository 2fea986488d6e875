-- ===== src/Net/Connection/Invariant/Flow.antt =====
-- src/net/connection.cpp, the sending half: bytes accepted, waiting and sent.
use iocp_echo_server.Base.{
  ℕ, ◌+◌, ◌-◌, ◌≤◌, ◌≡◌, refl, ◌⊎◌, inl, inr, Bool, true, false, List, [], ◌++◌, arith, length,
  take, drop, is_nil, append_assoc, append-nil, take-append-drop, take_all, take-none, Bool-cases,
}
use iocp_echo_server.Net.Connection.{Connection, close, touch, sub_pending}
use iocp_echo_server.Net.Connection.Port.{flush_out, send_out}
use iocp_echo_server.Net.Connection.Send.{
  send, post_send_locked, on_flush, on_send_done, requeue_unsent, schedule, notify, enqueue, issued,
  frame_bytes, recover, returned, continue,
}

-- All that was queued is on the wire, in the kernel's buffer, or waiting, in this order; or a send
-- has failed, and then the connection is closed and nothing more is sent.
abbrev pub Exact : Connection → Type 0
Exact c = c.outside.wire ++ (c.send_staging ++ c.send_pending) ≡ c.outside.queued

abbrev pub Cut : Connection → Type 0
Cut c =
    (c.closed ≡ true)
    × (c.sending ≡ false)
    × ((rest : List ℕ) × (c.outside.wire ++ rest ≡ c.outside.queued))

pub record Flow (c : Connection) : Type 0 where
  pub ordered : Exact c ⊎ Cut c
  pub idle : c.closed ≡ false → c.sending ≡ false → c.send_staging ≡ []
  pub driven :
      c.closed ≡ false
      → is_nil c.send_pending ≡ false
      → (c.sending ≡ true) ⊎ (c.flush_queued ≡ true)

-- The same without `driven`, inside a method.
record Lined (c : Connection) : Type 0 where
  ordered : Exact c ⊎ Cut c
  idle : c.closed ≡ false → c.sending ≡ false → c.send_staging ≡ []

pub close-Flow : (c : Connection) → Flow c → Flow (close c)
unfolding close
close-Flow c v = ground arith

post_send_locked-Flow :
    (accepted : Bool) (c : Connection) → Lined c → Flow (post_send_locked accepted c)
unfolding post_send_locked issued close
post_send_locked-Flow accepted c v = ground (arith, append-nil c.send_pending)

enqueue-Lined :
    (i : ℕ) (body : List ℕ) (c : Connection) → c.closed ≡ false → Flow c → Lined (enqueue i body c)
unfolding enqueue
enqueue-Lined i body c still_open v = ground (
  arith,
  append_assoc c.outside.wire (c.send_staging ++ c.send_pending) (frame_bytes i body),
  append_assoc c.send_staging c.send_pending (frame_bytes i body),
)

schedule-Flow :
    (posted accepted : Bool) (c : Connection) → Lined c → Flow (schedule posted accepted c)
unfolding schedule notify
schedule-Flow posted accepted c v = ground (
  arith,
  post_send_locked-Flow accepted c v,
  post_send_locked-Flow accepted
      (record c {
        flush_queued = false;
        pending = c.pending + 1 - 1;
        outside = record (c.outside) { flush_posts = c.outside.flush_posts + 1 };
      })
      (ground arith),
)

pub send-Flow :
    (posted accepted : Bool) (i : ℕ) (body : List ℕ) (c : Connection)
    → Flow c
    → Flow (send posted accepted i body c)
unfolding send
send-Flow posted accepted i body c v =
    let over = record c {
      outside = record (c.outside) { send_overflow = c.outside.send_overflow + 1 };
    } in
    ground (
      arith,
      close-Flow c v,
      close-Flow over (ground arith),
      enqueue-Lined i body c,
      schedule-Flow posted accepted (enqueue i body c),
    )

-- After a send that did not fail, what is left stands in line for the next one.
returned-Lined :
    (n : ℕ) (success : Bool) (c : Connection)
    → Flow c
    → c.sending ≡ true
    → n ≤ length c.send_staging
    → (returned n success (send_out n success c)).0 ≡ false
    → Lined (returned n success (send_out n success c)).1
unfolding returned recover send_out requeue_unsent
returned-Lined n success c v busy fits good = ground (
  arith,
  append_assoc c.outside.wire (take n c.send_staging) (drop n c.send_staging ++ c.send_pending),
  append_assoc (take n c.send_staging) (drop n c.send_staging) c.send_pending,
  take-append-drop n c.send_staging,
  take_all n c.send_staging,
  append_assoc c.outside.wire c.send_staging c.send_pending,
)

-- After a send that failed, what was sent is a beginning of what was queued.
returned_cut :
    (n : ℕ) (success : Bool) (c : Connection)
    → Flow c
    → c.sending ≡ true
    → (returned n success (send_out n success c)).0 ≡ true
    → (returned n success (send_out n success c)).1.outside.wire
        ++ (c.send_staging ++ c.send_pending)
      ≡ (returned n success (send_out n success c)).1.outside.queued
unfolding returned recover send_out
returned_cut n success c v busy bad =
    ground (arith, append-nil c.outside.wire, take-none n c.send_staging)

returned_idle : (n : ℕ) (success : Bool) (c : Connection) → (returned n success c).1.sending ≡ false
unfolding returned
returned_idle n success c = refl

failed-Flow :
    (accepted : Bool) (now : ℕ) (c : Connection) (rest : List ℕ)
    → c.sending ≡ false
    → c.outside.wire ++ rest ≡ c.outside.queued
    → Flow (continue accepted now true c)
unfolding continue close
failed-Flow accepted now c rest idle e = record {
  ordered = inr (ground arith, ground arith, (rest, ground arith));
  idle = ground arith;
  driven = ground arith;
}

continue-Flow :
    (accepted : Bool) (now : ℕ) (c : Connection)
    → Lined c
    → c.sending ≡ false
    → Flow (continue accepted now false c)
unfolding continue touch
continue-Flow accepted now c v idle =
    ground
      (arith, post_send_locked-Flow accepted (record c { last_active_ms = now }) (ground arith))

sub_pending-Flow : (c : Connection) → Flow c → Flow (sub_pending c)
unfolding sub_pending
sub_pending-Flow c v = ground arith

pub on_send_done-Flow :
    (accepted : Bool) (now n : ℕ) (success : Bool) (c : Connection)
    → Flow c
    → c.sending ≡ true
    → n ≤ length c.send_staging
    → Flow (on_send_done accepted now n success (send_out n success c))
unfolding on_send_done
on_send_done-Flow accepted now n success c v busy fits =
    let r = returned n success (send_out n success c) in
    sub_pending-Flow (continue accepted now r.0 r.1) (elim (Bool-cases r.0) [
      | inl bad ↦ simp bad (
          failed-Flow accepted now r.1 (c.send_staging ++ c.send_pending)
            (returned_idle n success (send_out n success c)) (returned_cut n success c v busy bad))
      | inr good ↦ simp good (
          continue-Flow accepted now r.1 (returned-Lined n success c v busy fits good)
            (returned_idle n success (send_out n success c)))
    ])

pub on_flush-Flow :
    (accepted : Bool) (c : Connection) → Flow c → Flow (on_flush accepted (flush_out c))
unfolding on_flush flush_out
on_flush-Flow accepted c v = sub_pending-Flow _ (post_send_locked-Flow accepted _ (ground arith))
