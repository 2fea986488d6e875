-- ===== src/Net/Connection/Safety.antt =====
-- src/net/connection.cpp: a connection over a history of calls and completions.
use iocp_echo_server.Base.{
  ℕ, ◌+◌, ◌≤◌, ◌<◌, ◌≡◌, ◌⊎◌, inl, inr, Bool, true, false, List, ◌++◌, arith, is_nil, ◌&&◌, ◌==◌,
}
use iocp_echo_server.Net.Connection.{Connection}
use iocp_echo_server.Net.Connection.Port.{Reach}
use iocp_echo_server.Net.Connection.Invariant.System.{adopted, adopted-Sound, Reach-Sound}

-- `reclaimable()`
unfoldable pub reclaimable : Connection → Bool
reclaimable c = c.closed && (c.pending == 0)

-- No completion is owed.
pub record IsQuiet (c : Connection) : Type 0 where
  pub no_receive : c.outside.recv_ops ≡ 0
  pub no_send : c.outside.send_ops ≡ 0
  pub no_flush : c.outside.flush_ops ≡ 0
  pub no_resume : c.outside.resume_ops ≡ 0

module _ (id : ℕ) (direct : Bool) (limit now : ℕ) (accepted : Bool) where
  -- After any history of calls and completions of an adopted connection: when the sweep finds it
  -- reclaimable, no completion is owed to it.
  pub reclaimable-IsQuiet :
      {c : Connection}
      → Reach (adopted id direct limit now accepted) c
      → reclaimable c ≡ true
      → IsQuiet c
  unfolding reclaimable
  reclaimable-IsQuiet r e =
      let v = (Reach-Sound (adopted-Sound id direct limit now accepted) r).counts in ground arith

  -- After any history of an adopted connection at most one send, one flush notice and one resume
  -- notice are outstanding.
  pub at_most_one :
      {c : Connection}
      → Reach (adopted id direct limit now accepted) c
      → (c.outside.send_ops ≤ 1) × (c.outside.flush_ops ≤ 1) × (c.outside.resume_ops ≤ 1)
  at_most_one r =
      let v = Reach-Sound (adopted-Sound id direct limit now accepted) r in
      let counts = v.counts in let receiving = v.receiving in ground arith

  -- After any history of an adopted connection the bytes sent are a beginning of the bytes of
  -- the accepted messages, in the order of the calls of send.
  pub wire-prefix :
      {c : Connection}
      → Reach (adopted id direct limit now accepted) c
      → (rest : List ℕ) × (c.outside.wire ++ rest ≡ c.outside.queued)
  wire-prefix {c} r = from (Reach-Sound (adopted-Sound id direct limit now accepted) r).flow.ordered
    where
      from :
          ((c.outside.wire ++ (c.send_staging ++ c.send_pending) ≡ c.outside.queued)
            ⊎ ((c.closed ≡ true)
                × (c.sending ≡ false)
                × ((rest : List ℕ) × (c.outside.wire ++ rest ≡ c.outside.queued))))
          → (rest : List ℕ) × (c.outside.wire ++ rest ≡ c.outside.queued)
      from (inl e) = (c.send_staging ++ c.send_pending, e)
      from (inr (_, _, p)) = p

  -- While an adopted connection is open, the bytes sent, in the kernel's buffer and waiting are
  -- in this order exactly those accepted, and if bytes wait then a send or a flush is under way.
  pub open-delivers :
      {c : Connection}
      → Reach (adopted id direct limit now accepted) c
      → c.closed ≡ false
      → (c.outside.wire ++ (c.send_staging ++ c.send_pending) ≡ c.outside.queued)
        × (is_nil c.send_pending ≡ false → 0 < c.outside.send_ops + c.outside.flush_ops)
  open-delivers r open_still =
      let v = Reach-Sound (adopted-Sound id direct limit now accepted) r in
      let counts = v.counts in let flow = v.flow in ground arith
