-- ===== src/Net/Acceptor/Backlog.antt =====
-- src/net/acceptor.cpp: how many accepts are with the kernel.
use iocp_echo_server.Base.{
  ℕ, zero, suc, ◌+◌, ◌≡◌, ap, Bool, true, false, not, ◌&&◌, List, [], ◌∷◌, ◌++◌, Option, none, some,
  to_nat, arith,
}
use iocp_echo_server.Net.Acceptor.{
  Acceptor, Answers, is_open, close, begin_accept, post_accept, hand_over, on_accept_done, op_at,
  put_at, complete,
}

-- The operations that hold a socket.
abbrev pub armed : List (Option ℕ) → ℕ
armed [] = 0
armed (op ∷ ops) = to_nat (is_open op) + armed ops

-- The new accept of a completion could not be made or begun.
abbrev pub fails : Answers → Bool
fails answers = not (answers.creates && answers.accepts)

abbrev pub IsListening : Acceptor → Type 0
IsListening a = (a.stopping ≡ false) × (is_open a.listen_socket ≡ true)

-- Completions one after the other, and how many of them could not begin a new accept.
pub data Serves (a : Acceptor) : ℕ → Acceptor → Type 0 where
  here : Serves a 0 a
  next :
      {n : ℕ} {b : Acceptor} (i : ℕ) (ok : Bool) (answers : Answers) (t : ℕ)
      → Serves a n b
      → op_at i b.ops ≡ some t
      → Serves a (n + to_nat (fails answers)) (complete i ok answers b)

post_accept-armed :
    (answers : Answers) (a : Acceptor)
    → IsListening a
    → let (posted, op, after) = post_accept answers none a in
      (to_nat (is_open op) + to_nat (fails answers) ≡ 1) × IsListening after × (after.ops ≡ a.ops)
unfolding post_accept begin_accept close is_open
post_accept-armed answers a h = ground arith

on_accept_done-armed :
    (ok : Bool) (answers : Answers) (op : Option ℕ) (a : Acceptor)
    → IsListening a
    → let (op', after) = on_accept_done ok answers op a in
      (to_nat (is_open op') + to_nat (fails answers) ≡ 1) × IsListening after
unfolding on_accept_done close hand_over
on_accept_done-armed true answers none a h = let p = post_accept-armed answers a h in (p.0, p.1)
on_accept_done-armed true answers (some t) a h =
    let p = post_accept-armed answers (record a { handed = a.handed ++ (t ∷ []) }) h in (p.0, p.1)
on_accept_done-armed false answers none a h = let p = post_accept-armed answers a h in (p.0, p.1)
on_accept_done-armed false answers (some t) a h =
    let p = post_accept-armed answers (record a { closed = a.closed ++ (t ∷ []) }) h in (p.0, p.1)

armed-put_at :
    (i : ℕ) (op : Option ℕ) (ops : List (Option ℕ)) (t : ℕ)
    → op_at i ops ≡ some t
    → armed (put_at i op ops) + 1 ≡ armed ops + to_nat (is_open op)
unfolding is_open
armed-put_at i op [] t e = absurd (cc)
armed-put_at zero op (x ∷ ops) t e =
    let full : to_nat (is_open x) ≡ 1 = ap (λ o. to_nat (is_open o)) e in omega (arith, full)
armed-put_at (suc i) op (x ∷ ops) t e = omega (arith, armed-put_at i op ops t e)

complete-armed :
    (i : ℕ) (ok : Bool) (answers : Answers) (a : Acceptor) (t : ℕ)
    → op_at i a.ops ≡ some t
    → IsListening a
    → let after = complete i ok answers a in
      (armed after.ops + to_nat (fails answers) ≡ armed a.ops) × IsListening after
unfolding complete
complete-armed i ok answers a t e h =
    let r = on_accept_done ok answers (op_at i a.ops) a in
    let k = on_accept_done-armed ok answers (op_at i a.ops) a h in
    (omega (arith, k.0, armed-put_at i r.0 a.ops t e), k.1)

-- While the acceptor listens and is not stopped, the accepts with the kernel are after any
-- completions as many as before, less one for each completion after which a new accept could not
-- be made or begun; none of those comes back.
pub backlog_shrinks :
    {a : Acceptor} {n : ℕ} {b : Acceptor}
    → IsListening a
    → Serves a n b
    → (armed b.ops + n ≡ armed a.ops) × IsListening b
backlog_shrinks h here = (omega arith, h)
backlog_shrinks h (next {n} {b} i ok answers t r e) =
    let v = backlog_shrinks h r in
    let k = complete-armed i ok answers b t e v.1 in (omega (arith, v.0, k.0), k.1)
