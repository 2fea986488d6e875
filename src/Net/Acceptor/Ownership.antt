-- ===== src/Net/Acceptor/Ownership.antt =====
-- src/net/acceptor.cpp: where every socket is.
use iocp_echo_server.Base.{
  ℕ, ◌+◌, ◌≡◌, refl, ap, ◌∙◌, Bool, true, ◌&&◌, ltb, List, [], ◌∷◌, ◌++◌, Option, none, some,
  to_nat, arith, Bool-cases, inl, inr, ◌<◌, lt→ltb,
}
use iocp_echo_server.Net.Acceptor.{
  Acceptor, new_acceptor, Answers, close, post_accept, stop, on_accept_done, op_at, complete,
  post_all, start,
}
use iocp_echo_server.Net.Acceptor.Calls.{
  count, one, held, close-Keeps, post_accept-Keeps, on_accept_done-Keeps, held-put_at, held-none_of,
  close_all-gone,
}

-- Every socket that was made is in one place: closed, handed over, with an operation, or listening.
abbrev pub Accounted : Acceptor → Type 0
Accounted a =
    (s : ℕ)
    → count s a.closed + count s a.handed + held s a.ops + one s a.listen_socket
      ≡ to_nat (ltb s a.next)

close-next : (op : Option ℕ) (a : Acceptor) → (close op a).next ≡ a.next
unfolding close
close-next none a = refl
close-next (some t) a = refl

stop-Accounted : (a : Acceptor) → Accounted a → Accounted (stop a)
unfolding stop close
stop-Accounted a v s =
    let shut = close a.listen_socket (record a { stopping = true }) in
    let c = close_all-gone s a.ops shut in
    let k = close-Keeps s a.listen_socket (record a { stopping = true }) in
    let same = close-next a.listen_socket (record a { stopping = true }) in
    omega (
      arith,
      v s,
      c.0,
      k.0,
      held-none_of s a.ops,
      ap (λ n. to_nat (ltb s n)) (c.1 ∙ same),
      ap (λ n. to_nat (ltb s n)) same,
    )

complete-Accounted :
    (i : ℕ) (ok : Bool) (answers : Answers) (a : Acceptor) (t : ℕ)
    → op_at i a.ops ≡ some t
    → Accounted a
    → Accounted (complete i ok answers a)
unfolding complete
complete-Accounted i ok answers a t e v s =
    let r = on_accept_done ok answers (op_at i a.ops) a in
    let k = on_accept_done-Keeps s ok answers (op_at i a.ops) a in
    omega (arith, v s, k.0, held-put_at s i r.0 a.ops t e, ap (one s) k.2, ap (held s) k.1)

held-append : (s : ℕ) (xs ys : List (Option ℕ)) → held s (xs ++ ys) ≡ held s xs + held s ys
held-append s [] ys = omega arith
held-append s (x ∷ xs) ys = omega (arith, held-append s xs ys)

post_all-Accounted :
    (more : List Answers) (a : Acceptor) → Accounted a → Accounted (post_all more a).1
unfolding post_all
post_all-Accounted [] a v = v
post_all-Accounted (answers ∷ more) a v =
    let p = post_accept answers none a in
    let added = record (p.2) { ops = p.2.ops ++ (p.1 ∷ []) } in
    let w : Accounted added = λ s.
      (let k = post_accept-Keeps s answers none a in
        omega
          (arith, v s, k.0, held-append s p.2.ops (p.1 ∷ []), ap (one s) k.2, ap (held s) k.1)) in
    elim (Bool-cases p.0) [
      | inl posted ↦ simp posted (post_all-Accounted more added w)
      | inr refused ↦ simp refused (stop-Accounted added w)
    ]

start-Accounted :
    (made bound listens attached : Bool) (more : List Answers) (a : Acceptor)
    → a.listen_socket ≡ none
    → Accounted a
    → Accounted (start made bound listens attached more a).1
unfolding start
start-Accounted made bound listens attached more a e v =
    let opened = record a { listen_socket = some a.next; next = a.next + 1 } in
    let w : Accounted opened =
      λ s. (let idle = ap (one s) e in let before = v s in ground (arith, idle, before)) in
    elim (Bool-cases made) [
      | inl there ↦ elim (Bool-cases (bound && listens && attached)) [
        | inl ready ↦ simp (there, ready) (post_all-Accounted more opened w)
        | inr refused ↦ simp (there, refused) (stop-Accounted opened w)
      ]
      | inr absent ↦ simp absent (λ s. omega (arith, v s, ap (one s) e))
    ]

-- What may happen to an acceptor: it is started while no socket listens (`start` itself does not
-- ask, and the program starts it once), a completion comes for an operation that is with
-- the kernel, and it is stopped.
pub data Reach : Acceptor → Type 0 where
  new : Reach new_acceptor
  starts :
      {a : Acceptor} (made bound listens attached : Bool) (more : List Answers)
      → Reach a
      → a.listen_socket ≡ none
      → Reach (start made bound listens attached more a).1
  completes :
      {a : Acceptor} (i : ℕ) (ok : Bool) (answers : Answers) (t : ℕ)
      → Reach a
      → op_at i a.ops ≡ some t
      → Reach (complete i ok answers a)
  stops : {a : Acceptor} → Reach a → Reach (stop a)

-- Every socket that was made is in exactly one place, and no other number is in any.
pub Reach-Accounted : {a : Acceptor} → Reach a → Accounted a
Reach-Accounted new = λ s. ground arith
Reach-Accounted (starts {a} made bound listens attached more r e) =
    start-Accounted made bound listens attached more a e (Reach-Accounted r)
Reach-Accounted (completes {a} i ok answers t r e) =
    complete-Accounted i ok answers a t e (Reach-Accounted r)
Reach-Accounted (stops {a} r) = stop-Accounted a (Reach-Accounted r)

stop-made : (a : Acceptor) (s : ℕ) → s < a.next → to_nat (ltb s (stop a).next) ≡ 1
unfolding stop
stop-made a s h =
    let c = close_all-gone 0 a.ops (close a.listen_socket (record a { stopping = true })) in
    let same = c.1 ∙ close-next a.listen_socket (record a { stopping = true }) in
    ap (λ n. to_nat (ltb s n)) same ∙ ap to_nat (lt→ltb s a.next h)

stop-idle : (a : Acceptor) (s : ℕ) → (held s (stop a).ops ≡ 0) × (one s (stop a).listen_socket ≡ 0)
unfolding stop
stop-idle a s = (held-none_of s a.ops, refl)

-- After any starts, each made while no socket listens, completions and stops, a stop leaves each
-- socket that was ever made either closed once or handed to the handler once, and never both,
-- where no completion is handled at the same time as a start or a stop.
pub stopped_sockets :
    {a : Acceptor} (s : ℕ)
    → Reach a
    → s < a.next
    → count s (stop a).closed + count s (stop a).handed ≡ 1
stopped_sockets {a} s r h =
    let v = Reach-Accounted (stops r) s in
    let made = stop-made a s h in let idle = stop-idle a s in omega (arith, v, made, idle.0, idle.1)
