-- ===== src/Net/Acceptor/Calls.antt =====
-- src/net/acceptor.cpp: what each call does with the sockets.
use iocp_echo_server.Base.{
  ℕ, zero, suc, ◌+◌, ◌≡◌, refl, Bool, true, false, ◌==◌, ltb, List, [], ◌∷◌, ◌++◌, Option, none,
  some, to_nat, arith,
}
use iocp_echo_server.Net.Acceptor.{
  Acceptor, Answers, close, begin_accept, post_accept, hand_over, close_all, none_of,
  on_accept_done, op_at, put_at,
}

-- How often a socket is in a list, and in operations.
abbrev pub count : ℕ → List ℕ → ℕ
count s [] = 0
count s (t ∷ ts) = to_nat (s == t) + count s ts

abbrev pub one : ℕ → Option ℕ → ℕ
one s none = 0
one s (some t) = to_nat (s == t)

abbrev pub held : ℕ → List (Option ℕ) → ℕ
held s [] = 0
held s (op ∷ ops) = one s op + held s ops

count-append : (s : ℕ) (xs ys : List ℕ) → count s (xs ++ ys) ≡ count s xs + count s ys
count-append s [] ys = omega arith
count-append s (x ∷ xs) ys = omega (arith, count-append s xs ys)

-- What was done with a socket, beside where it may be held.
abbrev pub gone : ℕ → Acceptor → ℕ
gone s a = count s a.closed + count s a.handed

abbrev pub below : ℕ → Acceptor → ℕ
below s a = to_nat (ltb s a.next)

-- A call with an operation's socket that gives it another loses no socket and doubles none.
abbrev pub Keeps : ℕ → Option ℕ → Acceptor → Option ℕ → Acceptor → Type 0
Keeps s op a op' a' =
    (gone s a' + one s op' + below s a ≡ gone s a + one s op + below s a')
    × (a'.ops ≡ a.ops)
    × (a'.listen_socket ≡ a.listen_socket)

pub close-Keeps : (s : ℕ) (op : Option ℕ) (a : Acceptor) → Keeps s op a none (close op a)
unfolding close
close-Keeps s none a = (refl, refl, refl)
close-Keeps s (some t) a = (omega (arith, count-append s a.closed (t ∷ [])), refl, refl)

hand_over-Keeps : (s : ℕ) (op : Option ℕ) (a : Acceptor) → Keeps s op a none (hand_over op a)
unfolding hand_over
hand_over-Keeps s none a = (refl, refl, refl)
hand_over-Keeps s (some t) a = (omega (arith, count-append s a.handed (t ∷ [])), refl, refl)

begin_accept-Keeps :
    (s : ℕ) (answers : Answers) (a : Acceptor)
    → let (posted, op, after) = begin_accept answers a in Keeps s none a op after
unfolding begin_accept close
begin_accept-Keeps s answers a = ground (arith, count-append s a.closed (a.next ∷ []))

pub post_accept-Keeps :
    (s : ℕ) (answers : Answers) (op : Option ℕ) (a : Acceptor)
    → let (posted, op', after) = post_accept answers op a in Keeps s op a op' after
unfolding post_accept
post_accept-Keeps s answers op a =
    let c = close-Keeps s op a in
    let b = begin_accept-Keeps s answers (close op a) in ground (arith, c, b)

pub on_accept_done-Keeps :
    (s : ℕ) (ok : Bool) (answers : Answers) (op : Option ℕ) (a : Acceptor)
    → let (op', after) = on_accept_done ok answers op a in Keeps s op a op' after
unfolding on_accept_done
on_accept_done-Keeps s true answers op a =
    let h = hand_over-Keeps s op a in
    let p = post_accept-Keeps s answers none (hand_over op a) in ground (arith, h, p)
on_accept_done-Keeps s false answers op a =
    let h = close-Keeps s op a in
    let p = post_accept-Keeps s answers none (close op a) in ground (arith, h, p)

pub held-put_at :
    (s i : ℕ) (op : Option ℕ) (ops : List (Option ℕ)) (t : ℕ)
    → op_at i ops ≡ some t
    → held s (put_at i op ops) + one s (op_at i ops) ≡ held s ops + one s op
held-put_at s i op [] t e = absurd (cc)
held-put_at s zero op (x ∷ ops) t e = omega arith
held-put_at s (suc i) op (x ∷ ops) t e = omega (arith, held-put_at s i op ops t e)

pub held-none_of : (s : ℕ) (ops : List (Option ℕ)) → held s (none_of ops) ≡ 0
unfolding none_of
held-none_of s [] = refl
held-none_of s (op ∷ ops) = omega (arith, held-none_of s ops)

pub close_all-gone :
    (s : ℕ) (ops : List (Option ℕ)) (a : Acceptor)
    → (gone s (close_all ops a) ≡ gone s a + held s ops) × ((close_all ops a).next ≡ a.next)
unfolding close_all close
close_all-gone s [] a = (omega arith, refl)
close_all-gone s (none ∷ ops) a =
    let rest = close_all-gone s ops a in (omega (arith, rest.0), rest.1)
close_all-gone s (some t ∷ ops) a =
    let rest = close_all-gone s ops (record a { closed = a.closed ++ (t ∷ []) }) in
    (omega (arith, rest.0, count-append s a.closed (t ∷ [])), rest.1)
