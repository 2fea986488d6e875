-- ===== src/Net/Connector/Reuse.antt =====
-- src/net/connector.cpp: where the operations and the sockets are, over a sequence of calls.
use iocp_echo_server.Base.{
  ℕ, zero, suc, ◌+◌, ◌≡◌, Bool, true, false, ◌&&◌, ◌==◌, ltb, List, [], ◌∷◌, ◌++◌, Option, none,
  some, to_nat, arith, Bool-cases, inl, inr,
}
use iocp_echo_server.Net.Connector.{
  ConnectOp, Connector, new_connector, Answers, acquire, acquire_from, release, give_up,
  begin_connect, connect, on_connect_done, pick, keep_before, complete_picked, complete,
}

abbrev pub count : ℕ → List ℕ → ℕ
count s [] = 0
count s (t ∷ ts) = to_nat (s == t) + count s ts

count-append : (s : ℕ) (xs ys : List ℕ) → count s (xs ++ ys) ≡ count s xs + count s ys
count-append s [] ys = omega arith
count-append s (x ∷ xs) ys = omega (arith, count-append s xs ys)

-- How often an operation, a socket, is under way, and a socket was given to the handler.
abbrev pub with_index : ℕ → List ConnectOp → ℕ
with_index i [] = 0
with_index i (op ∷ ops) = to_nat (i == op.index) + with_index i ops

abbrev pub with_socket : ℕ → List ConnectOp → ℕ
with_socket s [] = 0
with_socket s (op ∷ ops) = to_nat (s == op.socket) + with_socket s ops

abbrev pub given : ℕ → List (ℕ × ℕ) → ℕ
given s [] = 0
given s ((t, id) ∷ more) = to_nat (s == t) + given s more

given-append : (s : ℕ) (xs ys : List (ℕ × ℕ)) → given s (xs ++ ys) ≡ given s xs + given s ys
given-append s [] ys = omega arith
given-append s ((t, id) ∷ xs) ys = omega (arith, given-append s xs ys)

-- Every operation that was made is free or under way, once; every socket is closed, with the handler
-- or under way, once.
abbrev pub Accounted : ℕ → Connector → Type 0
Accounted k c =
    (count k c.free + with_index k c.under_way ≡ to_nat (ltb k c.ops))
    × (count k c.closed + given k c.connected + with_socket k c.under_way
        ≡ to_nat (ltb k c.next_socket))

-- Operation `i` is out of the list of free ones and not under way.
abbrev Taken : ℕ → ℕ → Connector → Type 0
Taken k i c =
    (count k c.free + with_index k c.under_way + to_nat (k == i) ≡ to_nat (ltb k c.ops))
    × (count k c.closed + given k c.connected + with_socket k c.under_way
        ≡ to_nat (ltb k c.next_socket))

acquire_from-Taken :
    (k : ℕ) (free : List ℕ) (c : Connector)
    → count k free + with_index k c.under_way ≡ to_nat (ltb k c.ops)
    → count k c.closed + given k c.connected + with_socket k c.under_way
      ≡ to_nat (ltb k c.next_socket)
    → let (i, taken) = acquire_from free c in Taken k i taken
unfolding acquire_from
acquire_from-Taken k [] c v w = (ground arith, w)
acquire_from-Taken k (i ∷ rest) c v w = (omega (arith, v), w)

release-Accounted : (k i : ℕ) (c : Connector) → Taken k i c → Accounted k (release i c)
unfolding release
release-Accounted k i c v = (omega (arith, v.0), v.1)

-- With one socket more than those accounted for.
abbrev Holds : ℕ → ℕ → ℕ → Connector → Type 0
Holds k i s c =
    (count k c.free + with_index k c.under_way + to_nat (k == i) ≡ to_nat (ltb k c.ops))
    × (count k c.closed + given k c.connected + with_socket k c.under_way + to_nat (k == s)
        ≡ to_nat (ltb k c.next_socket))

give_up-Accounted : (k i s : ℕ) (c : Connector) → Holds k i s c → Accounted k (give_up i s c).1
unfolding give_up release
give_up-Accounted k i s c v =
    (omega (arith, v.0), omega (arith, v.1, count-append k c.closed (s ∷ [])))

begin_connect-Accounted :
    (k i s : ℕ) (answers : Answers) (c : Connector)
    → Holds k i s c
    → Accounted k (begin_connect answers i s c).1
unfolding begin_connect
begin_connect-Accounted k i s answers c v =
    elim (Bool-cases (answers.attaches && answers.finds && answers.begins)) [
      | inl begun ↦ simp begun (omega (arith, v.0), omega (arith, v.1))
      | inr refused ↦
          simp refused (give_up-Accounted k i s (record c { next_id = c.next_id + 1 }) v)
    ]

connect-Accounted :
    (k : ℕ) (answers : Answers) (c : Connector) → Accounted k c → Accounted k (connect answers c).1
unfolding connect acquire
connect-Accounted k answers c v =
    let (i, taken) = acquire_from c.free c in
    let t = acquire_from-Taken k c.free c v.0 v.1 in
    let s = taken.next_socket in
    let made = record taken { next_socket = s + 1 } in
    let h : Holds k i s made = (t.0, ground (arith, t.1)) in
    elim (Bool-cases answers.creates) [
      | inl there ↦ elim (Bool-cases answers.binds) [
        | inl bound ↦ simp (there, bound) (begin_connect-Accounted k i s answers made h)
        | inr unbound ↦ simp (there, unbound) (give_up-Accounted k i s made h)
      ]
      | inr absent ↦ simp absent (release-Accounted k i taken t)
    ]

abbrev Parts : ℕ → List ConnectOp → Option (ConnectOp × List ConnectOp) → Type 0
Parts k ops none = Unit
Parts k ops (some (op, others)) =
    (with_index k others + to_nat (k == op.index) ≡ with_index k ops)
    × (with_socket k others + to_nat (k == op.socket) ≡ with_socket k ops)

keep_before-Parts :
    (k : ℕ) (op : ConnectOp) (ops : List ConnectOp) (o : Option (ConnectOp × List ConnectOp))
    → Parts k ops o
    → Parts k (op ∷ ops) (keep_before op o)
unfolding keep_before
keep_before-Parts k op ops none v = tt
keep_before-Parts k op ops (some (picked, others)) v = (omega (arith, v.0), omega (arith, v.1))

pick-Parts : (k i : ℕ) (ops : List ConnectOp) → Parts k ops (pick i ops)
unfolding pick
pick-Parts k i [] = tt
pick-Parts k zero (op ∷ ops) = (omega arith, omega arith)
pick-Parts k (suc i) (op ∷ ops) = keep_before-Parts k op ops (pick i ops) (pick-Parts k i ops)

complete_picked-Accounted :
    (k : ℕ) (ok : Bool) (c : Connector) (o : Option (ConnectOp × List ConnectOp))
    → Parts k c.under_way o
    → Accounted k c
    → Accounted k (complete_picked ok c o)
unfolding complete_picked on_connect_done release
complete_picked-Accounted k ok c none p v = v
complete_picked-Accounted k true c (some (op, others)) p v = (
  omega (arith, p.0, v.0),
  omega (arith, p.1, v.1, given-append k c.connected ((op.socket, op.connection_id) ∷ [])),
)
complete_picked-Accounted k false c (some (op, others)) p v =
    (omega (arith, p.0, v.0), omega (arith, p.1, v.1, count-append k c.closed (op.socket ∷ [])))

-- The calls of `connect`, and the completions, in any order.
pub data Op : Type 0 where
  connects : Answers → Op
  completes : ℕ → Bool → Op

unfoldable pub step : Op → Connector → Connector
step (connects answers) c = (connect answers c).1
step (completes i ok) c = complete i ok c

unfoldable pub run : List Op → Connector → Connector
run [] c = c
run (op ∷ ops) c = run ops (step op c)

run-Accounted : (k : ℕ) (ops : List Op) (c : Connector) → Accounted k c → Accounted k (run ops c)
unfolding run step complete
run-Accounted k [] c v = v
run-Accounted k (connects answers ∷ ops) c v =
    run-Accounted k ops (connect answers c).1 (connect-Accounted k answers c v)
run-Accounted k (completes i ok ∷ ops) c v =
    run-Accounted k ops (complete i ok c)
      (complete_picked-Accounted k ok c (pick i c.under_way) (pick-Parts k i c.under_way) v)

-- Over any calls and completions: every operation that was made is free or under way, once, and
-- every socket that was made is closed, with the handler or under way, once.
pub operations_reused : (k : ℕ) (ops : List Op) → Accounted k (run ops new_connector)
operations_reused k ops = run-Accounted k ops new_connector (ground arith, ground arith)
