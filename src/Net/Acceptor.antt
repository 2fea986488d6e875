-- ===== src/Net/Acceptor.antt =====
-- src/net/acceptor.h and acceptor.cpp: listening and accepting. What the calls of the operating
-- system answer is given with each step. A socket is named by a number of its own, in the order of
-- creation; `closed` and `handed` list those that were closed and those given to the handler. An
-- operation is the socket that it holds, and one that holds a socket is with the kernel. `stop` and
-- the completions are whole steps here. Socket options, the peer's name and the log are left out.
pub mod Calls
pub mod Ownership
pub mod Backlog
use iocp_echo_server.Base.{
  ℕ, zero, suc, ◌+◌, Bool, true, false, not, ◌&&◌, ◌||◌, if◌then◌else◌, List, [], ◌∷◌, ◌++◌, Option,
  none, some,
}

abbrev pub backlog_ops : ℕ
backlog_ops = 64

pub record Acceptor : Type 0 where
  pub listen_socket : Option ℕ
  pub stopping : Bool
  pub ops : List (Option ℕ)
  pub next : ℕ
  pub closed : List ℕ
  pub handed : List ℕ

abbrev pub new_acceptor : Acceptor
new_acceptor = record {
  listen_socket = none;
  stopping = false;
  ops = [];
  next = 0;
  closed = [];
  handed = [];
}

-- Whether `WSASocketW` gives a socket, and whether `AcceptEx` is begun or pending.
pub record Answers : Type 0 where
  pub creates : Bool
  pub accepts : Bool

unfoldable pub is_open : Option ℕ → Bool
is_open none = false
is_open (some s) = true

-- `closesocket`, where there is a socket.
unfoldable pub close : Option ℕ → Acceptor → Acceptor
close none a = a
close (some s) a = record a { closed = a.closed ++ (s ∷ []) }

-- The end of `post_accept`: a new socket, for the operation or closed again.
unfoldable pub begin_accept : Answers → Acceptor → Bool × Option ℕ × Acceptor
begin_accept answers a =
    if not answers.creates
    then (false, none, a)
    else let made = record a { next = a.next + 1 } in
      if answers.accepts then (true, some a.next, made) else (false, none, close (some a.next) made)

-- With the operation's socket: what is returned, its socket from now on, and the acceptor.
unfoldable pub post_accept : Answers → Option ℕ → Acceptor → Bool × Option ℕ × Acceptor
post_accept answers op a =
    if a.stopping || not (is_open a.listen_socket)
    then (false, op, a)
    else begin_accept answers (close op a)

unfoldable pub hand_over : Option ℕ → Acceptor → Acceptor
hand_over none a = a
hand_over (some s) a = record a { handed = a.handed ++ (s ∷ []) }

unfoldable pub close_all : List (Option ℕ) → Acceptor → Acceptor
close_all [] a = a
close_all (op ∷ ops) a = close_all ops (close op a)

unfoldable pub none_of : List (Option ℕ) → List (Option ℕ)
none_of [] = []
none_of (op ∷ ops) = none ∷ none_of ops

unfoldable pub stop : Acceptor → Acceptor
stop a =
    let shut = close a.listen_socket (record a { stopping = true }) in
    record (close_all a.ops shut) { listen_socket = none; ops = none_of a.ops }

-- `on_accept_done` with the operation's socket: its socket from now on. What `post_accept` returns
-- is not looked at.
unfoldable pub on_accept_done : Bool → Answers → Option ℕ → Acceptor → Option ℕ × Acceptor
on_accept_done ok answers op a =
    let (failed_posted, failed_op, after_failure) = post_accept answers none (close op a) in
    let (posted, next_op, after) = post_accept answers none (hand_over op a) in
    if ok then (next_op, after) else (failed_op, after_failure)

-- The socket of operation `i`, and another in its place.
abbrev pub op_at : ℕ → List (Option ℕ) → Option ℕ
op_at i [] = none
op_at zero (op ∷ ops) = op
op_at (suc i) (op ∷ ops) = op_at i ops

abbrev pub put_at : ℕ → Option ℕ → List (Option ℕ) → List (Option ℕ)
put_at i new [] = []
put_at zero new (op ∷ ops) = new ∷ ops
put_at (suc i) new (op ∷ ops) = op ∷ put_at i new ops

-- The completion of operation `i`, which is with the kernel.
unfoldable pub complete : ℕ → Bool → Answers → Acceptor → Acceptor
complete i ok answers a =
    let (op, after) = on_accept_done ok answers (op_at i a.ops) a in
    record after { ops = put_at i op a.ops }

-- The loop of `start` over the operations, by what the calls answer.
unfoldable pub post_all : List Answers → Acceptor → Bool × Acceptor
post_all [] a = (true, a)
post_all (answers ∷ more) a =
    let (posted, op, after) = post_accept answers none a in
    let added = record after { ops = after.ops ++ (op ∷ []) } in
    let rest = post_all more added in if posted then rest else (false, stop added)

-- `start`: whether the listening socket is made, bound, listens and is on the completion port.
unfoldable pub start : Bool → Bool → Bool → Bool → List Answers → Acceptor → Bool × Acceptor
start made bound listens attached answers a =
    let opened = record a { listen_socket = some a.next; next = a.next + 1 } in
    let posted = post_all answers opened in
    if not made
    then (false, record a { listen_socket = none })
    else if not (bound && listens && attached)
    then (false, stop opened)
    else posted
