-- ===== src/Net/Connector.antt =====
-- src/net/connector.h and connector.cpp: connecting to other hosts, with operations that are used
-- again. Operations, sockets and ids are numbers in the order in which they are made; what the calls
-- of the operating system answer is given with each step. The list of free operations has its back
-- first. The handlers are set. Addresses, socket options and the peer's name are left out.
pub mod Reuse
use iocp_echo_server.Base.{
  ℕ, zero, suc, ◌+◌, Bool, true, false, not, ◌&&◌, if◌then◌else◌, List, [], ◌∷◌, ◌++◌, Option, none,
  some,
}

-- An operation that is with the kernel.
pub record ConnectOp : Type 0 where
  pub index : ℕ
  pub socket : ℕ
  pub connection_id : ℕ

pub record Connector : Type 0 where
  pub ops : ℕ
  pub free : List ℕ
  pub under_way : List ConnectOp
  pub next_socket : ℕ
  pub next_id : ℕ
  pub closed : List ℕ
  pub connected : List (ℕ × ℕ)
  pub failures : ℕ

abbrev pub new_connector : Connector
new_connector = record {
  ops = 0;
  free = [];
  under_way = [];
  next_socket = 0;
  next_id = 1;
  closed = [];
  connected = [];
  failures = 0;
}

-- Whether the socket is made, bound and on the completion port, whether `ConnectEx` is found, and
-- whether it is begun or pending.
pub record Answers : Type 0 where
  pub creates : Bool
  pub binds : Bool
  pub attaches : Bool
  pub finds : Bool
  pub begins : Bool

-- `acquire`, with the list of free operations: one of them, or a new one.
unfoldable pub acquire_from : List ℕ → Connector → ℕ × Connector
acquire_from [] c = (c.ops, record c { free = []; ops = c.ops + 1 })
acquire_from (i ∷ rest) c = (i, record c { free = rest })

unfoldable pub acquire : Connector → ℕ × Connector
acquire c = acquire_from c.free c

unfoldable pub release : ℕ → Connector → Connector
release i c = record c { free = i ∷ c.free }

-- The socket is closed and the operation is free again.
unfoldable pub give_up : ℕ → ℕ → Connector → Bool × Connector
give_up i s c = (false, release i (record c { closed = c.closed ++ (s ∷ []) }))

-- `connect` with its operation and its socket, once the socket is bound.
unfoldable pub begin_connect : Answers → ℕ → ℕ → Connector → Bool × Connector
begin_connect answers i s c =
    let named = record c { next_id = c.next_id + 1 } in
    if not (answers.attaches && answers.finds && answers.begins) then give_up i s named else (
      true,
      record named {
        under_way = record { index = i; socket = s; connection_id = c.next_id } ∷ c.under_way;
      },
    )

unfoldable pub connect : Answers → Connector → Bool × Connector
connect answers c =
    let (i, taken) = acquire c in
    let s = taken.next_socket in
    let made = record taken { next_socket = s + 1 } in
    if not answers.creates
    then (false, release i taken)
    else if not answers.binds
    then give_up i s made
    else begin_connect answers i s made

-- `on_connect_done`, where the operation is no longer with the kernel.
unfoldable pub on_connect_done : Bool → ConnectOp → Connector → Connector
on_connect_done ok op c =
    let free_again = release op.index c in
    if ok
    then record free_again { connected = c.connected ++ ((op.socket, op.connection_id) ∷ []) }
    else record free_again { closed = c.closed ++ (op.socket ∷ []); failures = c.failures + 1 }

unfoldable pub keep_before :
    ConnectOp → Option (ConnectOp × List ConnectOp) → Option (ConnectOp × List ConnectOp)
keep_before op none = none
keep_before op (some (picked, others)) = some (picked, op ∷ others)

-- The operation at a place in the list of those under way, and the others.
unfoldable pub pick : ℕ → List ConnectOp → Option (ConnectOp × List ConnectOp)
pick i [] = none
pick zero (op ∷ ops) = some (op, ops)
pick (suc i) (op ∷ ops) = keep_before op (pick i ops)

unfoldable pub complete_picked : Bool → Connector → Option (ConnectOp × List ConnectOp) → Connector
complete_picked ok c none = c
complete_picked ok c (some (op, others)) = on_connect_done ok op (record c { under_way = others })

-- Any of them may complete next.
unfoldable pub complete : ℕ → Bool → Connector → Connector
complete i ok c = complete_picked ok c (pick i c.under_way)
