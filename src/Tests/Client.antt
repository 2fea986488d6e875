-- ===== src/Tests/Client.antt =====
-- The database connection over a small client library: a server that has one row for every query.
use iocp_echo_server.Base.{ℕ, zero, suc, ◌<◌, ◌≡◌, refl, ◌==◌, Bool, true, false, [], ◌∷◌, arith}
use iocp_echo_server.Db.Mysql.{
  is_connection_lost, usable, ConnectionConfig, number, Fetched, row, no_data, Client,
  MysqlConnection, Codes, no_statements,
}
use iocp_echo_server.Db.Mysql.Session.{open_with}
use iocp_echo_server.Db.Mysql.Session
use iocp_echo_server.Db.Mysql.Direct
use iocp_echo_server.Db.Mysql.Rows
use iocp_echo_server.Db.Mysql.Rows.{fetch_loop, drain_loop, no_row}
use iocp_echo_server.Db.Mysql.Direct.{counter_direct}
use iocp_echo_server.Db.Mysql.Prepared.{Prepared}
use iocp_echo_server.Db.Mysql.Life.{opens, new, then_calls, new_connection, usable-Prepared}
use iocp_echo_server.Db.Mysql.Closing.{Transactions, Settled, counter_closes}
use iocp_echo_server.Db.Mysql.Ends.{Finite, gives_row}

record Server : Type 0 where
  open_transaction : Bool
  rows : ℕ

abbrev next_row : ℕ → Server → Fetched × Server
next_row zero s = (no_data, s)
next_row (suc n) s = (row (number 7 ∷ []), record s { rows = n })

abbrev client : Client Server
client = record {
  init = λ s. (true, s);
  options = λ n s. s;
  real_connect = λ cfg s. (true, s);
  close = λ s. record s { open_transaction = false };
  ping = λ s. (true, s);
  errno = λ s. 0;
  real_query = λ sql s. (true, record s { open_transaction = true });
  commit = λ s. (true, record s { open_transaction = false });
  rollback = λ s. (true, record s { open_transaction = false });
  stmt_init = λ s. (1, s);
  stmt_prepare = λ stmt sql s. (stmt == 1, s);
  stmt_close = λ stmt s. s;
  stmt_errno = λ stmt s. 0;
  bind_param = λ stmt params s. (true, s);
  execute = λ stmt s. (true, record s { rows = 1 });
  insert_id = λ stmt s. 9;
  bind_result = λ stmt s. (true, s);
  store_result = λ stmt s. (true, s);
  fetch = λ stmt s. next_row s.rows s;
  free_result = λ stmt s. s;
  next_result = λ stmt s. (false, s);
  rows_left = λ stmt s. s.rows;
  results_left = λ stmt s. 0;
}

abbrev codes : Codes
codes = record {
  conn_host_error = 2003;
  server_gone_error = 2006;
  server_lost = 2013;
  server_lost_extended = 2055;
  dup_entry = 1062;
}

never_refused : true ≡ false → true ≡ false
never_refused e = e

none_further : false ≡ true → 0 < 0
none_further e = ground (arith, e)

next_row_keeps : (n : ℕ) (s : Server) → (next_row n s).1.open_transaction ≡ s.open_transaction
next_row_keeps zero s = refl
next_row_keeps (suc n) s = refl

abbrev documented : Transactions client
documented = record {
  in_transaction = λ s. s.open_transaction;
  query_failed = λ s h e. never_refused e;
  commit_ends = λ s e. refl;
  rollback_ends = λ s e. refl;
  bind_param_keeps = λ stmt params s. refl;
  execute_opens_none = λ stmt s h. h;
  bind_result_keeps = λ stmt s. refl;
  store_result_keeps = λ stmt s. refl;
  fetch_keeps = λ stmt s. next_row_keeps s.rows s;
  free_result_keeps = λ stmt s. refl;
}

next_row_takes :
    (n : ℕ) (s : Server) → gives_row (next_row n s).0 ≡ true → (next_row n s).1.rows < n
unfolding gives_row
next_row_takes zero s e = absurd (ground (arith, e))
next_row_takes (suc n) s e = omega arith

abbrev counted : Finite client
counted = record {
  fetch_takes = λ stmt s e. next_row_takes s.rows s e;
  next_result_takes = λ stmt s e. none_further e;
}

abbrev cfg : ConnectionConfig
cfg = record {
  host = [];
  port = 3306;
  user = [];
  password = [];
  schema = [];
  timeout_ms = 5000;
  use_procedures = false;
}

abbrev server : Server
server = record { open_transaction = false; rows = 0 }

abbrev opened : MysqlConnection Server
opened = (open_with client codes cfg (new_connection cfg server)).1

-- This library prepares any text under the handle 1 alone.
usable-Prepared_example : Prepared (λ sql stmt. (stmt == 1) ≡ true) opened
usable-Prepared_example =
    usable-Prepared client codes (λ sql stmt. (stmt == 1) ≡ true) (λ stmt sql lib e. e) cfg server
      (then_calls new (opens cfg (new_connection cfg server)))

abbrev ready_connection : MysqlConnection Server
ready_connection = record (new_connection cfg server) {
  opened = true;
  broken = false;
  stmts = record no_statements {
    save = 1;
    history = 1;
    counter_claim = 1;
    counter_bump = 1;
    counter_read = 1;
  };
}

counter_closes_example :
    Settled client codes documented
      (65 ∷ [])
      (counter_direct client codes (65 ∷ []) (66 ∷ []) ready_connection)
counter_closes_example =
    counter_closes client codes documented (65 ∷ []) (66 ∷ []) ready_connection refl

-- A commit that the server refuses leaves the transaction open.
abbrev refusing : Client Server
refusing = record client { commit = λ s. (false, s) }

left_open :
    (counter_direct refusing codes (65 ∷ []) (66 ∷ []) ready_connection).3.lib.open_transaction
    ≡ true
unfolding counter_direct Direct.counter_claim Direct.counter_bump Direct.counter_read_back
    Direct.read_counter Direct.counter_commit Session.exec Session.run_plain Session.note_failure
    Session.note_errno Rows.take_result Rows.fetch_one Rows.free_result Rows.one_row
    Rows.first_number Rows.number_or usable is_connection_lost
left_open = refl
