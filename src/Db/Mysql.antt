-- ===== src/Db/Mysql.antt =====
-- src/db/mysql_connection.h and mysql_connection.cpp: one connection of a worker. The MySQL client
-- library is the interface `Client`; what it keeps, the server included, is `Lib`. A handle is a
-- number, 0 is none. Texts of errors, which only the log shows, are left out, and so are the
-- numbers of the options that `open` sets besides the timeout.
pub mod Session
pub mod Rows
pub mod Direct
pub mod Procedures
pub mod Port
pub mod Prepared
pub mod Keeps
pub mod Life
pub mod Closing
pub mod Ends
use iocp_echo_server.Base.{
  ℕ, zero, suc, ◌+◌, ◌/◌, Bool, true, false, not, ◌&&◌, ◌||◌, ltb, ◌==◌, if◌then◌else◌, List, [],
  ◌∷◌,
}

pub record ConnectionConfig : Type 0 where
  pub host : List ℕ
  pub port : ℕ
  pub user : List ℕ
  pub password : List ℕ
  pub schema : List ℕ
  pub timeout_ms : ℕ
  pub use_procedures : Bool

-- The texts of the statements, by name.
pub data Sql : Type 0 where
  sql_save sql_history sql_counter_claim sql_counter_bump sql_counter_read : Sql
  call_save call_history call_counter : Sql
  start_transaction : Sql

-- A parameter, and a column of a row.
pub data Cell : Type 0 where
  text : List ℕ → Cell
  number : ℕ → Cell
  null : Cell

-- `mysql_stmt_fetch`: a row, a row with a column cut off, no more rows, or a failure.
pub data Fetched : Type 0 where
  row truncated : List Cell → Fetched
  no_data failed : Fetched

-- A call that answers 0 when it worked answers `true` here.
pub record Client (Lib : Type 0) : Type 0 where
  pub init : Lib → Bool × Lib
  pub options : ℕ → Lib → Lib
  pub real_connect : ConnectionConfig → Lib → Bool × Lib
  pub close : Lib → Lib
  pub ping : Lib → Bool × Lib
  pub errno : Lib → ℕ
  pub real_query : Sql → Lib → Bool × Lib
  pub commit : Lib → Bool × Lib
  pub rollback : Lib → Bool × Lib
  pub stmt_init : Lib → ℕ × Lib
  pub stmt_prepare : ℕ → Sql → Lib → Bool × Lib
  pub stmt_close : ℕ → Lib → Lib
  pub stmt_errno : ℕ → Lib → ℕ
  pub bind_param : ℕ → List Cell → Lib → Bool × Lib
  pub execute : ℕ → Lib → Bool × Lib
  pub insert_id : ℕ → Lib → ℕ
  pub bind_result : ℕ → Lib → Bool × Lib
  pub store_result : ℕ → Lib → Bool × Lib
  pub fetch : ℕ → Lib → Fetched × Lib
  pub free_result : ℕ → Lib → Lib
  pub next_result : ℕ → Lib → Bool × Lib
  -- How many rows, and how many further results, are still to be fetched.
  pub rows_left : ℕ → Lib → ℕ
  pub results_left : ℕ → Lib → ℕ

pub record Statements : Type 0 where
  pub save : ℕ
  pub history : ℕ
  pub counter_claim : ℕ
  pub counter_bump : ℕ
  pub counter_read : ℕ
  pub proc_save : ℕ
  pub proc_history : ℕ
  pub proc_counter : ℕ

abbrev pub no_statements : Statements
no_statements = record {
  save = 0;
  history = 0;
  counter_claim = 0;
  counter_bump = 0;
  counter_read = 0;
  proc_save = 0;
  proc_history = 0;
  proc_counter = 0;
}

-- `opened` is whether `mysql_` is set.
pub record MysqlConnection (Lib : Type 0) : Type 0 where
  pub cfg : ConnectionConfig
  pub opened : Bool
  pub broken : Bool
  pub stmts : Statements
  pub last_errno : ℕ
  pub lib : Lib

-- CR_CONN_HOST_ERROR, CR_SERVER_GONE_ERROR, CR_SERVER_LOST and CR_SERVER_LOST_EXTENDED, and
-- ER_DUP_ENTRY.
pub record Codes : Type 0 where
  pub conn_host_error : ℕ
  pub server_gone_error : ℕ
  pub server_lost : ℕ
  pub server_lost_extended : ℕ
  pub dup_entry : ℕ

abbrev pub max_payload_len : ℕ
max_payload_len = 512

unfoldable pub is_connection_lost : Codes → ℕ → Bool
is_connection_lost codes err =
    (err == codes.server_gone_error || err == codes.server_lost)
    || (err == codes.conn_host_error || err == codes.server_lost_extended)

unfoldable pub usable : {Lib : Type 0} → MysqlConnection Lib → Bool
usable c = c.opened && not c.broken

-- `timeout_sec`, where milliseconds are rounded up.
unfoldable pub timeout_sec : ConnectionConfig → ℕ
timeout_sec cfg = if ltb 0 cfg.timeout_ms then (cfg.timeout_ms + 999) / 1000 else 5
