-- ===== src/Db/Mysql/Session.antt =====
-- src/db/mysql_connection.cpp: opening and closing, the prepared statements, and the calls that
-- note a failure.
use iocp_echo_server.Base.{ℕ, Bool, true, false, not, ◌==◌, if◌then◌else◌, List, [], ◌∷◌}
use iocp_echo_server.Db.Mysql.{
  ConnectionConfig, Sql, sql_save, sql_history, sql_counter_claim, sql_counter_bump,
  sql_counter_read, call_save, call_history, call_counter, start_transaction, Cell, Client,
  Statements, no_statements, MysqlConnection, Codes, is_connection_lost, usable, timeout_sec,
}

-- A slot of a statement, with its text.
pub record Item : Type 0 where
  pub put : ℕ → Statements → Statements
  pub sql : Sql

abbrev pub direct_items : List Item
direct_items =
    record { put = λ h s. record s { save = h }; sql = sql_save }
    ∷ record { put = λ h s. record s { history = h }; sql = sql_history }
    ∷ record { put = λ h s. record s { counter_claim = h }; sql = sql_counter_claim }
    ∷ record { put = λ h s. record s { counter_bump = h }; sql = sql_counter_bump }
    ∷ record { put = λ h s. record s { counter_read = h }; sql = sql_counter_read }
    ∷ []

abbrev pub proc_items : List Item
proc_items =
    record { put = λ h s. record s { proc_save = h }; sql = call_save }
    ∷ record { put = λ h s. record s { proc_history = h }; sql = call_history }
    ∷ record { put = λ h s. record s { proc_counter = h }; sql = call_counter }
    ∷ []

abbrev pub slots : Statements → List ℕ
slots s =
    s.save ∷ s.history ∷ s.counter_claim ∷ s.counter_bump ∷ s.counter_read ∷ s.proc_save
    ∷ s.proc_history ∷ s.proc_counter ∷ []

module _ {Lib : Type 0} (client : Client Lib) (codes : Codes) where
  unfoldable pub close_slots : List ℕ → Lib → Lib
  close_slots [] lib = lib
  close_slots (h ∷ rest) lib = close_slots rest (if h == 0 then lib else client.stmt_close h lib)

  unfoldable pub close_statements : MysqlConnection Lib → MysqlConnection Lib
  close_statements c = record c { stmts = no_statements; lib = close_slots (slots c.stmts) c.lib }

  unfoldable pub close : MysqlConnection Lib → MysqlConnection Lib
  close c =
      let c' = close_statements c in
      record c' {
        opened = false;
        broken = true;
        lib = if c'.opened then client.close c'.lib else c'.lib;
      }

  -- One round of the loop in `prepare_all`.
  unfoldable pub prepare_one : Item → MysqlConnection Lib → Bool × MysqlConnection Lib
  prepare_one item c =
      let (stmt, lib) = client.stmt_init c.lib in
      let (done, lib') = client.stmt_prepare stmt item.sql lib in
      if stmt == 0
      then (false, record c { lib = lib })
      else if not done
      then (
        false,
        record c { last_errno = client.stmt_errno stmt lib'; lib = client.stmt_close stmt lib' },
      )
      else (true, record c { stmts = item.put stmt c.stmts; lib = lib' })

  unfoldable pub prepare_loop : List Item → MysqlConnection Lib → Bool × MysqlConnection Lib
  prepare_loop [] c = (true, c)
  prepare_loop (item ∷ rest) c =
      let (done, c') = prepare_one item c in
      let more = prepare_loop rest c' in if done then more else (false, c')

  unfoldable pub prepare_all : MysqlConnection Lib → Bool × MysqlConnection Lib
  prepare_all c = prepare_loop (if c.cfg.use_procedures then proc_items else direct_items) c

  -- `open`, which is `open_with`, from the call of `mysql_real_connect` on.
  unfoldable pub connect : MysqlConnection Lib → Bool × MysqlConnection Lib
  connect c =
      let (connected, lib) = client.real_connect c.cfg c.lib in
      let (prepared, c') = prepare_all (record c { lib = lib }) in
      if not connected
      then (
        false,
        record c { opened = false; last_errno = client.errno lib; lib = client.close lib },
      )
      else if not prepared
      then (false, close c')
      else (true, record c' { broken = false })

  unfoldable pub open_with : ConnectionConfig → MysqlConnection Lib → Bool × MysqlConnection Lib
  open_with cfg c =
      let c' = close (record c { cfg = cfg }) in
      let (made, lib) = client.init c'.lib in
      if not made
      then (false, record c' { lib = lib })
      else connect (record c' { opened = true; lib = client.options (timeout_sec cfg) lib })

  unfoldable pub ping : MysqlConnection Lib → Bool × MysqlConnection Lib
  ping c =
      let (answered, lib) = client.ping c.lib in
      if not (usable c)
      then (false, c)
      else if not answered
      then (false, record c { last_errno = client.errno lib; broken = true; lib = lib })
      else (true, record c { lib = lib })

  unfoldable pub ensure_usable : MysqlConnection Lib → Bool × MysqlConnection Lib
  ensure_usable c = if usable c then (true, c) else open_with c.cfg c

  unfoldable pub note_errno : ℕ → MysqlConnection Lib → MysqlConnection Lib
  note_errno err c = record c {
    last_errno = err;
    broken = if is_connection_lost codes err then true else c.broken;
  }

  -- The two `note_failure`.
  unfoldable pub note_stmt_failure : ℕ → MysqlConnection Lib → MysqlConnection Lib
  note_stmt_failure stmt c = note_errno (client.stmt_errno stmt c.lib) c

  unfoldable pub note_failure : MysqlConnection Lib → MysqlConnection Lib
  note_failure c = if c.opened then note_errno (client.errno c.lib) c else c

  unfoldable pub exec : ℕ → List Cell → MysqlConnection Lib → Bool × MysqlConnection Lib
  exec stmt params c =
      let (bound, lib) = client.bind_param stmt params c.lib in
      let (done, lib') = client.execute stmt lib in
      if not bound
      then (false, note_stmt_failure stmt (record c { lib = lib }))
      else if not done
      then (false, note_stmt_failure stmt (record c { lib = lib' }))
      else (true, record c { lib = lib' })

  unfoldable pub run_plain : Sql → MysqlConnection Lib → Bool × MysqlConnection Lib
  run_plain sql c =
      let (done, lib) = client.real_query sql c.lib in
      if not done
      then (false, note_failure (record c { lib = lib }))
      else (true, record c { lib = lib })

  unfoldable pub begin_batch : MysqlConnection Lib → Bool × MysqlConnection Lib
  begin_batch c = if not (usable c) then (false, c) else run_plain start_transaction c

  unfoldable pub commit_batch : MysqlConnection Lib → Bool × MysqlConnection Lib
  commit_batch c =
      let (done, lib) = client.commit c.lib in
      if not (usable c)
      then (false, c)
      else if not done
      then (false, note_failure (record c { lib = lib }))
      else (true, record c { lib = lib })

  -- `mysql_rollback`, and `rollback_batch`, which first asks for a connection.
  unfoldable pub rollback : MysqlConnection Lib → MysqlConnection Lib
  rollback c = record c { lib = (client.rollback c.lib).1 }

  unfoldable pub rollback_batch : MysqlConnection Lib → MysqlConnection Lib
  rollback_batch c = if c.opened then rollback c else c
