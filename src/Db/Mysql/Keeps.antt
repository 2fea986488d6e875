-- ===== src/Db/Mysql/Keeps.antt =====
-- src/db/mysql_connection.cpp: the queries of both paths, and what was prepared.
use iocp_echo_server.Base.{ℕ, ◌∷◌, arith, List, []}
use iocp_echo_server.Db.Mysql.{Client, MysqlConnection, Codes, start_transaction, text, number}
use iocp_echo_server.Db.Mysql.Direct.{
  save_direct, history_direct, read_counter, counter_again, counter_commit, counter_read_back,
  counter_bump, counter_claim, counter_direct,
}
use iocp_echo_server.Db.Mysql.Procedures.{save_proc, history_proc, counter_proc}
use iocp_echo_server.Db.Mysql.Port.{save, history, counter}
use iocp_echo_server.Db.Mysql.Rows.{take_result, drain_extra_results}
use iocp_echo_server.Db.Mysql.Session.{exec, run_plain, rollback, note_failure, note_errno}
use iocp_echo_server.Db.Mysql.Prepared.{
  Kept, exec-Kept, run_plain-Kept, take_result-Kept, fetch_one-Kept, fetch_history_rows-Kept,
}

module _ {Lib : Type 0} (client : Client Lib) (codes : Codes) where
  save_direct-Kept :
      (key payload : List ℕ) (c : MysqlConnection Lib)
      → Kept c (save_direct client codes key payload c).2
  unfolding save_direct
  save_direct-Kept key payload c =
      ground (arith, exec-Kept client codes c.stmts.save (text key ∷ text payload ∷ []) c)

  history_direct-Kept :
      (key : List ℕ) (limit : ℕ) (c : MysqlConnection Lib)
      → Kept c (history_direct client codes key limit c).2
  unfolding history_direct
  history_direct-Kept key limit c =
      let d = (exec client codes c.stmts.history (text key ∷ number limit ∷ []) c).1 in
      ground (
        arith,
        exec-Kept client codes c.stmts.history (text key ∷ number limit ∷ []) c,
        fetch_history_rows-Kept client codes d.stmts.history d,
      )

  read_counter-Kept : (c : MysqlConnection Lib) → Kept c (read_counter client codes c).3
  unfolding read_counter
  read_counter-Kept c =
      let d = (take_result client codes c.stmts.counter_read c).1 in
      ground (
        arith,
        take_result-Kept client codes c.stmts.counter_read c,
        fetch_one-Kept client codes c.stmts.counter_read d,
      )

  counter_again-Kept :
      (key : List ℕ) (c : MysqlConnection Lib) → Kept c (counter_again client codes key c).3
  unfolding counter_again
  counter_again-Kept key c =
      let d = (exec client codes c.stmts.counter_read (text key ∷ []) c).1 in
      ground
        (arith, exec-Kept client codes c.stmts.counter_read (text key ∷ []) c, read_counter-Kept d)

  counter_commit-Kept :
      (value : ℕ) (c : MysqlConnection Lib) → Kept c (counter_commit client codes value c).3
  unfolding counter_commit note_failure note_errno
  counter_commit-Kept value c = ground arith

  counter_read_back-Kept :
      (key : List ℕ) (c : MysqlConnection Lib) → Kept c (counter_read_back client codes key c).3
  unfolding counter_read_back rollback
  counter_read_back-Kept key c =
      let d = (exec client codes c.stmts.counter_read (text key ∷ []) c).1 in
      let (taken, fetched, value, e) = read_counter client codes d in
      ground (
        arith,
        exec-Kept client codes c.stmts.counter_read (text key ∷ []) c,
        read_counter-Kept d,
        counter_commit-Kept value e,
      )

  counter_bump-Kept :
      (key : List ℕ) (c : MysqlConnection Lib) → Kept c (counter_bump client codes key c).3
  unfolding counter_bump rollback
  counter_bump-Kept key c =
      let d = (exec client codes c.stmts.counter_bump (text key ∷ []) c).1 in
      ground (
        arith,
        exec-Kept client codes c.stmts.counter_bump (text key ∷ []) c,
        counter_read_back-Kept key d,
      )

  counter_claim-Kept :
      (key request : List ℕ) (c : MysqlConnection Lib)
      → Kept c (counter_claim client codes key request c).3
  unfolding counter_claim rollback
  counter_claim-Kept key request c =
      let params = text request ∷ text key ∷ [] in
      let d = (exec client codes c.stmts.counter_claim params c).1 in
      ground (
        arith,
        exec-Kept client codes c.stmts.counter_claim params c,
        counter_bump-Kept key d,
        counter_again-Kept key (record d { lib = (client.rollback d.lib).1 }),
      )

  counter_direct-Kept :
      (key request : List ℕ) (c : MysqlConnection Lib)
      → Kept c (counter_direct client codes key request c).3
  unfolding counter_direct
  counter_direct-Kept key request c =
      let d = (run_plain client codes start_transaction c).1 in
      ground
        (arith, run_plain-Kept client codes start_transaction c, counter_claim-Kept key request d)

  save_proc-Kept :
      (key payload : List ℕ) (c : MysqlConnection Lib)
      → Kept c (save_proc client codes key payload c).2
  unfolding save_proc drain_extra_results
  save_proc-Kept key payload c =
      let stmt = c.stmts.proc_save in
      let params = text key ∷ text payload ∷ number 0 ∷ [] in
      let c1 = (exec client codes stmt params c).1 in
      let c2 = (take_result client codes stmt c1).1 in
      ground (
        arith,
        exec-Kept client codes stmt params c,
        take_result-Kept client codes stmt c1,
        fetch_one-Kept client codes stmt c2,
      )

  history_proc-Kept :
      (key : List ℕ) (limit : ℕ) (c : MysqlConnection Lib)
      → Kept c (history_proc client codes key limit c).2
  unfolding history_proc drain_extra_results
  history_proc-Kept key limit c =
      let stmt = c.stmts.proc_history in
      let c1 = (exec client codes stmt (text key ∷ number limit ∷ []) c).1 in
      ground (
        arith,
        exec-Kept client codes stmt (text key ∷ number limit ∷ []) c,
        fetch_history_rows-Kept client codes stmt c1,
      )

  counter_proc-Kept :
      (key request : List ℕ) (c : MysqlConnection Lib)
      → Kept c (counter_proc client codes key request c).3
  unfolding counter_proc drain_extra_results
  counter_proc-Kept key request c =
      let stmt = c.stmts.proc_counter in
      let params = text request ∷ text key ∷ number 0 ∷ number 0 ∷ [] in
      let c1 = (exec client codes stmt params c).1 in
      let c2 = (take_result client codes stmt c1).1 in
      ground (
        arith,
        exec-Kept client codes stmt params c,
        take_result-Kept client codes stmt c1,
        fetch_one-Kept client codes stmt c2,
      )

  pub save-Kept :
      (key payload : List ℕ) (c : MysqlConnection Lib) → Kept c (save client codes key payload c).2
  unfolding save
  save-Kept key payload c =
      ground (arith, save_proc-Kept key payload c, save_direct-Kept key payload c)

  pub history-Kept :
      (key : List ℕ) (limit : ℕ) (c : MysqlConnection Lib)
      → Kept c (history client codes key limit c).2
  unfolding history
  history-Kept key limit c =
      ground (arith, history_proc-Kept key limit c, history_direct-Kept key limit c)

  pub counter-Kept :
      (key request : List ℕ) (c : MysqlConnection Lib)
      → Kept c (counter client codes key request c).3
  unfolding counter
  counter-Kept key request c =
      ground (arith, counter_proc-Kept key request c, counter_direct-Kept key request c)
