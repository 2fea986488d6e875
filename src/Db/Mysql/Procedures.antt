-- ===== src/Db/Mysql/Procedures.antt =====
-- src/db/mysql_connection.cpp: the path by stored procedures. A value that a procedure gives back
-- comes as a row.
use iocp_echo_server.Base.{ℕ, Bool, true, false, not, ◌==◌, if◌then◌else◌, List, [], ◌∷◌}
use iocp_echo_server.Db.Types.{LogRow}
use iocp_echo_server.Db.Mysql.{text, number, Client, MysqlConnection, Codes}
use iocp_echo_server.Db.Mysql.Session.{exec}
use iocp_echo_server.Db.Mysql.Rows.{
  fetch_history_rows, take_result, fetch_one, first_number, second_number, drain_extra_results,
}

module _ {Lib : Type 0} (client : Client Lib) (codes : Codes) where
  unfoldable pub save_proc : List ℕ → List ℕ → MysqlConnection Lib → Bool × ℕ × MysqlConnection Lib
  save_proc session_key payload c =
      let stmt = c.stmts.proc_save in
      let (done, c1) = exec client codes stmt (text session_key ∷ text payload ∷ number 0 ∷ []) c in
      let (taken, c2) = take_result client codes stmt c1 in
      let (fetched, cells, c3) = fetch_one client codes stmt c2 in
      let c4 = drain_extra_results client codes stmt c3 in
      if not done
      then (false, 0, c1)
      else if not taken
      then (false, 0, c2)
      else if not fetched
      then (false, 0, c4)
      else (true, first_number cells, c4)

  unfoldable pub history_proc :
      List ℕ → ℕ → MysqlConnection Lib → Bool × List LogRow × MysqlConnection Lib
  history_proc session_key limit c =
      let stmt = c.stmts.proc_history in
      let (done, c1) = exec client codes stmt (text session_key ∷ number limit ∷ []) c in
      let (fetched, rows, c2) = fetch_history_rows client codes stmt c1 in
      if not done
      then (false, [], c1)
      else if not fetched
      then (false, rows, c2)
      else (true, rows, drain_extra_results client codes stmt c2)

  unfoldable pub counter_proc :
      List ℕ → List ℕ → MysqlConnection Lib → Bool × ℕ × Bool × MysqlConnection Lib
  counter_proc session_key request_key c =
      let stmt = c.stmts.proc_counter in
      let (done, c1) =
        exec client codes stmt (text request_key ∷ text session_key ∷ number 0 ∷ number 0 ∷ []) c in
      let (taken, c2) = take_result client codes stmt c1 in
      let (fetched, cells, c3) = fetch_one client codes stmt c2 in
      let c4 = drain_extra_results client codes stmt c3 in
      if not done
      then (false, 0, false, c1)
      else if not taken
      then (false, 0, false, c2)
      else if not fetched
      then (false, 0, false, c4)
      else (true, first_number cells, not (second_number cells == 0), c4)
