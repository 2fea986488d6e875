-- ===== src/Db/Mysql/Direct.antt =====
-- src/db/mysql_connection.cpp: the path by single statements.
use iocp_echo_server.Base.{ℕ, Bool, true, false, not, ◌==◌, if◌then◌else◌, List, [], ◌∷◌}
use iocp_echo_server.Db.Types.{LogRow}
use iocp_echo_server.Db.Mysql.{
  start_transaction, text, number, Client, MysqlConnection, Codes, usable,
}
use iocp_echo_server.Db.Mysql.Session.{exec, run_plain, note_failure, rollback}
use iocp_echo_server.Db.Mysql.Rows.{fetch_history_rows, take_result, fetch_one, first_number}

module _ {Lib : Type 0} (client : Client Lib) (codes : Codes) where
  unfoldable pub save_direct :
      List ℕ → List ℕ → MysqlConnection Lib → Bool × ℕ × MysqlConnection Lib
  save_direct session_key payload c =
      let (done, c') = exec client codes c.stmts.save (text session_key ∷ text payload ∷ []) c in
      if not (usable c)
      then (false, 0, c)
      else if not done
      then (false, 0, c')
      else (true, client.insert_id c'.stmts.save c'.lib, c')

  unfoldable pub history_direct :
      List ℕ → ℕ → MysqlConnection Lib → Bool × List LogRow × MysqlConnection Lib
  history_direct session_key limit c =
      let (done, c') = exec client codes c.stmts.history (text session_key ∷ number limit ∷ []) c in
      if not (usable c)
      then (false, [], c)
      else if not done
      then (false, [], c')
      else fetch_history_rows client codes c'.stmts.history c'

  -- The reading of the counter's row: whether a result was taken, whether it had a row, and its
  -- value.
  unfoldable pub read_counter : MysqlConnection Lib → Bool × Bool × ℕ × MysqlConnection Lib
  read_counter c =
      let stmt = c.stmts.counter_read in
      let (taken, c') = take_result client codes stmt c in
      let (fetched, cells, c'') = fetch_one client codes stmt c' in
      if not taken
      then (false, false, 0, c')
      else (true, fetched, (if fetched then first_number cells else 0), c'')

  -- The request was applied before: the present value is the answer.
  unfoldable pub counter_again :
      List ℕ → MysqlConnection Lib → Bool × ℕ × Bool × MysqlConnection Lib
  counter_again session_key c =
      let (done, c') = exec client codes c.stmts.counter_read (text session_key ∷ []) c in
      let (taken, fetched, value, c'') = read_counter c' in
      if not done
      then (false, 0, true, c')
      else if not taken
      then (false, 0, true, c'')
      else (true, value, true, c'')

  unfoldable pub counter_commit : ℕ → MysqlConnection Lib → Bool × ℕ × Bool × MysqlConnection Lib
  counter_commit value c =
      let (done, lib) = client.commit c.lib in
      let c' = record c { lib = lib } in
      if not done then (false, 0, false, note_failure client codes c') else (true, value, false, c')

  -- From the reading of the new value on.
  unfoldable pub counter_read_back :
      List ℕ → MysqlConnection Lib → Bool × ℕ × Bool × MysqlConnection Lib
  counter_read_back session_key c =
      let (done, c') = exec client codes c.stmts.counter_read (text session_key ∷ []) c in
      let (taken, fetched, value, c'') = read_counter c' in
      if not done
      then (false, 0, false, rollback client codes c')
      else if not taken
      then (false, 0, false, rollback client codes c'')
      else if not fetched
      then (false, 0, false, rollback client codes c'')
      else counter_commit value c''

  unfoldable pub counter_bump : List ℕ → MysqlConnection Lib → Bool × ℕ × Bool × MysqlConnection Lib
  counter_bump session_key c =
      let (done, c') = exec client codes c.stmts.counter_bump (text session_key ∷ []) c in
      if not done
      then (false, 0, false, rollback client codes c')
      else counter_read_back session_key c'

  -- From the claim of the request's key on.
  unfoldable pub counter_claim :
      List ℕ → List ℕ → MysqlConnection Lib → Bool × ℕ × Bool × MysqlConnection Lib
  counter_claim session_key request_key c =
      let (done, c') =
        exec client codes c.stmts.counter_claim (text request_key ∷ text session_key ∷ []) c in
      let back = rollback client codes c' in
      if done
      then counter_bump session_key c'
      else if c'.last_errno == codes.dup_entry
      then counter_again session_key back
      else (false, 0, false, back)

  unfoldable pub counter_direct :
      List ℕ → List ℕ → MysqlConnection Lib → Bool × ℕ × Bool × MysqlConnection Lib
  counter_direct session_key request_key c =
      let (begun, c') = run_plain client codes start_transaction c in
      if not (usable c)
      then (false, 0, false, c)
      else if not begun
      then (false, 0, false, c')
      else counter_claim session_key request_key c'
