-- ===== src/Db/Mysql/Port.antt =====
-- src/db/mysql_connection.cpp: the choice between the two paths, and the connection as what the
-- workers of src/db/db_worker_pool.cpp use. Their clock is beside it.
use iocp_echo_server.Base.{ℕ, Bool, false, not, if◌then◌else◌, List, []}
use iocp_echo_server.Db.Types.{LogRow}
use iocp_echo_server.Db.Worker.{Database}
use iocp_echo_server.Db.Mysql.{Client, MysqlConnection, Codes, usable}
use iocp_echo_server.Db.Mysql.Session.{ensure_usable, begin_batch, commit_batch, rollback_batch}
use iocp_echo_server.Db.Mysql.Direct.{save_direct, history_direct, counter_direct}
use iocp_echo_server.Db.Mysql.Procedures.{save_proc, history_proc, counter_proc}

module _ {Lib : Type 0} (client : Client Lib) (codes : Codes) where
  unfoldable pub save : List ℕ → List ℕ → MysqlConnection Lib → Bool × ℕ × MysqlConnection Lib
  save session_key payload c =
      if not (usable c)
      then (false, 0, c)
      else if c.cfg.use_procedures
      then save_proc client codes session_key payload c
      else save_direct client codes session_key payload c

  unfoldable pub history :
      List ℕ → ℕ → MysqlConnection Lib → Bool × List LogRow × MysqlConnection Lib
  history session_key limit c =
      if not (usable c)
      then (false, [], c)
      else if c.cfg.use_procedures
      then history_proc client codes session_key limit c
      else history_direct client codes session_key limit c

  unfoldable pub counter :
      List ℕ → List ℕ → MysqlConnection Lib → Bool × ℕ × Bool × MysqlConnection Lib
  counter session_key request_key c =
      if not (usable c)
      then (false, 0, false, c)
      else if c.cfg.use_procedures
      then counter_proc client codes session_key request_key c
      else counter_direct client codes session_key request_key c

  -- `now_us` reads the clock, which the library's state holds too.
  unfoldable pub database : (Lib → ℕ × Lib) → Database (MysqlConnection Lib)
  database clock = record {
    now_us = λ c. (let (now, lib) = clock c.lib in (now, record c { lib = lib }));
    usable = usable;
    ensure_usable = ensure_usable client codes;
    save = save;
    history = history;
    counter = counter;
    begin_batch = begin_batch client codes;
    commit_batch = commit_batch client codes;
    rollback_batch = rollback_batch client codes;
  }
