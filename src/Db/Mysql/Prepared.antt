-- ===== src/Db/Mysql/Prepared.antt =====
-- src/db/mysql_connection.cpp: the statements of a connection that is usable, over any calls.
use iocp_echo_server.Base.{
  ℕ, zero, suc, ◌≡◌, refl, sym, subst, ◌∙◌, Bool, true, false, ◌==◌, List, [], arith,
}
use iocp_echo_server.Db.Types.{LogRow}
use iocp_echo_server.Db.Mysql.{
  Sql, Cell, Fetched, row, truncated, no_data, failed, Client, Statements, MysqlConnection, Codes,
  usable, start_transaction, sql_save, sql_history, sql_counter_claim, sql_counter_bump,
  sql_counter_read, call_save, call_history, call_counter,
}
use iocp_echo_server.Db.Mysql.Session.{
  note_errno, note_stmt_failure, note_failure, exec, run_plain, begin_batch, commit_batch, rollback,
  rollback_batch,
}
use iocp_echo_server.Db.Mysql.Rows.{
  free_result, fetch_round, fetch_loop, take_result, fetch_history_rows, fetch_one, no_row,
}

-- A handle that is there and that `P` says is prepared with the text.
abbrev pub Stored : (Sql → ℕ → Type 0) → Sql → ℕ → Type 0
Stored P sql stmt = ((stmt == 0) ≡ false) × P sql stmt

-- Every statement of the path is there, prepared with its own text.
abbrev pub Ready : (Sql → ℕ → Type 0) → Bool → Statements → Type 0
Ready P true s =
    Stored P call_save s.proc_save
    × Stored P call_history s.proc_history
    × Stored P call_counter s.proc_counter
Ready P false s =
    Stored P sql_save s.save
    × Stored P sql_history s.history
    × Stored P sql_counter_claim s.counter_claim
    × Stored P sql_counter_bump s.counter_bump
    × Stored P sql_counter_read s.counter_read

module _ {Lib : Type 0} where
  abbrev pub Prepared : (Sql → ℕ → Type 0) → MysqlConnection Lib → Type 0
  Prepared P c = usable c ≡ true → Ready P c.cfg.use_procedures c.stmts

  -- What a call other than opening leaves: the path, the statements, and no new life.
  abbrev pub Kept : MysqlConnection Lib → MysqlConnection Lib → Type 0
  Kept c d =
      (d.cfg ≡ c.cfg)
      × (d.stmts ≡ c.stmts)
      × (d.opened ≡ c.opened)
      × (c.broken ≡ true → d.broken ≡ true)

  pub Kept-trans : (b c d : MysqlConnection Lib) → Kept b c → Kept c d → Kept b d
  Kept-trans b c d (p, q, r, s) (p', q', r', s') = (p' ∙ p, q' ∙ q, r' ∙ r, λ e. s' (s e))

  pub Kept-Prepared :
      (P : Sql → ℕ → Type 0) (c d : MysqlConnection Lib) → Kept c d → Prepared P c → Prepared P d
  unfolding usable
  Kept-Prepared P c d (p, q, r, s) h u =
      subst (λ a. Ready P a.use_procedures d.stmts) (sym p)
        (subst (λ b. Ready P c.cfg.use_procedures b) (sym q) (h (ground arith)))

module _ {Lib : Type 0} (client : Client Lib) (codes : Codes) where
  pub exec-Kept :
      (stmt : ℕ) (params : List Cell) (c : MysqlConnection Lib)
      → Kept c (exec client codes stmt params c).1
  unfolding exec note_stmt_failure note_errno
  exec-Kept stmt params c = ground arith

  pub run_plain-Kept :
      (sql : Sql) (c : MysqlConnection Lib) → Kept c (run_plain client codes sql c).1
  unfolding run_plain note_failure note_errno
  run_plain-Kept sql c = ground arith

  pub begin_batch-Kept : (c : MysqlConnection Lib) → Kept c (begin_batch client codes c).1
  unfolding begin_batch
  begin_batch-Kept c = ground (arith, run_plain-Kept start_transaction c)

  pub commit_batch-Kept : (c : MysqlConnection Lib) → Kept c (commit_batch client codes c).1
  unfolding commit_batch note_failure note_errno
  commit_batch-Kept c = ground arith

  pub rollback_batch-Kept : (c : MysqlConnection Lib) → Kept c (rollback_batch client codes c)
  unfolding rollback_batch rollback
  rollback_batch-Kept c = ground arith

  pub take_result-Kept :
      (stmt : ℕ) (c : MysqlConnection Lib) → Kept c (take_result client codes stmt c).1
  unfolding take_result note_stmt_failure note_errno
  take_result-Kept stmt c = ground arith

  pub fetch_one-Kept :
      (stmt : ℕ) (c : MysqlConnection Lib) → Kept c (fetch_one client codes stmt c).2
  unfolding fetch_one free_result
  fetch_one-Kept stmt c = (refl, refl, refl, λ e. e)

  fetch_round-Kept :
      (rest : LogRow → List LogRow → MysqlConnection Lib → Bool × List LogRow × MysqlConnection Lib)
      (stmt : ℕ) (last : LogRow) (rows : List LogRow) (fetched : Fetched) (c : MysqlConnection Lib)
      → ((l : LogRow) (r : List LogRow) → Kept c (rest l r c).2)
      → Kept c (fetch_round client codes rest stmt last rows fetched c).2
  unfolding fetch_round free_result note_stmt_failure note_errno
  fetch_round-Kept rest stmt last rows (row cells) c h = h _ _
  fetch_round-Kept rest stmt last rows (truncated cells) c h = h _ _
  fetch_round-Kept rest stmt last rows no_data c h = (refl, refl, refl, λ e. e)
  fetch_round-Kept rest stmt last rows failed c h = ground arith

  fetch_loop-Kept :
      (fuel stmt : ℕ) (last : LogRow) (rows : List LogRow) (c : MysqlConnection Lib)
      → Kept c (fetch_loop client codes fuel stmt last rows c).2
  unfolding fetch_loop
  fetch_loop-Kept zero stmt last rows c = (refl, refl, refl, λ e. e)
  fetch_loop-Kept (suc fuel) stmt last rows c =
      let (fetched, lib) = client.fetch stmt c.lib in
      fetch_round-Kept _ stmt last rows fetched (record c { lib = lib })
        (λ l r. fetch_loop-Kept fuel stmt l r (record c { lib = lib }))

  pub fetch_history_rows-Kept :
      (stmt : ℕ) (c : MysqlConnection Lib) → Kept c (fetch_history_rows client codes stmt c).2
  unfolding fetch_history_rows
  fetch_history_rows-Kept stmt c =
      let d = (take_result client codes stmt c).1 in
      ground (
        arith,
        take_result-Kept stmt c,
        fetch_loop-Kept (suc (client.rows_left stmt d.lib)) stmt no_row [] d,
      )
