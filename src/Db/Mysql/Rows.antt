-- ===== src/Db/Mysql/Rows.antt =====
-- src/db/mysql_connection.cpp: how results are read. The two loops run on fuel: one round for each
-- row or result that is left, and one more.
use iocp_echo_server.Base.{
  ℕ, zero, suc, Bool, true, false, not, if◌then◌else◌, List, [], ◌∷◌, ◌++◌, take,
}
use iocp_echo_server.Db.Types.{LogRow}
use iocp_echo_server.Db.Mysql.{
  Cell, text, number, null, Fetched, row, truncated, no_data, failed, Client, MysqlConnection,
  Codes, max_payload_len,
}
use iocp_echo_server.Db.Mysql.Session.{note_stmt_failure}

-- A bound number keeps its value where a column is null.
unfoldable pub number_or : ℕ → Cell → ℕ
number_or old (number n) = n
number_or old (text t) = old
number_or old null = old

unfoldable pub payload_of : Cell → List ℕ
payload_of (text t) = take max_payload_len t
payload_of (number n) = []
payload_of null = []

-- The bound variables after a fetch of the three columns: the last values, and the new row.
unfoldable pub row_of : LogRow → List Cell → LogRow
row_of last (id ∷ payload ∷ ms ∷ []) = record {
  log_id = number_or last.log_id id;
  payload = payload_of payload;
  created_at_ms = number_or last.created_at_ms ms;
}
row_of last _ = last

abbrev pub no_row : LogRow
no_row = record { log_id = 0; payload = []; created_at_ms = 0 }

-- One number of a row of one or two columns.
unfoldable pub first_number : List Cell → ℕ
first_number [] = 0
first_number (c ∷ rest) = number_or 0 c

unfoldable pub second_number : List Cell → ℕ
second_number [] = 0
second_number (c ∷ rest) = first_number rest

-- Whether the fetch answered 0, and the row.
unfoldable pub one_row : Fetched → Bool × List Cell
one_row (row cells) = (true, cells)
one_row (truncated cells) = (false, cells)
one_row no_data = (false, [])
one_row failed = (false, [])

module _ {Lib : Type 0} (client : Client Lib) (codes : Codes) where
  unfoldable pub free_result : ℕ → MysqlConnection Lib → MysqlConnection Lib
  free_result stmt c = record c { lib = client.free_result stmt c.lib }

  -- One round of the loop over the rows; `rest` is the loop from there on.
  unfoldable pub fetch_round :
      (LogRow → List LogRow → MysqlConnection Lib → Bool × List LogRow × MysqlConnection Lib)
      → ℕ
      → LogRow
      → List LogRow
      → Fetched
      → MysqlConnection Lib
      → Bool × List LogRow × MysqlConnection Lib
  fetch_round rest stmt last rows (row cells) c =
      let found = row_of last cells in rest found (rows ++ (found ∷ [])) c
  fetch_round rest stmt last rows (truncated cells) c =
      let found = row_of last cells in rest found (rows ++ (found ∷ [])) c
  fetch_round rest stmt last rows no_data c = (true, rows, free_result stmt c)
  fetch_round rest stmt last rows failed c =
      (false, rows, free_result stmt (note_stmt_failure client codes stmt c))

  unfoldable pub fetch_loop :
      ℕ → ℕ → LogRow → List LogRow → MysqlConnection Lib → Bool × List LogRow × MysqlConnection Lib
  fetch_loop zero stmt last rows c = (true, rows, c)
  fetch_loop (suc fuel) stmt last rows c =
      let (fetched, lib) = client.fetch stmt c.lib in
      fetch_round (λ found rows' c'. fetch_loop fuel stmt found rows' c') stmt last rows fetched
        (record c { lib = lib })

  -- `bind_result` and then `store_result`, the second only where the first worked.
  unfoldable pub take_result : ℕ → MysqlConnection Lib → Bool × MysqlConnection Lib
  take_result stmt c =
      let (bound, lib) = client.bind_result stmt c.lib in
      let (stored, lib') = client.store_result stmt lib in
      if not bound
      then (false, note_stmt_failure client codes stmt (record c { lib = lib }))
      else if not stored
      then (false, note_stmt_failure client codes stmt (record c { lib = lib' }))
      else (true, record c { lib = lib' })

  unfoldable pub fetch_history_rows :
      ℕ → MysqlConnection Lib → Bool × List LogRow × MysqlConnection Lib
  fetch_history_rows stmt c =
      let (taken, c') = take_result stmt c in
      if not taken
      then (false, [], c')
      else fetch_loop (suc (client.rows_left stmt c'.lib)) stmt no_row [] c'

  -- The one row of a result, where there is one, and the result set free.
  unfoldable pub fetch_one : ℕ → MysqlConnection Lib → Bool × List Cell × MysqlConnection Lib
  fetch_one stmt c =
      let (fetched, lib) = client.fetch stmt c.lib in
      let (got, cells) = one_row fetched in (got, cells, free_result stmt (record c { lib = lib }))

  unfoldable pub drain_loop : ℕ → ℕ → Lib → Lib
  drain_loop zero stmt lib = lib
  drain_loop (suc fuel) stmt lib =
      let (more, lib') = client.next_result stmt lib in
      let rest = drain_loop fuel stmt (client.free_result stmt lib') in if more then rest else lib'

  unfoldable pub drain_extra_results : ℕ → MysqlConnection Lib → MysqlConnection Lib
  drain_extra_results stmt c = record c {
    lib = drain_loop (suc (client.results_left stmt c.lib)) stmt c.lib;
  }
