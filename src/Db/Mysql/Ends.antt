-- ===== src/Db/Mysql/Ends.antt =====
-- src/db/mysql_connection.cpp: the loops over rows and over further results, on their fuel.
use iocp_echo_server.Base.{
  ℕ, zero, suc, ◌+◌, ◌<◌, ◌≡◌, refl, Bool, true, false, Bool-cases, inl, inr, List, [], arith,
}
use iocp_echo_server.Db.Types.{LogRow}
use iocp_echo_server.Db.Mysql.{
  Client, MysqlConnection, Codes, Fetched, row, truncated, no_data, failed,
}
use iocp_echo_server.Db.Mysql.Rows.{fetch_round, fetch_loop, drain_loop, no_row}

unfoldable pub gives_row : Fetched → Bool
gives_row (row cells) = true
gives_row (truncated cells) = true
gives_row no_data = false
gives_row failed = false

-- What the library documents of results: a stored result has so many rows, and a statement so many
-- further results, each given once.
pub record Finite {Lib : Type 0} (client : Client Lib) : Type 0 where
  pub fetch_takes :
      (stmt : ℕ) (lib : Lib)
      → gives_row (client.fetch stmt lib).0 ≡ true
      → client.rows_left stmt (client.fetch stmt lib).1 < client.rows_left stmt lib
  pub next_result_takes :
      (stmt : ℕ) (lib : Lib)
      → (client.next_result stmt lib).0 ≡ true
      → client.results_left stmt (client.free_result stmt (client.next_result stmt lib).1)
        < client.results_left stmt lib

module _ {Lib : Type 0} (client : Client Lib) (codes : Codes) (finite : Finite client) where
  -- Two rounds that go on alike where a row came are alike.
  round_alike :
      (f g : LogRow → List LogRow → MysqlConnection Lib → Bool × List LogRow × MysqlConnection Lib)
      (stmt : ℕ) (last : LogRow) (rows : List LogRow) (fetched : Fetched) (c : MysqlConnection Lib)
      → (gives_row fetched ≡ true → (l : LogRow) (r : List LogRow) → f l r c ≡ g l r c)
      → fetch_round client codes f stmt last rows fetched c
        ≡ fetch_round client codes g stmt last rows fetched c
  unfolding fetch_round gives_row
  round_alike f g stmt last rows (row cells) c h = h refl _ _
  round_alike f g stmt last rows (truncated cells) c h = h refl _ _
  round_alike f g stmt last rows no_data c h = refl
  round_alike f g stmt last rows failed c h = refl

  fetch_enough :
      (n m stmt : ℕ) (last : LogRow) (rows : List LogRow) (c : MysqlConnection Lib)
      → client.rows_left stmt c.lib < n
      → client.rows_left stmt c.lib < m
      → fetch_loop client codes n stmt last rows c ≡ fetch_loop client codes m stmt last rows c
  unfolding fetch_loop
  fetch_enough zero m stmt last rows c p q = absurd (omega (arith, p))
  fetch_enough (suc n) zero stmt last rows c p q = absurd (omega (arith, q))
  fetch_enough (suc n) (suc m) stmt last rows c p q =
      let (fetched, lib) = client.fetch stmt c.lib in
      let c' = record c { lib = lib } in
      round_alike (λ l r d. fetch_loop client codes n stmt l r d)
        (λ l r d. fetch_loop client codes m stmt l r d) stmt last rows fetched c'
        (λ e l r.
          let less = finite.fetch_takes stmt c.lib e in
          fetch_enough n m stmt l r c' (omega (arith, less, p)) (omega (arith, less, q)))

  drain_enough :
      (n m stmt : ℕ) (lib : Lib)
      → client.results_left stmt lib < n
      → client.results_left stmt lib < m
      → drain_loop client codes n stmt lib ≡ drain_loop client codes m stmt lib
  unfolding drain_loop
  drain_enough zero m stmt lib p q = absurd (omega (arith, p))
  drain_enough (suc n) zero stmt lib p q = absurd (omega (arith, q))
  drain_enough (suc n) (suc m) stmt lib p q = elim (Bool-cases (client.next_result stmt lib).0) [
    | inl e ↦
        let less = finite.next_result_takes stmt lib e in
        simp e (
          drain_enough n m stmt (client.free_result stmt (client.next_result stmt lib).1)
            (omega (arith, less, p)) (omega (arith, less, q)))
    | inr e ↦ simp e refl
  ]

  -- Where each row and each further result of a statement is given once: the loop over the rows
  -- and the loop that drains further results are run to their ends, as more rounds than their
  -- fuel change nothing.
  pub loops_end :
      (more stmt : ℕ) (c : MysqlConnection Lib)
      → (fetch_loop client codes (suc (client.rows_left stmt c.lib) + more) stmt no_row [] c
          ≡ fetch_loop client codes (suc (client.rows_left stmt c.lib)) stmt no_row [] c)
        × (drain_loop client codes (suc (client.results_left stmt c.lib) + more) stmt c.lib
            ≡ drain_loop client codes (suc (client.results_left stmt c.lib)) stmt c.lib)
  loops_end more stmt c = (
    fetch_enough _ _ stmt no_row [] c (omega arith) (omega arith),
    drain_enough _ _ stmt c.lib (omega arith) (omega arith),
  )
