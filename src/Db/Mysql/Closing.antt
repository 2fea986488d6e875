-- ===== src/Db/Mysql/Closing.antt =====
-- src/db/mysql_connection.cpp: the transaction of the counter on the path by single statements.
use iocp_echo_server.Base.{
  ℕ, ◌≡◌, refl, ap, ◌∙◌, inl, inr, Bool, true, false, ◌==◌, Bool-cases, List, [], ◌∷◌, arith,
}
use iocp_echo_server.Base.Table.{number→≡}
use iocp_echo_server.Db.Mysql.{
  Client, MysqlConnection, Codes, usable, Cell, text, start_transaction,
}
use iocp_echo_server.Db.Mysql.Session.{
  exec, run_plain, note_failure, note_stmt_failure, note_errno, rollback,
}
use iocp_echo_server.Db.Mysql.Rows.{take_result, fetch_one, free_result}
use iocp_echo_server.Db.Mysql.Direct.{
  read_counter, counter_again, counter_commit, counter_read_back, counter_bump, counter_claim,
  counter_direct,
}

-- What the library documents of transactions: a commit and a rollback that work end the one that
-- is open, a query that fails opens none, and reading outside of one opens none.
pub record Transactions {Lib : Type 0} (client : Client Lib) : Type 0 where
  pub in_transaction : Lib → Bool
  pub query_failed :
      (lib : Lib)
      → in_transaction lib ≡ false
      → (client.real_query start_transaction lib).0 ≡ false
      → in_transaction (client.real_query start_transaction lib).1 ≡ false
  pub commit_ends :
      (lib : Lib) → (client.commit lib).0 ≡ true → in_transaction (client.commit lib).1 ≡ false
  pub rollback_ends :
      (lib : Lib) → (client.rollback lib).0 ≡ true → in_transaction (client.rollback lib).1 ≡ false
  pub bind_param_keeps :
      (stmt : ℕ) (params : List Cell) (lib : Lib)
      → in_transaction (client.bind_param stmt params lib).1 ≡ in_transaction lib
  pub execute_opens_none :
      (stmt : ℕ) (lib : Lib)
      → in_transaction lib ≡ false
      → in_transaction (client.execute stmt lib).1 ≡ false
  pub bind_result_keeps :
      (stmt : ℕ) (lib : Lib) → in_transaction (client.bind_result stmt lib).1 ≡ in_transaction lib
  pub store_result_keeps :
      (stmt : ℕ) (lib : Lib) → in_transaction (client.store_result stmt lib).1 ≡ in_transaction lib
  pub fetch_keeps :
      (stmt : ℕ) (lib : Lib) → in_transaction (client.fetch stmt lib).1 ≡ in_transaction lib
  pub free_result_keeps :
      (stmt : ℕ) (lib : Lib) → in_transaction (client.free_result stmt lib) ≡ in_transaction lib

module _ {Lib : Type 0} (client : Client Lib) (codes : Codes) (tx : Transactions client) where
  abbrev pub Idle : MysqlConnection Lib → Type 0
  Idle c = tx.in_transaction c.lib ≡ false

  -- How a counter with a session's key may end: with no transaction open; or the last call of
  -- the library was a commit that failed, and the answer says that the counter failed; or a
  -- rollback failed, which the program does not look at. Then that was the last call and the
  -- answer says that the counter failed, or the counter went on as one that was applied before.
  pub data Settled (key : List ℕ) : Bool × ℕ × Bool × MysqlConnection Lib → Type 0 where
    none_open :
        (r : Bool × ℕ × Bool × MysqlConnection Lib)
        → tx.in_transaction r.3.lib ≡ false
        → Settled key r
    commit_failed :
        (lib : Lib) (r : Bool × ℕ × Bool × MysqlConnection Lib)
        → (client.commit lib).0 ≡ false
        → r.0 ≡ false
        → r.3.lib ≡ (client.commit lib).1
        → Settled key r
    rollback_failed :
        (d : MysqlConnection Lib)
        → (client.rollback d.lib).0 ≡ false
        → Settled key (false, 0, false, rollback client codes d)
    rollback_failed_before :
        (d : MysqlConnection Lib)
        → (client.rollback d.lib).0 ≡ false
        → d.last_errno ≡ codes.dup_entry
        → Settled key (counter_again client codes key (rollback client codes d))

  exec-Idle :
      (stmt : ℕ) (params : List Cell) (c : MysqlConnection Lib)
      → Idle c
      → Idle (exec client codes stmt params c).1
  unfolding exec note_stmt_failure note_errno
  exec-Idle stmt params c h =
      let bound = tx.bind_param_keeps stmt params c.lib ∙ h in
      ground
        (arith, bound, tx.execute_opens_none stmt (client.bind_param stmt params c.lib).1 bound)

  read_counter-Idle : (c : MysqlConnection Lib) → Idle c → Idle (read_counter client codes c).3
  unfolding read_counter take_result fetch_one free_result note_stmt_failure note_errno
  read_counter-Idle c h =
      let stmt = c.stmts.counter_read in
      let l1 = (client.bind_result stmt c.lib).1 in
      let l2 = (client.store_result stmt l1).1 in
      let bound = tx.bind_result_keeps stmt c.lib ∙ h in
      let stored = tx.store_result_keeps stmt l1 ∙ bound in
      let fetched = tx.fetch_keeps stmt l2 ∙ stored in
      let freed = tx.free_result_keeps stmt (client.fetch stmt l2).1 ∙ fetched in
      elim (Bool-cases (client.bind_result stmt c.lib).0) [
        | inl e ↦ elim (Bool-cases (client.store_result stmt l1).0) [
          | inl f ↦ simp (e, f) freed
          | inr f ↦ simp (e, f) stored
        ]
        | inr e ↦ simp e bound
      ]

  counter_again-Idle :
      (key : List ℕ) (c : MysqlConnection Lib) → Idle c → Idle (counter_again client codes key c).3
  unfolding counter_again
  counter_again-Idle key c h =
      let d = (exec client codes c.stmts.counter_read (text key ∷ []) c).1 in
      let i = exec-Idle c.stmts.counter_read (text key ∷ []) c h in
      ground (arith, i, read_counter-Idle d i)

  note_failure_lib : (c : MysqlConnection Lib) → (note_failure client codes c).lib ≡ c.lib
  unfolding note_failure note_errno
  note_failure_lib c = ground arith

  counter_commit-Settled :
      (key : List ℕ) (value : ℕ) (c : MysqlConnection Lib)
      → Settled key (counter_commit client codes value c)
  unfolding counter_commit
  counter_commit-Settled key value c = elim (Bool-cases (client.commit c.lib).0) [
    | inl e ↦ simp e (none_open _ (tx.commit_ends c.lib e))
    | inr e ↦ simp e (
        commit_failed c.lib _ e refl
          (note_failure_lib (record c { lib = (client.commit c.lib).1 })))
  ]

  rollback-Idle :
      (d : MysqlConnection Lib) → (client.rollback d.lib).0 ≡ true → Idle (rollback client codes d)
  unfolding rollback
  rollback-Idle d e = tx.rollback_ends d.lib e

  rollback-Settled :
      (key : List ℕ) (d : MysqlConnection Lib)
      → Settled key (false, 0, false, rollback client codes d)
  rollback-Settled key d = elim (Bool-cases (client.rollback d.lib).0) [
    | inl e ↦ none_open _ (rollback-Idle d e)
    | inr e ↦ rollback_failed d e
  ]

  counter_again-Settled :
      (key : List ℕ) (d : MysqlConnection Lib)
      → d.last_errno ≡ codes.dup_entry
      → Settled key (counter_again client codes key (rollback client codes d))
  counter_again-Settled key d dup = elim (Bool-cases (client.rollback d.lib).0) [
    | inl e ↦ none_open _ (counter_again-Idle key (rollback client codes d) (rollback-Idle d e))
    | inr e ↦ rollback_failed_before d e dup
  ]

  counter_read_back-Settled :
      (key : List ℕ) (c : MysqlConnection Lib) → Settled key (counter_read_back client codes key c)
  unfolding counter_read_back
  counter_read_back-Settled key c =
      let (done, d) = exec client codes c.stmts.counter_read (text key ∷ []) c in
      let (taken, fetched, value, e) = read_counter client codes d in
      elim (Bool-cases done) [
        | inl p ↦ elim (Bool-cases taken) [
          | inl q ↦ elim (Bool-cases fetched) [
            | inl r ↦ simp (p, q, r) (counter_commit-Settled key value e)
            | inr r ↦ simp (p, q, r) (rollback-Settled key e)
          ]
          | inr q ↦ simp (p, q) (rollback-Settled key e)
        ]
        | inr p ↦ simp p (rollback-Settled key d)
      ]

  counter_bump-Settled :
      (key : List ℕ) (c : MysqlConnection Lib) → Settled key (counter_bump client codes key c)
  unfolding counter_bump
  counter_bump-Settled key c =
      let (done, d) = exec client codes c.stmts.counter_bump (text key ∷ []) c in
      elim (Bool-cases done) [
        | inl p ↦ simp p (counter_read_back-Settled key d)
        | inr p ↦ simp p (rollback-Settled key d)
      ]

  counter_claim-Settled :
      (key request : List ℕ) (c : MysqlConnection Lib)
      → Settled key (counter_claim client codes key request c)
  unfolding counter_claim
  counter_claim-Settled key request c =
      let params = text request ∷ text key ∷ [] in
      let (done, d) = exec client codes c.stmts.counter_claim params c in
      elim (Bool-cases done) [
        | inl p ↦ simp p (counter_bump-Settled key d)
        | inr p ↦ elim (Bool-cases (d.last_errno == codes.dup_entry)) [
          | inl q ↦ simp (p, q) (counter_again-Settled key d (number→≡ _ _ q))
          | inr q ↦ simp (p, q) (rollback-Settled key d)
        ]
      ]

  -- Where the client library keeps to what it documents of transactions and none is open, a
  -- counter on the path by single statements leaves none open, or its last call of the library
  -- was a commit or a rollback that failed and it answers that it failed, or a rollback failed
  -- after the key of the request was found applied before.
  pub counter_closes :
      (key request : List ℕ) (c : MysqlConnection Lib)
      → Idle c
      → Settled key (counter_direct client codes key request c)
  unfolding counter_direct run_plain
  counter_closes key request c h =
      let (begun, lib) = client.real_query start_transaction c.lib in
      let d = record c { lib = lib } in
      elim (Bool-cases (usable c)) [
        | inl u ↦ elim (Bool-cases begun) [
          | inl p ↦ simp (u, p) (counter_claim-Settled key request d)
          | inr p ↦
              simp (u, p)
                (none_open _
                  (ap tx.in_transaction (note_failure_lib d) ∙ tx.query_failed c.lib h p))
        ]
        | inr u ↦ simp u (none_open _ h)
      ]
