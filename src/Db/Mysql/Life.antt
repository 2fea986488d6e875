-- ===== src/Db/Mysql/Life.antt =====
-- src/db/mysql_connection.cpp: a connection over any calls of its public functions.
use iocp_echo_server.Base.{
  ℕ, ◌≡◌, refl, sym, ap, subst, ◌∙◌, Bool, true, false, Bool-cases, inl, inr, if◌then◌else◌, List,
  [], ◌∷◌, arith,
}
use iocp_echo_server.Db.Mysql.{
  ConnectionConfig, Sql, Client, Statements, no_statements, MysqlConnection, Codes, usable,
}
use iocp_echo_server.Db.Mysql.Session.{
  Item, direct_items, proc_items, close_statements, close, prepare_one, prepare_loop, prepare_all,
  connect, open_with, ping, ensure_usable, begin_batch, commit_batch, rollback_batch,
}
use iocp_echo_server.Db.Mysql.Port.{save, history, counter}
use iocp_echo_server.Db.Mysql.Prepared.{
  Kept, Stored, Ready, Prepared, Kept-Prepared, begin_batch-Kept, commit_batch-Kept,
  rollback_batch-Kept,
}
use iocp_echo_server.Db.Mysql.Keeps.{save-Kept, history-Kept, counter-Kept}

-- As `MysqlConnection` is made.
abbrev pub new_connection : {Lib : Type 0} → ConnectionConfig → Lib → MysqlConnection Lib
new_connection cfg lib = record {
  cfg = cfg;
  opened = false;
  broken = true;
  stmts = no_statements;
  last_errno = 0;
  lib = lib;
}

module _ {Lib : Type 0} (client : Client Lib) (codes : Codes) where
  -- A call of a public function.
  pub data Calls : MysqlConnection Lib → MysqlConnection Lib → Type 0 where
    opens :
        (cfg : ConnectionConfig) (c : MysqlConnection Lib)
        → Calls c (open_with client codes cfg c).1
    closes : (c : MysqlConnection Lib) → Calls c (close client codes c)
    pings : (c : MysqlConnection Lib) → Calls c (ping client codes c).1
    ensures : (c : MysqlConnection Lib) → Calls c (ensure_usable client codes c).1
    saves :
        (key payload : List ℕ) (c : MysqlConnection Lib)
        → Calls c (save client codes key payload c).2
    histories :
        (key : List ℕ) (limit : ℕ) (c : MysqlConnection Lib)
        → Calls c (history client codes key limit c).2
    counters :
        (key request : List ℕ) (c : MysqlConnection Lib)
        → Calls c (counter client codes key request c).3
    begins : (c : MysqlConnection Lib) → Calls c (begin_batch client codes c).1
    commits : (c : MysqlConnection Lib) → Calls c (commit_batch client codes c).1
    rolls_back : (c : MysqlConnection Lib) → Calls c (rollback_batch client codes c)

  pub data Lives : MysqlConnection Lib → MysqlConnection Lib → Type 0 where
    new : {c : MysqlConnection Lib} → Lives c c
    then_calls : {b c d : MysqlConnection Lib} → Lives b c → Calls c d → Lives b d

module _ {Lib : Type 0} (client : Client Lib) (codes : Codes) (P : Sql → ℕ → Type 0)
    (prepares : (stmt : ℕ) (sql : Sql) (lib : Lib)
      → (client.stmt_prepare stmt sql lib).0 ≡ true
      → P sql stmt) where
  -- The statements that the items prepare, each there and prepared with the item's text.
  abbrev Filled : List Item → Statements → Statements → Type 0
  Filled [] s t = t ≡ s
  Filled (item ∷ rest) s t = (h : ℕ) × Stored P item.sql h × Filled rest (item.put h s) t

  prepare_one_sets :
      (item : Item) (c : MysqlConnection Lib)
      → (prepare_one client codes item c).0 ≡ true
      → Stored P item.sql (client.stmt_init c.lib).0
        × ((prepare_one client codes item c).1.stmts ≡ item.put (client.stmt_init c.lib).0 c.stmts)
        × ((prepare_one client codes item c).1.cfg ≡ c.cfg)
  unfolding prepare_one
  prepare_one_sets item c e =
      let (stmt, lib) = client.stmt_init c.lib in
      elim (Bool-cases (client.stmt_prepare stmt item.sql lib).0) [
        | inl done ↦ ((ground arith, prepares stmt item.sql lib done), ground arith, ground arith)
        | inr not_done ↦ absurd (ground arith)
      ]

  prepare_loop-Filled :
      (items : List Item) (c : MysqlConnection Lib)
      → (prepare_loop client codes items c).0 ≡ true
      → Filled items c.stmts (prepare_loop client codes items c).1.stmts
        × ((prepare_loop client codes items c).1.cfg ≡ c.cfg)
  unfolding prepare_loop
  prepare_loop-Filled [] c e = (refl, refl)
  prepare_loop-Filled (item ∷ rest) c e = elim (Bool-cases (prepare_one client codes item c).0) [
    | inl done ↦
        let (there, set_, same) = prepare_one_sets item c done in
        let d = (prepare_one client codes item c).1 in
        let (filled, cfg) = prepare_loop-Filled rest d (
          subst (λ b. (if b then prepare_loop client codes rest d else (false, d)).0 ≡ true) done
            e) in
        simp done (
          (
            (client.stmt_init c.lib).0,
            there,
            subst (λ s. Filled rest s (prepare_loop client codes rest d).1.stmts) set_ filled,
          ),
          cfg ∙ same,
        )
    | inr stopped ↦ ground (arith, stopped, e)
  ]

  direct-Ready : (s t : Statements) → Filled direct_items s t → Ready P false t
  direct-Ready s t (a, p, (b, q, (c, r, (d, u, (e, v, w))))) =
      subst (Ready P false) (sym w) (p, q, r, u, v)

  proc-Ready : (s t : Statements) → Filled proc_items s t → Ready P true t
  proc-Ready s t (a, p, (b, q, (c, r, w))) = subst (Ready P true) (sym w) (p, q, r)

  close-Prepared : (c : MysqlConnection Lib) → Prepared P (close client codes c)
  unfolding close close_statements usable
  close-Prepared c u = absurd (ground arith)

  ping-Kept : (c : MysqlConnection Lib) → Kept c (ping client codes c).1
  unfolding ping
  ping-Kept c = ground arith

  path-Ready :
      (b : Bool) (c : MysqlConnection Lib)
      → b ≡ c.cfg.use_procedures
      → let (done, d) = prepare_loop client codes (if b then proc_items else direct_items) c in
        done ≡ true → Ready P d.cfg.use_procedures d.stmts
  path-Ready true c h e =
      let (filled, cfg) = prepare_loop-Filled proc_items c e in
      let d = (prepare_loop client codes proc_items c).1 in
      subst (λ b. Ready P b d.stmts) (h ∙ ap (λ a. a.use_procedures) (sym cfg))
        (proc-Ready c.stmts d.stmts filled)
  path-Ready false c h e =
      let (filled, cfg) = prepare_loop-Filled direct_items c e in
      let d = (prepare_loop client codes direct_items c).1 in
      subst (λ b. Ready P b d.stmts) (h ∙ ap (λ a. a.use_procedures) (sym cfg))
        (direct-Ready c.stmts d.stmts filled)

  prepare_all-Ready :
      (c : MysqlConnection Lib)
      → (prepare_all client codes c).0 ≡ true
      → let d = (prepare_all client codes c).1 in Ready P d.cfg.use_procedures d.stmts
  unfolding prepare_all
  prepare_all-Ready c e = path-Ready c.cfg.use_procedures c refl e

  connect-Prepared : (c : MysqlConnection Lib) → Prepared P (connect client codes c).1
  unfolding connect
  connect-Prepared c =
      let (connected, lib) = client.real_connect c.cfg c.lib in
      let c' = record c { lib = lib } in
      elim (Bool-cases connected) [
        | inl up ↦ elim (Bool-cases (prepare_all client codes c').0) [
          | inl e ↦ simp (up, e) (λ u. prepare_all-Ready c' e)
          | inr e ↦ simp (up, e) (close-Prepared (prepare_all client codes c').1)
        ]
        | inr down ↦ simp down (unfold usable in (λ u. absurd (ground arith)))
      ]

  open-Prepared :
      (cfg : ConnectionConfig) (c : MysqlConnection Lib)
      → Prepared P (open_with client codes cfg c).1
  unfolding open_with close
  open-Prepared cfg c =
      let c' = close client codes (record c { cfg = cfg }) in
      let (made, lib) = client.init c'.lib in
      elim (Bool-cases made) [
        | inl e ↦ simp e (connect-Prepared _)
        | inr e ↦ simp e (unfold usable in (λ u. absurd (ground arith)))
      ]

  ensure-Prepared :
      (c : MysqlConnection Lib) → Prepared P c → Prepared P (ensure_usable client codes c).1
  unfolding ensure_usable
  ensure-Prepared c p = elim (Bool-cases (usable c)) [
    | inl e ↦ simp e (λ u. p e)
    | inr e ↦ simp e (open-Prepared c.cfg c)
  ]

  Calls-Prepared :
      {c d : MysqlConnection Lib} → Calls client codes c d → Prepared P c → Prepared P d
  Calls-Prepared (opens cfg c) p = open-Prepared cfg c
  Calls-Prepared (closes c) p = close-Prepared c
  Calls-Prepared (pings c) p = Kept-Prepared P c _ (ping-Kept c) p
  Calls-Prepared (ensures c) p = ensure-Prepared c p
  Calls-Prepared (saves key payload c) p =
      Kept-Prepared P c _ (save-Kept client codes key payload c) p
  Calls-Prepared (histories key limit c) p =
      Kept-Prepared P c _ (history-Kept client codes key limit c) p
  Calls-Prepared (counters key request c) p =
      Kept-Prepared P c _ (counter-Kept client codes key request c) p
  Calls-Prepared (begins c) p = Kept-Prepared P c _ (begin_batch-Kept client codes c) p
  Calls-Prepared (commits c) p = Kept-Prepared P c _ (commit_batch-Kept client codes c) p
  Calls-Prepared (rolls_back c) p = Kept-Prepared P c _ (rollback_batch-Kept client codes c) p

  -- After any calls on a new database connection, whatever the client library answers, and for
  -- any meaning of prepared that a success of mysql_stmt_prepare with a text on a handle gives:
  -- if the connection is usable, every statement of the path that it is set to has a handle that
  -- is there and is prepared with that statement's own text.
  pub usable-Prepared :
      (cfg : ConnectionConfig) (lib : Lib) {c : MysqlConnection Lib}
      → Lives client codes (new_connection cfg lib) c
      → Prepared P c
  unfolding usable
  usable-Prepared cfg lib new = λ u. absurd (ground arith)
  usable-Prepared cfg lib (then_calls l k) = Calls-Prepared k (usable-Prepared cfg lib l)
