-- ===== src/App/Startup.antt =====
-- src/main.cpp: what is started and stopped, in which order, by what the starts return. The settings
-- that are read, the handlers that are set and the report in the main loop are left out; the loop
-- ends when the console asks for it. A part whose start failed and is not required counts as started:
-- its stop does nothing.
use iocp_echo_server.Base.{
  ℕ, ◌≡◌, Bool, true, false, not, ◌&&◌, ◌||◌, ◌==◌, ltb, if◌then◌else◌, List, [], ◌∷◌, ◌++◌, arith,
}

pub data Part : Type 0 where
  log library services pool io acceptor admin : Part

pub data Call : Type 0 where
  starts stops drains : Part → Call

-- Which of the starts work, and whether the administration port has to be open.
pub record Answers : Type 0 where
  pub library_inits : Bool
  pub services_start : Bool
  pub io_starts : Bool
  pub acceptor_starts : Bool
  pub admin_starts : Bool
  pub admin_required : Bool

-- The end of every path behind the start of the port's service.
abbrev stop_all : List Call
stop_all = stops io ∷ stops pool ∷ stops services ∷ []

unfoldable pub shut_down : List Call
shut_down =
    stops acceptor
    ∷ drains pool
    ∷ drains services
    ∷ drains io
    ∷ stops admin
    ∷ (stop_all ++ (stops library ∷ stops log ∷ []))

unfoldable pub with_admin : Answers → List Call
with_admin a =
    if not a.admin_starts && a.admin_required
    then stops acceptor ∷ (stop_all ++ (stops log ∷ []))
    else starts admin ∷ shut_down

-- A start of the acceptor that fails has stopped it.
unfoldable pub with_io : Answers → List Call
with_io a =
    if not a.acceptor_starts then stop_all ++ (stops log ∷ []) else starts acceptor ∷ with_admin a

unfoldable pub with_services : Answers → List Call
with_services a =
    if not a.io_starts then stops pool ∷ stops services ∷ stops log ∷ [] else starts io ∷ with_io a

-- The calls of a run, and the program's result.
unfoldable pub calls : Answers → List Call
calls a =
    starts log
    ∷ (if not a.library_inits
        then stops log ∷ []
        else starts library
          ∷ (if not a.services_start
              then stops log ∷ []
              else starts services ∷ starts pool ∷ with_services a))

unfoldable pub result : Answers → ℕ
result a =
    if a.library_inits
      && a.services_start
      && a.io_starts
      && a.acceptor_starts
      && (a.admin_starts || not a.admin_required)
    then 0
    else 1

-- What the administration port is told of the program's health.
unfoldable pub is_healthy : Bool → ℕ → ℕ → Bool
is_healthy stopping db_workers connected =
    if stopping then false else not (ltb 0 db_workers && (connected == 0))

unfoldable pub place : Part → ℕ
place log = 0
place library = 1
place services = 2
place pool = 3
place io = 4
place acceptor = 5
place admin = 6

abbrev same_part : Part → Part → Bool
same_part p q = place p == place q

unfoldable pub is_running : Part → List Part → Bool
is_running p [] = false
is_running p (q ∷ parts) = same_part p q || is_running p parts

unfoldable pub without : Part → List Part → List Part
without p [] = []
without p (q ∷ parts) = if same_part p q then parts else q ∷ without p parts

-- Carried out with some parts running: only what does not run is started, only what runs is drained
-- and stopped; what runs at the end.
unfoldable pub carry_out : List Call → List Part → Bool × List Part
carry_out [] parts = (true, parts)
carry_out (starts p ∷ more) parts =
    let (fine, last) = carry_out more (p ∷ parts) in (not (is_running p parts) && fine, last)
carry_out (drains p ∷ more) parts =
    let (fine, last) = carry_out more parts in (is_running p parts && fine, last)
carry_out (stops p ∷ more) parts =
    let (fine, last) = carry_out more (without p parts) in (is_running p parts && fine, last)

-- Whatever the starts return: nothing is started twice or stopped without running, and at the end
-- nothing runs, but for the client library after a run that failed.
pub calls_balanced :
    (a : Answers)
    → let (fine, last) = carry_out (calls a) [] in
      (fine ≡ true)
      × (last ≡ (if result a == 0 then [] else if a.library_inits then library ∷ [] else []))
unfolding calls with_services with_io with_admin shut_down result carry_out is_running without place
calls_balanced a = ground arith
