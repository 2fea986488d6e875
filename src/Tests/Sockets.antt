-- ===== src/Tests/Sockets.antt =====
-- Listening, the administration port.
use iocp_echo_server.Base.{
  ℕ, ◌+◌, ◌<◌, ◌≡◌, refl, true, false, List, [], ◌∷◌, some, none, arith, codes,
}
use iocp_echo_server.Net.AdminServer.{AdminServer, respond, serve}
use iocp_echo_server.Net.AdminServer.Requests.{serve-chunks}
use iocp_echo_server.Net.Acceptor.{
  Acceptor, new_acceptor, Answers, start, stop, close, post_all, post_accept, begin_accept, is_open,
  op_at, complete,
}
use iocp_echo_server.Net.Acceptor.Calls.{count}
use iocp_echo_server.Net.Acceptor.Ownership.{Reach, new, starts, stopped_sockets}
use iocp_echo_server.Net.Acceptor.Backlog.{IsListening, here, next, armed, backlog_shrinks}

abbrev no_digits : ℕ → List ℕ
no_digits n = []

abbrev server : AdminServer
server = record { health = some false; metrics = none; decimal = no_digits }

-- The request line comes in two pieces, and the second has more in it.
serve-chunks_example :
    serve server (codes "GET /hea" ∷ codes "lth HTTP/1.1\nHost" ∷ codes ": a" ∷ [])
    ≡ some (respond server (codes "/health"))
serve-chunks_example =
    serve-chunks server (codes "GET") (codes "/health") (codes "HTTP/1.1") (codes "Host: a")
      (codes "GET /hea" ∷ codes "lth HTTP/1.1\nHost" ∷ codes ": a" ∷ []) refl refl refl refl
      (omega arith)

abbrev fine : Answers
fine = record { creates = true; accepts = true }

abbrev broken : Answers
broken = record { creates = true; accepts = false }

abbrev listening : Acceptor
listening = (start true true true true (fine ∷ fine ∷ []) new_acceptor).1

listening-Reach : Reach listening
listening-Reach = starts true true true true (fine ∷ fine ∷ []) new refl

made_three : 1 < listening.next
unfolding start post_all post_accept begin_accept close is_open
made_three = omega arith

stopped_sockets_example : count 1 (stop listening).closed + count 1 (stop listening).handed ≡ 1
stopped_sockets_example = stopped_sockets 1 listening-Reach made_three

listening-IsListening : IsListening listening
unfolding start post_all post_accept begin_accept close is_open
listening-IsListening = (refl, refl)

first_armed : op_at 0 listening.ops ≡ some 1
unfolding start post_all post_accept begin_accept close is_open
first_armed = refl

backlog_shrinks_example :
    (armed (complete 0 true broken listening).ops + 1 ≡ armed listening.ops)
    × IsListening (complete 0 true broken listening)
backlog_shrinks_example =
    backlog_shrinks listening-IsListening (next 0 true broken 1 here first_armed)
