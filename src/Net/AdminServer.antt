-- ===== src/Net/AdminServer.antt =====
-- src/net/admin_server.h and admin_server.cpp: the administration port. What `recv` gives is a list
-- of chunks of at least one byte, which ends where the peer closes or the time is over; what
-- `send` takes is a list of numbers, where 0 stands for a failure and the end of the list too. The
-- writing of a number in decimal by `snprintf` is a parameter, and so are the two callbacks.
pub mod Requests
use iocp_echo_server.Base.{
  ℕ, zero, suc, ◌+◌, min, Bool, true, false, ◌&&◌, ◌||◌, ◌==◌, leb, if◌then◌else◌, List, [], ◌∷◌,
  ◌++◌, Option, none, some, length, is_nil, take, drop, codes,
}
use iocp_echo_server.Base.Table.{same_text}

abbrev pub request_max : ℕ
request_max = 2048

-- What the server is made with: the callbacks, where they are set, and `%zu`.
pub record AdminServer : Type 0 where
  pub health : Option Bool
  pub metrics : Option (List ℕ)
  pub decimal : ℕ → List ℕ

abbrev crlf : List ℕ
crlf = b'\r' ∷ b'\n' ∷ []

unfoldable pub http_response : AdminServer → List ℕ → List ℕ → List ℕ
http_response server status body =
    codes "HTTP/1.1 "
    ++ (status
        ++ (crlf
            ++ (codes "Content-Type: text/plain; version=0.0.4; charset=utf-8"
                ++ (crlf
                    ++ (codes "Content-Length: "
                        ++ (server.decimal (length body)
                            ++ (crlf
                                ++ (codes "Connection: close" ++ (crlf ++ (crlf ++ body))))))))))

-- What is before the first space, and what is behind it.
unfoldable pub split_space : List ℕ → Option (List ℕ × List ℕ)
split_space [] = none
split_space (c ∷ cs) = if c == b' ' then some ([], cs) else before c (split_space cs)
  where
    before : ℕ → Option (List ℕ × List ℕ) → Option (List ℕ × List ℕ)
    before c none = none
    before c (some (word, rest)) = some (c ∷ word, rest)

unfoldable pub request_path : List ℕ → List ℕ
request_path request = after_first (split_space request)
  where
    word_or : Option (List ℕ × List ℕ) → List ℕ
    word_or none = []
    word_or (some (word, rest)) = word

    after_first : Option (List ℕ × List ℕ) → List ℕ
    after_first none = []
    after_first (some (method, rest)) = word_or (split_space rest)

-- What the peer gets, by the numbers that `send` returns.
unfoldable pub send_all : List ℕ → List ℕ → List ℕ
send_all [] bytes = []
send_all (n ∷ ns) bytes =
    let rest = send_all ns (drop n bytes) in
    if is_nil bytes then [] else if n == 0 then [] else take n bytes ++ rest

abbrev pub has_newline : List ℕ → Bool
has_newline [] = false
has_newline (c ∷ cs) = (c == b'\n') || has_newline cs

-- "\r\n\r\n" is somewhere in the text.
unfoldable pub has_header_end : List ℕ → Bool
has_header_end [] = false
has_header_end (a ∷ rest) = begins (a ∷ rest) || has_header_end rest
  where
    begins : List ℕ → Bool
    begins (a ∷ b ∷ c ∷ d ∷ rest) = a == b'\r' && b == b'\n' && c == b'\r' && d == b'\n'
    begins _ = false

-- How the reading ended, with what was read.
pub data Read : Type 0 where
  complete too_large : List ℕ → Read

unfoldable pub read_request : List (List ℕ) → List ℕ → Read
read_request [] request = complete request
read_request (chunk ∷ chunks) request =
    let longer = request ++ chunk in
    let onward = read_request chunks longer in
    if has_header_end longer
    then complete longer
    else if has_newline longer
    then complete longer
    else if leb request_max (length longer)
    then too_large longer
    else onward

unfoldable pub health_response : AdminServer → Option Bool → List ℕ
health_response server (some false) =
    http_response server (codes "503 Service Unavailable") (codes "unavailable\n")
health_response server _ = http_response server (codes "200 OK") (codes "ok\n")

unfoldable pub metrics_body : Option (List ℕ) → List ℕ
metrics_body none = []
metrics_body (some body) = body

unfoldable pub respond : AdminServer → List ℕ → List ℕ
respond server path =
    if same_text path (codes "/health")
    then health_response server server.health
    else if same_text path (codes "/metrics")
    then http_response server (codes "200 OK") (metrics_body server.metrics)
    else http_response server (codes "404 Not Found") (codes "not found\n")

unfoldable pub answer : AdminServer → Read → Option (List ℕ)
answer server (too_large request) =
    some (http_response server (codes "431 Request Header Fields Too Large") (codes "too large\n"))
answer server (complete request) =
    if is_nil request then none else some (respond server (request_path request))

-- The response that `serve` hands to `send_all`, if any.
unfoldable pub serve : AdminServer → List (List ℕ) → Option (List ℕ)
serve server chunks = answer server (read_request chunks [])
