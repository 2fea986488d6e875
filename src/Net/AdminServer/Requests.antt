-- ===== src/Net/AdminServer/Requests.antt =====
-- src/net/admin_server.cpp: requests in pieces.
use iocp_echo_server.Base.{
  ℕ, ◌≤◌, ◌<◌, ◌≡◌, refl, sym, ap, ◌∙◌, Bool, true, false, ◌||◌, ◌==◌, leb, if◌then◌else◌, List, [],
  ◌∷◌, ◌++◌, some, length, is_nil, Bool-cases, inl, inr, arith, append-nil, append_assoc,
}
use iocp_echo_server.Net.AdminServer.{
  AdminServer, request_max, split_space, request_path, has_newline, has_header_end, complete,
  too_large, read_request, respond, answer, serve,
}

header_end→newline : (s : List ℕ) → has_newline s ≡ false → has_header_end s ≡ false
unfolding has_header_end
header_end→newline [] h = refl
header_end→newline (a ∷ []) h = refl
header_end→newline (a ∷ b ∷ []) h = refl
header_end→newline (a ∷ b ∷ c ∷ []) h = ground (arith)
header_end→newline (a ∷ b ∷ c ∷ d ∷ rest) h =
    ground (arith, header_end→newline (b ∷ c ∷ d ∷ rest) (ground arith))

newline-append : (xs ys : List ℕ) → has_newline (xs ++ ys) ≡ (has_newline xs || has_newline ys)
newline-append [] ys = refl
newline-append (x ∷ xs) ys = ground (arith, newline-append xs ys)

head_same : (a b : ℕ) (xs ys : List ℕ) → a ∷ xs ≡ b ∷ ys → a ≡ b
head_same a b xs ys e = cc

tail_same : (a b : ℕ) (xs ys : List ℕ) → a ∷ xs ≡ b ∷ ys → xs ≡ ys
tail_same a b xs ys e = cc

-- A beginning of the text with its first newline in it has the whole line in it.
covers :
    (line part tail rest : List ℕ)
    → part ++ tail ≡ line ++ (b'\n' ∷ rest)
    → has_newline line ≡ false
    → has_newline part ≡ true
    → (more : List ℕ) × (part ≡ line ++ more)
covers [] part tail rest e h p = (part, refl)
covers (c ∷ line) [] tail rest e h p = absurd (cc)
covers (c ∷ line) (d ∷ part) tail rest e h p =
    let same = head_same d c (part ++ tail) (line ++ (b'\n' ∷ rest)) e in
    let onward =
      covers line part tail rest (tail_same d c (part ++ tail) (line ++ (b'\n' ∷ rest)) e)
        (ground arith) (ground (arith, same)) in
    (onward.0, cc (same, onward.1))

-- A beginning without a newline is no longer than the line.
within :
    (line part tail rest : List ℕ)
    → part ++ tail ≡ line ++ (b'\n' ∷ rest)
    → has_newline part ≡ false
    → length part ≤ length line
within line [] tail rest e p = omega arith
within [] (d ∷ part) tail rest e p =
    let same = head_same d b'\n' (part ++ tail) rest e in absurd (ground (arith, same))
within (c ∷ line) (d ∷ part) tail rest e p =
    let onward =
      within line part tail rest (tail_same d c (part ++ tail) (line ++ (b'\n' ∷ rest)) e)
        (ground arith) in
    omega (arith, onward)

abbrev pub join : List (List ℕ) → List ℕ
join [] = []
join (chunk ∷ chunks) = chunk ++ join chunks

newline_there : (line rest : List ℕ) → has_newline (line ++ (b'\n' ∷ rest)) ≡ true
newline_there [] rest = refl
newline_there (c ∷ line) rest = ground (arith, newline_there line rest)

read_request-line :
    (chunks : List (List ℕ)) (request line rest : List ℕ)
    → request ++ join chunks ≡ line ++ (b'\n' ∷ rest)
    → has_newline line ≡ false
    → length line < request_max
    → has_newline request ≡ false
    → (more : List ℕ) × (read_request chunks request ≡ complete (line ++ more))
unfolding read_request
read_request-line [] request line rest e h small clear =
    let there = newline_there line rest in
    let same : has_newline request ≡ true = ap has_newline (sym (append-nil request) ∙ e) ∙ there in
    absurd (ground (arith, same))
read_request-line (chunk ∷ chunks) request line rest e h small clear =
    let longer = request ++ chunk in
    let whole = append_assoc request chunk (join chunks) ∙ e in
    elim (Bool-cases (has_newline longer)) [
      | inl ended ↦
          let c = covers line longer (join chunks) rest whole h ended in
          (c.0, (ended_either longer chunks ended) ∙ ap complete c.1)
      | inr open_line ↦
          let short = within line longer (join chunks) rest whole open_line in
          let room : leb request_max (length longer) ≡ false = ground (arith, short) in
          let onward = read_request-line chunks longer line rest whole h small open_line in
          (onward.0, simp (header_end→newline longer open_line, open_line, room) (onward.1))
    ]
  where
    ended_either :
        (longer : List ℕ) (chunks : List (List ℕ))
        → has_newline longer ≡ true
        → (if has_header_end longer
            then complete longer
            else if has_newline longer
            then complete longer
            else if leb request_max (length longer)
            then too_large longer
            else read_request chunks longer)
          ≡ complete longer
    ended_either longer chunks ended = elim (Bool-cases (has_header_end longer)) [
      | inl header ↦ simp header refl
      | inr header ↦ simp (header, ended) refl
    ]

abbrev pub no_space : List ℕ → Bool
no_space [] = true
no_space (c ∷ cs) = if c == b' ' then false else no_space cs

split_space-first :
    (word rest : List ℕ)
    → no_space word ≡ true
    → split_space (word ++ (b' ' ∷ rest)) ≡ some (word, rest)
unfolding split_space
split_space-first [] rest h = refl
split_space-first (c ∷ word) rest h = elim (Bool-cases (c == b' ')) [
  | inl space ↦ absurd (ground arith)
  | inr dark ↦ simp (dark, split_space-first word rest (ground arith)) refl
]

abbrev pub request_line : List ℕ → List ℕ → List ℕ → List ℕ
request_line method path version = method ++ (b' ' ∷ (path ++ (b' ' ∷ version)))

request_path-line :
    (method path version more : List ℕ)
    → no_space method ≡ true
    → no_space path ≡ true
    → request_path (request_line method path version ++ more) ≡ path
unfolding request_path
request_path-line method path version more m p =
    let cut = append_assoc method (b' ' ∷ (path ++ (b' ' ∷ version))) more in
    let cut' = append_assoc path (b' ' ∷ version) more in
    simp
      (
        cut,
        cut',
        split_space-first method (path ++ (b' ' ∷ (version ++ more))) m,
        split_space-first path (version ++ more) p,
      )
      refl

line_there :
    (method path version more : List ℕ) → is_nil (request_line method path version ++ more) ≡ false
line_there [] path version more = refl
line_there (c ∷ method) path version more = refl

-- However a request is cut into the chunks that recv gives, and whatever follows its first line:
-- if the line is shorter than the limit and has two spaces before its end, the response is that
-- for the path between them.
pub serve-chunks :
    (server : AdminServer) (method path version rest : List ℕ) (chunks : List (List ℕ))
    → join chunks ≡ request_line method path version ++ (b'\n' ∷ rest)
    → no_space method ≡ true
    → no_space path ≡ true
    → has_newline (request_line method path version) ≡ false
    → length (request_line method path version) < request_max
    → serve server chunks ≡ some (respond server path)
unfolding serve answer
serve-chunks server method path version rest chunks e m p h small =
    let line = request_line method path version in
    let r = read_request-line chunks [] line rest e h small refl in
    simp (r.1, line_there method path version r.0, request_path-line method path version r.0 m p)
      refl
