-- ===== src/Core/IniReader.antt =====
-- src/core/ini_reader.h and ini_reader.cpp: the reader of settings. A file is the list of lines that
-- `std::getline` gives, or none where it cannot be opened; the message for that case and `std::stoi`,
-- which gives none where it throws, are parameters.
pub mod Trim
pub mod Lines
pub mod RoundTrip
pub mod Settings
use iocp_echo_server.Base.{
  ℕ, zero, suc, Bool, true, false, ◌&&◌, ◌||◌, ◌==◌, if◌then◌else◌, List, [], ◌∷◌, ◌++◌, Option,
  none, some, is_nil,
}
use iocp_echo_server.Base.Table.{Table, find, set, text_key}

pub record IniReader : Type 0 where
  pub values : Table (List ℕ) (List ℕ)
  pub error : List ℕ

abbrev pub new_reader : IniReader
new_reader = record { values = []; error = [] }

-- " \t\r\n"
abbrev pub is_blank : ℕ → Bool
is_blank c = c == b' ' || c == b'\t' || c == b'\r' || c == b'\n'

unfoldable pub trim_start : List ℕ → List ℕ
trim_start [] = []
trim_start (c ∷ cs) = let rest = trim_start cs in if is_blank c then rest else c ∷ cs

unfoldable pub trim_end : List ℕ → List ℕ
trim_end [] = []
trim_end (c ∷ cs) = let rest = trim_end cs in if is_blank c && is_nil rest then [] else c ∷ rest

unfoldable pub trim : List ℕ → List ℕ
trim s = trim_end (trim_start s)

-- The mark that an editor puts before the first line.
unfoldable pub strip_bom : List ℕ → List ℕ
strip_bom (a ∷ b ∷ c ∷ rest) =
    if a == 0xEF && b == 0xBB && c == 0xBF then rest else a ∷ b ∷ c ∷ rest
strip_bom line = line

-- What is before the first `=`, and what is behind it.
unfoldable pub split_eq : List ℕ → Option (List ℕ × List ℕ)
split_eq [] = none
split_eq (c ∷ cs) = if c == b'=' then some ([], cs) else before c (split_eq cs)
  where
    before : ℕ → Option (List ℕ × List ℕ) → Option (List ℕ × List ℕ)
    before c none = none
    before c (some (key, value)) = some (c ∷ key, value)

-- What is before the last byte, where that is `]`.
unfoldable pub close_bracket : List ℕ → Option (List ℕ)
close_bracket [] = none
close_bracket (c ∷ []) = if c == b']' then some [] else none
close_bracket (c ∷ d ∷ cs) = before (close_bracket (d ∷ cs))
  where
    before : Option (List ℕ) → Option (List ℕ)
    before none = none
    before (some name) = some (c ∷ name)

-- `[` at the front and `]` at the back: what is between.
unfoldable pub bracketed : List ℕ → Option (List ℕ)
bracketed [] = none
bracketed (c ∷ cs) = if c == b'[' then close_bracket cs else none

abbrev pub full_name : List ℕ → List ℕ → List ℕ
full_name section key = section ++ (b'.' ∷ key)

unfoldable pub is_comment : List ℕ → Bool
is_comment [] = true
is_comment (c ∷ cs) = c == b'#' || c == b';'

-- The section that lines belong to, and the values so far.
pub record Reading : Type 0 where
  pub section : List ℕ
  pub values : Table (List ℕ) (List ℕ)

unfoldable pub assign : Option (List ℕ × List ℕ) → Reading → Reading
assign none r = r
assign (some (left, right)) r =
    let key = trim left in
    if is_nil key
    then r
    else record r { values = set (full_name r.section key) (trim right) r.values }

unfoldable pub section_or : Option (List ℕ) → List ℕ → Reading → Reading
section_or (some name) line r = record r { section = trim name }
section_or none line r = assign (split_eq line) r

unfoldable pub read_line : List ℕ → Reading → Reading
read_line raw r =
    let line = trim raw in if is_comment line then r else section_or (bracketed line) line r

unfoldable pub read_lines : List (List ℕ) → Reading → Reading
read_lines [] r = r
read_lines (line ∷ lines) r = read_lines lines (read_line line r)

unfoldable pub strip_first : List (List ℕ) → List (List ℕ)
strip_first [] = []
strip_first (line ∷ lines) = strip_bom line ∷ lines

unfoldable pub load : List ℕ → Option (List (List ℕ)) → IniReader → Bool × IniReader
load message none reader = (false, record reader { error = message })
load message (some lines) reader =
    let start : Reading = record { section = []; values = reader.values } in
    (true, record reader { values = (read_lines (strip_first lines) start).values })

unfoldable pub has : List ℕ → List ℕ → IniReader → Bool
has section key reader = is_there (find (full_name section key) reader.values)
  where
    is_there : Option (List ℕ) → Bool
    is_there none = false
    is_there (some value) = true

unfoldable pub get : List ℕ → List ℕ → List ℕ → IniReader → List ℕ
get section key fallback reader = value_or (find (full_name section key) reader.values)
  where
    value_or : Option (List ℕ) → List ℕ
    value_or none = fallback
    value_or (some value) = value

unfoldable pub get_int {ℓ} :
    {N : Type ℓ} → (List ℕ → Option N) → List ℕ → List ℕ → N → IniReader → N
get_int {N = N} stoi section key fallback reader =
    number (find (full_name section key) reader.values)
  where
    parsed : Option N → N
    parsed none = fallback
    parsed (some n) = n

    number : Option (List ℕ) → N
    number none = fallback
    number (some value) = parsed (stoi value)
