-- ===== src/Core/IniReader/Lines.antt =====
-- src/core/ini_reader.cpp: a file of settings as somebody writes it.
use iocp_echo_server.Base.{
  ℕ, ◌≡◌, refl, true, false, ◌||◌, ◌==◌, List, [], ◌∷◌, ◌++◌, some, All, arith,
}
use iocp_echo_server.Base.Table.{set, text_key}
use iocp_echo_server.Core.IniReader.{is_blank, split_eq, close_bracket, full_name, Reading}
use iocp_echo_server.Core.IniReader.Trim.{IsBlank, IsTrimmed}

-- A line as somebody writes it; the lists before and behind the words are blanks.
pub data Line : Type 0 where
  empty : List ℕ → Line
  comment : (before : List ℕ) → (mark : ℕ) → (text : List ℕ) → Line
  section : (before inner name outer after : List ℕ) → Line
  entry : (before key between inner value after : List ℕ) → Line

unfoldable pub render : Line → List ℕ
render (empty before) = before
render (comment before mark text) = before ++ (mark ∷ text)
render (section before inner name outer after) =
    before ++ (b'[' ∷ ((inner ++ (name ++ outer)) ++ (b']' ∷ after)))
render (entry before key between inner value after) =
    before ++ (key ++ (between ++ (b'=' ∷ (inner ++ (value ++ after)))))

-- A key: not empty, no blank at its ends, no `=` in it, and not the beginning of a comment or of a
-- section.
abbrev pub IsKey : List ℕ → Type 0
IsKey [] = ⊥
IsKey (c ∷ cs) =
    (is_blank c ≡ false)
    × ((c == b'#' || c == b';' || c == b'[') ≡ false)
    × All (λ x. (x == b'=') ≡ false) (c ∷ cs)
    × IsTrimmed (c ∷ cs)

abbrev pub IsFine : Line → Type 0
IsFine (empty before) = All IsBlank before
IsFine (comment before mark text) = All IsBlank before × ((mark == b'#' || mark == b';') ≡ true)
IsFine (section before inner name outer after) =
    All IsBlank before × All IsBlank inner × IsTrimmed name × All IsBlank outer × All IsBlank after
IsFine (entry before key between inner value after) =
    All IsBlank before
    × IsKey key
    × All IsBlank between
    × All IsBlank inner
    × IsTrimmed value
    × All IsBlank after

-- What a line means.
unfoldable pub mean : Line → Reading → Reading
mean (empty before) r = r
mean (comment before mark text) r = r
mean (section before inner name outer after) r = record r { section = name }
mean (entry before key between inner value after) r = record r {
  values = set (full_name r.section key) value r.values;
}

unfoldable pub mean_all : List Line → Reading → Reading
mean_all [] r = r
mean_all (line ∷ lines) r = mean_all lines (mean line r)

pub blank_no_eq : (xs : List ℕ) → All IsBlank xs → All (λ x. (x == b'=') ≡ false) xs
blank_no_eq [] h = tt
blank_no_eq (x ∷ xs) h = (ground (arith), blank_no_eq xs h.1)

pub split_eq-first :
    (key rest : List ℕ)
    → All (λ x. (x == b'=') ≡ false) key
    → split_eq (key ++ (b'=' ∷ rest)) ≡ some (key, rest)
unfolding split_eq
split_eq-first [] rest h = refl
split_eq-first (c ∷ key) rest h = simp (h.0, split_eq-first key rest h.1) refl

pub close_bracket-last : (name : List ℕ) → close_bracket (name ++ (b']' ∷ [])) ≡ some name
unfolding close_bracket
close_bracket-last [] = refl
close_bracket-last (c ∷ []) = refl
close_bracket-last (c ∷ d ∷ name) = simp (close_bracket-last (d ∷ name)) refl
