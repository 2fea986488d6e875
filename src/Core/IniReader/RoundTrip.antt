-- ===== src/Core/IniReader/RoundTrip.antt =====
-- src/core/ini_reader.cpp: reading what was written, with blanks, comments and empty lines.
use iocp_echo_server.Base.{
  ℕ, ◌≡◌, refl, sym, ap, ◌∙◌, true, false, ◌||◌, ◌==◌, List, [], ◌∷◌, ◌++◌, none, some, is_nil, All,
  All-append, arith, append_assoc, map,
}
use iocp_echo_server.Base.Table.{set, text_key}
use iocp_echo_server.Core.IniReader.{
  is_blank, trim_end, trim, strip_bom, bracketed, full_name, is_comment, Reading, assign,
  section_or, read_line, read_lines, strip_first, load, IniReader,
}
use iocp_echo_server.Core.IniReader.Trim.{
  IsBlank, IsTrimmed, trim-dark, trim_end-dark, trim_end-blank, trim-blank, trim-padded,
  trim-trim_end,
}
use iocp_echo_server.Core.IniReader.Lines.{
  Line, empty, comment, section, entry, render, IsKey, IsFine, mean, mean_all, blank_no_eq,
  split_eq-first, close_bracket-last,
}

mark_dark : (c : ℕ) → (c == b'#' || c == b';') ≡ true → is_blank c ≡ false
mark_dark c h = ground arith

read_comment :
    (before : List ℕ) (mark : ℕ) (text : List ℕ) (r : Reading)
    → IsFine (comment before mark text)
    → read_line (before ++ (mark ∷ text)) r ≡ r
unfolding read_line is_comment
read_comment before mark text r h =
    simp (trim-dark before mark text h.0 (mark_dark mark h.1), h.1) refl

trim_section :
    (before body after : List ℕ)
    → All IsBlank before
    → All IsBlank after
    → trim (before ++ (b'[' ∷ (body ++ (b']' ∷ after)))) ≡ b'[' ∷ (body ++ (b']' ∷ []))
trim_section before body after p q =
    trim-dark before b'[' (body ++ (b']' ∷ after)) p refl
    ∙ ap (◌∷◌ b'[')
        (trim_end-dark body b']' after refl ∙ ap (λ e. body ++ (b']' ∷ e)) (trim_end-blank after q))

read_section :
    (before inner name outer after : List ℕ) (r : Reading)
    → IsFine (section before inner name outer after)
    → read_line (render (section before inner name outer after)) r ≡ record r { section = name }
unfolding read_line is_comment bracketed section_or render
read_section before inner name outer after r h =
    let body = inner ++ (name ++ outer) in
    simp
      (
        trim_section before body after h.0 h.4,
        close_bracket-last body,
        trim-padded inner name outer h.1 h.3 h.2,
      )
      refl

-- The part of an entry from its key on.
trim_entry :
    (before key between rest : List ℕ)
    → All IsBlank before
    → IsKey key
    → trim (before ++ (key ++ (between ++ (b'=' ∷ rest))))
      ≡ (key ++ between) ++ (b'=' ∷ trim_end rest)
trim_entry before [] between rest p k = absurd k
trim_entry before (c ∷ key) between rest p k =
    trim-dark before c (key ++ (between ++ (b'=' ∷ rest))) p k.0
    ∙ ap (λ xs. c ∷ trim_end xs) (sym (append_assoc key between (b'=' ∷ rest)))
    ∙ ap (◌∷◌ c) (trim_end-dark (key ++ between) b'=' rest refl)

-- A line that begins as a key does is no comment and no section.
plain_line :
    (key between rest : List ℕ)
    → IsKey key
    → (is_comment ((key ++ between) ++ rest) ≡ false)
      × (bracketed ((key ++ between) ++ rest) ≡ none)
unfolding is_comment bracketed
plain_line [] between rest k = absurd k
plain_line (c ∷ key) between rest k = ground arith

key_parts :
    (key : List ℕ)
    → IsKey key
    → All (λ x. (x == b'=') ≡ false) key × IsTrimmed key × (is_nil key ≡ false)
key_parts [] k = absurd k
key_parts (c ∷ key) k = (k.2, k.3, refl)

read_entry :
    (before key between inner value after : List ℕ) (r : Reading)
    → IsFine (entry before key between inner value after)
    → read_line (render (entry before key between inner value after)) r
      ≡ record r { values = set (full_name r.section key) value r.values }
unfolding read_line section_or render assign
read_entry before key between inner value after r h =
    let parts = key_parts key h.1 in
    let rest = trim_end (inner ++ (value ++ after)) in
    let plain = plain_line key between (b'=' ∷ rest) h.1 in
    simp
      (
        trim_entry before key between (inner ++ (value ++ after)) h.0 h.1,
        plain.0,
        plain.1,
        split_eq-first (key ++ between) rest
            (All-append _ key between parts.0 (blank_no_eq between h.2)),
        trim-padded [] key between tt h.2 parts.1,
        parts.2,
        trim-trim_end inner value after h.3 h.5 h.4,
      )
      refl

read_line-mean : (line : Line) (r : Reading) → IsFine line → read_line (render line) r ≡ mean line r
unfolding mean
read_line-mean (empty before) r h =
    unfold read_line is_comment render in simp (trim-blank before h) refl
read_line-mean (comment before mark text) r h = unfold render in read_comment before mark text r h
read_line-mean (section before inner name outer after) r h =
    read_section before inner name outer after r h
read_line-mean (entry before key between inner value after) r h =
    read_entry before key between inner value after r h

-- Lines that were written are read as what they mean.
pub read_lines-render :
    (lines : List Line) (r : Reading)
    → All IsFine lines
    → read_lines (map render lines) r ≡ mean_all lines r
unfolding read_lines mean_all
read_lines-render [] r h = refl
read_lines-render (line ∷ lines) r h =
    ap (read_lines (map render lines)) (read_line-mean line r h.0)
    ∙ read_lines-render lines (mean line r) h.1

-- Reading a file of sections, entries, comments and empty lines, with blanks around the words,
-- gives the values that the lines mean, each entry in its section and the last one of a name
-- counting, also with a byte order mark before the first line. A key is not empty, has no blank
-- at its ends and no `=`, and does not begin as a comment or a section does; a name and a value
-- have no blank at their ends.
pub load-render :
    (message first : List ℕ) (line : Line) (lines : List Line) (reader : IniReader)
    → strip_bom first ≡ render line
    → All IsFine (line ∷ lines)
    → load message (some (first ∷ map render lines)) reader ≡ (
      true,
      record reader {
        values = (mean_all (line ∷ lines) (record { section = []; values = reader.values })).values;
      },
    )
unfolding load strip_first
load-render message first line lines reader e h =
    let start : Reading = record { section = []; values = reader.values } in
    ap (λ xs. (true, record reader { values = (read_lines (xs ∷ map render lines) start).values }))
      e
    ∙ ap (λ r. (true, record reader { values = r.values }))
        (read_lines-render (line ∷ lines) start h)
