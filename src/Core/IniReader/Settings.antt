-- ===== src/Core/IniReader/Settings.antt =====
-- src/core/ini_reader.cpp: what `get` answers after a file was read, by the settings that the file
-- makes.
use iocp_echo_server.Base.{
  ℕ, ◌≡◌, refl, ap, ◌∙◌, true, false, ◌&&◌, ◌==◌, Bool-cases, inl, inr, if◌then◌else◌, List, [],
  ◌∷◌, some, All, arith, map,
}
use iocp_echo_server.Base.Table.{
  Table, set, text_key, same_text, same_text→≡, find-set, find-set_other,
}
use iocp_echo_server.Core.IniReader.{IniReader, Reading, strip_bom, full_name, load, get}
use iocp_echo_server.Core.IniReader.Lines.{
  Line, empty, comment, section, entry, render, IsFine, mean, mean_all,
}
use iocp_echo_server.Core.IniReader.RoundTrip.{load-render}

-- A setting: its section, its key and its value.
pub record Setting : Type 0 where
  pub of_section : List ℕ
  pub key : List ℕ
  pub value : List ℕ

-- The settings that lines make, one after the other, where a section is open.
unfoldable pub settings_of : List ℕ → List Line → List Setting
settings_of name [] = []
settings_of name (empty before ∷ lines) = settings_of name lines
settings_of name (comment before mark text ∷ lines) = settings_of name lines
settings_of name (section before inner next outer after ∷ lines) = settings_of next lines
settings_of name (entry before key between inner value after ∷ lines) =
    record { of_section = name; key = key; value = value } ∷ settings_of name lines

-- The value that the last setting of a section and key gives, or else the one that was before.
unfoldable pub last_value : List ℕ → List ℕ → List ℕ → List Setting → List ℕ
last_value name key before [] = before
last_value name key before (s ∷ rest) =
    last_value name key
      (if same_text name s.of_section && same_text key s.key then s.value else before) rest

-- No dot in a name.
abbrev pub IsDotless : List ℕ → Type 0
IsDotless = All (λ c. (c == b'.') ≡ false)

abbrev pub HasDotless : Line → Type 0
HasDotless (section before inner name outer after) = IsDotless name
HasDotless _ = Unit

-- Where sections have no dot, two full names are one exactly if both their parts are.
same_text-full_name :
    (a b key other : List ℕ)
    → IsDotless a
    → IsDotless b
    → same_text (full_name a key) (full_name b other) ≡ (same_text a b && same_text key other)
same_text-full_name [] [] key other p q = refl
same_text-full_name [] (d ∷ b) key other p q = ground (arith, q.0)
same_text-full_name (c ∷ a) [] key other p q = ground (arith, p.0)
same_text-full_name (c ∷ a) (d ∷ b) key other p q =
    ground (arith, same_text-full_name a b key other p.1 q.1)

get-set :
    (name key a other value fallback : List ℕ) (t : Table (List ℕ) (List ℕ)) (reader : IniReader)
    → IsDotless name
    → IsDotless a
    → get name key fallback (record reader { values = set (full_name a other) value t }) ≡ (
        if same_text name a && same_text key other
        then value
        else get name key fallback (record reader { values = t }))
unfolding get
get-set name key a other value fallback t reader p q =
    let parts = same_text-full_name name a key other p q in
    elim (Bool-cases (same_text name a && same_text key other)) [
      | inl e ↦
          let one : full_name name key ≡ full_name a other =
            same_text→≡ (full_name name key) (full_name a other) (parts ∙ e) in
          simp (e, one, find-set (full_name a other) value t) refl
      | inr e ↦
          simp (e, find-set_other (full_name name key) (full_name a other) value t (parts ∙ e)) refl
    ]

get-mean_all :
    (name key fallback : List ℕ) (reader : IniReader) (lines : List Line) (r : Reading)
    → IsDotless name
    → IsDotless r.section
    → All HasDotless lines
    → get name key fallback (record reader { values = (mean_all lines r).values })
      ≡ last_value name key
          (get name key fallback (record reader { values = r.values }))
          (settings_of r.section lines)
unfolding mean_all mean settings_of last_value
get-mean_all name key fallback reader [] r p q h = refl
get-mean_all name key fallback reader (empty before ∷ lines) r p q h =
    get-mean_all name key fallback reader lines r p q h.1
get-mean_all name key fallback reader (comment before mark text ∷ lines) r p q h =
    get-mean_all name key fallback reader lines r p q h.1
get-mean_all name key fallback reader (section before inner next outer after ∷ lines) r p q h =
    get-mean_all name key fallback reader lines (record r { section = next }) p h.0 h.1
get-mean_all name key fallback reader (entry before k between inner value after ∷ lines) r p q h =
    get-mean_all name key fallback reader lines
      (record r { values = set (full_name r.section k) value r.values }) p q h.1
    ∙ ap (λ v. last_value name key v (settings_of r.section lines))
        (get-set name key r.section k value fallback r.values reader p q)

-- After a file of sections, entries, comments and empty lines was read, with blanks around the
-- words and with or without a byte order mark, get answers for a section and a key the value of
-- the last entry of that key in that section, and what it answered before where there is none.
-- The names of sections, asked for and in the file, have no dot; a key is not empty, has no
-- blank at its ends and no `=`, and does not begin as a comment or a section does; a name and a
-- value have no blank at their ends.
pub get-load :
    (name key fallback message first : List ℕ) (line : Line) (lines : List Line)
    (reader : IniReader)
    → strip_bom first ≡ render line
    → All IsFine (line ∷ lines)
    → IsDotless name
    → All HasDotless (line ∷ lines)
    → let (done, loaded) = load message (some (first ∷ map render lines)) reader in
      (done ≡ true)
      × (get name key fallback loaded
          ≡ last_value name key (get name key fallback reader) (settings_of [] (line ∷ lines)))
get-load name key fallback message first line lines reader e fine p dotless =
    let start : Reading = record { section = []; values = reader.values } in
    let out = load-render message first line lines reader e fine in
    (
      ap (λ x. x.0) out,
      ap (λ x. get name key fallback x.1) out
          ∙ get-mean_all name key fallback reader (line ∷ lines) start p tt dotless,
    )
