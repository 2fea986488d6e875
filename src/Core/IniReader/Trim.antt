-- ===== src/Core/IniReader/Trim.antt =====
-- src/core/ini_reader.cpp: `trim` on text with blanks around it.
use iocp_echo_server.Base.{
  ℕ, ◌≡◌, refl, sym, ap, ◌∙◌, true, false, if◌then◌else◌, List, [], ◌∷◌, ◌++◌, is_nil, All,
  Bool-cases, inl, inr, arith, append-nil, All-append,
}
use iocp_echo_server.Core.IniReader.{is_blank, trim_start, trim_end, trim}

abbrev pub IsBlank : ℕ → Type 0
IsBlank c = is_blank c ≡ true

-- No blank at either end.
abbrev pub IsTrimmed : List ℕ → Type 0
IsTrimmed [] = trim_end [] ≡ []
IsTrimmed (c ∷ cs) = (is_blank c ≡ false) × (trim_end (c ∷ cs) ≡ c ∷ cs)

trim_start_blank : (a s : List ℕ) → All IsBlank a → trim_start (a ++ s) ≡ trim_start s
unfolding trim_start
trim_start_blank [] s h = refl
trim_start_blank (c ∷ a) s h = simp (h.0) (trim_start_blank a s h.1)

pub trim_end-blank : (d : List ℕ) → All IsBlank d → trim_end d ≡ []
unfolding trim_end
trim_end-blank [] h = refl
trim_end-blank (c ∷ d) h = simp (h.0, trim_end-blank d h.1) refl

nil_of : (xs : List ℕ) → is_nil xs ≡ true → xs ≡ []
nil_of [] e = refl
nil_of (c ∷ xs) e = cc

append_dark : (x y : List ℕ) → is_nil y ≡ false → is_nil (x ++ y) ≡ false
append_dark [] y h = h
append_dark (c ∷ x) y h = refl

trim_end-append :
    (x y : List ℕ)
    → trim_end (x ++ y) ≡ (if is_nil (trim_end y) then trim_end x else x ++ trim_end y)
unfolding trim_end
trim_end-append [] y = elim (Bool-cases (is_nil (trim_end y))) [
  | inl gone ↦ simp gone (nil_of (trim_end y) gone)
  | inr left ↦ simp left refl
]
trim_end-append (c ∷ x) y = elim (Bool-cases (is_nil (trim_end y))) [
  | inl gone ↦
      let same : trim_end (x ++ y) ≡ trim_end x =
        trim_end-append x y ∙ ap (λ b. if b then trim_end x else x ++ trim_end y) gone in
      simp (gone, same) refl
  | inr left ↦
      let same : trim_end (x ++ y) ≡ x ++ trim_end y =
        trim_end-append x y ∙ ap (λ b. if b then trim_end x else x ++ trim_end y) left in
      let dark = append_dark x (trim_end y) left in ground (arith, same, left, dark)
]

pub trim_end-dark :
    (x : List ℕ) (c : ℕ) (rest : List ℕ)
    → is_blank c ≡ false
    → trim_end (x ++ (c ∷ rest)) ≡ x ++ (c ∷ trim_end rest)
unfolding trim_end
trim_end-dark x c rest h =
    let dark : trim_end (c ∷ rest) ≡ c ∷ trim_end rest = simp h refl in
    trim_end-append x (c ∷ rest) ∙ ap (λ e. if is_nil e then trim_end x else x ++ e) dark

pub trim_start-dark :
    (a : List ℕ) (c : ℕ) (rest : List ℕ)
    → All IsBlank a
    → is_blank c ≡ false
    → trim_start (a ++ (c ∷ rest)) ≡ c ∷ rest
unfolding trim_start
trim_start-dark a c rest b h = trim_start_blank a (c ∷ rest) b ∙ simp h refl

-- The first byte that is no blank begins the trimmed text.
pub trim-dark :
    (a : List ℕ) (c : ℕ) (rest : List ℕ)
    → All IsBlank a
    → is_blank c ≡ false
    → trim (a ++ (c ∷ rest)) ≡ c ∷ trim_end rest
unfolding trim
trim-dark a c rest b h = ap trim_end (trim_start-dark a c rest b h) ∙ trim_end-dark [] c rest h

pub trim-blank : (a : List ℕ) → All IsBlank a → trim a ≡ []
unfolding trim trim_start trim_end
trim-blank a h = ap trim_end (ap trim_start (sym (append-nil a)) ∙ trim_start_blank a [] h)

trim_end-padded : (s d : List ℕ) → All IsBlank d → trim_end s ≡ s → trim_end (s ++ d) ≡ s
trim_end-padded s d b h =
    trim_end-append s d ∙ ap (λ e. if is_nil e then trim_end s else s ++ e) (trim_end-blank d b) ∙ h

-- Blanks around a text without blanks at its ends are all that `trim` takes away.
pub trim-padded :
    (a s d : List ℕ) → All IsBlank a → All IsBlank d → IsTrimmed s → trim (a ++ (s ++ d)) ≡ s
unfolding trim trim_start trim_end
trim-padded a [] d p q h =
    ap trim_end
      (trim_start_blank a d p ∙ ap trim_start (sym (append-nil d)) ∙ trim_start_blank d [] q)
    ∙ h
trim-padded a (c ∷ s) d p q h =
    ap trim_end (trim_start-dark a c (s ++ d) p h.0) ∙ trim_end-padded (c ∷ s) d q h.1

-- The same after the blanks at the end are gone.
pub trim-trim_end :
    (a s d : List ℕ)
    → All IsBlank a
    → All IsBlank d
    → IsTrimmed s
    → trim (trim_end (a ++ (s ++ d))) ≡ s
trim-trim_end a [] d p q h =
    ap trim (trim_end-blank (a ++ d) (All-append IsBlank a d p q)) ∙ trim-blank [] tt
trim-trim_end a (c ∷ s) d p q h =
    ap trim (
      trim_end-append a (c ∷ (s ++ d))
      ∙ ap (λ e. if is_nil e then trim_end a else a ++ e) (trim_end-padded (c ∷ s) d q h.1)
      ∙ ap (◌++◌ a) (sym (append-nil (c ∷ s))))
    ∙ trim-padded a (c ∷ s) [] p tt h
