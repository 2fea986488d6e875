-- ===== src/Core/Log/Names.antt =====
-- src/core/log.cpp: the names of rotated files, their order, and the form of a line.
use iocp_echo_server.Base.{
  ℕ, zero, suc, ◌+◌, ◌-◌, ◌<◌, ◌≡◌, refl, sym, ap, ◌∙◌, true, false, leb, if◌then◌else◌, List, [],
  ◌∷◌, ◌++◌, some, length, take, length-take, length-append, arith, Bool-cases, inl, inr, lt→ltb,
  subst, leb→le,
}
use iocp_echo_server.Core.Log.{
  Log, World, line_max, target_name, exists, rotated_target, text_lt, fit,
}

text_lt-prefix : (p xs ys : List ℕ) → text_lt (p ++ xs) (p ++ ys) ≡ text_lt xs ys
unfolding text_lt
text_lt-prefix [] xs ys = refl
text_lt-prefix (c ∷ p) xs ys = ground (arith, text_lt-prefix p xs ys)

-- Where the extension begins with a dot: of two files rotated in one second, the later, whose
-- name has a number, comes before the earlier in the order of names, by which old files are
-- chosen for deletion.
pub second_before_first :
    (w : World) (seq : ℕ) (tail : List ℕ) (log : Log)
    → 0 < seq
    → log.ext ≡ b'.' ∷ tail
    → (text_lt (target_name w seq log) (target_name w 0 log) ≡ true)
      × (text_lt (target_name w 0 log) (target_name w seq log) ≡ false)
unfolding target_name text_lt
second_before_first w seq tail log h e =
    let dashed = b'-' ∷ (w.decimal seq ++ (b'.' ∷ tail)) in
    let plain = b'.' ∷ tail in
    let later = lt→ltb 0 seq h in
    (
      simp (later, e)
          (text_lt-prefix log.stem (b'.' ∷ (w.stamp ++ dashed)) (b'.' ∷ (w.stamp ++ plain))
            ∙ text_lt-prefix w.stamp dashed plain),
      simp (later, e)
          (text_lt-prefix log.stem (b'.' ∷ (w.stamp ++ plain)) (b'.' ∷ (w.stamp ++ dashed))
            ∙ text_lt-prefix w.stamp plain dashed),
    )

cut_bounds :
    (n m : ℕ) (line : List ℕ)
    → m + 1 < n
    → let cut = if leb n (length line) then take m line ++ (b'\n' ∷ []) else line in
      (length cut < n) × (length line < n → cut ≡ line)
cut_bounds n m line h = elim (Bool-cases (leb n (length line))) [
  | inl long ↦ simp long (
    omega (arith, length-append (take m line) (b'\n' ∷ []), length-take m line),
    λ short. absurd (omega (arith, leb→le n (length line) long)),
  )
  | inr short ↦ simp short (ground (arith, short), λ _. refl)
]

-- A line is shorter than the limit, and one that was is left as it is.
pub fit-bounds :
    (line : List ℕ) → (length (fit line) < line_max) × (length line < line_max → fit line ≡ line)
unfolding fit
fit-bounds line = cut_bounds line_max (line_max - 2) line (omega arith)

some_same : (a b : List ℕ) → some a ≡ some b → a ≡ b
some_same a b e = cc

-- The name for a rotated file is that of no file.
pub rotated_target-free :
    (n : ℕ) (w : World) (log : Log) (name : List ℕ)
    → rotated_target n w log ≡ some name
    → exists name log ≡ false
unfolding rotated_target
rotated_target-free zero w log name e = absurd (cc)
rotated_target-free (suc n) w log name e =
    let first = target_name w (100 - suc n) log in
    let next = rotated_target n w log in
    elim (Bool-cases (exists first log)) [
      | inl there ↦
          rotated_target-free n w log name
            (sym (ap (λ b. if b then next else some first) there) ∙ e)
      | inr free ↦
          let same =
            some_same first name (sym (ap (λ b. if b then next else some first) free) ∙ e) in
          subst (λ x. exists x log ≡ false) same free
    ]
