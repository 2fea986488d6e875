-- ===== src/Core/Log/Saved.antt =====
-- src/core/log.cpp: where the lines are that were shown, through every rotation of the file.
use iocp_echo_server.Base.{
  ℕ, ◌≡◌, refl, sym, ap, ◌∙◌, true, List, [], ◌∷◌, ◌++◌, Option, none, some, arith, Bool-cases, inl,
  inr, append-nil, append_assoc,
}
use iocp_echo_server.Base.Table.{Table}
use iocp_echo_server.Core.Log.{
  Log, World, emit, emit_all, open_file, rotated_target, purge_old, rotate_to, rotate_if_needed,
}

-- All that went into files, in order.
abbrev pub contents : Table (List ℕ) (List (List ℕ)) → List (List ℕ)
contents [] = []
contents ((name, lines) ∷ files) = lines ++ contents files

abbrev pub saved : Log → List (List ℕ)
saved log = contents log.folder ++ log.active

-- The file is open, and no file is ever deleted.
abbrev pub IsKeeping : Log → Type 0
IsKeeping log = (log.is_open ≡ true) × (log.keep ≡ 0)

-- What emitting leaves as it is, and what it adds where.
abbrev pub Emits : List (List ℕ) → Log → Log → Type 0
Emits lines log next =
    (next.shown ≡ log.shown ++ lines)
    × (next.queue ≡ log.queue)
    × (next.level ≡ log.level)
    × (next.running ≡ log.running)
    × (IsKeeping log → IsKeeping next × (saved next ≡ saved log ++ lines))

emit-Emits : (line : List ℕ) (log : Log) → Emits (line ∷ []) log (emit line log)
unfolding emit
emit-Emits line log = elim (Bool-cases log.is_open) [
  | inl up ↦ simp up (
    refl,
    refl,
    refl,
    refl,
    λ k. ((refl, k.1), sym (append_assoc (contents log.folder) log.active (line ∷ []))),
  )
  | inr down ↦ simp down (refl, refl, refl, refl, λ k. absurd (cc (k.0)))
]

joined : (xs ys : List (List ℕ)) (a b c : Log) → Emits xs a b → Emits ys b c → Emits (xs ++ ys) a c
joined xs ys a b c p q = (
  q.0 ∙ ap (λ s. s ++ ys) p.0 ∙ append_assoc a.shown xs ys,
  q.1 ∙ p.1,
  q.2 ∙ p.2,
  q.3 ∙ p.3,
  λ k.
      let u = p.4 k in
      let v = q.4 u.0 in (v.0, v.1 ∙ ap (λ s. s ++ ys) u.1 ∙ append_assoc (saved a) xs ys),
)

pub emit_all-Emits : (lines : List (List ℕ)) (log : Log) → Emits lines log (emit_all lines log)
unfolding emit_all
emit_all-Emits [] log =
    (sym (append-nil log.shown), refl, refl, refl, λ k. (k, sym (append-nil (saved log))))
emit_all-Emits (line ∷ lines) log =
    joined (line ∷ []) lines log (emit line log) (emit_all lines (emit line log))
      (emit-Emits line log) (emit_all-Emits lines (emit line log))

contents-append :
    (s t : Table (List ℕ) (List (List ℕ))) → contents (s ++ t) ≡ contents s ++ contents t
contents-append [] t = refl
contents-append ((name, lines) ∷ s) t =
    ap (◌++◌ lines) (contents-append s t) ∙ sym (append_assoc lines (contents s) (contents t))

-- Rotation shows nothing and moves no line from its place in the files, where files open.
abbrev pub Rotates : World → Log → Log → Type 0
Rotates w log next =
    (next.shown ≡ log.shown)
    × (next.queue ≡ log.queue)
    × (next.level ≡ log.level)
    × (next.running ≡ log.running)
    × (w.opens ≡ true → IsKeeping log → IsKeeping next × (saved next ≡ saved log))

purge_old-Rotates : (w : World) (log : Log) → Rotates w log (purge_old log)
unfolding purge_old
purge_old-Rotates w log = ground (arith)

rotate_to-Rotates :
    (w : World) (o : Option (List ℕ)) (log : Log) → Rotates w log (rotate_to w o log)
unfolding rotate_to open_file
rotate_to-Rotates w none log = (refl, refl, refl, refl, λ o k. (k, refl))
rotate_to-Rotates w (some name) log = elim (Bool-cases w.renames) [
  | inl moved ↦
      let files = log.folder ++ ((name, log.active) ∷ []) in
      let turned = open_file w (record log { active = []; folder = files }) in
      let p = purge_old-Rotates w turned in
      simp moved (
        p.0,
        p.1,
        p.2,
        p.3,
        λ o k.
            (let u = p.4 o (o, k.1) in
              (
                u.0,
                u.1
                    ∙ append-nil (contents files)
                    ∙ contents-append log.folder ((name, log.active) ∷ [])
                    ∙ ap (◌++◌ (contents log.folder)) (append-nil log.active),
              )),
      )
  | inr stays ↦ simp stays (refl, refl, refl, refl, λ o k. ((o, k.1), refl))
]

pub rotate_if_needed-Rotates : (w : World) (log : Log) → Rotates w log (rotate_if_needed w log)
unfolding rotate_if_needed
rotate_if_needed-Rotates w log =
    let r = rotate_to-Rotates w (rotated_target 100 w log) log in ground (arith, r)
