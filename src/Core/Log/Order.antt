-- ===== src/Core/Log/Order.antt =====
-- src/core/log.cpp: the lines over a sequence of calls of `log_write` and rounds of the writer.
use iocp_echo_server.Base.{
  ℕ, ◌≡◌, refl, sym, ap, ap₂, ◌∙◌, true, ltb, leb, if◌then◌else◌, List, [], ◌∷◌, ◌++◌, is_nil, All,
  arith, Bool-cases, inl, inr, append-nil, append_assoc,
}
use iocp_echo_server.Core.SwapQueue.{filling, swap, clear_taken, push, pending}
use iocp_echo_server.Core.Log.{Log, World, queue_cap, emit_all, drain, fit, log_write}
use iocp_echo_server.Core.Log.Saved.{saved, IsKeeping, emit_all-Emits, rotate_if_needed-Rotates}

pub data Op : Type 0 where
  writes : ℕ → List ℕ → Op
  drains : World → Op

-- The line that a call puts in the queue, if any.
abbrev pub accepted : ℕ → List ℕ → Log → List (List ℕ)
accepted level line log =
    if ltb level log.level
    then []
    else if leb queue_cap (pending log.queue)
    then []
    else fit line ∷ []

unfoldable pub step : Op → Log → List (List ℕ) × Log
step (writes level line) log = (accepted level line log, log_write level line log)
step (drains w) log = ([], drain w log)

unfoldable pub run : List Op → Log → List (List ℕ) × Log
run [] log = ([], log)
run (op ∷ ops) log =
    let (put, next) = step op log in let (more, last) = run ops next in (put ++ more, last)

nil_of : (xs : List (List ℕ)) → is_nil xs ≡ true → xs ≡ []
nil_of [] e = refl
nil_of (x ∷ xs) e = cc

-- What waits comes after what was shown; a step adds at the end what it accepts.
abbrev pub so_far : Log → List (List ℕ)
so_far log = log.shown ++ filling log.queue

abbrev pub Opens : Op → Type 0
Opens (writes level line) = Unit
Opens (drains w) = w.opens ≡ true

-- The order of the lines, and where they are saved.
abbrev Moves : Op → List (List ℕ) → Log → Log → Type 0
Moves op put log next =
    (so_far next ≡ so_far log ++ put)
    × (next.running ≡ true)
    × (Opens op
        → IsKeeping log
        → saved log ≡ log.shown
        → IsKeeping next × (saved next ≡ next.shown))

write-Moves :
    (level : ℕ) (line : List ℕ) (log : Log)
    → log.running ≡ true
    → Moves (writes level line) (accepted level line log) log (log_write level line log)
unfolding log_write push
write-Moves level line log on =
    let none_first = append-nil (so_far log) in
    let first = append_assoc log.shown log.queue.first (fit line ∷ []) in
    let second = append_assoc log.shown log.queue.second (fit line ∷ []) in
    ground (arith, none_first, first, second)

taken_all :
    (log : Log)
    → let (batch, q) = swap log.queue in
      (batch ≡ filling log.queue) × (filling q ≡ []) × (filling (clear_taken q) ≡ [])
unfolding swap clear_taken
taken_all log = ground arith

drain-Moves : (w : World) (log : Log) → log.running ≡ true → Moves (drains w) [] log (drain w log)
unfolding drain
drain-Moves w log on =
    let s = swap log.queue in
    let taken = record log { queue = s.1 } in
    let t = taken_all log in
    let e = emit_all-Emits s.0 taken in
    let cleared = record (emit_all s.0 taken) { queue = clear_taken s.1 } in
    let r = rotate_if_needed-Rotates w cleared in
    elim (Bool-cases (is_nil s.0)) [
      | inl idle ↦
          let empty = nil_of s.0 idle in
          simp idle (
            ap (◌++◌ log.shown) (t.1 ∙ sym empty ∙ t.0) ∙ sym (append-nil (so_far log)),
            on,
            λ o k v. (k, v),
          )
      | inr busy ↦ simp busy (
        ap₂ ◌++◌ r.0 (ap filling r.1)
            ∙ ap (◌++◌ cleared.shown) t.2
            ∙ append-nil cleared.shown
            ∙ e.0
            ∙ ap (◌++◌ log.shown) t.0
            ∙ sym (append-nil (so_far log)),
        r.3 ∙ e.3 ∙ on,
        λ o k v.
            let u = e.4 k in
            let x = r.4 o u.0 in (x.0, x.1 ∙ u.1 ∙ ap (λ xs. xs ++ s.0) v ∙ sym e.0 ∙ sym r.0),
      )
    ]

-- While the log runs, over any interleaving of calls of log_write and rounds of the writer: the
-- lines shown, followed by those in the queue, are in order those before and those accepted; and
-- where no rotated file is deleted, the file is open at the start, every opening of it works,
-- and the files hold exactly the lines shown at the start, they do so at the end, whatever is
-- rotated.
pub lines_in_order :
    (ops : List Op) (log : Log)
    → log.running ≡ true
    → let (put, last) = run ops log in
      (so_far last ≡ so_far log ++ put)
      × (All Opens ops → IsKeeping log → saved log ≡ log.shown → saved last ≡ last.shown)
unfolding run step
lines_in_order [] log on = (sym (append-nil (so_far log)), λ o k v. v)
lines_in_order (writes level line ∷ ops) log on =
    let next = log_write level line log in
    let m = write-Moves level line log on in
    let rest = lines_in_order ops next m.1 in
    (
      rest.0
          ∙ ap (λ xs. xs ++ (run ops next).0) m.0
          ∙ append_assoc (so_far log) (accepted level line log) (run ops next).0,
      λ o k v. let u = m.2 tt k v in rest.1 o.1 u.0 u.1,
    )
lines_in_order (drains w ∷ ops) log on =
    let next = drain w log in
    let m = drain-Moves w log on in
    let rest = lines_in_order ops next m.1 in
    (
      rest.0 ∙ ap (λ xs. xs ++ (run ops next).0) (m.0 ∙ append-nil (so_far log)),
      λ o k v. let u = m.2 o.0 k v in rest.1 o.1 u.0 u.1,
    )
