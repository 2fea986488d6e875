-- ===== src/Db/Dispatcher/Order.antt =====
-- src/db/request_dispatcher.cpp: a key's requests over a sequence of calls.
use iocp_echo_server.Base.{
  ℕ, ◌≡◌, refl, sym, ap, ap₂, ◌∙◌, true, false, leb, if◌then◌else◌, List, [], ◌∷◌, ◌++◌, Option,
  none, some, subst, Bool-cases, inl, inr, ◌⊎◌, append-nil, append_assoc, All, All-append,
}
use iocp_echo_server.Base.Table.{
  find, set, text_key, same_text, same_text_refl, same_text→≡, find-set, find-set_other, find-erase,
  find-erase_other,
}
use iocp_echo_server.Db.Types.{Request}
use iocp_echo_server.Db.Dispatcher.{
  KeyQueue, RequestDispatcher, or_empty, at, push, front, pick, give, take_loop, take, settle,
  finish,
}

-- How a call of `take` came to its result: it passed over some keys and stopped at one.
pub data Takes (d : RequestDispatcher)
    : List (List ℕ) → Option Request × RequestDispatcher → Type 0 where
  nothing : Takes d [] (none, record d { ready_keys = [] })
  skip :
      (key : List ℕ) {keys : List (List ℕ)} {out : Option Request × RequestDispatcher}
      → pick (find key d.queues) ≡ none
      → Takes d keys out
      → Takes d (key ∷ keys) out
  found :
      (key : List ℕ) (keys : List (List ℕ)) (req : Request) (rest : List Request)
      → find key d.queues ≡ some (record { waiting = req ∷ rest; working = false })
      → Takes d (key ∷ keys) (
        some req,
        record d {
          queues = set key (record { waiting = rest; working = true }) d.queues;
          ready_keys = keys;
        },
      )

List-cases {ℓ} :
    {A : Type ℓ} (xs : List A) → (xs ≡ []) ⊎ ((x : A) × (rest : List A) × (xs ≡ x ∷ rest))
List-cases [] = inl refl
List-cases (x ∷ xs) = inr (x, xs, refl)

round-Takes :
    (key : List ℕ) (keys : List (List ℕ)) (d : RequestDispatcher)
    (out : Option Request × RequestDispatcher) (o : Option KeyQueue)
    → find key d.queues ≡ o
    → Takes d keys out
    → Takes d (key ∷ keys) (give key keys d out (pick o))
unfolding give pick front
round-Takes key keys d out none e more = skip key (ap pick e) more
round-Takes key keys d out (some kq) e more = elim (Bool-cases kq.working) [
  | inl w ↦ simp w (skip key (ap pick e ∙ simp w) more)
  | inr w ↦ elim (List-cases kq.waiting) [
    | inl n ↦ simp (w, n) (skip key (ap pick e ∙ simp (w, n)) more)
    | inr (req, rest, c) ↦
        simp (w, c)
          (found key keys req rest
            (e ∙ ap₂ (λ xs b. some (record { waiting = xs; working = b })) c w))
  ]
]

pub take_loop-Takes :
    (keys : List (List ℕ)) (d : RequestDispatcher) → Takes d keys (take_loop keys d)
unfolding take_loop
take_loop-Takes [] d = nothing
take_loop-Takes (key ∷ keys) d =
    round-Takes key keys d (take_loop keys d) (find key d.queues) refl (take_loop-Takes keys d)

-- What an entry is after another key's, or its own, was set.
pub at-set :
    (k : List ℕ) (kq : KeyQueue) (d : RequestDispatcher) (keys : List (List ℕ)) (n : ℕ)
    → at k (record { queues = set k kq d.queues; ready_keys = keys; depth = n }) ≡ kq
unfolding at
at-set k kq d keys n = ap or_empty (find-set k kq d.queues) ∙ (unfold or_empty in refl)

pub at-set_other :
    (j k : List ℕ) (kq : KeyQueue) (d : RequestDispatcher) (keys : List (List ℕ)) (n : ℕ)
    → same_text j k ≡ false
    → at j (record { queues = set k kq d.queues; ready_keys = keys; depth = n }) ≡ at j d
unfolding at
at-set_other j k kq d keys n h = ap or_empty (find-set_other j k kq d.queues h)

-- The requests of one key.
unfoldable pub of_key : List ℕ → List Request → List Request
of_key k [] = []
of_key k (r ∷ rs) = if same_text k r.session_key then r ∷ of_key k rs else of_key k rs

of_key-append :
    (k : List ℕ) (xs ys : List Request) → of_key k (xs ++ ys) ≡ of_key k xs ++ of_key k ys
unfolding of_key
of_key-append k [] ys = refl
of_key-append k (x ∷ xs) ys = elim (Bool-cases (same_text k x.session_key)) [
  | inl e ↦ simp (e, of_key-append k xs ys)
  | inr e ↦ simp (e, of_key-append k xs ys)
]

-- What the program does with a dispatcher while it runs.
pub data Op : Type 0 where
  pushes : Request → ℕ → Op
  takes : Op
  finishes : List ℕ → Op

unfoldable pub optional : Option Request → List Request
optional none = []
optional (some r) = r ∷ []

-- The requests that a call gives out, those that it accepts, and the dispatcher after it.
unfoldable pub step : Op → RequestDispatcher → List Request × List Request × RequestDispatcher
step (pushes req bound) d =
    let (accepted, d') = push req bound d in ([], if accepted then req ∷ [] else [], d')
step takes d = let (o, d') = take d in (optional o, [], d')
step (finishes key) d = ([], [], finish key d)

unfoldable pub run : List Op → RequestDispatcher → List Request × List Request × RequestDispatcher
run [] d = ([], [], d)
run (op ∷ ops) d =
    let (given, accepted, d') = step op d in
    let (givens, accepteds, d'') = run ops d' in (given ++ givens, accepted ++ accepteds, d'')

-- Each queue holds requests of its own key.
abbrev pub Homed : RequestDispatcher → Type 0
Homed d = (k : List ℕ) → All (λ r. same_text k r.session_key ≡ true) (at k d).waiting

push-waiting :
    (k : List ℕ) (req : Request) (bound : ℕ) (d : RequestDispatcher)
    → (at k (push req bound d).1).waiting
      ≡ (at k d).waiting ++ of_key k (if (push req bound d).0 then req ∷ [] else [])
unfolding push of_key
push-waiting k req bound d = elim (Bool-cases (leb bound d.depth)) [
  | inl full ↦ simp (full, append-nil (at k d).waiting)
  | inr fits ↦ elim (Bool-cases (same_text k req.session_key)) [
    | inl e ↦ simp (
      fits,
      same_text→≡ k req.session_key e,
      at-set req.session_key,
      same_text_refl req.session_key,
    )
    | inr e ↦ simp (fits, e, append-nil (at k d).waiting, at-set_other k req.session_key _ d _ _ e)
  ]
]

of_key-own :
    (k : List ℕ) (rs : List Request) → All (λ r. same_text k r.session_key ≡ true) (of_key k rs)
unfolding of_key
of_key-own k [] = tt
of_key-own k (r ∷ rs) = elim (Bool-cases (same_text k r.session_key)) [
  | inl e ↦ simp e (refl, of_key-own k rs)
  | inr e ↦ simp e (of_key-own k rs)
]

pub push-working :
    (k : List ℕ) (req : Request) (bound : ℕ) (d : RequestDispatcher)
    → (at k (push req bound d).1).working ≡ (at k d).working
unfolding push
push-working k req bound d = elim (Bool-cases (leb bound d.depth)) [
  | inl full ↦ simp full
  | inr fits ↦ elim (Bool-cases (same_text k req.session_key)) [
    | inl e ↦ simp (fits, same_text→≡ k req.session_key e, at-set req.session_key)
    | inr e ↦ simp (fits, at-set_other k req.session_key _ d _ _ e)
  ]
]

pub push-Homed :
    (req : Request) (bound : ℕ) (d : RequestDispatcher) → Homed d → Homed (push req bound d).1
push-Homed req bound d h k =
    subst (All (λ r. same_text k r.session_key ≡ true)) (sym (push-waiting k req bound d))
      (All-append (λ r. same_text k r.session_key ≡ true) (at k d).waiting _ (h k) (of_key-own k _))

settle-waiting :
    (k key : List ℕ) (d : RequestDispatcher) (o : Option KeyQueue)
    → find key d.queues ≡ o
    → (at k (settle key d o)).waiting ≡ (at k d).waiting
unfolding settle at or_empty
settle-waiting k key d none e = refl
settle-waiting k key d (some kq) e = elim (Bool-cases (same_text k key)) [
  | inl s ↦ elim (List-cases kq.waiting) [
    | inl n ↦ simp (n, same_text→≡ k key s, find-erase key d.queues, e, n)
    | inr (req, rest, c) ↦ simp (
      c,
      same_text→≡ k key s,
      find-set key (record { waiting = req ∷ rest; working = false }) d.queues,
      e,
      c,
    )
  ]
  | inr s ↦ elim (List-cases kq.waiting) [
    | inl n ↦ simp (n, find-erase_other k key d.queues s)
    | inr (req, rest, c) ↦ simp (c, find-set_other k key _ d.queues s)
  ]
]

settle-working :
    (k key : List ℕ) (d : RequestDispatcher) (o : Option KeyQueue)
    → find key d.queues ≡ o
    → (at k (settle key d o)).working ≡ (if same_text k key then false else (at k d).working)
unfolding settle at or_empty
settle-working k key d none e = elim (Bool-cases (same_text k key)) [
  | inl s ↦ simp (same_text→≡ k key s, same_text_refl key, e)
  | inr s ↦ simp s
]
settle-working k key d (some kq) e = elim (Bool-cases (same_text k key)) [
  | inl s ↦ elim (List-cases kq.waiting) [
    | inl n ↦ simp (n, same_text→≡ k key s, same_text_refl key, find-erase key d.queues)
    | inr (req, rest, c) ↦ simp (
      c,
      same_text→≡ k key s,
      same_text_refl key,
      find-set key (record { waiting = req ∷ rest; working = false }) d.queues,
    )
  ]
  | inr s ↦ elim (List-cases kq.waiting) [
    | inl n ↦ simp (n, s, find-erase_other k key d.queues s)
    | inr (req, rest, c) ↦ simp (c, s, find-set_other k key _ d.queues s)
  ]
]

-- `finish` takes the mark off its key and leaves the others.
pub finish-working :
    (k key : List ℕ) (d : RequestDispatcher)
    → (at k (finish key d)).working ≡ (if same_text k key then false else (at k d).working)
unfolding finish
finish-working k key d = settle-working k key d (find key d.queues) refl

pub finish-waiting :
    (k key : List ℕ) (d : RequestDispatcher) → (at k (finish key d)).waiting ≡ (at k d).waiting
unfolding finish
finish-waiting k key d = settle-waiting k key d (find key d.queues) refl

-- The first request of a key's queue is of that key.
pub head_own :
    (key : List ℕ) (req : Request) (rest : List Request) (d : RequestDispatcher)
    → find key d.queues ≡ some (record { waiting = req ∷ rest; working = false })
    → Homed d
    → same_text key req.session_key ≡ true
unfolding at or_empty
head_own key req rest d e h =
    (subst (λ o. All (λ r. same_text key r.session_key ≡ true) (or_empty o).waiting) e (h key)).0

take-waiting :
    (k : List ℕ) (d : RequestDispatcher) (keys : List (List ℕ))
    (out : Option Request × RequestDispatcher)
    → Takes d keys out
    → Homed d
    → of_key k (optional out.0) ++ (at k out.1).waiting ≡ (at k d).waiting
unfolding of_key optional at or_empty
take-waiting k d _ _ nothing h = refl
take-waiting k d _ out (skip key e more) h = take-waiting k d _ out more h
take-waiting k d _ _ (found key keys req rest e) h =
    let own = same_text→≡ key req.session_key (head_own key req rest d e h) in
    elim (Bool-cases (same_text k key)) [
      | inl s ↦ simp (
        sym own,
        same_text→≡ k key s,
        same_text_refl key,
        find-set key (record { waiting = rest; working = true }) d.queues,
        e,
      )
      | inr s ↦
          simp (
            sym own,
            s,
            find-set_other k key (record { waiting = rest; working = true }) d.queues s,
          )
    ]

All-back :
    (P : Request → Type 0) (k : List ℕ) (rs xs : List Request)
    → All P (of_key k rs ++ xs)
    → All P xs
unfolding of_key
All-back P k [] xs h = h
All-back P k (r ∷ rs) xs h = elim (Bool-cases (same_text k r.session_key)) [
  | inl e ↦ All-back P k rs xs (subst (All P) {y = r ∷ (of_key k rs ++ xs)} (simp e) h).1
  | inr e ↦ All-back P k rs xs (subst (All P) {y = of_key k rs ++ xs} (simp e) h)
]

pub step-Homed : (op : Op) (d : RequestDispatcher) → Homed d → Homed (step op d).2
unfolding step take
step-Homed (pushes req bound) d h k = push-Homed req bound d h k
step-Homed takes d h k = All-back _ k (optional (take_loop d.ready_keys d).0) _ (
    subst (All (λ r. same_text k r.session_key ≡ true))
      (sym (take-waiting k d d.ready_keys _ (take_loop-Takes d.ready_keys d) h)) (h k))
step-Homed (finishes key) d h k =
    subst (All (λ r. same_text k r.session_key ≡ true)) (sym (finish-waiting k key d)) (h k)

step_order :
    (k : List ℕ) (op : Op) (d : RequestDispatcher)
    → Homed d
    → let (given, accepted, d') = step op d in
      of_key k given ++ (at k d').waiting ≡ (at k d).waiting ++ of_key k accepted
unfolding step take of_key
step_order k (pushes req bound) d h = push-waiting k req bound d
step_order k takes d h =
    take-waiting k d d.ready_keys _ (take_loop-Takes d.ready_keys d) h
    ∙ sym (append-nil (at k d).waiting)
step_order k (finishes key) d h = finish-waiting k key d ∙ sym (append-nil (at k d).waiting)

-- Over any sequence of calls of push, take and finish on queues that hold requests of their own
-- keys, a key's requests that were given out and those that still wait are together exactly
-- those that waited and those accepted, in order.
pub run_order :
    (k : List ℕ) (ops : List Op) (d : RequestDispatcher)
    → Homed d
    → let (given, accepted, d') = run ops d in
      of_key k given ++ (at k d').waiting ≡ (at k d).waiting ++ of_key k accepted
unfolding run of_key
run_order k [] d h = sym (append-nil (at k d).waiting)
run_order k (op ∷ ops) d h =
    let s = step op d in
    let r = run ops s.2 in
    ap (λ xs. xs ++ (at k r.2).waiting) (of_key-append k s.0 r.0)
    ∙ append_assoc (of_key k s.0) (of_key k r.0) (at k r.2).waiting
    ∙ ap (◌++◌ (of_key k s.0)) (run_order k ops s.2 (step-Homed op d h))
    ∙ sym (append_assoc (of_key k s.0) (at k s.2).waiting (of_key k r.1))
    ∙ ap (λ xs. xs ++ of_key k r.1) (step_order k op d h)
    ∙ append_assoc (at k d).waiting (of_key k s.1) (of_key k r.1)
    ∙ ap (◌++◌ (at k d).waiting) (sym (of_key-append k s.1 r.1))
