-- ===== src/Db/Pool/Shared/Keys.antt =====
-- src/db/request_dispatcher.cpp: who holds a key, through `take` and `finish`.
use iocp_echo_server.Base.{
  ℕ, ◌≡◌, refl, sym, ap, ◌∙◌, ◌⊎◌, true, false, ◌||◌, List, [], ◌∷◌, ◌++◌, Option, none, some,
  subst, arith, All, Bool-cases, inl, inr,
}
use iocp_echo_server.Base.Table.{text_key, same_text, same_text→≡}
use iocp_echo_server.Db.Types.{Request}
use iocp_echo_server.Db.Dispatcher.{RequestDispatcher, at, take, finish}
use iocp_echo_server.Db.Dispatcher.Order.{
  Takes, nothing, skip, found, take_loop-Takes, Homed, head_own, at-set_other, takes, step,
  step-Homed, finish-waiting, finish-working,
}
use iocp_echo_server.Db.Dispatcher.Ready.{listed}
use iocp_echo_server.Db.Pool.Shared.{finish_all}

listed-append :
    (k : List ℕ) (xs ys : List (List ℕ)) → listed k (xs ++ ys) ≡ (listed k xs || listed k ys)
unfolding listed
listed-append k [] ys = refl
listed-append k (x ∷ xs) ys = elim (Bool-cases (same_text k x)) [
  | inl e ↦ simp e refl
  | inr e ↦ simp e (listed-append k xs ys)
]

pub finish_all-Homed :
    (keys : List (List ℕ)) (d : RequestDispatcher) → Homed d → Homed (finish_all keys d)
unfolding finish_all
finish_all-Homed [] d h = h
finish_all-Homed (key ∷ keys) d h =
    finish_all-Homed keys (finish key d) (λ k.
      subst (All (λ r. same_text k r.session_key ≡ true)) (sym (finish-waiting k key d)) (h k))

-- Nobody works on the key, or it is one of the keys.
abbrev pub HeldBy : List ℕ → List (List ℕ) → RequestDispatcher → Type 0
HeldBy k keys d = ((at k d).working ≡ false) ⊎ (listed k keys ≡ true)

pub finish-HeldBy :
    (k key : List ℕ) (keys : List (List ℕ)) (d : RequestDispatcher)
    → HeldBy k (key ∷ keys) d
    → HeldBy k keys (finish key d)
unfolding listed
finish-HeldBy k key keys d h = elim (Bool-cases (same_text k key)) [
  | inl s ↦ inl (finish-working k key d ∙ simp s refl)
  | inr s ↦ from s h
]
  where
    from : same_text k key ≡ false → HeldBy k (key ∷ keys) d → HeldBy k keys (finish key d)
    from s (inl free) = inl (finish-working k key d ∙ simp s free)
    from s (inr l) = inr (sym (ap (λ b. b || listed k keys) s) ∙ l)

pub finish_all-HeldBy :
    (k : List ℕ) (keys more : List (List ℕ)) (d : RequestDispatcher)
    → HeldBy k (keys ++ more) d
    → HeldBy k more (finish_all keys d)
unfolding finish_all
finish_all-HeldBy k [] more d h = h
finish_all-HeldBy k (key ∷ keys) more d h =
    finish_all-HeldBy k keys more (finish key d) (finish-HeldBy k key (keys ++ more) d h)

-- What `take` gave out, as the keys that its caller then holds.
unfoldable pub given : Option Request → List (List ℕ)
given none = []
given (some req) = req.session_key ∷ []

Takes-HeldBy :
    (k : List ℕ) (d : RequestDispatcher) (keys : List (List ℕ))
    (out : Option Request × RequestDispatcher)
    → Takes d keys out
    → Homed d
    → (at k d).working ≡ false
    → HeldBy k (given out.0) out.1
unfolding at
Takes-HeldBy k d _ _ nothing h free = inl free
Takes-HeldBy k d _ out (skip key p more) h free = Takes-HeldBy k d _ out more h free
Takes-HeldBy k d _ _ (found key keys req rest e) h free =
    let own = same_text→≡ key req.session_key (head_own key req rest d e h) in
    elim (Bool-cases (same_text k key)) [
      | inl s ↦ inr (unfold given listed in simp (sym own, s) refl)
      | inr s ↦ inl (ap (λ kq. kq.working) (at-set_other k key _ d keys d.depth s) ∙ free)
    ]

-- The queues hold requests of their own keys, and the key is held with these keys or by nobody.
abbrev pub Inv : List ℕ → List (List ℕ) → RequestDispatcher → Type 0
Inv k keys d = Homed d × HeldBy k keys d

pub take-Inv :
    (k : List ℕ) (keys : List (List ℕ)) (d : RequestDispatcher)
    → Inv k keys d
    → Inv k (keys ++ given (take d).0) (take d).1
unfolding take step
take-Inv k keys d (h, held) = (step-Homed takes d h, from held)
  where
    joined : HeldBy k (given (take d).0) (take d).1 → HeldBy k (keys ++ given (take d).0) (take d).1
    joined (inl free) = inl free
    joined (inr l) = inr (listed-append k keys (given (take d).0) ∙ ground (arith, l))

    from : HeldBy k keys d → HeldBy k (keys ++ given (take d).0) (take d).1
    from (inl free) =
        joined
          (unfold take in Takes-HeldBy k d d.ready_keys _ (take_loop-Takes d.ready_keys d) h free)
    from (inr l) = inr (listed-append k keys (given (take d).0) ∙ ground (arith, l))

pub free_of : (k : List ℕ) (d : RequestDispatcher) → HeldBy k [] d → (at k d).working ≡ false
unfolding listed
free_of k d (inl free) = free
free_of k d (inr l) = absurd (cc)
