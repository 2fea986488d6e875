-- ===== src/Db/Dispatcher/Ready.antt =====
-- src/db/request_dispatcher.cpp: the keys that `take` gives out.
use iocp_echo_server.Base.{
  ℕ, ◌≡◌, refl, ap, ◌∙◌, Bool, true, false, ◌||◌, List, [], ◌∷◌, Option, none, some, is_nil, subst,
  Bool-cases, inl, inr, arith,
}
use iocp_echo_server.Base.Table.{find, set, text_key, same_text, same_text→≡}
use iocp_echo_server.Db.Types.{Request}
use iocp_echo_server.Db.Dispatcher.{KeyQueue, RequestDispatcher, or_empty, at, pick, front, take}
use iocp_echo_server.Db.Dispatcher.Order.{
  Takes, nothing, skip, found, take_loop-Takes, Homed, head_own, at-set,
}

same_request : (a b : Request) → some a ≡ some b → a ≡ b
same_request a b e = cc

free_now :
    (key : List ℕ) (rest : List Request) (req : Request) (d : RequestDispatcher)
    → find key d.queues ≡ some (record { waiting = req ∷ rest; working = false })
    → (at key d).working ≡ false
unfolding at or_empty
free_now key rest req d f = ap (λ o. (or_empty o).working) f

passed_over :
    (o : Option KeyQueue)
    → pick o ≡ none
    → (or_empty o).working ≡ false
    → is_nil (or_empty o).waiting ≡ true
unfolding pick front or_empty
passed_over none p w = refl
passed_over (some kq) p w = ground arith

taken_free :
    (d : RequestDispatcher) (keys : List (List ℕ)) (out : Option Request × RequestDispatcher)
    → Takes d keys out
    → Homed d
    → (req : Request) → out.0 ≡ some req
    → ((at req.session_key d).working ≡ false) × ((at req.session_key out.1).working ≡ true)
taken_free d _ _ nothing h req e = absurd (cc)
taken_free d _ out (skip key p more) h req e = taken_free d _ out more h req e
taken_free d _ _ (found key keys req' rest f) h req e =
    let own = same_text→≡ key req'.session_key (head_own key req' rest d f h) in
    subst
      (λ k.
        ((at k d).working ≡ false)
        × ((at k (record d {
          queues = set key (record { waiting = rest; working = true }) d.queues;
          ready_keys = keys;
        })).working
            ≡ true))
      (own ∙ ap (λ r. r.session_key) (same_request req' req e))
      (free_now key rest req' d f, ap (λ kq. kq.working) (at-set key _ d keys d.depth))

-- A request that take gives out, from queues that hold requests of their own keys, has a key
-- that nobody worked on, and that is being worked on from then on.
pub take_excludes :
    (d : RequestDispatcher) (req : Request)
    → Homed d
    → (take d).0 ≡ some req
    → ((at req.session_key d).working ≡ false) × ((at req.session_key (take d).1).working ≡ true)
unfolding take
take_excludes d req h e = taken_free d d.ready_keys _ (take_loop-Takes d.ready_keys d) h req e

unfoldable pub listed : List ℕ → List (List ℕ) → Bool
listed k [] = false
listed k (key ∷ keys) = same_text k key || listed k keys

-- A key whose requests could be given out is in the list.
abbrev pub Listed : RequestDispatcher → Type 0
Listed d =
    (k : List ℕ)
    → (at k d).working ≡ false
    → is_nil (at k d).waiting ≡ false
    → listed k d.ready_keys ≡ true

none_ready :
    (d : RequestDispatcher) (keys : List (List ℕ)) (out : Option Request × RequestDispatcher)
    → Takes d keys out
    → out.0 ≡ none
    → (k : List ℕ) → listed k keys ≡ true
    → (at k d).working ≡ false
    → is_nil (at k d).waiting ≡ true
unfolding listed
none_ready d _ _ nothing e k l w = cc
none_ready d _ out (skip key {keys} p more) e k l w = elim (Bool-cases (same_text k key)) [
  | inl s ↦
      unfold at in
      (passed_over (find k d.queues) (ap (λ i. pick (find i d.queues)) (same_text→≡ k key s) ∙ p)
        (unfold at in w))
  | inr s ↦ none_ready d keys out more e k (cc) w
]
none_ready d _ _ (found key keys req rest f) e k l w = absurd (cc)

-- `take` comes back with nothing only where nothing can be given out: each key with requests is
-- being worked on.
pub take-none :
    (d : RequestDispatcher)
    → Listed d
    → (take d).0 ≡ none
    → (k : List ℕ) → (at k d).working ≡ false
    → is_nil (at k d).waiting ≡ true
unfolding take
take-none d v e k w = elim (Bool-cases (is_nil (at k d).waiting)) [
  | inl n ↦ n
  | inr n ↦ none_ready d d.ready_keys _ (take_loop-Takes d.ready_keys d) e k (v k w n) w
]
