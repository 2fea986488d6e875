-- ===== src/Base/Table.antt =====
-- Tables: `unordered_map` kept in a list of entries, where a key is looked up from the front.
use Prim.Native.Nat.{ℕ, ◌≤◌, ◌+◌}
use mathlib.Core.Path.{subst, ◌≡◌, refl, sym, ap, ◌∙◌}
use mathlib.Core.Logic.{inl, inr}
use mathlib.Core.Bool.{Bool, true, false, ◌&&◌}
use mathlib.Core.Option.{Option, none, some}
use mathlib.Core.List.{List, [], ◌∷◌}
use native.Mathlib.Omega.{arith}
use iocp_echo_server.Base.Lists.{length}
use iocp_echo_server.Base.Tests.{◌==◌, if◌then◌else◌, Bool-cases}

pub number_refl : (a : ℕ) → (a == a) ≡ true
number_refl a = ground arith

pub number→≡ : (a b : ℕ) → (a == b) ≡ true → a ≡ b
number→≡ a b e = ground arith

-- Keys are told apart by a test.
pub record Key {ℓ} (K : Type ℓ) : Type ℓ where
  pub same : K → K → Bool
  pub same_refl : (a : K) → same a a ≡ true
  pub same→≡ : (a b : K) → same a b ≡ true → a ≡ b

instance abbrev pub number_key : Key ℕ
number_key = record { same = λ a b. a == b; same_refl = number_refl; same→≡ = number→≡ }

-- Texts are lists of bytes.
abbrev pub same_text : List ℕ → List ℕ → Bool
same_text [] [] = true
same_text (a ∷ xs) (b ∷ ys) = (a == b) && same_text xs ys
same_text _ _ = false

pub same_text_refl : (xs : List ℕ) → same_text xs xs ≡ true
same_text_refl [] = refl
same_text_refl (a ∷ xs) = ground (arith, same_text_refl xs)

pub same_text→≡ : (xs ys : List ℕ) → same_text xs ys ≡ true → xs ≡ ys
same_text→≡ [] [] e = refl
same_text→≡ (a ∷ xs) (b ∷ ys) e = ground (arith, same_text→≡ xs ys)
same_text→≡ [] (b ∷ ys) e = ground arith
same_text→≡ (a ∷ xs) [] e = ground arith

instance abbrev pub text_key : Key (List ℕ)
text_key = record { same = same_text; same_refl = same_text_refl; same→≡ = same_text→≡ }

abbrev pub Table {ℓ} : Type ℓ → Type ℓ → Type ℓ
Table K V = List (K × V)

some_inj {ℓ} : {A : Type ℓ} (a b : A) → some a ≡ some b → a ≡ b
some_inj a b e = cc

module _ {ℓ} {K V : Type ℓ} ⦃key : Key K⦄ where
  unfoldable pub find : K → Table K V → Option V
  find k [] = none
  find k ((i, v) ∷ t) = if key.same k i then some v else find k t

  -- `t[k] = v`
  unfoldable pub set : K → V → Table K V → Table K V
  set k v [] = (k, v) ∷ []
  set k v ((i, w) ∷ t) = if key.same k i then (i, v) ∷ t else (i, w) ∷ set k v t

  unfoldable pub erase : K → Table K V → Table K V
  erase k [] = []
  erase k ((i, w) ∷ t) = let rest = erase k t in if key.same k i then rest else (i, w) ∷ rest

  pub find-set : (k : K) (v : V) (t : Table K V) → find k (set k v t) ≡ some v
  unfolding find set
  find-set k v [] = simp (key.same_refl k)
  find-set k v ((i, w) ∷ t) = elim (Bool-cases (key.same k i)) [
    | inl e ↦ simp e
    | inr e ↦ simp (e, find-set k v t)
  ]

  pub find-set_other :
      (j k : K) (v : V) (t : Table K V) → key.same j k ≡ false → find j (set k v t) ≡ find j t
  unfolding find set
  find-set_other j k v [] h = simp h
  find-set_other j k v ((i, w) ∷ t) h = elim (Bool-cases (key.same k i)) [
    | inl e ↦ simp (e, ap (key.same j) (sym (key.same→≡ k i e)) ∙ h)
    | inr e ↦ simp (e, find-set_other j k v t h)
  ]

  pub find-erase : (k : K) (t : Table K V) → find k (erase k t) ≡ none
  unfolding find erase
  find-erase k [] = refl
  find-erase k ((i, w) ∷ t) = elim (Bool-cases (key.same k i)) [
    | inl e ↦ simp (e, find-erase k t)
    | inr e ↦ simp (e, find-erase k t)
  ]

  pub find-erase_other :
      (j k : K) (t : Table K V) → key.same j k ≡ false → find j (erase k t) ≡ find j t
  unfolding find erase
  find-erase_other j k [] h = refl
  find-erase_other j k ((i, w) ∷ t) h = elim (Bool-cases (key.same k i)) [
    | inl e ↦ simp (e, ap (key.same j) (sym (key.same→≡ k i e)) ∙ h, find-erase_other j k t h)
    | inr e ↦ simp (e, find-erase_other j k t h)
  ]

  -- `emplace` leaves an entry that is there as it is.
  unfoldable pub emplace : K → V → Table K V → Table K V
  emplace k v [] = (k, v) ∷ []
  emplace k v ((i, w) ∷ t) = if key.same k i then (i, w) ∷ t else (i, w) ∷ emplace k v t

  -- A property of every value.
  abbrev pub Values {κ} : (V → Type κ) → Table K V → Type κ
  Values P [] = Unit {κ}
  Values P ((i, v) ∷ t) = P v × Values P t

  pub find-Values {κ} :
      (P : V → Type κ) (k : K) (t : Table K V) {v : V} → Values P t → find k t ≡ some v → P v
  unfolding find
  find-Values P k [] {v = v} h e = absurd (cc)
  find-Values P k ((i, w) ∷ t) {v = v} h e = elim (Bool-cases (key.same k i)) [
    | inl s ↦
        subst P (some_inj _ _ (subst (λ b. (if b then some w else find k t) ≡ some v) s e)) h.0
    | inr s ↦
        find-Values P k t {v = v} h.1 (subst (λ b. (if b then some w else find k t) ≡ some v) s e)
  ]

  pub set-Values {κ} :
      (P : V → Type κ) (k : K) (v : V) (t : Table K V) → P v → Values P t → Values P (set k v t)
  unfolding set
  set-Values P k v [] p h = (p, tt)
  set-Values P k v ((i, w) ∷ t) p h = elim (Bool-cases (key.same k i)) [
    | inl s ↦ simp s (p, h.1)
    | inr s ↦ simp s (h.0, set-Values P k v t p h.1)
  ]

  pub emplace-Values {κ} :
      (P : V → Type κ) (k : K) (v : V) (t : Table K V) → P v → Values P t → Values P (emplace k v t)
  unfolding emplace
  emplace-Values P k v [] p h = (p, tt)
  emplace-Values P k v ((i, w) ∷ t) p h = elim (Bool-cases (key.same k i)) [
    | inl s ↦ simp s h
    | inr s ↦ simp s (h.0, emplace-Values P k v t p h.1)
  ]

  pub erase-Values {κ} :
      (P : V → Type κ) (k : K) (t : Table K V) → Values P t → Values P (erase k t)
  unfolding erase
  erase-Values P k [] h = h
  erase-Values P k ((i, w) ∷ t) h = elim (Bool-cases (key.same k i)) [
    | inl s ↦ simp s (erase-Values P k t h.1)
    | inr s ↦ simp s (h.0, erase-Values P k t h.1)
  ]

  pub length-set :
      (k : K) (v w : V) (t : Table K V) → find k t ≡ some w → length (set k v t) ≡ length t
  unfolding find set
  length-set k v w [] e = cc
  length-set k v w ((i, u) ∷ t) e = ground (arith, length-set k v w t)

  pub length-emplace : (k : K) (v : V) (t : Table K V) → length (emplace k v t) ≤ length t + 1
  unfolding emplace
  length-emplace k v [] = omega arith
  length-emplace k v ((i, u) ∷ t) = ground (arith, length-emplace k v t)

  pub length-erase : (k : K) (t : Table K V) → length (erase k t) ≤ length t
  unfolding erase
  length-erase k [] = omega arith
  length-erase k ((i, u) ∷ t) = ground (arith, length-erase k t)

  pub find-emplace : (k : K) (v : V) (t : Table K V) → (w : V) × (find k (emplace k v t) ≡ some w)
  unfolding find emplace
  find-emplace k v [] = (v, simp (key.same_refl k))
  find-emplace k v ((i, u) ∷ t) = elim (Bool-cases (key.same k i)) [
    | inl e ↦ simp e (u, refl)
    | inr e ↦ simp e (find-emplace k v t)
  ]
