-- ===== src/Proto/ByteOrder/Laws.antt =====
-- src/proto/byte_order.h: stores and loads.
use iocp_echo_server.Base.{
  ℕ, zero, suc, ◌+◌, ◌*◌, ◌/◌, ◌%◌, ◌^◌, ◌≤◌, ◌<◌, ◌≡◌, refl, sym, ap, ◌∙◌, bit_or, List, [], ◌∷◌,
  ◌++◌, append_assoc, arith, length,
}
use native.Mathlib.Nat.{pow-suc}
use iocp_echo_server.Base.Bits.{bit_or_shift}
use iocp_echo_server.Proto.ByteOrder.{
  load_be16, load_be32, load_be64, load_be64_loop, store_be16, store_be32, store_be64,
  store_be64_loop,
}

abbrev pub IsByte : ℕ → Type 0
IsByte b = b < 256

-- `hi << 8 | lo` for a byte `lo`.
push_byte : (v b : ℕ) → b < 256 → bit_or (v * 2 ^ 8) b ≡ v * 256 + b
push_byte v b h = bit_or_shift 8 v b h

be32_sum :
    (b0 b1 b2 b3 : ℕ)
    → b1 < 256
    → b2 < 256
    → b3 < 256
    → bit_or (bit_or (bit_or (b0 * 2 ^ 24) (b1 * 2 ^ 16)) (b2 * 2 ^ 8)) b3
      ≡ b0 * 2 ^ 24 + b1 * 2 ^ 16 + b2 * 2 ^ 8 + b3
be32_sum b0 b1 b2 b3 h1 h2 h3 = rw (bit_or_shift 24 b0 (b1 * 2 ^ 16) (omega arith)) (
    ap (λ n. bit_or (bit_or n (b2 * 2 ^ 8)) b3) e1
    ∙ ap (λ n. bit_or n b3) (bit_or_shift 16 (b0 * 256 + b1) (b2 * 2 ^ 8) (omega arith))
    ∙ ap (λ n. bit_or n b3) e2
    ∙ bit_or_shift 8 (b0 * 65536 + b1 * 256 + b2) b3 h3
    ∙ omega arith)
  where
    e1 : b0 * 2 ^ 24 + b1 * 2 ^ 16 ≡ (b0 * 256 + b1) * 2 ^ 16
    e1 = omega arith

    e2 : (b0 * 256 + b1) * 2 ^ 16 + b2 * 2 ^ 8 ≡ (b0 * 65536 + b1 * 256 + b2) * 2 ^ 8
    e2 = omega arith

pub load-store_be16 : (v : ℕ) (rest : List ℕ) → v < 2 ^ 16 → load_be16 (store_be16 v ++ rest) ≡ v
unfolding load_be16 store_be16
load-store_be16 v rest h = push_byte (v / 2 ^ 8 % 256) (v % 256) (omega arith) ∙ omega arith

-- A 32-bit value that was stored is loaded back, whatever bytes follow it.
pub load-store_be32 : (v : ℕ) (rest : List ℕ) → v < 2 ^ 32 → load_be32 (store_be32 v ++ rest) ≡ v
unfolding load_be32 store_be32
load-store_be32 v rest h =
    be32_sum (v / 2 ^ 24 % 256) (v / 2 ^ 16 % 256) (v / 2 ^ 8 % 256) (v % 256) (omega arith)
      (omega arith) (omega arith)
    ∙ omega arith

store_loop_split :
    (n v : ℕ) (done : List ℕ) → store_be64_loop n v done ≡ store_be64_loop n v [] ++ done
unfolding store_be64_loop
store_loop_split zero v done = refl
store_loop_split (suc n) v done =
    store_loop_split n (v / 256) (v % 256 ∷ done)
    ∙ sym (append_assoc (store_be64_loop n (v / 256) []) (v % 256 ∷ []) done)
    ∙ ap (λ xs. xs ++ done) (sym (store_loop_split n (v / 256) (v % 256 ∷ [])))

length-store_loop : (n v : ℕ) (done : List ℕ) → length (store_be64_loop n v done) ≡ n + length done
unfolding store_be64_loop
length-store_loop zero v done = omega arith
length-store_loop (suc n) v done = omega (arith, length-store_loop n (v / 256) (v % 256 ∷ done))

-- The last round of the load loop.
load_loop_last :
    (n acc b : ℕ) (xs rest : List ℕ)
    → length xs ≡ n
    → load_be64_loop (suc n) acc (xs ++ (b ∷ rest))
      ≡ bit_or (load_be64_loop n acc (xs ++ (b ∷ rest)) * 2 ^ 8 % 2 ^ 64) b
unfolding load_be64_loop
load_loop_last zero acc b [] rest h = refl
load_loop_last zero acc b (x ∷ xs) rest h = absurd (omega arith)
load_loop_last (suc n) acc b [] rest h = absurd (omega arith)
load_loop_last (suc n) acc b (x ∷ xs) rest h =
    load_loop_last n (bit_or (acc * 2 ^ 8 % 2 ^ 64) x) b xs rest (omega arith)

load-store_loop :
    (n v : ℕ) (rest : List ℕ)
    → v < 2 ^ 64
    → v < 256 ^ n
    → load_be64_loop n 0 (store_be64_loop n v [] ++ rest) ≡ v
unfolding load_be64_loop store_be64_loop
load-store_loop zero v rest small h = omega arith
load-store_loop (suc n) v rest small h =
    rw (store_loop_split n (v / 256) (v % 256 ∷ []), append_assoc)
      (load_loop_last n 0 (v % 256) high rest (length-store_loop n (v / 256) [] ∙ omega arith)
        ∙ ap (λ k. bit_or (k * 2 ^ 8 % 2 ^ 64) (v % 256))
            (load-store_loop n (v / 256) (v % 256 ∷ rest) (omega arith)
              (omega (arith, pow-suc 256 n)))
        ∙ ap (λ k. bit_or k (v % 256)) {x = v / 256 * 2 ^ 8 % 2 ^ 64} {y = v / 256 * 2 ^ 8}
            (omega arith)
        ∙ push_byte (v / 256) (v % 256) (omega arith)
        ∙ omega arith)
  where
    high : List ℕ
    high = store_be64_loop n (v / 256) []

-- A 64-bit value that was stored is loaded back, whatever bytes follow it.
pub load-store_be64 : (v : ℕ) (rest : List ℕ) → v < 2 ^ 64 → load_be64 (store_be64 v ++ rest) ≡ v
unfolding load_be64 store_be64
load-store_be64 v rest h = load-store_loop 8 v rest h (omega arith)

pub length-store_be16 : (v : ℕ) → length (store_be16 v) ≡ 2
unfolding store_be16
length-store_be16 v = refl

pub length-store_be32 : (v : ℕ) → length (store_be32 v) ≡ 4
unfolding store_be32
length-store_be32 v = refl

pub length-store_be64 : (v : ℕ) → length (store_be64 v) ≡ 8
unfolding store_be64
length-store_be64 v = length-store_loop 8 v []

-- A load reads its own bytes only.
pub load_be16-append : (xs ys : List ℕ) → 2 ≤ length xs → load_be16 (xs ++ ys) ≡ load_be16 xs
unfolding load_be16
load_be16-append (a ∷ b ∷ xs) ys h = refl
load_be16-append (a ∷ []) ys h = absurd (omega arith)
load_be16-append [] ys h = absurd (omega arith)

pub load_be32-append : (xs ys : List ℕ) → 4 ≤ length xs → load_be32 (xs ++ ys) ≡ load_be32 xs
unfolding load_be32
load_be32-append (a ∷ b ∷ c ∷ d ∷ xs) ys h = refl
load_be32-append (a ∷ b ∷ c ∷ []) ys h = absurd (omega arith)
load_be32-append (a ∷ b ∷ []) ys h = absurd (omega arith)
load_be32-append (a ∷ []) ys h = absurd (omega arith)
load_be32-append [] ys h = absurd (omega arith)
