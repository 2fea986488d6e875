-- ===== src/Proto/ByteOrder.antt =====
-- src/proto/byte_order.h. A pointer is the list of the bytes from it on; the callers check that
-- enough bytes are there, and a load from fewer gives 0 here. A store is the list of the bytes
-- that it writes. A byte is a number below 256, a shift is a product or a quotient by a power of
-- two, and a narrowing cast is a remainder.
pub mod Laws
use iocp_echo_server.Base.{ℕ, zero, suc, ◌*◌, ◌/◌, ◌%◌, ◌^◌, bit_or, List, [], ◌∷◌}

unfoldable pub load_be16 : List ℕ → ℕ
load_be16 (b0 ∷ b1 ∷ _) = bit_or (b0 * 2 ^ 8) b1
load_be16 _ = 0

unfoldable pub load_be32 : List ℕ → ℕ
load_be32 (b0 ∷ b1 ∷ b2 ∷ b3 ∷ _) =
    bit_or (bit_or (bit_or (b0 * 2 ^ 24) (b1 * 2 ^ 16)) (b2 * 2 ^ 8)) b3
load_be32 _ = 0

-- `for (i...) v = (v << 8) | b[i]` with `n` bytes to go; the shift drops what passes bit 63.
pub load_be64_loop : ℕ → ℕ → List ℕ → ℕ
load_be64_loop zero v p = v
load_be64_loop (suc n) v [] = v
load_be64_loop (suc n) v (b ∷ p) = load_be64_loop n (bit_or (v * 2 ^ 8 % 2 ^ 64) b) p

pub load_be64 : List ℕ → ℕ
load_be64 p = load_be64_loop 8 0 p

unfoldable pub store_be16 : ℕ → List ℕ
store_be16 v = v / 2 ^ 8 % 256 ∷ v % 256 ∷ []

unfoldable pub store_be32 : ℕ → List ℕ
store_be32 v = v / 2 ^ 24 % 256 ∷ v / 2 ^ 16 % 256 ∷ v / 2 ^ 8 % 256 ∷ v % 256 ∷ []

-- `for (i = 7; i >= 0; --i) { b[i] = v; v >>= 8; }` with `n` bytes to go, the last ones first.
pub store_be64_loop : ℕ → ℕ → List ℕ → List ℕ
store_be64_loop zero v done = done
store_be64_loop (suc n) v done = store_be64_loop n (v / 2 ^ 8) (v % 256 ∷ done)

pub store_be64 : ℕ → List ℕ
store_be64 v = store_be64_loop 8 v []
