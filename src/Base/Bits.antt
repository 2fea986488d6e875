-- ===== src/Base/Bits.antt =====
-- `hi << 8 | lo` on a byte `lo` is `hi * 256 + lo`. The libraries have no law of `bit_or` at
-- variables but its definition by binary digits.
use Prim.Native.Nat.{
  ℕ, zero, suc, ◌+◌, ◌*◌, ◌/◌, ◌%◌, ◌^◌, ◌≤◌, ◌<◌, max, bit_or, digits, bit_or-bitwise,
}
use mathlib.Core.Path.{◌≡◌, refl, ap}
use native.Mathlib.Nat.{pow-suc}
use native.Mathlib.Omega.{arith}

abbrev or_digits : ℕ → ℕ → ℕ → ℕ
or_digits n a b = digits (λ rest. rest) max n a b

or_digits-zero : (n b : ℕ) → or_digits n 0 b ≡ b
or_digits-zero zero b = refl
or_digits-zero (suc n) b = refl

-- Any fuel from `a` on gives the same digits.
or_digits_fuel : (n m a b : ℕ) → a ≤ n → a ≤ m → or_digits n a b ≡ or_digits m a b
or_digits_fuel n m zero b p q = omega (arith, or_digits-zero n b, or_digits-zero m b)
or_digits_fuel zero m (suc a) b p q = absurd (omega arith)
or_digits_fuel (suc n) zero (suc a) b p q = absurd (omega arith)
or_digits_fuel (suc n) (suc m) (suc a) b p q =
    omega (arith, or_digits_fuel n m (suc a / 2) (b / 2) (omega arith) (omega arith))

pub bit_or_step : (a b : ℕ) → bit_or a b ≡ bit_or (a / 2) (b / 2) * 2 + max (a % 2) (b % 2)
bit_or_step zero b = omega (arith, bit_or-bitwise 0 b, bit_or-bitwise 0 (b / 2))
bit_or_step (suc a) b = omega (
  arith,
  bit_or-bitwise (suc a) b,
  bit_or-bitwise (suc a / 2) (b / 2),
  or_digits_fuel a (suc a / 2) (suc a / 2) (b / 2) (omega arith) (omega arith),
)

bit_or-zero_fuel : (n a : ℕ) → a ≤ n → bit_or a 0 ≡ a
bit_or-zero_fuel n zero h = bit_or-bitwise 0 0
bit_or-zero_fuel zero (suc a) h = absurd (omega arith)
bit_or-zero_fuel (suc n) (suc a) h =
    omega (arith, bit_or_step (suc a) 0, bit_or-zero_fuel n (suc a / 2) (omega arith))

double : (k hi : ℕ) → hi * 2 ^ suc k ≡ hi * 2 ^ k * 2
double k hi = omega (arith, ap (λ (p : ℕ). hi * p) (pow-suc 2 k))

-- Where the low `k` digits of one number and the rest of the other are all zero, `|` is `+`.
pub bit_or_shift : (k hi lo : ℕ) → lo < 2 ^ k → bit_or (hi * 2 ^ k) lo ≡ hi * 2 ^ k + lo
bit_or_shift zero hi zero h =
    omega (arith, bit_or-zero_fuel (hi * 2 ^ 0) (hi * 2 ^ 0) (omega arith))
bit_or_shift zero hi (suc lo) h = absurd (omega arith)
bit_or_shift (suc k) hi lo h = rw (double k hi) (
    omega (
      arith,
      bit_or_step (hi * 2 ^ k * 2) lo,
      halved,
      bit_or_shift k hi (lo / 2) (omega (arith, pow-suc 2 k)),
    ))
  where
    halved : bit_or (hi * 2 ^ k * 2 / 2) (lo / 2) ≡ bit_or (hi * 2 ^ k) (lo / 2)
    halved = ap (λ n. bit_or n (lo / 2)) (omega arith)
