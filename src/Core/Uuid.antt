-- ===== src/Core/Uuid.antt =====
-- src/core/uuid.h: the making of session keys. The two random numbers of 64 bits are parameters.
-- `& (2^k - 1)` is written `% 2^k`, and `>> k` is `/ 2^k`.
pub mod Layout
use iocp_echo_server.Base.{
  ℕ, zero, suc, ◌+◌, ◌-◌, ◌*◌, ◌/◌, ◌%◌, ◌^◌, bit_or, List, [], ◌∷◌, ◌++◌, take, drop, length,
  replicate, codes,
}

abbrev pub byte_at : ℕ → List ℕ → ℕ
byte_at i [] = 0
byte_at zero (c ∷ cs) = c
byte_at (suc i) (c ∷ cs) = byte_at i cs

-- `kHex`
abbrev pub hex : List ℕ
hex = codes "0123456789abcdef"

abbrev pub hex_digit : ℕ → ℕ
hex_digit d = byte_at d hex

abbrev write_at : ℕ → ℕ → List ℕ → List ℕ
write_at i c out = take i out ++ (c ∷ drop (suc i) out)

-- The rounds of `write_hex` that are left, of `digits`.
unfoldable pub write_rounds : ℕ → ℕ → ℕ → ℕ → List ℕ → List ℕ
write_rounds zero start digits value out = out
write_rounds (suc left) start digits value out =
    let i = digits - suc left in
    let shift = (digits - 1 - i) * 4 in
    write_rounds left start digits value
      (write_at (start + i) (hex_digit (value / 2 ^ shift % 16)) out)

unfoldable pub write_hex : ℕ → ℕ → ℕ → List ℕ → List ℕ
write_hex start digits value out = write_rounds digits start digits value out

unfoldable pub make_session_key : ℕ → ℕ → List ℕ
make_session_key hi lo = write_hex 24 12 (lo % 2 ^ 48) (
    write_hex 19 4 (bit_or 0x8000 (lo / 2 ^ 48 % 2 ^ 14)) (
      write_hex 14 4 (bit_or 0x4000 (hi % 2 ^ 12))
        (write_hex 9 4 (hi / 2 ^ 16 % 2 ^ 16) (write_hex 0 8 (hi / 2 ^ 32) (replicate 36 b'-')))))
