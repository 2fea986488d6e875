-- ===== src/Core/Uuid/Layout.antt =====
-- src/core/uuid.h: the form of a session key.
use iocp_echo_server.Base.{
  ℕ, zero, suc, ◌/◌, ◌%◌, ◌^◌, ◌<◌, ◌≤◌, ◌≡◌, refl, ap, bit_or, Bool, true, false, ◌&&◌, ◌||◌, ◌==◌,
  leb, List, [], ◌∷◌, arith,
}
use iocp_echo_server.Base.Bits.{bit_or_shift}
use iocp_echo_server.Core.Uuid.{hex_digit, write_rounds, write_hex, make_session_key}

abbrev pub is_hex : ℕ → Bool
is_hex c = (leb b'0' c && leb c b'9') || (leb b'a' c && leb c b'f')

hex_digit-is_hex : (d : ℕ) → is_hex (hex_digit (d % 16)) ≡ true
hex_digit-is_hex d = below (d % 16) (omega arith)
  where
    below : (d : ℕ) → d < 16 → is_hex (hex_digit d) ≡ true
    below d h = ground arith

-- What stands at a place of a key.
pub data Place : Type 0 where
  digit dash version variant : Place

unfoldable pub fits : Place → ℕ → Bool
fits digit c = is_hex c
fits dash c = c == b'-'
fits version c = c == b'4'
fits variant c = c == b'8' || c == b'9' || c == b'a' || c == b'b'

abbrev digits : ℕ → List Place → List Place
digits zero rest = rest
digits (suc n) rest = digit ∷ digits n rest

-- 8-4-4-4-12, with the version's and the variant's place.
abbrev pub layout : List Place
layout =
    digits 8 (
      dash ∷ digits 4 (dash ∷ version ∷ digits 3 (dash ∷ variant ∷ digits 3 (dash ∷ digits 12 []))))

unfoldable pub has_layout : List Place → List ℕ → Bool
has_layout [] [] = true
has_layout (p ∷ ps) (c ∷ cs) = fits p c && has_layout ps cs
has_layout _ _ = false

-- The digit of the version, and that of the variant.
version_digit : (n : ℕ) → n < 2 ^ 12 → bit_or 0x4000 n / 2 ^ 12 % 16 ≡ 4
version_digit n h = omega (arith, bit_or_shift 12 4 n h)

variant_digit :
    (n : ℕ)
    → n < 2 ^ 14
    → (8 ≤ bit_or 0x8000 n / 2 ^ 12 % 16) × (bit_or 0x8000 n / 2 ^ 12 % 16 < 12)
variant_digit n h = let e = bit_or_shift 14 2 n h in (omega (arith, e), omega (arith, e))

fits-version :
    (n : ℕ) → n < 2 ^ 12 → fits version (hex_digit (bit_or 0x4000 n / 2 ^ 12 % 16)) ≡ true
unfolding fits
fits-version n h = ap (λ d. fits version (hex_digit d)) (version_digit n h)

fits-variant :
    (n : ℕ) → n < 2 ^ 14 → fits variant (hex_digit (bit_or 0x8000 n / 2 ^ 12 % 16)) ≡ true
unfolding fits
fits-variant n h = let v = variant_digit n h in below (bit_or 0x8000 n / 2 ^ 12 % 16) (v.0) (v.1)
  where
    below : (d : ℕ) → 8 ≤ d → d < 12 → fits variant (hex_digit d) ≡ true
    below d a b = ground arith

fits-digit : (d : ℕ) → fits digit (hex_digit (d % 16)) ≡ true
unfolding fits
fits-digit d = hex_digit-is_hex d

has_layout-cons :
    (p : Place) (c : ℕ) (ps : List Place) (cs : List ℕ)
    → fits p c ≡ true
    → has_layout ps cs ≡ true
    → has_layout (p ∷ ps) (c ∷ cs) ≡ true
unfolding has_layout
has_layout-cons p c ps cs h t = simp (h, t) refl

has_layout-digit :
    (d : ℕ) (ps : List Place) (cs : List ℕ)
    → has_layout ps cs ≡ true
    → has_layout (digit ∷ ps) (hex_digit (d % 16) ∷ cs) ≡ true
has_layout-digit d ps cs t = has_layout-cons digit (hex_digit (d % 16)) ps cs (fits-digit d) t

three :
    (a b c : ℕ) (ps : List Place) (cs : List ℕ)
    → has_layout ps cs ≡ true
    → has_layout (digits 3 ps) (hex_digit (a % 16) ∷ hex_digit (b % 16) ∷ hex_digit (c % 16) ∷ cs)
      ≡ true
three a b c ps cs t = has_layout-digit a _ _ (has_layout-digit b _ _ (has_layout-digit c ps cs t))

four :
    (a b c d : ℕ) (ps : List Place) (cs : List ℕ)
    → has_layout ps cs ≡ true
    → has_layout
        (digits 4 ps)
        (hex_digit (a % 16) ∷ hex_digit (b % 16) ∷ hex_digit (c % 16) ∷ hex_digit (d % 16) ∷ cs)
      ≡ true
four a b c d ps cs t = has_layout-digit a _ _ (three b c d ps cs t)

dashed :
    (ps : List Place) (cs : List ℕ)
    → has_layout ps cs ≡ true
    → has_layout (dash ∷ ps) (b'-' ∷ cs) ≡ true
unfolding fits
dashed ps cs t = has_layout-cons dash b'-' ps cs refl t

-- A session key has 36 bytes, the hyphens in their four places, the version 4, one of the four
-- variants, and hexadecimal digits everywhere else.
pub make_session_key-layout : (hi lo : ℕ) → has_layout layout (make_session_key hi lo) ≡ true
unfolding make_session_key write_hex write_rounds
make_session_key-layout hi lo =
    let v = fits-version (hi % 2 ^ 12) (omega arith) in
    let w = fits-variant (lo / 2 ^ 48 % 2 ^ 14) (omega arith) in
    let node =
      four _ _ _ _ _ _ (four _ _ _ _ _ _ (four _ _ _ _ [] [] (unfold has_layout in refl))) in
    let clock = has_layout-cons variant _ _ _ w (three _ _ _ _ _ (dashed _ _ node)) in
    let middle = has_layout-cons version _ _ _ v (three _ _ _ _ _ (dashed _ _ clock)) in
    four _ _ _ _ _ _ (four _ _ _ _ _ _ (dashed _ _ (four _ _ _ _ _ _ (dashed _ _ middle))))
