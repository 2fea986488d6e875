-- ===== src/Proto/Codec.antt =====
-- src/proto/byte_reader.h and src/proto/byte_writer.h. A reader's `bytes` are those that `data_`
-- points to; a writer is the vector of its bytes. The signed `i64` casts the unsigned value and is
-- left out. Positions are 32-bit and wrap.
pub mod Laws
pub mod RoundTrip
use iocp_echo_server.Base.{
  ℕ, ◌+◌, ◌-◌, ◌%◌, ◌^◌, Bool, true, false, not, List, [], ◌∷◌, ◌++◌, ltb, if◌then◌else◌, length,
  take, drop, ◌==◌, ◌&&◌,
}
use iocp_echo_server.Proto.ByteOrder.{
  load_be16, load_be32, load_be64, store_be16, store_be32, store_be64,
}

pub record Reader : Type 0 where
  pub bytes : List ℕ
  pub size : ℕ
  pub pos : ℕ
  pub ok : Bool

-- The constructor: `size` bytes from `bytes` on.
unfoldable pub new_reader : List ℕ → ℕ → Reader
new_reader bytes size = record { bytes = bytes; size = size; pos = 0; ok = true }

-- `size_ - pos_` in 32 bits
abbrev pub left : Reader → ℕ
left r = (r.size + 2 ^ 32 - r.pos) % 2 ^ 32

pub need : ℕ → Reader → Bool × Reader
need n r =
    if not r.ok
    then (false, r)
    else if ltb (left r) n
    then (false, record r { ok = false })
    else (true, r)

-- `pos_ += n` in 32 bits
abbrev pub advance : ℕ → Reader → Reader
advance n r = record r { pos = (r.pos + n) % 2 ^ 32 }

abbrev first : List ℕ → ℕ
first [] = 0
first (b ∷ _) = b

pub u8 : Reader → ℕ × Reader
unfolding need
u8 r =
    let (enough, r') = need 1 r in
    if not enough then (0, r') else (first (drop r'.pos r'.bytes), advance 1 r')

pub u16 : Reader → ℕ × Reader
unfolding need
u16 r =
    let (enough, r') = need 2 r in
    if not enough then (0, r') else (load_be16 (drop r'.pos r'.bytes), advance 2 r')

pub u32 : Reader → ℕ × Reader
unfolding need
u32 r =
    let (enough, r') = need 4 r in
    if not enough then (0, r') else (load_be32 (drop r'.pos r'.bytes), advance 4 r')

pub u64 : Reader → ℕ × Reader
unfolding need
u64 r =
    let (enough, r') = need 8 r in
    if not enough then (0, r') else (load_be64 (drop r'.pos r'.bytes), advance 8 r')

-- After the length, the view of that many bytes; the empty view if either part is missing.
str_rest : ℕ → Reader → List ℕ × Reader
unfolding need
str_rest n r =
    if not r.ok
    then ([], r)
    else let (enough, r') = need n r in
      if not enough then ([], r') else (take n (drop r'.pos r'.bytes), advance n r')

pub str : Reader → List ℕ × Reader
unfolding str_rest
str r = let (n, r') = u16 r in str_rest n r'

pub consumed_all : Reader → Bool
consumed_all r = r.ok && (r.pos == r.size)

pub remaining : Reader → ℕ
remaining r = if r.ok then left r else 0

-- The writer.
abbrev pub Writer : Type 0
Writer = List ℕ

pub put_u8 : ℕ → Writer → Writer
put_u8 v w = w ++ (v % 256 ∷ [])

pub put_u16 : ℕ → Writer → Writer
put_u16 v w = w ++ store_be16 v

pub put_u32 : ℕ → Writer → Writer
put_u32 v w = w ++ store_be32 v

pub put_u64 : ℕ → Writer → Writer
put_u64 v w = w ++ store_be64 v

-- The length that `str` writes: a longer text is cut.
abbrev str_len : List ℕ → ℕ
str_len s = if ltb 0xFFFF (length s) then 0xFFFF else length s

pub put_str : List ℕ → Writer → Writer
unfolding put_u16
put_str s w = put_u16 (str_len s) w ++ take (str_len s) s

-- `size()` narrows to 32 bits.
pub writer_size : Writer → ℕ
writer_size w = length w % 2 ^ 32
