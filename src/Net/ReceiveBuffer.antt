-- ===== src/Net/ReceiveBuffer.antt =====
-- src/net/receive_buffer.h and receive_buffer.cpp. `buf` is the memory that `buf_` points to, and
-- [] stands for the null pointer: no allocation is empty. The `int` positions stay below the
-- capacity limit, so they are plain numbers; the asserts are not part of a release build.
pub mod Bounds
pub mod Stream
use iocp_echo_server.Base.{
  ℕ, zero, suc, ◌+◌, ◌-◌, ◌*◌, Bool, true, false, List, [], ◌∷◌, ◌++◌, ltb, leb, ◌==◌, ◌&&◌,
  if◌then◌else◌, length, take, drop, replicate, is_nil,
}

pub record ReceiveBuffer : Type 0 where
  pub buf : List ℕ
  pub cap : ℕ
  pub write : ℕ
  pub read : ℕ

abbrev pub min_free : ℕ
min_free = 4 * 1024

abbrev pub chunk : ℕ
chunk = 8 * 1024

abbrev pub max_capacity : ℕ
max_capacity = 16 * 1024

-- A default-constructed buffer.
abbrev pub fresh : ReceiveBuffer
fresh = record { buf = []; cap = 0; write = 0; read = 0 }

abbrev pub readable_size : ReceiveBuffer → ℕ
readable_size b = b.write - b.read

abbrev pub writable_size : ReceiveBuffer → ℕ
writable_size b = b.cap - b.write

-- The bytes from `readable()` on, as many as `readable_size()`.
unfoldable pub readable : ReceiveBuffer → List ℕ
readable b = take (readable_size b) (drop b.read b.buf)

-- Overwriting memory from an offset on: `memcpy` and `memmove`, and what the kernel receives.
unfoldable pub blit : ℕ → List ℕ → List ℕ → List ℕ
blit at src dst = take at dst ++ (src ++ drop (at + length src) dst)

allocate : ℕ → ReceiveBuffer
allocate capacity = record { buf = replicate capacity 0; cap = capacity; write = 0; read = 0 }

reset : ReceiveBuffer → ReceiveBuffer
reset b = record b { write = 0; read = 0 }

compact : ReceiveBuffer → ReceiveBuffer
unfolding blit
compact b =
    let remain = b.write - b.read in
    record b {
      buf =
          if ltb 0 remain && ltb 0 b.read
          then blit 0 (take remain (drop b.read b.buf)) b.buf
          else b.buf;
      write = remain;
      read = 0;
    }

grow : ℕ → ReceiveBuffer → Bool × ReceiveBuffer
unfolding blit
grow add b =
    let remain = b.write - b.read in
    let new_cap = b.cap + add in
    let next = replicate new_cap 0 in
    if ltb max_capacity new_cap then (false, b) else (
      true,
      record {
        buf = if ltb 0 remain then blit 0 (take remain (drop b.read b.buf)) next else next;
        cap = new_cap;
        write = remain;
        read = 0;
      },
    )

-- `while (free + add < required) add += kChunk`; a round per byte required is enough.
unfoldable pub add_loop : ℕ → ℕ → ℕ → ℕ → ℕ
add_loop zero free required add = add
add_loop (suc fuel) free required add =
    let more = add_loop fuel free required (add + chunk) in
    if ltb (free + add) required then more else add

-- The part of `reserve_free` below the first early return.
make_room : ℕ → ReceiveBuffer → Bool × ReceiveBuffer
unfolding grow compact add_loop
make_room required b =
    if leb required (writable_size b + b.read)
    then (true, compact b)
    else let (grown, b') = grow (add_loop required (writable_size b + b.read) required chunk) b in
      if grown then (leb required (writable_size b'), b') else (false, b')

-- Where everything is consumed the buffer shrinks to one chunk, or starts over.
unfoldable pub restart : ReceiveBuffer → ReceiveBuffer
unfolding allocate reset
restart b = if b.read == b.write then if ltb chunk b.cap then allocate chunk else reset b else b

-- The first call allocates.
unfoldable pub ensure : ReceiveBuffer → ReceiveBuffer
unfolding allocate
ensure b = if is_nil b.buf then allocate chunk else b

unfoldable pub reserve_free : ℕ → ReceiveBuffer → Bool × ReceiveBuffer
unfolding ensure restart make_room
reserve_free asked b =
    let required = if asked == 0 then min_free else asked in
    let b' = restart (ensure b) in
    if leb required (writable_size b') then (true, b') else make_room required b'

unfoldable pub commit_write : ℕ → ReceiveBuffer → ReceiveBuffer
commit_write bytes b = record b { write = b.write + bytes }

unfoldable pub consume : ℕ → ReceiveBuffer → ReceiveBuffer
consume bytes b = record b { read = b.read + bytes }

-- A completed receive: the kernel has put the bytes at `writable()`.
unfoldable pub fill : List ℕ → ReceiveBuffer → ReceiveBuffer
unfolding blit
fill bytes b = record b { buf = blit b.write bytes b.buf }
