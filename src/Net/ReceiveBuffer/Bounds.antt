-- ===== src/Net/ReceiveBuffer/Bounds.antt =====
-- src/net/receive_buffer.cpp: the representation, and the room that `reserve_free` makes.
use iocp_echo_server.Base.{
  ℕ, zero, suc, ◌+◌, ◌-◌, ◌%◌, ◌^◌, ◌≤◌, ◌<◌, ◌≡◌, refl, ◌⊎◌, ◌↔◌, Bool, true, List, ◌++◌, arith,
  length, take, drop, replicate, length-append, length-take, length-drop, take-none, drop_none,
  take-append_eq, length-replicate, is_nil→length, ◌==◌, if◌then◌else◌,
}
use iocp_echo_server.Net.ReceiveBuffer.{
  ReceiveBuffer, chunk, max_capacity, min_free, readable_size, writable_size, readable, blit,
  allocate, reset, compact, grow, add_loop, make_room, restart, ensure, reserve_free,
}

-- [0, read) is consumed, [read, write) waits, [write, cap) is free, and the memory is a whole
-- number of chunks within the limit.
pub record IsValid (b : ReceiveBuffer) : Type 0 where
  pub memory : length b.buf ≡ b.cap
  pub order : b.read ≤ b.write
  pub room : b.write ≤ b.cap
  pub limit : b.cap ≤ max_capacity
  pub whole : b.cap % chunk ≡ 0

pub length-blit :
    (at : ℕ) (src dst : List ℕ)
    → at + length src ≤ length dst
    → length (blit at src dst) ≡ length dst
unfolding blit
length-blit at src dst h = omega (
  arith,
  length-append (take at dst) (src ++ drop (at + length src) dst),
  length-append src (drop (at + length src) dst),
  length-take at dst,
  length-drop (at + length src) dst,
)

-- The bytes that a buffer holds.
pub length-readable : (b : ReceiveBuffer) → IsValid b → length (readable b) ≡ readable_size b
unfolding readable
length-readable b v =
    omega (arith, length-take (b.write - b.read) (drop b.read b.buf), length-drop b.read b.buf, v)

-- The growth found covers what is required by less than a chunk more than needed, in chunks.
add_loop_lem :
    (fuel free required add : ℕ)
    → required ≤ fuel + free + add
    → add % chunk ≡ 0
    → let a = add_loop fuel free required add in
      (required ≤ free + a)
      × (a % chunk ≡ 0)
      × (add ≤ a)
      × ((a ≡ add) ⊎ (free + a < required + chunk))
unfolding add_loop
add_loop_lem zero free required add h m = ground arith
add_loop_lem (suc fuel) free required add h m =
    ground (arith, add_loop_lem fuel free required (add + chunk))

restart-IsValid : (b : ReceiveBuffer) → IsValid b → IsValid (restart b)
unfolding restart allocate reset
restart-IsValid b v = ground (arith, length-replicate {A = ℕ} chunk 0)

compact-IsValid : (b : ReceiveBuffer) → IsValid b → IsValid (compact b)
unfolding compact
compact-IsValid b v = ground (
  arith,
  length-blit 0 (take (b.write - b.read) (drop b.read b.buf)) b.buf,
  length-take (b.write - b.read) (drop b.read b.buf),
  length-drop b.read b.buf,
)

compact_fields :
    (b : ReceiveBuffer) → ((compact b).cap ≡ b.cap) × ((compact b).write ≡ readable_size b)
unfolding compact
compact_fields b = (refl, refl)

readable-restart : (b : ReceiveBuffer) → readable (restart b) ≡ readable b
unfolding restart readable allocate reset
readable-restart b = ground (
  arith,
  take-none (b.write - b.read) (drop b.read b.buf),
  take-none {A = ℕ} 0 (replicate chunk 0),
  take-none 0 b.buf,
)

-- The first bytes of a memory over which `src` was copied.
take-blit : (n : ℕ) (src dst : List ℕ) → length src ≡ n → take n (blit 0 src dst) ≡ src
unfolding blit
take-blit n src dst e = take-append_eq n src (drop (0 + length src) dst) e

readable-compact : (b : ReceiveBuffer) → IsValid b → readable (compact b) ≡ readable b
unfolding readable compact
readable-compact b v = ground (
  arith,
  take-none (b.write - b.read) (drop b.read b.buf),
  take-none (b.write - b.read) b.buf,
  take-none (b.write - b.read) (blit 0 (take (b.write - b.read) (drop b.read b.buf)) b.buf),
  drop_none b.read b.buf,
  take-blit (b.write - b.read) (take (b.write - b.read) (drop b.read b.buf)) b.buf,
  length-take (b.write - b.read) (drop b.read b.buf),
  length-drop b.read b.buf,
)

-- What growing does: it keeps the bytes, and refuses only to pass the limit.
record Grows (add : ℕ) (b : ReceiveBuffer) (out : Bool × ReceiveBuffer) : Type 0 where
  valid : IsValid out.1
  bytes : readable out.1 ≡ readable b
  verdict : (out.0 ≡ true) ↔ (b.cap + add ≤ max_capacity)
  gained : out.0 ≡ true → (out.1.cap ≡ b.cap + add) × (out.1.write ≡ readable_size b)

grow-Grows : (add : ℕ) (b : ReceiveBuffer) → IsValid b → add % chunk ≡ 0 → Grows add b (grow add b)
unfolding grow readable
grow-Grows add b v m = ground (
  arith,
  length-replicate {A = ℕ} (b.cap + add) 0,
  length-blit 0 (take (b.write - b.read) (drop b.read b.buf)) (replicate (b.cap + add) 0),
  take-blit (b.write - b.read) (take (b.write - b.read) (drop b.read b.buf))
      (replicate (b.cap + add) 0),
  take-none (b.write - b.read) (drop b.read b.buf),
  take-none {A = ℕ} (b.write - b.read) (replicate (b.cap + add) 0),
  length-take (b.write - b.read) (drop b.read b.buf),
  length-drop b.read b.buf,
)

-- What `reserve_free` answers and leaves: the bytes are kept, and it grants the request exactly
-- when the waiting bytes and the request fit the limit together.
pub record Reserves (required : ℕ) (b : ReceiveBuffer) (out : Bool × ReceiveBuffer) : Type 0 where
  pub valid : IsValid out.1
  pub bytes : readable out.1 ≡ readable b
  pub verdict : (out.0 ≡ true) ↔ (readable_size b + required ≤ max_capacity)
  pub free : out.0 ≡ true → required ≤ writable_size out.1

make_room-Reserves :
    (required : ℕ) (b : ReceiveBuffer)
    → IsValid b
    → writable_size b < required
    → Reserves required b (make_room required b)
unfolding make_room
make_room-Reserves required b v h =
    let a = add_loop required (writable_size b + b.read) required chunk in
    ground (
      arith,
      add_loop_lem required (writable_size b + b.read) required chunk (omega arith) (omega arith),
      grow-Grows a b v,
      compact-IsValid b v,
      readable-compact b v,
      compact_fields b,
    )

ensure-IsValid : (b : ReceiveBuffer) → IsValid b → IsValid (ensure b)
unfolding ensure allocate
ensure-IsValid b v = ground (arith, length-replicate {A = ℕ} chunk 0)

readable-ensure :
    (b : ReceiveBuffer)
    → IsValid b
    → (readable (ensure b) ≡ readable b) × (readable_size (ensure b) ≡ readable_size b)
unfolding ensure readable allocate
readable-ensure b v = ground (
  arith,
  is_nil→length b.buf,
  take-none (b.write - b.read) (drop b.read b.buf),
  take-none {A = ℕ} 0 (replicate chunk 0),
)

size-restart : (b : ReceiveBuffer) → readable_size (restart b) ≡ readable_size b
unfolding restart allocate reset
size-restart b = ground arith

reserve_free_keeps :
    (asked : ℕ) (b : ReceiveBuffer)
    → IsValid b
    → Reserves (if asked == 0 then min_free else asked) b (reserve_free asked b)
unfolding reserve_free
reserve_free_keeps asked b v =
    let required = if asked == 0 then min_free else asked in
    let b' = restart (ensure b) in
    let v' = restart-IsValid (ensure b) (ensure-IsValid b v) in
    ground (
      arith,
      v',
      readable-ensure b v,
      readable-restart (ensure b),
      size-restart (ensure b),
      make_room-Reserves required b' v',
    )

-- The sums that `make_room` computes in an `int` stay inside one: `free + add`, which only rises
-- in the loop, and `cap_ + add`.
abbrev pub NoOverflow : ℕ → ReceiveBuffer → Type 0
NoOverflow required b =
    let free = writable_size b + b.read in
    let add = add_loop required free required chunk in
    (free + add < 2 ^ 31) × (b.cap + add < 2 ^ 31)

make_room-NoOverflow :
    (required : ℕ) (b : ReceiveBuffer)
    → required + 2 ^ 15 ≤ 2 ^ 31
    → IsValid b
    → NoOverflow required b
make_room-NoOverflow required b h v = omega (
  arith,
  add_loop_lem required (writable_size b + b.read) required chunk (omega arith) (omega arith),
  v,
)

-- The buffer's allocation policy, for a request of at most 2^31 - 2^15 bytes on a valid buffer
-- (0 asks for the default): the waiting bytes are kept, the request is granted exactly when it
-- and the waiting bytes fit the limit together, and then so much room is free; the buffer stays
-- valid either way, and the sums that the growth computes stay inside a 32-bit int.
pub reserve_free-Reserves :
    (asked : ℕ) (b : ReceiveBuffer)
    → IsValid b
    → asked + 2 ^ 15 ≤ 2 ^ 31
    → let required = if asked == 0 then min_free else asked in
      Reserves required b (reserve_free asked b) × NoOverflow required (restart (ensure b))
reserve_free-Reserves asked b v h = (
  reserve_free_keeps asked b v,
  make_room-NoOverflow (if asked == 0 then min_free else asked) (restart (ensure b)) (ground arith)
      (restart-IsValid (ensure b) (ensure-IsValid b v)),
)
