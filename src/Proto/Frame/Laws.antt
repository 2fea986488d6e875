-- ===== src/Proto/Frame/Laws.antt =====
-- src/proto/frame.h: the boundaries of frames.
use iocp_echo_server.Base.{
  ℕ, ◌+◌, ◌^◌, ◌≤◌, ◌<◌, ◌≡◌, ap, ◌∙◌, List, ◌++◌, append_assoc, arith, length, drop, length-append,
  take-append_exact, take-append_left, drop-append_left, length-drop, length-take, drop-append_eq,
  ◌≢◌,
}
use iocp_echo_server.Proto.ByteOrder.{load_be16, load_be32, store_be16, store_be32}
use iocp_echo_server.Proto.ByteOrder.Laws.{
  load-store_be16, load-store_be32, length-store_be16, length-store_be32, load_be16-append,
  load_be32-append,
}
use iocp_echo_server.Proto.Frame.{
  FrameView, ok, incomplete, header_size, max_inbound_body, peek_frame, write_header,
}

-- A message as the sender knows it, and its bytes on the wire.
pub record Message : Type 0 where
  pub msg_id : ℕ
  pub body : List ℕ

unfoldable pub encode : Message → List ℕ
encode m = write_header m.msg_id (length m.body) ++ m.body

abbrev pub view : Message → FrameView
view m = record { msg_id = m.msg_id; body = m.body; size = length m.body }

-- A message that the server accepts.
pub record IsInbound (m : Message) : Type 0 where
  pub id_fits : m.msg_id < 2 ^ 16
  pub body_fits : length m.body ≤ max_inbound_body

length-write_header : (i n : ℕ) → length (write_header i n) ≡ header_size
unfolding write_header
length-write_header i n =
    omega
      (arith, length-append (store_be32 n) (store_be16 i), length-store_be32 n, length-store_be16 i)

pub length-encode : (m : Message) → length (encode m) ≡ header_size + length m.body
unfolding encode
length-encode m = omega (
  arith,
  length-append (write_header m.msg_id (length m.body)) m.body,
  length-write_header m.msg_id (length m.body),
)

-- A header that was written, read back in front of any bytes.
load-write_header :
    (i n : ℕ) (rest : List ℕ)
    → i < 2 ^ 16
    → n < 2 ^ 32
    → (load_be32 (write_header i n ++ rest) ≡ n)
      × (load_be16 (drop 4 (write_header i n ++ rest)) ≡ i)
      × (drop header_size (write_header i n ++ rest) ≡ rest)
unfolding write_header
load-write_header i n rest hi hn = (
  ap load_be32 (append_assoc s32 s16 rest) ∙ load-store_be32 n (s16 ++ rest) hn,
  ap (λ xs. load_be16 (drop 4 xs)) (append_assoc s32 s16 rest)
      ∙ ap load_be16 (drop-append_eq 4 s32 (s16 ++ rest) (length-store_be32 n))
      ∙ load-store_be16 i rest hi,
  drop-append_eq header_size (write_header i n) rest (length-write_header i n),
)
  where
    s32 : List ℕ
    s32 = store_be32 n

    s16 : List ℕ
    s16 = store_be16 i

-- The first message of a stream of bytes is cut off exactly, whatever follows it, if its id fits
-- 16 bits and its body the inbound limit.
pub peek-encode :
    (m : Message) (rest : List ℕ)
    → IsInbound m
    → peek_frame (encode m ++ rest) ≡ ok (view m) (length (encode m))
unfolding peek_frame encode
peek-encode m rest v = ground (
  arith,
  load-write_header m.msg_id (length m.body) (m.body ++ rest) v.id_fits (omega arith),
  append_assoc (write_header m.msg_id (length m.body)) m.body rest,
  length-write_header m.msg_id (length m.body),
  length-append (write_header m.msg_id (length m.body)) m.body,
  length-append (write_header m.msg_id (length m.body)) (m.body ++ rest),
  length-append m.body rest,
  take-append_exact m.body rest,
)

-- A frame that was found took its bytes from those at hand: header and body, the body within the
-- inbound limit and of the size that the frame says.
pub peek_bounds :
    (xs : List ℕ) (f : FrameView) (n : ℕ)
    → peek_frame xs ≡ ok f n
    → (n ≡ header_size + f.size)
      × (n ≤ length xs)
      × (f.size ≤ max_inbound_body)
      × (length f.body ≡ f.size)
unfolding peek_frame
peek_bounds xs f n e =
    ground (arith, length-take f.size (drop header_size xs), length-drop header_size xs)

-- More bytes change neither a frame that was found nor the verdict that the header is bad.
pub peek-append :
    (xs ys : List ℕ) → peek_frame xs ≢ incomplete → peek_frame (xs ++ ys) ≡ peek_frame xs
unfolding peek_frame
peek-append xs ys e = ground (
  arith,
  length-append xs ys,
  load_be32-append xs ys,
  drop-append_left 4 xs ys,
  load_be16-append (drop 4 xs) ys,
  length-drop 4 xs,
  length-drop 6 xs,
  drop-append_left 6 xs ys,
  take-append_left (load_be32 xs) (drop 6 xs) ys,
)

-- Too few bytes: less than a header, or less than the body that an acceptable header announces.
pub peek_incomplete :
    (xs : List ℕ) → peek_frame xs ≡ incomplete → length xs < header_size + max_inbound_body
unfolding peek_frame
peek_incomplete xs e = ground arith
