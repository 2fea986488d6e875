-- ===== src/Proto/Frame.antt =====
-- src/proto/frame.h. `data` and `size` are one list, the readable bytes; what `peek_frame` writes
-- through its references on success stands in its result, so nothing is written otherwise.
pub mod Laws
use iocp_echo_server.Base.{
  ℕ, ◌+◌, ◌*◌, ◌%◌, ◌^◌, List, [], ◌∷◌, ◌++◌, ltb, if◌then◌else◌, length, take, drop,
}
use iocp_echo_server.Proto.ByteOrder.{load_be16, load_be32, store_be16, store_be32}

abbrev pub header_size : ℕ
header_size = 6

abbrev pub max_inbound_body : ℕ
max_inbound_body = 1024

abbrev pub max_outbound_body : ℕ
max_outbound_body = 64 * 1024

pub record FrameView : Type 0 where
  pub msg_id : ℕ
  pub body : List ℕ
  pub size : ℕ

-- `FrameResult` with the outputs of the case that has them.
pub data FrameResult : Type 0 where
  ok : FrameView → ℕ → FrameResult
  incomplete : FrameResult
  too_large : FrameResult

unfoldable pub peek_frame : List ℕ → FrameResult
peek_frame bytes =
    if ltb (length bytes) header_size
    then incomplete
    else let body_size = load_be32 bytes in
      let total = (header_size + body_size) % 2 ^ 32 in
      if ltb max_inbound_body body_size
      then too_large
      else if ltb (length bytes) total
      then incomplete
      else ok
          (record {
            msg_id = load_be16 (drop 4 bytes);
            body = take body_size (drop header_size bytes);
            size = body_size;
          })
          total

unfoldable pub write_header : ℕ → ℕ → List ℕ
write_header msg_id body_size = store_be32 body_size ++ store_be16 msg_id
