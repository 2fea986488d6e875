-- ===== src/Net/ReceiveBuffer/Stream.antt =====
-- src/net/receive_buffer.cpp: the waiting bytes.
use iocp_echo_server.Base.{
  ℕ, ◌+◌, ◌-◌, ◌≤◌, ◌≡◌, sym, ap, ◌∙◌, List, ◌++◌, arith, length, take, drop, length-append,
  length-take, append_assoc, length-drop, take-append_eq, drop-append_left, drop-take, drop-drop,
}
use iocp_echo_server.Net.ReceiveBuffer.{
  ReceiveBuffer, readable_size, writable_size, readable, blit, commit_write, consume, fill,
}
use iocp_echo_server.Net.ReceiveBuffer.Bounds.{IsValid, length-blit}

-- The kernel writes at most as many bytes as it was offered.
unfoldable pub receive : List ℕ → ReceiveBuffer → ReceiveBuffer
receive bytes b = commit_write (length bytes) (fill bytes b)

pub fill-IsValid :
    (bytes : List ℕ) (b : ReceiveBuffer)
    → IsValid b
    → length bytes ≤ writable_size b
    → IsValid (fill bytes b)
unfolding fill
fill-IsValid bytes b v h = ground (arith, length-blit b.write bytes b.buf)

pub receive-IsValid :
    (bytes : List ℕ) (b : ReceiveBuffer)
    → IsValid b
    → length bytes ≤ writable_size b
    → IsValid (receive bytes b)
unfolding receive fill commit_write
receive-IsValid bytes b v h = ground (arith, length-blit b.write bytes b.buf)

pub consume-IsValid :
    (n : ℕ) (b : ReceiveBuffer) → IsValid b → n ≤ readable_size b → IsValid (consume n b)
unfolding consume
consume-IsValid n b v h = ground arith

-- Bytes received into a valid buffer with room for them go behind those that wait.
pub readable-receive :
    (bytes : List ℕ) (b : ReceiveBuffer)
    → IsValid b
    → length bytes ≤ writable_size b
    → readable (receive bytes b) ≡ readable b ++ bytes
unfolding receive fill commit_write readable blit
readable-receive bytes b v h =
    ap (take (b.write + length bytes - b.read)) (
      drop-append_left b.read (take b.write b.buf) after
        (omega (arith, length-take b.write b.buf, v))
      ∙ ap (λ xs. xs ++ after) (drop-take b.read b.write b.buf)
      ∙ sym (append_assoc held bytes (drop (b.write + length bytes) b.buf)))
    ∙ take-append_eq (b.write + length bytes - b.read) (held ++ bytes)
        (drop (b.write + length bytes) b.buf)
        (omega (
          arith,
          v,
          length-append held bytes,
          length-take (b.write - b.read) (drop b.read b.buf),
          length-drop b.read b.buf,
        ))
  where
    held : List ℕ
    held = take (b.write - b.read) (drop b.read b.buf)

    after : List ℕ
    after = bytes ++ drop (b.write + length bytes) b.buf

-- Consumed bytes are gone from the front.
pub readable-consume :
    (n : ℕ) (b : ReceiveBuffer)
    → IsValid b
    → n ≤ readable_size b
    → readable (consume n b) ≡ drop n (readable b)
unfolding consume readable
readable-consume n b v h = sym (
    drop-take n (b.write - b.read) (drop b.read b.buf)
    ∙ ap (take (b.write - b.read - n)) (drop-drop n b.read b.buf)
    ∙ ap (λ k. take k (drop (b.read + n) b.buf)) (omega arith))
