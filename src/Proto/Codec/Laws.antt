-- ===== src/Proto/Codec/Laws.antt =====
-- src/proto/byte_reader.h: where a reader stands.
use iocp_echo_server.Base.{
  ℕ, ◌+◌, ◌^◌, ◌≤◌, ◌<◌, ◌≡◌, sym, ◌∙◌, inl, inr, Bool, Bool-cases, true, false, ◌&&◌, leb, List,
  [], ◌∷◌, arith, length, drop,
}
use iocp_echo_server.Proto.ByteOrder.{load_be16}
use iocp_echo_server.Proto.Codec.{Reader, u8, u16, u32, u64, str, str_rest}

-- The bytes to read are there, and the position is inside them.
pub record IsValid (r : Reader) : Type 0 where
  pub held : r.size ≤ length r.bytes
  pub inside : r.pos ≤ r.size
  pub small : r.size < 2 ^ 32

-- What one read may do to a valid reader: it stays valid over the same bytes and never goes back,
-- and a reader that had failed does not move and stays failed.
pub record Reads (r r' : Reader) : Type 0 where
  pub valid : IsValid r'
  pub same_bytes : r'.bytes ≡ r.bytes
  pub same_size : r'.size ≡ r.size
  pub forward : r.pos ≤ r'.pos
  pub sticky : r.ok ≡ false → (r'.ok ≡ false) × (r'.pos ≡ r.pos)

pub u8-Reads : (r : Reader) → IsValid r → Reads r (u8 r).1
unfolding u8
u8-Reads r v = ground arith

pub u16-Reads : (r : Reader) → IsValid r → Reads r (u16 r).1
unfolding u16
u16-Reads r v = ground arith

pub u32-Reads : (r : Reader) → IsValid r → Reads r (u32 r).1
unfolding u32
u32-Reads r v = ground arith

pub u64-Reads : (r : Reader) → IsValid r → Reads r (u64 r).1
unfolding u64
u64-Reads r v = ground arith

str_rest-Reads : (n : ℕ) (r : Reader) → IsValid r → Reads r (str_rest n r).1
unfolding str_rest
str_rest-Reads n r v = ground arith

Reads-trans : {a b c : Reader} → Reads a b → Reads b c → Reads a c
Reads-trans p q = ground arith

pub str-Reads : (r : Reader) → IsValid r → Reads r (str r).1
unfolding str
str-Reads r v =
    Reads-trans (u16-Reads r v) (str_rest-Reads (u16 r).0 (u16 r).1 (u16-Reads r v).valid)

-- The reads that a handler may make, in any order.
pub data Read : Type 0 where
  byte half word wide text : Read

pub read : Read → Reader → Reader
read byte r = (u8 r).1
read half r = (u16 r).1
read word r = (u32 r).1
read wide r = (u64 r).1
read text r = (str r).1

read-Reads : (c : Read) (r : Reader) → IsValid r → Reads r (read c r)
unfolding read
read-Reads byte r v = u8-Reads r v
read-Reads half r v = u16-Reads r v
read-Reads word r v = u32-Reads r v
read-Reads wide r v = u64-Reads r v
read-Reads text r v = str-Reads r v

pub reads : List Read → Reader → Reader
reads [] r = r
reads (c ∷ cs) r = reads cs (read c r)

reads_keep : (cs : List Read) (r : Reader) → IsValid r → Reads r (reads cs r)
unfolding reads
reads_keep [] r v = ground arith
reads_keep (c ∷ cs) r v =
    let one = read-Reads c r v in Reads-trans one (reads_keep cs (read c r) one.valid)

-- The bytes that a read takes, of a body that goes on with these bytes.
unfoldable pub width : Read → List ℕ → ℕ
width byte bytes = 1
width half bytes = 2
width word bytes = 4
width wide bytes = 8
width text bytes = 2 + load_be16 bytes

-- Whether reads, one behind the other from a position on, fit a body of that size.
unfoldable pub fits : List Read → List ℕ → ℕ → ℕ → Bool
fits [] bytes size pos = true
fits (c ∷ cs) bytes size pos =
    let next = pos + width c (drop pos bytes) in leb next size && fits cs bytes size next

-- A read succeeds exactly where its bytes are there, and then it stands behind them.
read_exact :
    (c : Read) (r : Reader)
    → IsValid r
    → ((read c r).ok ≡ (r.ok && leb (r.pos + width c (drop r.pos r.bytes)) r.size))
      × ((read c r).ok ≡ true → (read c r).pos ≡ r.pos + width c (drop r.pos r.bytes))
unfolding read width u8 u16 u32 u64 str str_rest
read_exact byte r v = ground arith
read_exact half r v = ground arith
read_exact word r v = ground arith
read_exact wide r v = ground arith
read_exact text r v = ground arith

-- A reader that had failed stays failed.
reads_failed : (cs : List Read) (r : Reader) → IsValid r → r.ok ≡ false → (reads cs r).ok ≡ false
unfolding reads
reads_failed [] r v e = e
reads_failed (c ∷ cs) r v e =
    let one = read-Reads c r v in reads_failed cs (read c r) one.valid (one.sticky e).0

-- The reads succeed exactly where the body fits them.
reads-fits :
    (cs : List Read) (r : Reader)
    → IsValid r
    → (reads cs r).ok ≡ (r.ok && fits cs r.bytes r.size r.pos)
unfolding reads fits
reads-fits [] r v = ground arith
reads-fits (c ∷ cs) r v =
    let one = read-Reads c r v in
    let got = read_exact c r v in
    let next = r.pos + width c (drop r.pos r.bytes) in
    let rest = reads-fits cs (read c r) one.valid in
    elim (Bool-cases (read c r).ok) [
      | inl e ↦
          rest ∙ simp (e, one.same_bytes, one.same_size, got.1 e) (ground (arith, sym got.0 ∙ e))
      | inr e ↦ ground (arith, reads_failed cs (read c r) one.valid e, sym got.0 ∙ e)
    ]

-- However a handler reads a body with a valid reader, no read leaves the body, the position
-- never goes back, and a reader that had failed does not move; and the reads succeed together
-- exactly when the reader had not failed and the body has, from the position on, the bytes of
-- each of them behind those of the one before.
pub reads-Reads :
    (cs : List Read) (r : Reader)
    → IsValid r
    → Reads r (reads cs r) × ((reads cs r).ok ≡ (r.ok && fits cs r.bytes r.size r.pos))
reads-Reads cs r v = (reads_keep cs r v, reads-fits cs r v)
