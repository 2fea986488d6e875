-- ===== src/Tests/Wire.antt =====
-- Bodies, frames and the receive buffer.
use iocp_echo_server.Base.{ℕ, ◌-◌, ◌≤◌, ◌≡◌, refl, true, List, [], ◌∷◌, ◌++◌, arith, length}
use iocp_echo_server.Proto.Codec.{new_reader}
use iocp_echo_server.Proto.Codec.Laws.{Reads, reads, fits, half, text, word, reads-Reads}
use iocp_echo_server.Proto.Frame.{ok, peek_frame}
use iocp_echo_server.Proto.Frame.Laws.{Message, encode, view, IsInbound, peek-encode}
use iocp_echo_server.Proto.ByteOrder.{load_be16, load_be32}
use iocp_echo_server.Net.ReceiveBuffer.{
  ReceiveBuffer, fresh, min_free, ensure, restart, reserve_free,
}
use iocp_echo_server.Net.ReceiveBuffer.Bounds.{IsValid, Reserves, NoOverflow, reserve_free-Reserves}

abbrev pub body : List ℕ
body = 0 ∷ 2 ∷ 104 ∷ 105 ∷ []

-- a length of two, `hi`, and a read too many
reads-Reads_example :
    Reads (new_reader body 4) (reads (text ∷ half ∷ word ∷ []) (new_reader body 4))
    × ((reads (text ∷ half ∷ word ∷ []) (new_reader body 4)).ok
        ≡ fits (text ∷ half ∷ word ∷ []) body 4 0)
unfolding new_reader
reads-Reads_example = reads-Reads (text ∷ half ∷ word ∷ []) (new_reader body 4) (omega arith)

abbrev pub hello : Message
hello = record { msg_id = 1; body = body }

pub hello-IsInbound : IsInbound hello
hello-IsInbound = omega arith

peek-encode_example :
    peek_frame (encode hello ++ (9 ∷ [])) ≡ ok (view hello) (length (encode hello))
peek-encode_example = peek-encode hello (9 ∷ []) hello-IsInbound

abbrev pub hello_bytes : List ℕ
hello_bytes = 0 ∷ 0 ∷ 0 ∷ 4 ∷ 0 ∷ 1 ∷ 0 ∷ 2 ∷ 104 ∷ 105 ∷ []

peek-hello : peek_frame hello_bytes ≡ ok (view hello) 10
unfolding peek_frame load_be32 load_be16
peek-hello = refl

pub fresh-IsValid : IsValid fresh
fresh-IsValid = omega arith

reserve_free-Reserves_example :
    Reserves 10000 fresh (reserve_free 10000 fresh) × NoOverflow 10000 (restart (ensure fresh))
reserve_free-Reserves_example = reserve_free-Reserves 10000 fresh fresh-IsValid (omega arith)

abbrev small : ReceiveBuffer
small = (reserve_free 0 fresh).1

small-IsValid : IsValid small
small-IsValid = (reserve_free-Reserves 0 fresh fresh-IsValid (omega arith)).0.valid

small_verdict : (reserve_free 0 fresh).0 ≡ true
small_verdict =
    (reserve_free-Reserves 0 fresh fresh-IsValid (omega arith)).0.verdict.1 (omega arith)

small_room : min_free ≤ small.cap - small.write
small_room = (reserve_free-Reserves 0 fresh fresh-IsValid (omega arith)).0.free small_verdict
