-- ===== src/Proto/Codec/RoundTrip.antt =====
-- src/proto/byte_writer.h and byte_reader.h: writing and then reading.
use iocp_echo_server.Base.{
  ℕ, ◌+◌, ◌%◌, ◌^◌, ◌<◌, ◌≡◌, refl, sym, ap, ◌∙◌, subst, ◌↔◌, true, List, [], ◌∷◌, ◌++◌,
  append_assoc, arith, length, take, drop, length-append, drop-drop, drop-append_exact,
  take-append_exact, take_all, le→ltb,
}
use iocp_echo_server.Proto.ByteOrder.{store_be16, store_be64}
use iocp_echo_server.Proto.ByteOrder.Laws.{
  load-store_be16, load-store_be64, length-store_be16, length-store_be64,
}
use iocp_echo_server.Proto.Codec.{
  Reader, new_reader, advance, u16, u64, str, str_rest, consumed_all, put_u16, put_str,
}
use iocp_echo_server.Proto.Codec.Laws.{IsValid}

-- `rest` is still to be read, out of a memory where `beyond` follows the body.
pub record At (r : Reader) (rest beyond : List ℕ) : Type 0 where
  pub sound : r.ok ≡ true
  pub valid : IsValid r
  pub ahead : drop r.pos r.bytes ≡ rest ++ beyond
  pub count : r.pos + length rest ≡ r.size

pub new_reader-At :
    (bytes beyond : List ℕ)
    → length bytes < 2 ^ 32
    → At (new_reader (bytes ++ beyond) (length bytes)) bytes beyond
unfolding new_reader
new_reader-At bytes beyond h = record {
  sound = refl;
  valid = omega (arith, length-append bytes beyond);
  ahead = refl;
  count = omega arith;
}

-- Passing over the bytes `now`.
advance-At :
    (r : Reader) (now rest beyond : List ℕ)
    → At r (now ++ rest) beyond
    → At (advance (length now) r) rest beyond
advance-At r now rest beyond a = record {
  sound = a.sound;
  valid = omega (arith, length-append now rest, a.valid, a.count);
  ahead =
      ap (λ n. drop n r.bytes) moved
      ∙ sym (drop-drop (length now) r.pos r.bytes)
      ∙ ap (drop (length now)) (a.ahead ∙ append_assoc now rest beyond)
      ∙ drop-append_exact now (rest ++ beyond);
  count = omega (arith, moved, length-append now rest, a.count);
}
  where
    moved : (r.pos + length now) % 2 ^ 32 ≡ r.pos + length now
    moved = omega (arith, length-append now rest, a.valid, a.count)

pub u16-At :
    (v : ℕ) (r : Reader) (rest beyond : List ℕ)
    → v < 2 ^ 16
    → At r (store_be16 v ++ rest) beyond
    → (u16 r ≡ (v, advance 2 r)) × At (advance 2 r) rest beyond
unfolding u16
u16-At v r rest beyond h a = (
  ground (
    arith,
    a.sound,
    a.ahead,
    a.count,
    a.valid,
    append_assoc (store_be16 v) rest beyond,
    length-append (store_be16 v) rest,
    length-store_be16 v,
    load-store_be16 v (rest ++ beyond) h,
  ),
  subst (λ n. At (advance n r) rest beyond) (length-store_be16 v)
      (advance-At r (store_be16 v) rest beyond a),
)

pub u64-At :
    (v : ℕ) (r : Reader) (rest beyond : List ℕ)
    → v < 2 ^ 64
    → At r (store_be64 v ++ rest) beyond
    → (u64 r ≡ (v, advance 8 r)) × At (advance 8 r) rest beyond
unfolding u64
u64-At v r rest beyond h a = (
  ground (
    arith,
    a.sound,
    a.ahead,
    a.count,
    a.valid,
    append_assoc (store_be64 v) rest beyond,
    length-append (store_be64 v) rest,
    length-store_be64 v,
    load-store_be64 v (rest ++ beyond) h,
  ),
  subst (λ n. At (advance n r) rest beyond) (length-store_be64 v)
      (advance-At r (store_be64 v) rest beyond a),
)

str_rest-At :
    (s : List ℕ) (r : Reader) (rest beyond : List ℕ)
    → At r (s ++ rest) beyond
    → (str_rest (length s) r ≡ (s, advance (length s) r)) × At (advance (length s) r) rest beyond
unfolding str_rest
str_rest-At s r rest beyond a = (
  ground (
    arith,
    a.sound,
    a.ahead,
    a.count,
    a.valid,
    append_assoc s rest beyond,
    length-append s rest,
    take-append_exact s (rest ++ beyond),
  ),
  advance-At r s rest beyond a,
)

-- The bytes that `put_str` writes for a text that fits its length field.
abbrev pub str_bytes : List ℕ → List ℕ
str_bytes s = store_be16 (length s) ++ s

pub str-At :
    (s : List ℕ) (r : Reader) (rest beyond : List ℕ)
    → length s < 2 ^ 16
    → At r (str_bytes s ++ rest) beyond
    → (r' : Reader) × (str r ≡ (s, r')) × At r' rest beyond
unfolding str
str-At s r rest beyond h a =
    let two =
      u16-At (length s) r (s ++ rest) beyond h
        (subst (λ xs. At r xs beyond) (append_assoc (store_be16 (length s)) s rest) a) in
    let more = str_rest-At s (advance 2 r) rest beyond two.1 in
    (advance (length s) (advance 2 r), rw two.0 more.0, more.1)

pub put_str_lem : (s w : List ℕ) → length s < 2 ^ 16 → put_str s w ≡ w ++ str_bytes s
unfolding put_str put_u16
put_str_lem s w h = rw (le→ltb 0xFFFF (length s) (omega arith)) (
    append_assoc w (store_be16 (length s)) (take (length s) s)
    ∙ ap (λ t. w ++ (store_be16 (length s) ++ t)) (take_all (length s) s (omega arith)))

pub consumed_all-At :
    (r : Reader) (rest beyond : List ℕ) → At r rest beyond → (consumed_all r ≡ true) ↔ (rest ≡ [])
unfolding consumed_all
consumed_all-At r [] beyond a = (λ _. refl, λ _. ground (arith, a.sound, a.count))
consumed_all-At r (x ∷ rest) beyond a =
    (λ e. absurd (ground (arith, a.sound, a.count)), λ e. absurd (ground arith))
