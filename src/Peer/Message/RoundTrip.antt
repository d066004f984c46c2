-- ===== src/Peer/Message/RoundTrip.antt =====
-- Messages that were written are read back, and what `ReadMessage` does with any input.
use amish.Base.{
  ℕ, ◌+◌, ◌^◌, ◌≡◌, ◌≤◌, ◌<◌, ◌≢◌, refl, ap, ◌∙◌, Option, none, some, [], ◌∷◌, ◌++◌, Bytes, length,
  ok, arith, lengths, take-append, drop-append, ge→ltb, ne→==,
}
use native.Mathlib.Nat.{mod-eq_of_lt}
use amish.Base.Wire.{put_u32, uint32-put_u32}
use amish.Peer.Message.{
  Message, max_message_len, read_full, read_body, read_message, write_message, new_request,
  new_have, parse_piece, parse_have, parse_request, message_of,
}

-- A message that the peer at the other end accepts.
abbrev pub Fits : Option Message → Type 0
Fits none = Unit
Fits (some m) = length m.payload < max_message_len

read_full-append : (s rest : Bytes) (n : ℕ) → length s ≡ n → read_full n (s ++ rest) ≡ ok (s, rest)
unfolding read_full
read_full-append s rest n e = rw (
  ← e,
  ge→ltb (length (s ++ rest)) (length s) (omega lengths),
  take-append s rest,
  drop-append s rest,
)

read_message-put_u32 :
    (n : ℕ) (r : Bytes) → n < 2 ^ 32 → read_message (put_u32 n ++ r) ≡ read_body n r
unfolding read_message
read_message-put_u32 n r h =
    rw (read_full-append (put_u32 n) r 4 refl) (ap (λ k. read_body k r) (uint32-put_u32 n [] h))

read_body-append :
    (s rest : Bytes) (n : ℕ)
    → length s ≡ n
    → n ≢ 0
    → n ≤ max_message_len
    → read_body n (s ++ rest) ≡ ok (message_of s, rest)
unfolding read_body
read_body-append s rest n e z le =
    rw (ne→== n 0 z, ge→ltb max_message_len n le, read_full-append s rest n e)

-- A message that is not too large is read back as it was written, and nothing behind it is
-- touched; a keep-alive is read as no message.
pub read_message-write_message :
    (m : Option Message) (rest : Bytes)
    → Fits m
    → read_message (write_message m ++ rest) ≡ ok (m, rest)
unfolding write_message
read_message-write_message none rest h =
    read_message-put_u32 0 rest (omega arith) ∙ unfold read_body in refl
read_message-write_message (some m) rest h =
    rw (mod-eq_of_lt {n = 1 + length m.payload} {m = 2 ^ 32} (omega arith)) (
      read_message-put_u32 (1 + length m.payload) (m.id ∷ (m.payload ++ rest)) (omega arith)
      ∙ read_body-append (m.id ∷ m.payload) rest (1 + length m.payload) (omega arith) (omega arith)
          (omega arith))

-- `ParseRequest` reads the index, the offset and the length back from the payload of `NewRequest`, if
-- each of them is below 2^32.
pub parse_request-new_request :
    (index begin n : ℕ)
    → index < 2 ^ 32
    → begin < 2 ^ 32
    → n < 2 ^ 32
    → parse_request (new_request index begin n).payload ≡ ok (index, begin, n)
unfolding parse_request new_request
parse_request-new_request index begin n hi hb hn = ground (
  arith,
  uint32-put_u32 index (put_u32 begin ++ put_u32 n) hi,
  uint32-put_u32 begin (put_u32 n) hb,
  uint32-put_u32 n [] hn,
)

-- `ParseHave` reads the index back from the payload of `NewHave`, if it is below 2^32.
pub parse_have-new_have :
    (index : ℕ) → index < 2 ^ 32 → parse_have (new_have index).payload ≡ ok index
unfolding parse_have new_have
parse_have-new_have index h = ground (arith, uint32-put_u32 index [] h)

-- A piece message with the header of a request carries its block whole.
pub parse_piece_block :
    (index begin : ℕ) (block : Bytes)
    → index < 2 ^ 32
    → begin < 2 ^ 32
    → parse_piece (put_u32 index ++ (put_u32 begin ++ block)) ≡ ok (index, begin, block)
unfolding parse_piece
parse_piece_block index begin block hi hb =
    ground (arith, uint32-put_u32 index (put_u32 begin ++ block) hi, uint32-put_u32 begin block hb)
