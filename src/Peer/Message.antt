-- ===== src/Peer/Message.antt =====
-- peer/message.go: the messages of the wire protocol. A connection's reader is the bytes that are
-- still to come before the peer closes it; a write gives the bytes that are sent.
pub mod RoundTrip
pub mod Sound
pub mod Reading
use amish.Base.{
  ℕ, ◌+◌, ◌%◌, ◌^◌, ◌≡◌, refl, Option, none, some, [], ◌∷◌, ◌++◌, Bytes, codes, ltb, ◌==◌,
  if◌then◌else◌, length, take, drop, Result, ok, err, ◌>>=◌, not,
}
use amish.Base.Wire.{put_u32, uint32}

pub data Error : Type 0 where
  message_too_large unexpected_eof piece_too_short bad_have bad_request : Error

abbrev pub msg_choke : ℕ
msg_choke = 0

abbrev pub msg_unchoke : ℕ
msg_unchoke = 1

abbrev pub msg_interested : ℕ
msg_interested = 2

abbrev pub msg_not_interested : ℕ
msg_not_interested = 3

abbrev pub msg_have : ℕ
msg_have = 4

abbrev pub msg_bitfield : ℕ
msg_bitfield = 5

abbrev pub msg_request : ℕ
msg_request = 6

abbrev pub msg_piece : ℕ
msg_piece = 7

abbrev pub msg_cancel : ℕ
msg_cancel = 8

abbrev pub msg_extended : ℕ
msg_extended = 20

abbrev pub block_size : ℕ
block_size = 16384

abbrev pub max_message_len : ℕ
max_message_len = 2 ^ 24

pub record Message : Type 0 where
  pub id : ℕ
  pub payload : Bytes

-- `io.ReadFull` into a buffer of `n` bytes.
unfoldable pub read_full : ℕ → Bytes → Result Error (Bytes × Bytes)
read_full n r = if ltb (length r) n then err unexpected_eof else ok (take n r, drop n r)

-- `&Message{ID: buf[0], Payload: buf[1:]}`, for a buffer that is not empty.
abbrev pub message_of : Bytes → Option Message
message_of [] = none
message_of (b ∷ s) = some (record { id = b; payload = s })

-- `ReadMessage` behind its header: `n` is the length there. A keep-alive is no message.
unfoldable pub read_body : ℕ → Bytes → Result Error (Option Message × Bytes)
unfolding read_full
read_body n r =
    if n == 0
    then ok (none, r)
    else if ltb max_message_len n
    then err message_too_large
    else (do (buf, rest) ← read_full n r; ok (message_of buf, rest))

unfoldable pub read_message : Bytes → Result Error (Option Message × Bytes)
unfolding read_full read_body
read_message r = do (hdr, r') ← read_full 4 r; read_body (uint32 hdr) r'

-- The length is computed in 32 bits.
unfoldable pub write_message : Option Message → Bytes
write_message none = 0 ∷ 0 ∷ 0 ∷ 0 ∷ []
write_message (some m) = put_u32 ((1 + length m.payload) % 2 ^ 32) ++ m.id ∷ m.payload

unfoldable pub new_request : ℕ → ℕ → ℕ → Message
new_request index begin n = record {
  id = msg_request;
  payload = put_u32 index ++ (put_u32 begin ++ put_u32 n);
}

unfoldable pub new_have : ℕ → Message
new_have index = record { id = msg_have; payload = put_u32 index }

unfoldable pub new_interested : Message
new_interested = record { id = msg_interested; payload = [] }

unfoldable pub new_not_interested : Message
new_not_interested = record { id = msg_not_interested; payload = [] }

unfoldable pub parse_piece : Bytes → Result Error (ℕ × ℕ × Bytes)
parse_piece p =
    if ltb (length p) 8 then err piece_too_short else ok (uint32 p, uint32 (drop 4 p), drop 8 p)

unfoldable pub parse_have : Bytes → Result Error ℕ
parse_have p = if length p == 4 then ok (uint32 p) else err bad_have

unfoldable pub parse_request : Bytes → Result Error (ℕ × ℕ × ℕ)
parse_request p =
    if length p == 12 then ok (uint32 p, uint32 (drop 4 p), uint32 (drop 8 p)) else err bad_request

keep_alive : read_message (0 ∷ 0 ∷ 0 ∷ 0 ∷ 7 ∷ []) ≡ ok (none, 7 ∷ [])
unfolding read_message
keep_alive = refl

have :
    read_message (0 ∷ 0 ∷ 0 ∷ 2 ∷ 4 ∷ 9 ∷ 1 ∷ [])
    ≡ ok (some (record { id = 4; payload = 9 ∷ [] }), 1 ∷ [])
unfolding read_message
have = refl
