-- ===== src/Torrent/Piece.antt =====
-- torrent/piece.go: the download of one piece from one peer. A connection is the bytes that the peer
-- will have sent until it stops or the deadline passes, and how many messages can still be sent.
-- `sha1` is the digest that crypto/sha1 computes: nothing is asked of it.
pub mod Requests
pub mod Sound
pub mod Served
pub mod Complete
use amish.Base.{
  ℕ, zero, suc, ◌+◌, ◌-◌, ◌*◌, ◌%◌, ◌^◌, ◌≡◌, refl, Bool, true, false, ◌&&◌, not, Option, none,
  some, List, [], ◌∷◌, ◌++◌, Bytes, bytes_eq, ltb, ◌==◌, if◌then◌else◌, length, take, drop,
  replicate, min, Result, ok, err, panic, ◌>>=◌, ◌>>◌, guard, map_err,
}
use amish.Base.Int.{ℤ, pos, negsuc}
use amish.Bencode.{max_alloc}
use amish.Peer.Message
use amish.Peer.Message.{
  Message, read_message, new_request, parse_piece, block_size, msg_piece, msg_choke,
}
use amish.Torrent.Endgame.{PieceWork}

-- `message` is an error of the package peer. The loop of the model has fuel.
pub data Error : Type 0 where
  choked request_failed hash_mismatch out_of_fuel : Error
  message : Message.Error → Error

abbrev pub max_backlog : ℕ
max_backlog = 16

-- `backlog` is `asked - answered`, which may be negative: the requests sent, and the blocks taken.
pub record Progress : Type 0 where
  pub incoming : Bytes
  pub room : ℕ
  pub sent : List Message
  pub buf : Bytes
  pub downloaded : ℕ
  pub requested : ℕ
  pub asked : ℕ
  pub answered : ℕ

-- A buffer of the pool is taken if it is large enough; what it held is still in it.
abbrev pub get_buffer : Option Bytes → ℕ → Bytes
get_buffer none n = replicate n 0
get_buffer (some b) n = if ltb (length b) n then replicate n 0 else take n b

-- `copy(buf[begin:], block)`, for a block that ends within the buffer.
abbrev pub paste : Bytes → ℕ → Bytes → Bytes
paste buf begin block = take begin buf ++ (block ++ drop (begin + length block) buf)

unfoldable pub request_of : PieceWork → ℕ → ℕ → Message
request_of pw requested block =
    new_request (pw.index % 2 ^ 32) (requested % 2 ^ 32) (block % 2 ^ 32)

-- Requests are sent up to the limit. Each asks for a byte at least, so that the number of bytes not
-- yet requested is fuel enough: when it runs out, the condition of the loop is false.
unfoldable pub send_requests : PieceWork → ℕ → ℕ → Progress → Result Error Progress
unfolding request_of
send_requests pw size zero st = ok st
send_requests pw size (suc fuel) st =
    let block = min block_size (size - st.requested) in
    let next = send_requests pw size fuel (record st {
      requested = st.requested + block;
      asked = suc st.asked;
      sent = st.sent ++ request_of pw st.requested block ∷ [];
      room = st.room - 1;
    }) in
    if ltb st.asked (st.answered + max_backlog) && ltb st.requested size
    then if st.room == 0 then err request_failed else next
    else ok st

-- A block of another piece, or one that goes past the end, is skipped.
unfoldable pub take_block : PieceWork → Progress → ℕ × ℕ × Bytes → Result Error Progress
take_block pw st (idx, begin, block) =
    if not (idx == pw.index)
    then ok st
    else if ltb (length st.buf) (begin + length block)
    then ok st
    else ok (record st {
      buf = paste st.buf begin block;
      downloaded = st.downloaded + length block;
      answered = st.answered + 1;
    })

unfoldable pub handle_message : PieceWork → Progress → Option Message → Result Error Progress
unfolding take_block
handle_message pw st none = ok st
handle_message pw st (some m) =
    if m.id == msg_piece
    then map_err message (parse_piece m.payload) >>= take_block pw st
    else if m.id == msg_choke
    then err choked
    else ok st

-- One round: requests, and the next message.
unfoldable pub round : PieceWork → ℕ → Progress → Result Error Progress
unfolding send_requests handle_message
round pw size st = do
  st' ← send_requests pw size (size - st.requested) st
  (m, rest) ← map_err message (read_message st'.incoming)
  handle_message pw (record st' { incoming = rest }) m

unfoldable pub rounds : PieceWork → ℕ → ℕ → Progress → Result Error Progress
unfolding round
rounds pw size zero st = if ltb st.downloaded size then err out_of_fuel else ok st
rounds pw size (suc fuel) st =
    if ltb st.downloaded size then round pw size st >>= rounds pw size fuel else ok st

abbrev pub start : Option Bytes → ℕ → Bytes → ℕ → Progress
start pool size incoming room = record {
  incoming = incoming;
  room = room;
  sent = [];
  buf = get_buffer pool size;
  downloaded = 0;
  requested = 0;
  asked = 0;
  answered = 0;
}

module _ (sha1 : Bytes → Bytes) where
  unfoldable pub verify_piece : Bytes → Bytes → Bool
  verify_piece piece expected = bytes_eq (sha1 piece) expected

  -- The buffer of a piece that is accepted, and the state of the connection. Each round reads four bytes
  -- at least. A size below zero, or one that is too large for `make`, panics.
  unfoldable pub download : PieceWork → ℕ → Progress → Result Error Progress
  unfolding rounds
  download pw size st = do
    st' ← rounds pw size (suc (length st.incoming)) st
    guard (bytes_eq (sha1 st'.buf) pw.hash) hash_mismatch
    ok st'

  unfoldable pub download_piece : PieceWork → Option Bytes → Bytes → ℕ → Result Error Progress
  unfolding download
  download_piece pw pool incoming room = elim pw.size [
    | negsuc n ↦ panic
    | pos size ↦
        if ltb max_alloc size then panic else download pw size (start pool size incoming room)
  ]
