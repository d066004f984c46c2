-- ===== src/Torrent/Piece/Served.antt =====
-- One round of a download from a peer that sends the blocks of a piece in order.
use amish.Base.{
  ℕ, zero, suc, ◌+◌, ◌-◌, ◌*◌, ◌^◌, ◌≤◌, ◌<◌, ◌≡◌, refl, ap, ◌∙◌, sym, true, false, ◌&&◌, some,
  List, [], ◌∷◌, ◌++◌, Bytes, ltb, ◌==◌, length, take, drop, min, arith, length-append, ok,
  Bool-cases, inl, inr, append_assoc, take-append_of_eq, ==_refl, ge→ltb,
}
use amish.Base.Wire.{put_u32}
use amish.Peer.Message.{Message, write_message, read_message, msg_piece, block_size}
use amish.Peer.Message.RoundTrip.{read_message-write_message, parse_piece_block}
use amish.Torrent.Endgame.{PieceWork}
use amish.Torrent.Piece.Sound.{length-paste}
use amish.Torrent.Piece.{
  Progress, take_block, handle_message, round, paste, send_requests, max_backlog, request_of,
}

-- The bytes of the blocks together.
unfoldable pub join : List Bytes → Bytes
join [] = []
join (b ∷ bs) = b ++ join bs

-- The message that carries a block.
abbrev pub reply : PieceWork → ℕ → Bytes → Message
reply pw begin block = record {
  id = msg_piece;
  payload = put_u32 pw.index ++ (put_u32 begin ++ block);
}

-- What a peer sends that answers with these blocks, in order.
unfoldable pub replies : PieceWork → ℕ → List Bytes → Bytes
replies pw begin [] = []
replies pw begin (b ∷ bs) =
    write_message (some (reply pw begin b)) ++ replies pw (begin + length b) bs

abbrev pub IsBlock : Bytes → Type 0
IsBlock b = (0 < length b) × (length b ≤ block_size)

-- As many messages can be sent as there are blocks to ask for.
abbrev pub HasRoom : ℕ → Progress → Type 0
HasRoom size st = size ≤ st.requested + st.room * block_size

-- The same but for the requests.
abbrev Asked : ℕ → Progress → Progress → Type 0
Asked size st st' =
    HasRoom size st'
    × (st'.incoming ≡ st.incoming)
    × (st'.buf ≡ st.buf)
    × (st'.downloaded ≡ st.downloaded)

pub send_requests_ok :
    (pw : PieceWork) (size fuel : ℕ) (st : Progress)
    → HasRoom size st
    → (st' : Progress) × (send_requests pw size fuel st ≡ ok st') × Asked size st st'
unfolding send_requests
send_requests_ok pw size zero st h = (st, refl, (h, refl, refl, refl))
send_requests_ok pw size (suc fuel) st h =
    elim (Bool-cases (ltb st.asked (st.answered + max_backlog) && ltb st.requested size)) [
      | inr stop ↦ (st, rw stop refl, (h, refl, refl, refl))
      | inl more ↦
          let block = min block_size (size - st.requested) in
          let left : st.requested < size =
            below st.asked (st.answered + max_backlog) st.requested size more in
          let st1 : Progress = record st {
            requested = st.requested + block;
            asked = suc st.asked;
            sent = st.sent ++ request_of pw st.requested block ∷ [];
            room = st.room - 1;
          } in
          let (st', e, asked) = send_requests_ok pw size fuel st1 (omega arith) in
          (st', rw (more, full st.room st.requested size h left) e, asked)
    ]
  where
    below : (a b c d : ℕ) → ltb a b && ltb c d ≡ true → c < d
    below a b c d h = ground arith

    full :
        (room requested size : ℕ)
        → size ≤ requested + room * block_size
        → requested < size
        → room == 0 ≡ false
    full room requested size h left = ground arith

-- Part of the piece is in the buffer, and the peer is about to send the rest.
pub record IsServed (pw : PieceWork) (pre : Bytes) (bs : List Bytes) (behind : Bytes)
    (st : Progress) : Type 0 where
  pub coming : st.incoming ≡ replies pw (length pre) bs ++ behind
  pub taken : take (length pre) st.buf ≡ pre
  pub sized : length st.buf ≡ length pre + length (join bs)
  pub counted : st.downloaded ≡ length pre
  pub roomy : HasRoom (length pre + length (join bs)) st

take-paste :
    (buf pre block : Bytes)
    → take (length pre) buf ≡ pre
    → length pre + length block ≤ length buf
    → take (length (pre ++ block)) (paste buf (length pre) block) ≡ pre ++ block
take-paste buf pre block h fits =
    ap (λ p. take (length (pre ++ block)) (p ++ (block ++ drop (length pre + length block) buf))) h
    ∙ ap (take (length (pre ++ block)))
        (sym (append_assoc pre block (drop (length pre + length block) buf)))
    ∙ take-append_of_eq (length (pre ++ block)) (pre ++ block)
        (drop (length pre + length block) buf) refl

-- A block that comes is taken.
take_block_ok :
    (pw : PieceWork) (st : Progress) (begin : ℕ) (block : Bytes)
    → begin + length block ≤ length st.buf
    → take_block pw st (pw.index, begin, block)
      ≡ ok (record st {
        buf = paste st.buf begin block;
        downloaded = st.downloaded + length block;
        answered = st.answered + 1;
      })
unfolding take_block
take_block_ok pw st begin block h =
    rw (==_refl pw.index, ge→ltb (length st.buf) (begin + length block) h)

handle_reply :
    (pw : PieceWork) (st : Progress) (begin : ℕ) (block : Bytes)
    → pw.index < 2 ^ 32
    → begin < 2 ^ 32
    → handle_message pw st (some (reply pw begin block)) ≡ take_block pw st (pw.index, begin, block)
unfolding handle_message
handle_reply pw st begin block hi hb = rw (parse_piece_block pw.index begin block hi hb)

pub length-join :
    (b : Bytes) (bs : List Bytes) → length (join (b ∷ bs)) ≡ length b + length (join bs)
length-join b bs = unfold join in length-append b (join bs)

abbrev pub size_of : Bytes → List Bytes → ℕ
size_of pre bs = length pre + length (join bs)

length-write_message : (m : Message) → 0 < length (write_message (some m))
unfolding write_message
length-write_message m = omega arith

shorter : (s rest r : Bytes) → r ≡ s ++ rest → 0 < length s → length rest < length r
shorter s rest r e h = omega (arith, ap length e, length-append s rest)

-- One round takes one block.
pub round_ok :
    (pw : PieceWork) (pre b : Bytes) (bs : List Bytes) (behind : Bytes) (st : Progress)
    → IsServed pw pre (b ∷ bs) behind st
    → IsBlock b
    → pw.index < 2 ^ 32
    → size_of pre (b ∷ bs) < 2 ^ 32
    → (st' : Progress) × (round pw (size_of pre (b ∷ bs)) st ≡ ok st')
      × IsServed pw (pre ++ b) bs behind st'
      × (length st'.incoming < length st.incoming)
unfolding round
round_ok pw pre b bs behind st h (some_bytes, small) hi hs =
    let size = size_of pre (b ∷ bs) in
    let lj = length-join b bs in
    let la = length-append pre b in
    let (st1, sends, (room, inc, buf, dl)) =
      send_requests_ok pw size (size - st.requested) st h.roomy in
    let rest = replies pw (length pre + length b) bs ++ behind in
    let whole : st1.incoming ≡ write_message (some (reply pw (length pre) b)) ++ rest =
      inc
      ∙ h.coming
      ∙ (unfold replies in
          append_assoc (write_message (some (reply pw (length pre) b)))
            (replies pw (length pre + length b) bs) behind) in
    let reads : read_message st1.incoming ≡ ok (some (reply pw (length pre) b), rest) =
      ap read_message whole
      ∙ read_message-write_message (some (reply pw (length pre) b)) rest (omega arith) in
    let st2 : Progress = record st1 { incoming = rest } in
    let room_for : length pre + length b ≤ length st1.buf =
      omega (arith, ap length buf, h.sized, lj) in
    let st3 : Progress = record st2 {
      buf = paste st1.buf (length pre) b;
      downloaded = st1.downloaded + length b;
      answered = st1.answered + 1;
    } in
    let handled : handle_message pw st2 (some (reply pw (length pre) b)) ≡ ok st3 =
      handle_reply pw st2 (length pre) b hi (omega arith)
      ∙ take_block_ok pw st2 (length pre) b room_for in
    (
      st3,
      rw (sends, reads, handled) refl,
      record {
        coming = ap (λ n. replies pw n bs ++ behind) (sym la);
        taken = take-paste st1.buf pre b (ap (take (length pre)) buf ∙ h.taken) room_for;
        sized =
            omega
              (arith, length-paste st1.buf (length pre) b room_for, ap length buf, h.sized, lj, la);
        counted = omega (arith, dl, h.counted, la);
        roomy = omega (arith, room, lj, la);
      },
      shorter (write_message (some (reply pw (length pre) b))) rest st.incoming (sym inc ∙ whole)
          (length-write_message (reply pw (length pre) b)),
    )
