-- ===== src/Torrent/Piece/Complete.antt =====
-- A peer that sends the blocks of a piece in order: the download succeeds.
use amish.Base.{
  ℕ, zero, suc, ◌+◌, ◌*◌, ◌^◌, ◌≤◌, ◌<◌, ◌≡◌, refl, ap, ◌∙◌, sym, Option, List, [], ◌∷◌, ◌++◌,
  Bytes, ltb, bytes_eq_refl, if◌then◌else◌, length, arith, length-append, ok, panic, All,
  append_assoc, append-nil, take_all, ge→ltb, lt→ltb,
}
use amish.Base.Int.{pos, negsuc}
use amish.Bencode.{max_alloc}
use amish.Peer.Message.{block_size}
use amish.Torrent.Endgame.{PieceWork}
use amish.Torrent.Piece.Sound.{length-get_buffer}
use amish.Torrent.Piece.{Progress, round, rounds, start, download, download_piece}
use amish.Torrent.Piece.Served.{join, replies, IsBlock, IsServed, size_of, length-join, round_ok}

rounds_stop :
    (pw : PieceWork) (size fuel : ℕ) (st : Progress)
    → size ≤ st.downloaded
    → rounds pw size fuel st ≡ ok st
unfolding rounds
rounds_stop pw size zero st h = rw (ge→ltb st.downloaded size h)
rounds_stop pw size (suc fuel) st h = rw (ge→ltb st.downloaded size h)

rounds_next :
    (pw : PieceWork) (size fuel : ℕ) (st st' : Progress)
    → st.downloaded < size
    → round pw size st ≡ ok st'
    → rounds pw size (suc fuel) st ≡ rounds pw size fuel st'
unfolding rounds
rounds_next pw size fuel st st' h e = rw (lt→ltb st.downloaded size h, e)

-- The data is complete when no block is left.
rounds_done :
    (pw : PieceWork) (pre behind : Bytes) (fuel : ℕ) (st : Progress)
    → IsServed pw pre [] behind st
    → (rounds pw (size_of pre []) fuel st ≡ ok st) × (st.buf ≡ pre) × (st.incoming ≡ behind)
unfolding join replies
rounds_done pw pre behind fuel st h = (
  rounds_stop pw (size_of pre []) fuel st (omega (arith, h.counted)),
  sym (take_all (length pre) st.buf (omega (arith, h.sized))) ∙ h.taken,
  h.coming,
)

rounds_ok :
    (pw : PieceWork) (pre : Bytes) (bs : List Bytes) (behind : Bytes) (fuel : ℕ) (st : Progress)
    → IsServed pw pre bs behind st
    → All IsBlock bs
    → pw.index < 2 ^ 32
    → size_of pre bs < 2 ^ 32
    → length st.incoming < fuel
    → (st' : Progress) × (rounds pw (size_of pre bs) fuel st ≡ ok st')
      × (st'.buf ≡ pre ++ join bs)
      × (st'.incoming ≡ behind)
rounds_ok pw pre [] behind fuel st h blocks hi hs enough =
    let (e, holds, left) = rounds_done pw pre behind fuel st h in
    (st, e, holds ∙ sym (unfold join in append-nil pre), left)
rounds_ok pw pre (b ∷ bs) behind zero st h blocks hi hs enough = absurd (omega arith)
rounds_ok pw pre (b ∷ bs) behind (suc fuel) st h (block, blocks) hi hs enough =
    let (st1, runs, served, less) = round_ok pw pre b bs behind st h block hi hs in
    let same : size_of (pre ++ b) bs ≡ size_of pre (b ∷ bs) =
      omega (arith, length-join b bs, length-append pre b) in
    let (st', e, holds, left) =
      rounds_ok pw (pre ++ b) bs behind fuel st1 served blocks hi (omega (arith, same, hs))
        (omega arith) in
    (
      st',
      rounds_next pw (size_of pre (b ∷ bs)) fuel st st1
            (omega (arith, h.counted, length-join b bs, block.0)) runs
          ∙ ap (λ n. rounds pw n fuel st1) (sym same)
          ∙ e,
      holds ∙ (unfold join in append_assoc pre b (join bs)),
      left,
    )

start-IsServed :
    (pw : PieceWork) (pool : Option Bytes) (bs : List Bytes) (behind : Bytes) (room : ℕ)
    → length (join bs) ≤ room * block_size
    → IsServed pw [] bs behind (start pool (length (join bs)) (replies pw 0 bs ++ behind) room)
start-IsServed pw pool bs behind room many = record {
  coming = refl;
  taken = refl;
  sized = length-get_buffer pool (length (join bs)) ∙ omega arith;
  counted = refl;
  roomy = omega arith;
}

module _ (sha1 : Bytes → Bytes) where
  download_ok :
      (pw : PieceWork) (size : ℕ) (st st' : Progress)
      → rounds pw size (suc (length st.incoming)) st ≡ ok st'
      → sha1 st'.buf ≡ pw.hash
      → download sha1 pw size st ≡ ok st'
  unfolding download
  download_ok pw size st st' runs digest = rw (runs, digest, bytes_eq_refl pw.hash)

  download_piece_sized :
      (pw : PieceWork) (pool : Option Bytes) (incoming : Bytes) (room n : ℕ)
      → pw.size ≡ pos n
      → n ≤ max_alloc
      → download_piece sha1 pw pool incoming room ≡ download sha1 pw n (start pool n incoming room)
  unfolding download_piece
  download_piece_sized pw pool incoming room n e fits =
      ap
        (λ z. elim z [
          | negsuc m ↦ panic
          | pos size ↦
              if ltb max_alloc size
              then panic
              else download sha1 pw size (start pool size incoming room)
        ])
        e
      ∙ rw (ge→ltb max_alloc n fits) refl

  -- If the peer answers with the blocks of the piece in order, none of them empty or longer than the
  -- block size, whatever it sends behind them, then `DownloadPiece` succeeds with their bytes, and
  -- what follows is left: the digest has to be the expected one, the index and the size have to fit
  -- 32 bits, and the connection has to take a request for each block.
  pub download_piece_complete :
      (pw : PieceWork) (pool : Option Bytes) (bs : List Bytes) (behind : Bytes) (room : ℕ)
      → All IsBlock bs
      → pw.index < 2 ^ 32
      → length (join bs) < 2 ^ 32
      → length (join bs) ≤ room * block_size
      → pw.size ≡ pos (length (join bs))
      → sha1 (join bs) ≡ pw.hash
      → (st : Progress) × (download_piece sha1 pw pool (replies pw 0 bs ++ behind) room ≡ ok st)
        × (st.buf ≡ join bs)
        × (st.incoming ≡ behind)
  download_piece_complete pw pool bs behind room blocks hi hs many size digest =
      let incoming = replies pw 0 bs ++ behind in
      let n = length (join bs) in
      let begun : Progress = start pool n incoming room in
      let none_before : 0 + n ≡ n = omega arith in
      let (st, runs, whole, left) =
        rounds_ok pw [] bs behind (suc (length incoming)) begun
          (start-IsServed pw pool bs behind room many) blocks hi (omega arith) (omega arith) in
      let fetched =
        download_ok pw n begun st
          (ap (λ k. rounds pw k (suc (length incoming)) begun) (sym none_before) ∙ runs)
          (ap sha1 whole ∙ digest) in
      (st, download_piece_sized pw pool incoming room n size (omega arith) ∙ fetched, whole, left)
