-- ===== src/Torrent/Piece/Sound.antt =====
-- What a download that succeeds has, and that every download ends.
use amish.Base.{
  ℕ, zero, suc, ◌+◌, ◌-◌, ◌≤◌, ◌<◌, ◌≡◌, ◌≢◌, refl, ap, ◌∙◌, sym, not, Option, none, some, ◌++◌,
  Bytes, ltb, ◌==◌, bytes_eq, bytes_eq→eq, if◌then◌else◌, length, take, drop, arith, length-append,
  length-take, length-drop, length-replicate, Result, ok, err, panic, map_err, Ensures, holds,
  fails, panics, Ensures-if, Ensures->>=, Ensures-guard, Ensures-ok, Ensures-err, Ensures-weaken,
}
use amish.Base.Int.{ℤ, pos, negsuc}
use amish.Bencode.{max_alloc}
use amish.Peer.Message
use amish.Peer.Message.{
  Message, read_full, read_body, read_message, parse_piece, msg_piece, msg_choke, max_message_len,
}
use amish.Peer.Message.Reading.{Any, read_message-Ensures}
use amish.Torrent.Endgame.{PieceWork}
use amish.Torrent.Piece.{
  out_of_fuel, hash_mismatch, message, Progress, take_block, handle_message, round, rounds, start,
  paste, get_buffer, max_backlog, download, download_piece,
}
use amish.Torrent.Piece.Requests.{planned, IsProgress, IsReal, send_requests-Ensures}

Ensures-message {ℓ κ} :
    {A : Type ℓ} {P : A → Type κ} {r : Result Message.Error A}
    → Ensures P Any r
    → Ensures P IsReal (map_err message r)
Ensures-message (holds h) = holds h
Ensures-message (fails h) = fails (λ e. cc)
Ensures-message panics = panics

pub length-paste :
    (buf : Bytes) (begin : ℕ) (block : Bytes)
    → begin + length block ≤ length buf
    → length (paste buf begin block) ≡ length buf
length-paste buf begin block h = omega (
  arith,
  length-append (take begin buf) (block ++ drop (begin + length block) buf),
  length-append block (drop (begin + length block) buf),
  length-take begin buf,
  length-drop (begin + length block) buf,
)

-- A message keeps the state in order, and reads nothing more.
abbrev Handled : PieceWork → ℕ → Progress → Progress → Type 0
Handled pw size st st' = IsProgress pw size st' × (st'.incoming ≡ st.incoming)

take_block-Ensures :
    (pw : PieceWork) (size : ℕ) (st : Progress) (b : ℕ × ℕ × Bytes)
    → IsProgress pw size st
    → Ensures (Handled pw size st) IsReal (take_block pw st b)
unfolding take_block
take_block-Ensures pw size st (idx, begin, block) h =
    Ensures-if (not (idx == pw.index)) (λ _. holds (h, refl))
      λ _.
        Ensures-if (ltb (length st.buf) (begin + length block)) (λ _. holds (h, refl))
          λ fits. holds (
            record {
              sized = length-paste st.buf begin block (ground arith) ∙ h.sized;
              in_order = h.in_order;
              reached = h.reached;
              limited = omega (arith, h.limited);
            },
            refl,
          )

handle_message-Ensures :
    (pw : PieceWork) (size : ℕ) (st : Progress) (m : Option Message)
    → IsProgress pw size st
    → Ensures (Handled pw size st) IsReal (handle_message pw st m)
unfolding handle_message
handle_message-Ensures pw size st none h = holds (h, refl)
handle_message-Ensures pw size st (some m) h =
    Ensures-if (m.id == msg_piece)
      (λ _.
        Ensures->>= (Ensures-message (parse_piece-Ensures m.payload))
          λ b _. take_block-Ensures pw size st b h)
      λ _. Ensures-if (m.id == msg_choke) (λ _. fails (λ e. cc)) (λ _. holds (h, refl))
  where
    parse_piece-Ensures : (p : Bytes) → Ensures (λ _. Unit {0}) Any (parse_piece p)
    parse_piece-Ensures p =
        unfold parse_piece in Ensures-if (ltb (length p) 8) (λ _. fails tt) (λ _. holds tt)

-- After a round less is left to come.
abbrev Advanced : PieceWork → ℕ → Progress → Progress → Type 0
Advanced pw size st st' = IsProgress pw size st' × (length st'.incoming < length st.incoming)

round-Ensures :
    (pw : PieceWork) (size : ℕ) (st : Progress)
    → IsProgress pw size st
    → Ensures (Advanced pw size st) IsReal (round pw size st)
unfolding round
round-Ensures pw size st h =
    Ensures->>= (send_requests-Ensures pw size (size - st.requested) st h) λ st' (h', same).
      Ensures->>= (Ensures-message (read_message-Ensures st'.incoming)) λ (m, rest) less.
        Ensures-weaken (λ st'' (h'', e). (h'', omega (arith, less, ap length same, ap length e)))
          (λ _ real. real)
          (handle_message-Ensures pw size (record st' { incoming = rest }) m
            (record {
              sized = h'.sized;
              in_order = h'.in_order;
              reached = h'.reached;
              limited = h'.limited;
            }))

rounds-Ensures :
    (pw : PieceWork) (size fuel : ℕ) (st : Progress)
    → IsProgress pw size st
    → length st.incoming < fuel
    → Ensures (IsProgress pw size) IsReal (rounds pw size fuel st)
unfolding rounds
rounds-Ensures pw size zero st h enough = absurd (omega arith)
rounds-Ensures pw size (suc fuel) st h enough =
    Ensures-if (ltb st.downloaded size)
      (λ _.
        Ensures->>= (round-Ensures pw size st h)
          λ st' (h', less). rounds-Ensures pw size fuel st' h' (omega (arith, less, enough)))
      (λ _. holds h)

pub length-get_buffer : (pool : Option Bytes) (n : ℕ) → length (get_buffer pool n) ≡ n
length-get_buffer none n = length-replicate n 0
length-get_buffer (some b) n = ground (arith, length-replicate {A = ℕ} n 0, length-take n b)

module _ (sha1 : Bytes → Bytes) where
  -- What is accepted has the size and the digest of the piece; the requests that were sent for it are
  -- the first ones of its plan, and at most sixteen more than the blocks that came.
  abbrev pub IsFetched : PieceWork → ℤ → Progress → Type 0
  IsFetched pw z st =
      (z ≡ pos (length st.buf))
      × (sha1 st.buf ≡ pw.hash)
      × (st.sent ≡ planned pw (length st.buf) st.asked)
      × (st.asked ≤ st.answered + max_backlog)

  download-Ensures :
      (pw : PieceWork) (size : ℕ) (st : Progress)
      → IsProgress pw size st
      → Ensures (IsFetched pw (pos size)) IsReal (download sha1 pw size st)
  unfolding download
  download-Ensures pw size st h =
      Ensures->>= (rounds-Ensures pw size (suc (length st.incoming)) st h (omega arith)) λ st' h'.
        Ensures->>= (Ensures-guard (bytes_eq (sha1 st'.buf) pw.hash) hash_mismatch (λ e. cc))
          λ _ same. holds (
            ap pos (sym h'.sized),
            bytes_eq→eq (sha1 st'.buf) pw.hash same,
            h'.in_order ∙ ap (λ n. planned pw n st'.asked) (sym h'.sized),
            h'.limited,
          )

  start-IsProgress :
      (pw : PieceWork) (pool : Option Bytes) (size : ℕ) (incoming : Bytes) (room : ℕ)
      → IsProgress pw size (start pool size incoming room)
  start-IsProgress pw pool size incoming room = record {
    sized = length-get_buffer pool size;
    in_order = unfold planned in refl;
    reached = omega arith;
    limited = omega arith;
  }

  download_piece-Ensures :
      (pw : PieceWork) (pool : Option Bytes) (incoming : Bytes) (room : ℕ) (z : ℤ)
      → Ensures (IsFetched pw z) IsReal (elim z [
        | negsuc n ↦ panic
        | pos size ↦
            if ltb max_alloc size
            then panic
            else download sha1 pw size (start pool size incoming room)
      ])
  download_piece-Ensures pw pool incoming room (negsuc n) = panics
  download_piece-Ensures pw pool incoming room (pos size) =
      Ensures-if (ltb max_alloc size) (λ _. panics)
        λ _.
          download-Ensures pw size (start pool size incoming room)
            (start-IsProgress pw pool size incoming room)

  -- If `DownloadPiece` succeeds, whatever the peer sent and whatever the pooled buffer held, the data
  -- has the length and the digest of the piece; the requests sent are the first blocks of the piece,
  -- in order and without a gap, and at most sixteen more than the blocks taken.
  pub download_piece_sound :
      (pw : PieceWork) (pool : Option Bytes) (incoming : Bytes) (room : ℕ) (st : Progress)
      → download_piece sha1 pw pool incoming room ≡ ok st
      → IsFetched pw pw.size st
  unfolding download_piece
  download_piece_sound pw pool incoming room st e =
      Ensures-ok (download_piece-Ensures pw pool incoming room pw.size) e

  -- Whatever the peer sends before it stops, the loop ends within the fuel that it is given: every
  -- round reads a message of four bytes at least.
  pub download_piece-ne-out_of_fuel :
      (pw : PieceWork) (pool : Option Bytes) (incoming : Bytes) (room : ℕ)
      → download_piece sha1 pw pool incoming room ≢ err out_of_fuel
  unfolding download_piece
  download_piece-ne-out_of_fuel pw pool incoming room e =
      Ensures-err (download_piece-Ensures pw pool incoming room pw.size) e refl
