-- ===== src/Torrent/Swarm/Tests.antt =====
-- Theorems on the workers and on the whole download, at a torrent of one piece.
use amish.Base.{
  ℕ, zero, suc, take, drop, ◌*◌, ◌<◌, ◌≡◌, refl, ap, subst, false, none, some, List, [], ◌∷◌, ◌++◌,
  Bytes, codes, get_or, map, arith,
}
use amish.Base.Int.{pos, wrap, ◌+ℤ◌, ◌-ℤ◌, ◌*ℤ◌}
use amish.Metainfo.{Info, num_pieces, total_length, piece_size}
use amish.Peer.Message.{read_message, write_message, parse_piece}
use amish.Torrent.Endgame.{PieceWork, new_endgame_tracker, contains}
use amish.Torrent.Writer.{System, Writer, write_piece}
use amish.Torrent.Writer.Segments.{piece_segments}
use amish.Torrent.Writer.Layout.{Extent, entry_of}
use amish.Torrent.Writer.Flat.{byte_at}
use amish.Torrent.Piece.{download_piece}
use amish.Torrent.Piece.Served.{replies}
use amish.Torrent.Coordinator.{
  Event, arrive, take_work, Download, succeeded, go_on, return_with, begin, step, work_of,
  fill_queue, download_pieces,
}
use amish.Torrent.Coordinator.Content.{IsTorrent}
use amish.Torrent.Session.{Session, Link, work, deliver, session_round}
use amish.Torrent.Session.Sound.{OnTurn, IsSettled, session_round-IsSettled}
use amish.Torrent.Swarm.{deed_of, Swarm, receives, settles, Run, start, next}
use amish.Torrent.Swarm.Conserved.{IsConserved}
use amish.Torrent.Swarm.Laws.{Run-IsConserved}
use amish.Torrent.Swarm.Stored.{swarm_stored}

abbrev working : System
working = record {
  join = λ parts. [];
  dir = λ p. p;
  mkdir_fails = λ p. false;
  open_fails = λ p. false;
  write_fails = λ p. false;
  close_fails = λ p. false;
}

abbrev content : Bytes
content = 7 ∷ 8 ∷ 9 ∷ []

abbrev one_file : List Extent
one_file = record { path = codes "a"; count = 3 } ∷ []

-- The digest of this example is the data itself.
abbrev info : Info
info = record {
  name = codes "t";
  piece_length = pos 3;
  pieces = content ∷ [];
  size = pos 0;
  files = record { size = pos 3; path = codes "a" ∷ [] } ∷ [];
}

abbrev same : Bytes → Bytes
same s = s

abbrev a_writer : Writer
a_writer = record {
  info = info;
  files = map entry_of one_file;
  handles = [];
  closed = false;
  mkdirs = [];
  disk = λ p. [];
}

abbrev piece : PieceWork
piece = record { index = 0; hash = content; size = pos 3; num_tries = 0 }

abbrev begun : Download
begun = begin info a_writer

queued : begun.work ≡ piece ∷ []
unfolding fill_queue work_of piece_size wrap ◌+ℤ◌ ◌-ℤ◌ ◌*ℤ◌ num_pieces
queued = refl

abbrev taken : Swarm
taken = record { st = record begun { work = [] }; held = piece ∷ []; racing = [] }

takes : step working info take_work begun ≡ (go_on, taken.st)
unfolding step fill_queue num_pieces
takes = refl

Run-taken : Run same working info a_writer (take_work ∷ []) taken
Run-taken = next start (receives piece [] queued) takes

Run-IsConserved_example : IsConserved info taken.st taken.held taken.racing
Run-IsConserved_example =
    Run-IsConserved same working info a_writer (take_work ∷ []) taken Run-taken

-- The peer sends two blocks and a choke.
abbrev session : Session
session = record {
  incoming = replies piece 0 ((7 ∷ 8 ∷ []) ∷ (9 ∷ []) ∷ []) ++ 0 ∷ 0 ∷ 0 ∷ 1 ∷ 0 ∷ [];
  bitfield = none;
  misses = 0;
}

abbrev link : Link
link = record { pool = none; room = 1 }

abbrev delivery : Event
delivery = arrive (record { index = 0; piece = some content })

delivers :
    deed_of (session_round same link (work piece) session)
    ≡ some (deliver (record { index = 0; piece = some content }))
unfolding session_round download_piece replies read_message write_message parse_piece
delivers = refl

session_round-IsSettled_example :
    OnTurn (IsSettled same piece) (session_round same link (work piece) session)
session_round-IsSettled_example = session_round-IsSettled same link piece session

abbrev ended : Download
ended = (step working info delivery taken.st).1

ends : (step working info delivery taken.st).0 ≡ return_with succeeded
unfolding step contains new_endgame_tracker write_piece piece_segments wrap ◌+ℤ◌ ◌*ℤ◌ piece_size
    ◌-ℤ◌ num_pieces
ends = refl

describes : IsTorrent info one_file 3 content
describes = record {
  positive = omega arith;
  in_pieces = refl;
  whole = unfold total_length wrap ◌+ℤ◌ in refl;
  in_files = refl;
  fits = omega arith;
  distinct = (tt, tt);
  enough = unfold num_pieces in omega arith;
  needed = unfold num_pieces in omega arith;
}

digest_of :
    (i : ℕ) (b : Bytes) → i < 1 → b ≡ get_or (content ∷ []) i [] → b ≡ take 3 (drop (i * 3) content)
digest_of zero b lt e = e
digest_of (suc i) b lt e = absurd (omega arith)

one_piece : num_pieces info ≡ 1
unfolding num_pieces
one_piece = refl

swarm_stored_example :
    (download_pieces working info (take_work ∷ delivery ∷ []) a_writer ≡ (succeeded, ended))
    × (byte_at ended.writer.disk one_file 2 ≡ 9)
swarm_stored_example =
    swarm_stored same working info one_file 3 content a_writer (take_work ∷ []) taken delivery [] []
      ended 2 (λ q. (refl, refl, refl)) describes
      (λ i b lt e size. digest_of i b (subst (λ n. i < n) one_piece lt) e) refl refl refl Run-taken
      (settles [] [] piece link session (deliver (record { index = 0; piece = some content })) refl
        delivers)
      (ap (λ o. (o, ended)) ends) (omega arith)
