-- ===== src/Torrent/Tests.antt =====
-- Theorems on the endgame and on the writer at concrete pieces and files.
use amish.Base.{
  ap, ◌≢◌, ◌<◌, length, Bytes, ◌++◌, err, ℕ, ◌≡◌, refl, List, [], ◌∷◌, ◌==◌, codes, replicate, ok,
  arith, min, true, false, not, some, none, get_elem?, ◌⊎◌, All, if◌then◌else◌, map, ◌||◌,
}
use amish.Base.Int.{pos, wrap, ◌+ℤ◌, ◌-ℤ◌, ◌*ℤ◌}
use amish.Metainfo.{num_pieces, total_length, piece_size}
use amish.Torrent.Endgame.{
  PieceWork, EndgameTracker, new_endgame_tracker, contains, pick_piece, complete,
}
use amish.Torrent.Endgame.Counts.{count}
use amish.Torrent.Endgame.Pick.{pick_piece_lem}
use amish.Torrent.Endgame.Laws.{
  IsValid, Reach, Reach-IsValid, start, next, add, finish, run, complete_lem,
}
use amish.Torrent.Endgame.Once.{asks, wins, wins_once}
use amish.Torrent.Coordinator.{Event, arrive, take_work, pick, Download, download_pieces, succeeded}
use amish.Torrent.Coordinator.Content.{IsTorrent, IsGenuine}
use amish.Torrent.Coordinator.Arrived.{arrived}
use amish.Torrent.Coordinator.Complete.{download_pieces_complete}
use amish.Torrent.Coordinator.Stored.{download_pieces_stored}
use amish.Torrent.Coordinator.Counting.{occurrences}
use amish.Torrent.Coordinator.Laws.{download_pieces_sound}
use amish.Torrent.Piece.{Progress, download_piece, request_of, out_of_fuel, choked}
use amish.Torrent.Piece.Sound.{IsFetched, download_piece_sound, download_piece-ne-out_of_fuel}
use amish.Torrent.Piece.Served.{join, replies}
use amish.Torrent.Piece.Complete.{download_piece_complete}
use amish.Peer.Message.{read_message, write_message, parse_piece}
use amish.Torrent.Writer.{System, Writer, write_piece}
use amish.Torrent.Writer.Files.{store}
use amish.Torrent.Writer.Segments.{piece_segments}
use amish.Torrent.Writer.Layout.{Extent, entry_of}
use amish.Torrent.Writer.Flat.{byte_at, write_piece_lem}

abbrev work : ℕ → PieceWork
work i = record { index = i; hash = []; size = pos 16; num_tries = 0 }

abbrev two_pieces : EndgameTracker
two_pieces = record { active = true; pieces = work 3 ∷ work 5 ∷ []; completed = 1 ∷ []; offset = 4 }

has_five : (pick_piece (λ i. i == 5) two_pieces).0 ≡ some (work 5)
unfolding pick_piece
has_five = refl

has_none : (pick_piece (λ i. i == 4) two_pieces).0 ≡ none
unfolding pick_piece
has_none = refl

pick_piece_lem_example :
    ((pw : PieceWork) × (k : ℕ) × ((pick_piece (λ i. i == 5) two_pieces).0 ≡ some pw)
      × (get_elem? two_pieces.pieces k ≡ some pw)
      × (pw.index == 5 ≡ true))
    ⊎ (((pick_piece (λ i. i == 5) two_pieces).0 ≡ none)
        × All (λ pw. pw.index == 5 ≡ false) two_pieces.pieces)
pick_piece_lem_example = pick_piece_lem (λ i. i == 5) two_pieces

abbrev added : EndgameTracker
added = (run (add (work 3)) new_endgame_tracker).1

Reach-added : Reach added
Reach-added = next (add (work 3)) start (unfold new_endgame_tracker count in refl)

Reach-IsValid_example : IsValid (run (finish 3) added).1
Reach-IsValid_example = Reach-IsValid (next (finish 3) Reach-added tt)

complete_lem_example :
    ((complete 3 added).0 ≡ not (contains added.completed 3))
    × ((j : ℕ)
        → (contains (complete 3 added).1.completed j ≡ (3 == j || contains added.completed j))
          × (count j (complete 3 added).1.pieces ≡ (if 3 == j then 0 else count j added.pieces)))
complete_lem_example = complete_lem 3 added (Reach-IsValid Reach-added)

wins_once_example : wins 3 (finish 3 ∷ finish 5 ∷ finish 3 ∷ []) two_pieces ≡ (
    if contains two_pieces.completed 3
    then 0
    else min 1 (asks 3 (finish 3 ∷ finish 5 ∷ finish 3 ∷ [])))
wins_once_example = wins_once 3 (finish 3 ∷ finish 5 ∷ finish 3 ∷ []) two_pieces

-- A system on which every call succeeds.
abbrev working : System
working = record {
  join = λ parts. [];
  dir = λ p. p;
  mkdir_fails = λ p. false;
  open_fails = λ p. false;
  write_fails = λ p. false;
  close_fails = λ p. false;
}

abbrev two_files : List Extent
two_files = record { path = codes "a"; count = 3 } ∷ record { path = codes "b"; count = 4 } ∷ []

abbrev a_writer : Writer
a_writer = record {
  info = record {
    name = codes "t";
    piece_length = pos 5;
    pieces = replicate 2 [];
    size = pos 0;
    files =
        record { size = pos 3; path = codes "a" ∷ [] }
        ∷ record { size = pos 4; path = codes "b" ∷ [] }
        ∷ [];
  };
  files = map entry_of two_files;
  handles = [];
  closed = false;
  mkdirs = [];
  disk = λ p. [];
}

first_size : piece_size a_writer.info 0 ≡ pos 5
unfolding piece_size wrap ◌-ℤ◌ ◌+ℤ◌ ◌*ℤ◌
first_size = refl

-- Byte 4 of the torrent is the second one of the second file.
write_piece_lem_example :
    ((write_piece working 0 (1 ∷ 2 ∷ 3 ∷ 4 ∷ 5 ∷ []) a_writer).0 ≡ ok tt)
    × (byte_at (write_piece working 0 (1 ∷ 2 ∷ 3 ∷ 4 ∷ 5 ∷ []) a_writer).1.disk two_files 4 ≡ 5)
write_piece_lem_example =
    write_piece_lem working a_writer two_files 0 5 5 (1 ∷ 2 ∷ 3 ∷ 4 ∷ 5 ∷ []) 4
      (λ p. (refl, refl, refl)) refl refl ((refl, refl, tt), (tt, tt)) refl first_size refl
      (omega arith) (omega arith) (omega arith)

second_byte :
    (write_piece working 0 (1 ∷ 2 ∷ 3 ∷ 4 ∷ 5 ∷ []) a_writer).1.disk (codes "b") ≡ 4 ∷ 5 ∷ []
unfolding write_piece piece_segments wrap ◌+ℤ◌ ◌*ℤ◌ piece_size ◌-ℤ◌ store
second_byte = refl

-- A digest that tells bytes apart by how many they are.
abbrev by_length : Bytes → Bytes
by_length s = length s ∷ []

abbrev three_bytes : PieceWork
three_bytes = record { index = 1; hash = 3 ∷ []; size = pos 3; num_tries = 0 }

-- Behind the blocks the peer sends a choke.
abbrev two_blocks : List Bytes
two_blocks = (7 ∷ 8 ∷ []) ∷ (9 ∷ []) ∷ []

abbrev choke : Bytes
choke = 0 ∷ 0 ∷ 0 ∷ 1 ∷ 0 ∷ []

download_piece_complete_example :
    (st : Progress) × (download_piece by_length three_bytes none
        (replies three_bytes 0 two_blocks ++ choke)
        1
      ≡ ok st)
    × (st.buf ≡ join two_blocks)
    × (st.incoming ≡ choke)
download_piece_complete_example =
    download_piece_complete by_length three_bytes none two_blocks choke 1
      ((omega arith, omega arith), ((omega arith, omega arith), tt)) (omega arith)
      (unfold join in omega arith) (unfold join in omega arith) (unfold join in refl)
      (unfold join in refl)

abbrev fetched : Progress
fetched = record {
  incoming = choke;
  room = 0;
  sent = request_of three_bytes 0 3 ∷ [];
  buf = 7 ∷ 8 ∷ 9 ∷ [];
  downloaded = 3;
  requested = 3;
  asked = 1;
  answered = 2;
}

fetches :
    download_piece by_length three_bytes none (replies three_bytes 0 two_blocks ++ choke) 1
    ≡ ok fetched
unfolding download_piece replies read_message write_message parse_piece
fetches = refl

download_piece_sound_example : IsFetched by_length three_bytes (pos 3) fetched
download_piece_sound_example =
    download_piece_sound by_length three_bytes none (replies three_bytes 0 two_blocks ++ choke) 1
      fetched fetches

download_piece-ne-out_of_fuel_example :
    download_piece by_length three_bytes none choke 1 ≢ err out_of_fuel
download_piece-ne-out_of_fuel_example =
    download_piece-ne-out_of_fuel by_length three_bytes none choke 1

-- A choke ends the download with its own error.
is_choked : download_piece by_length three_bytes none choke 1 ≡ err choked
unfolding download_piece read_message
is_choked = refl

-- Both pieces of the torrent arrive, the second one twice; the endgame starts in between.
abbrev arrivals : List Event
arrivals =
    take_work
    ∷ arrive (record { index = 1; piece = some (6 ∷ 7 ∷ []) })
    ∷ pick (λ i. true)
    ∷ arrive (record { index = 1; piece = some (6 ∷ 7 ∷ []) })
    ∷ arrive (record { index = 0; piece = none })
    ∷ arrive (record { index = 0; piece = some (1 ∷ 2 ∷ 3 ∷ 4 ∷ 5 ∷ []) })
    ∷ []

abbrev downloaded : Download
downloaded = (download_pieces working a_writer.info arrivals a_writer).1

succeeds : (download_pieces working a_writer.info arrivals a_writer).0 ≡ succeeded
unfolding download_pieces contains write_piece piece_segments wrap ◌+ℤ◌ ◌*ℤ◌ piece_size ◌-ℤ◌
    num_pieces new_endgame_tracker
succeeds = refl

download_pieces_sound_example :
    (contains downloaded.completed 0 ≡ true) × (occurrences 0 downloaded.completed ≡ 1)
download_pieces_sound_example =
    download_pieces_sound working a_writer.info arrivals a_writer downloaded 0
      (
        tt,
        (
          (unfold num_pieces in omega arith),
          (
            tt,
            (
              (unfold num_pieces in omega arith),
              ((unfold num_pieces in omega arith), ((unfold num_pieces in omega arith), tt)),
            ),
          ),
        ),
      )
      (ap (λ o. (o, downloaded)) succeeds) (unfold num_pieces in omega arith)

abbrev seven_bytes : Bytes
seven_bytes = 1 ∷ 2 ∷ 3 ∷ 4 ∷ 5 ∷ 6 ∷ 7 ∷ []

describes : IsTorrent a_writer.info two_files 5 seven_bytes
describes = record {
  positive = omega arith;
  in_pieces = refl;
  whole = unfold total_length wrap ◌+ℤ◌ in refl;
  in_files = refl;
  fits = omega arith;
  distinct = ((refl, refl, tt), (tt, tt));
  enough = unfold num_pieces in omega arith;
  needed = unfold num_pieces in omega arith;
}

genuine : All (IsGenuine a_writer.info seven_bytes 5) arrivals
genuine = (
  tt,
  (
    ((unfold num_pieces in omega arith), refl),
    (
      tt,
      (
        ((unfold num_pieces in omega arith), refl),
        (
          ((unfold num_pieces in omega arith), tt),
          (((unfold num_pieces in omega arith), refl), tt),
        ),
      ),
    ),
  ),
)

-- The last byte of the second file.
download_pieces_stored_example : byte_at downloaded.writer.disk two_files 6 ≡ 7
download_pieces_stored_example =
    download_pieces_stored working a_writer.info two_files 5 seven_bytes arrivals a_writer
      downloaded 6 (λ q. (refl, refl, refl)) describes refl refl refl genuine
      (ap (λ o. (o, downloaded)) succeeds) (omega arith)

all_arrive : (j : ℕ) → j < 2 → contains (arrived arrivals) j ≡ true
unfolding contains
all_arrive j lt = ground arith

download_pieces_complete_example :
    (st : Download) × (download_pieces working a_writer.info arrivals a_writer ≡ (succeeded, st))
    × (byte_at st.writer.disk two_files 6 ≡ 7)
download_pieces_complete_example =
    download_pieces_complete working a_writer.info two_files 5 seven_bytes arrivals a_writer 6
      (λ q. (refl, refl, refl)) describes refl refl refl genuine
      (λ j lt. all_arrive j (unfold num_pieces in lt)) (omega arith)
