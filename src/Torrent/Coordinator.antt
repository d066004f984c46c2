-- ===== src/Torrent/Coordinator.antt =====
-- The coordinator of torrent/torrent.go: `downloadPieces` and `transitionToEndgame`. The workers are
-- goroutines of their own; what they do to the shared state is a list of events, in any order, which
-- ends when the last worker has returned and the channel of results is closed.
pub mod Counting
pub mod Laws
pub mod Content
pub mod Stored
pub mod Arrived
pub mod Complete
use amish.Base.{
  ℕ, zero, suc, ◌+◌, ◌-◌, ◌≡◌, refl, Bool, true, false, ◌&&◌, not, Option, none, some, List, [],
  ◌∷◌, ◌++◌, Bytes, leb, ltb, if◌then◌else◌, length, drop, get_or, Result, ok, err, panic,
}
use amish.Metainfo.{Info, num_pieces, piece_size}
use amish.Torrent.Endgame.{
  PieceWork, EndgameTracker, new_endgame_tracker, contains, activate, add_piece, pick_piece,
  complete, endgame_threshold,
}
use amish.Torrent.Writer
use amish.Torrent.Writer.{System, Writer, write_piece}

-- `PieceResult` of torrent/piece.go: the data, or none where `Err` is set.
pub record PieceResult : Type 0 where
  pub index : ℕ
  pub piece : Option Bytes

-- A result arrives; a worker takes a piece from `workCh` or puts one back; a worker picks a piece of
-- the endgame.
pub data Event : Type 0 where
  arrive : PieceResult → Event
  take_work : Event
  put_back : PieceWork → Event
  pick : (ℕ → Bool) → Event

-- `work` is what `workCh` holds, `in_endgame` that `egCh` is closed, `finished` that `doneCh` is. The
-- counters that the display shows are left out.
pub record Download : Type 0 where
  pub done : ℕ
  pub completed : List ℕ
  pub endgame : EndgameTracker
  pub work : List PieceWork
  pub in_endgame : Bool
  pub finished : Bool
  pub writer : Writer

-- `all_failed` is what is returned if the workers end before all pieces are done.
pub data Outcome : Type 0 where
  succeeded all_failed crashed : Outcome
  write_error : Writer.Error → Outcome

pub data Signal : Type 0 where
  go_on : Signal
  return_with : Outcome → Signal

unfoldable pub work_of : Info → ℕ → PieceWork
work_of info i = record {
  index = i;
  hash = get_or info.pieces i [];
  size = piece_size info i;
  num_tries = 0;
}

-- The loop that fills the queue.
unfoldable pub fill_queue : Info → ℕ → List PieceWork
unfolding work_of
fill_queue info zero = []
fill_queue info (suc n) = fill_queue info n ++ work_of info n ∷ []

-- The loop over the indices below `n` in `transitionToEndgame`.
unfoldable pub add_missing : Info → List ℕ → ℕ → EndgameTracker → EndgameTracker
unfolding work_of
add_missing info completed zero e = e
add_missing info completed (suc n) e =
    let e' = add_missing info completed n e in
    if contains completed n then e' else add_piece (work_of info n) e'

abbrev pub mark : ℕ → Download → Download
mark index st = record st {
  completed = index ∷ st.completed;
  endgame = if st.endgame.active then (complete index st.endgame).1 else st.endgame;
}

module _ (info : Info) where
  -- The workers look at the tracker only when `egCh` is closed, so that this is one step; the queue
  -- is drained.
  unfoldable pub transition_to_endgame : Download → Download
  unfolding add_missing
  transition_to_endgame st = record st {
    endgame = activate (add_missing info st.completed (num_pieces info) st.endgame);
    work = [];
    in_endgame = true;
  }

  -- What follows the writing of a piece.
  unfoldable pub after_write : Download → Signal × Download
  unfolding transition_to_endgame
  after_write st =
      let n = num_pieces info in
      if leb n st.done
      then (return_with succeeded, record st { finished = true })
      else if leb (n - st.done) endgame_threshold && not st.endgame.active
      then (go_on, transition_to_endgame st)
      else (go_on, st)

  abbrev pub written : Download → Result Writer.Error (Unit {0}) × Writer → Signal × Download
  written st (ok _, w) = after_write (record st { writer = w; done = suc st.done })
  written st (err e, w) = (return_with (write_error e), record st { writer = w })
  written st (panic, w) = (return_with crashed, record st { writer = w })

abbrev pub begin : Info → Writer → Download
begin info w = record {
  done = 0;
  completed = [];
  endgame = new_endgame_tracker;
  work = fill_queue info (num_pieces info);
  in_endgame = false;
  finished = false;
  writer = w;
}

module _ (sys : System) (info : Info) where
  abbrev pub accept : ℕ → Option Bytes → Download → Signal × Download
  accept index none st = (go_on, st)
  accept index (some piece) st =
      if contains st.completed index
      then (go_on, st)
      else written info (mark index st) (write_piece sys index piece st.writer)

  -- The body of the loop over the results.
  unfoldable pub handle_result : PieceResult → Download → Signal × Download
  unfolding after_write
  handle_result r st = accept r.index r.piece st

  unfoldable pub step : Event → Download → Signal × Download
  unfolding handle_result
  step (arrive r) st = handle_result r st
  step take_work st = (go_on, record st { work = drop 1 st.work })
  step (put_back pw) st = (go_on, record st { work = st.work ++ pw ∷ [] })
  step (pick has_piece) st = (go_on, record st { endgame = (pick_piece has_piece st.endgame).1 })

  unfoldable pub collect : List Event → Download → Outcome × Download
  unfolding step
  collect [] st = (if ltb st.done (num_pieces info) then all_failed else succeeded, st)
  collect (e ∷ es) st =
      let (signal, st') = step e st in
      let rest = collect es st' in elim signal [ go_on ↦ rest | return_with o ↦ (o, st') ]

  unfoldable pub download_pieces : List Event → Writer → Outcome × Download
  unfolding collect
  download_pieces events w = collect events (begin info w)
