-- ===== src/Torrent/Swarm.antt =====
-- The coordinator of torrent/torrent.go together with the workers of torrent/peer_session.go: what any
-- number of workers can do to the shared state, one send or receive after the other.
pub mod Conserved
pub mod Marked
pub mod Laws
pub mod Work
pub mod Stored
mod Tests
use amish.Base.{◌≡◌, true, Option, none, some, List, [], ◌∷◌, ◌++◌, Bytes}
use amish.Metainfo.{Info}
use amish.Torrent.Endgame.{PieceWork, pick_piece}
use amish.Torrent.Writer.{System, Writer}
use amish.Torrent.Coordinator.{
  Event, take_work, pick, Download, Outcome, go_on, return_with, begin, step,
}
use amish.Torrent.Session.{
  Session, wants, work, race, Deed, Turn, crashes, returns, continues, Link, session_round,
  event_of,
}

abbrev pub deed_of : Turn → Option Deed
deed_of crashes = none
deed_of (returns d) = d
deed_of (continues d s) = d

-- The shared state; the pieces that workers took from the queue, and those that they picked in the
-- endgame, and have not settled yet.
pub record Swarm : Type 0 where
  pub st : Download
  pub held : List PieceWork
  pub racing : List PieceWork

abbrev pub add_picked : Option PieceWork → List PieceWork → List PieceWork
add_picked none ps = ps
add_picked (some pw) ps = pw ∷ ps

module _ (sha1 : Bytes → Bytes) where
  -- What a worker can do: the event, and the pieces that the workers then have. A worker that settles
  -- a piece has downloaded it over some connection.
  pub data Move (n : Swarm) : Event → List PieceWork → List PieceWork → Type 0 where
    receives :
        (pw : PieceWork) (rest : List PieceWork)
        → n.st.work ≡ pw ∷ rest
        → Move n take_work (pw ∷ n.held) n.racing
    picks :
        (bf : Option Bytes)
        → n.st.in_endgame ≡ true
        → Move n
            (pick (wants bf))
            n.held
            (add_picked (pick_piece (wants bf) n.st.endgame).0 n.racing)
    settles :
        (xs ys : List PieceWork) (pw : PieceWork) (link : Link) (s : Session) (d : Deed)
        → n.held ≡ xs ++ pw ∷ ys
        → deed_of (session_round sha1 link (work pw) s) ≡ some d
        → Move n (event_of d) (xs ++ ys) n.racing
    finishes :
        (xs ys : List PieceWork) (pw : PieceWork) (link : Link) (s : Session) (d : Deed)
        → n.racing ≡ xs ++ pw ∷ ys
        → deed_of (session_round sha1 link (race (some pw)) s) ≡ some d
        → Move n (event_of d) n.held (xs ++ ys)

  module _ (sys : System) (info : Info) (w : Writer) where
    -- The states that lead on, each with the events so far.
    pub data Run : List Event → Swarm → Type 0 where
      start : Run [] (record { st = begin info w; held = []; racing = [] })
      next :
          {events : List Event} {n : Swarm} {e : Event} {held racing : List PieceWork}
          {st : Download}
          → Run events n
          → Move n e held racing
          → step sys info e n.st ≡ (go_on, st)
          → Run (events ++ e ∷ []) (record { st = st; held = held; racing = racing })
