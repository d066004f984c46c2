-- ===== src/Torrent/Session.antt =====
-- torrent/peer_session.go: what one worker does with a connection. The connection is the bytes that
-- the peer sends until it stops or a deadline passes: any error of a read ends the session, so that
-- nothing is read behind it. The delays and the count of active peers are left out.
pub mod Sound
use amish.Base.{
  ℕ, zero, suc, ◌+◌, ◌≡◌, refl, Bool, true, false, not, Option, none, some, List, [], ◌∷◌, ◌++◌,
  Bytes, leb, ◌==◌, if◌then◌else◌, length, Result, ok, err, panic, ◌>>=◌, ◌>>◌, guard, map_err,
}
use amish.Peer.Message
use amish.Peer.Message.{
  Message, read_message, parse_have, msg_choke, msg_unchoke, msg_have, msg_bitfield,
}
use amish.Peer.Bitfield.{has_piece, set_piece, new_bitfield}
use amish.Metainfo.{Info, num_pieces}
use amish.Torrent.Endgame.{PieceWork}
use amish.Torrent.Piece
use amish.Torrent.Piece.{Progress, choked, download_piece}
use amish.Torrent.Coordinator.{PieceResult, Event, arrive, put_back}

-- `message` is an error of a read. The loops of the model have fuel.
pub data Error : Type 0 where
  not_sent out_of_fuel : Error
  message : Message.Error → Error

-- A bitfield may be nil.
abbrev pub on_have : Info → Option Bytes → Result Message.Error ℕ → Option Bytes
on_have info none (ok idx) = some (set_piece (new_bitfield (num_pieces info)) idx)
on_have info (some bf) (ok idx) = some (set_piece bf idx)
on_have info bf _ = bf

-- The switch of the first loop: the new bitfield, and whether the peer still chokes us.
unfoldable pub handle_initial : Info → Option Bytes → Option Message → Option Bytes × Bool
handle_initial info bf none = (bf, true)
handle_initial info bf (some m) =
    if m.id == msg_bitfield
    then (some m.payload, true)
    else if m.id == msg_unchoke
    then (bf, false)
    else if m.id == msg_have
    then (on_have info bf (parse_have m.payload), true)
    else (bf, true)

-- The first loop: until the peer unchokes us.
unfoldable pub read_initial : ℕ → Info → Option Bytes → Bytes → Result Error (Option Bytes × Bytes)
unfolding handle_initial
read_initial zero info bf r = err out_of_fuel
read_initial (suc fuel) info bf r = do
  (m, rest) ← map_err message (read_message r)
  let (bf', is_choked) = handle_initial info bf m
  elim is_choked [ true ↦ read_initial fuel info bf' rest | false ↦ ok (bf', rest) ]

-- The switch of `waitForUnchoke`: a nil bitfield stays nil.
abbrev pub on_have_later : Option Bytes → Result Message.Error ℕ → Option Bytes
on_have_later (some bf) (ok idx) = some (set_piece bf idx)
on_have_later bf _ = bf

unfoldable pub handle_choked : Option Bytes → Option Message → Option Bytes × Bool
handle_choked bf none = (bf, true)
handle_choked bf (some m) =
    if m.id == msg_unchoke
    then (bf, false)
    else if m.id == msg_have
    then (on_have_later bf (parse_have m.payload), true)
    else (bf, true)

-- The new bitfield and what is left, or the error for which the code returns false.
unfoldable pub wait_for_unchoke : ℕ → Option Bytes → Bytes → Result Error (Option Bytes × Bytes)
unfolding handle_choked
wait_for_unchoke zero bf r = err out_of_fuel
wait_for_unchoke (suc fuel) bf r = do
  (m, rest) ← map_err message (read_message r)
  let (bf', is_choked) = handle_choked bf m
  elim is_choked [ true ↦ wait_for_unchoke fuel bf' rest | false ↦ ok (bf', rest) ]

abbrev is_choke : Option Message → Bool
is_choke none = false
is_choke (some m) = m.id == msg_choke

-- `DownloadPiece` gives `ErrChoked` at the first choke message that it reads: what follows is left.
unfoldable pub after_choke : ℕ → Bytes → Bytes
after_choke zero r = []
after_choke (suc fuel) r = elim (read_message r) [
  | panic ↦ []
  | err e ↦ []
  | ok (m, rest) ↦ elim (is_choke m) [ true ↦ rest | false ↦ after_choke fuel rest ]
]

pub record Session : Type 0 where
  pub incoming : Bytes
  pub bitfield : Option Bytes
  pub misses : ℕ

-- `bitfield == nil || bitfield.HasPiece(idx)`
abbrev pub wants : Option Bytes → ℕ → Bool
wants none idx = true
wants (some bf) idx = has_piece bf idx

-- What the worker meets in a round: `doneCh` is closed; `egCh` is closed while it waits; `workCh` is
-- closed; a piece comes from `workCh`; or the endgame is on, and `PickPiece` gave this.
pub data Sight : Type 0 where
  finished wake no_work : Sight
  work : PieceWork → Sight
  race : Option PieceWork → Sight

-- A send to `workCh` or to `resultCh`.
pub data Deed : Type 0 where
  give_back : PieceWork → Deed
  deliver : PieceResult → Deed

-- How a round ends: with at most one send.
pub data Turn : Type 0 where
  crashes : Turn
  returns : Option Deed → Turn
  continues : Option Deed → Session → Turn

-- What the environment adds to a download: the pooled buffer, and how many messages can be sent.
pub record Link : Type 0 where
  pub pool : Option Bytes
  pub room : ℕ

abbrev pub max_misses : ℕ
max_misses = 15

abbrev pub back : Bool → PieceWork → Option Deed
back racing pw = if racing then none else some (give_back pw)

abbrev pub resume : Option Deed → Session → Result Error (Option Bytes × Bytes) → Turn
resume d s (ok (bf, rest)) = continues d (record s { bitfield = bf; incoming = rest })
resume d s (err e) = returns d
resume d s panic = crashes

-- What follows `DownloadPiece`.
unfoldable pub on_result : Bool → PieceWork → Session → Result Piece.Error Progress → Turn
unfolding wait_for_unchoke after_choke
on_result racing pw s (ok st) =
    continues (some (deliver (record { index = pw.index; piece = some st.buf })))
      (record s { incoming = st.incoming })
on_result racing pw s (err choked) =
    let rest = after_choke (suc (length s.incoming)) s.incoming in
    resume (back racing pw) s (wait_for_unchoke (suc (length rest)) s.bitfield rest)
on_result racing pw s (err _) = returns (back racing pw)
on_result racing pw s panic = crashes

abbrev pub skip_piece : PieceWork → Session → Turn
skip_piece pw s =
    let misses = s.misses + 1 in
    if leb max_misses misses
    then returns (some (give_back pw))
    else continues (some (give_back pw)) (record s { misses = misses })

module _ (sha1 : Bytes → Bytes) where
  -- A round of the second loop.
  unfoldable pub session_round : Link → Sight → Session → Turn
  unfolding on_result
  session_round link finished s = returns none
  session_round link wake s = continues none s
  session_round link no_work s = returns none
  session_round link (race none) s = returns none
  session_round link (race (some pw)) s =
      on_result true pw s (download_piece sha1 pw link.pool s.incoming link.room)
  session_round link (work pw) s =
      if wants s.bitfield pw.index
      then on_result false pw (record s { misses = 0 })
          (download_piece sha1 pw link.pool s.incoming link.room)
      else skip_piece pw s

  abbrev pub and_then : Turn → (Session → List Deed) → List Deed
  and_then crashes next = []
  and_then (returns none) next = []
  and_then (returns (some d)) next = d ∷ []
  and_then (continues none s) next = next s
  and_then (continues (some d) s) next = d ∷ next s

  -- What the worker sends, for what it meets in each round.
  unfoldable pub session_loop : List (Link × Sight) → Session → List Deed
  unfolding session_round
  session_loop [] s = []
  session_loop ((link, sight) ∷ more) s = and_then (session_round link sight s) (session_loop more)

  -- `can_send` is whether the first message can be written.
  unfoldable pub run_peer_session :
      Info → Bool → Bytes → List (Link × Sight) → Result Error (List Deed)
  unfolding read_initial session_loop
  run_peer_session info can_send incoming sights = do
    guard can_send not_sent
    (bf, rest) ← read_initial (suc (length incoming)) info none incoming
    ok (session_loop sights (record { incoming = rest; bitfield = bf; misses = 0 }))

-- The event that a send is for the coordinator.
abbrev pub event_of : Deed → Event
event_of (give_back pw) = put_back pw
event_of (deliver r) = arrive r
