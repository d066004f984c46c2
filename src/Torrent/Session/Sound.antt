-- ===== src/Torrent/Session/Sound.antt =====
-- What a worker owes for the pieces that it takes, and that its loops over messages end.
use amish.Base.{
  ℕ, zero, suc, ◌+◌, ◌<◌, ◌≡◌, ◌≢◌, refl, Bool, true, false, Option, none, some, List, Bytes, leb,
  if◌then◌else◌, length, arith, Result, ok, err, panic, map_err, Ensures, holds, Ensures-err,
  Ensures->>=, Ensures-guard, Ensures-map_err, Ensures-weaken, Ensures-ok,
}
use amish.Base.Int.{pos}
use amish.Peer.Message.{read_message}
use amish.Peer.Message.Reading.{Shorter, read_message-Ensures}
use amish.Metainfo.{Info}
use amish.Torrent.Endgame.{PieceWork}
use amish.Torrent.Piece
use amish.Torrent.Piece.{Progress, choked, request_failed, hash_mismatch, download_piece}
use amish.Torrent.Piece.Sound.{download_piece_sound}
use amish.Torrent.Coordinator.{PieceResult}
use amish.Torrent.Session.{
  Error, not_sent, out_of_fuel, message, handle_initial, read_initial, handle_choked,
  wait_for_unchoke, after_choke, Session, wants, Sight, work, race, Deed, give_back, deliver, Turn,
  crashes, returns, continues, Link, max_misses, back, resume, on_result, session_round,
  run_peer_session,
}

abbrev pub IsReal : Error → Type 0
IsReal e = e ≢ out_of_fuel

abbrev Left : Bytes → Option Bytes × Bytes → Type 0
Left r (bf, rest) = length rest < length r

next_message : (r : Bytes) → Ensures (Shorter r) IsReal (map_err message (read_message r))
next_message r =
    Ensures-map_err message (read_message r) (λ _ e. Ensures-ok (read_message-Ensures r) e)
      (λ e. λ same. cc)

-- The last message of a loop, or one of those before.
last_or_next :
    (is_choked : Bool) (r rest : Bytes) (bf : Option Bytes)
    {next : Result Error (Option Bytes × Bytes)}
    → length rest < length r
    → Ensures (Left rest) IsReal next
    → Ensures (Left r) IsReal (elim is_choked [ true ↦ next | false ↦ ok (bf, rest) ])
last_or_next true r rest bf less h = Ensures-weaken (λ _ l. omega (arith, l, less)) (λ _ e. e) h
last_or_next false r rest bf less h = holds less

read_initial-Ensures :
    (fuel : ℕ) (info : Info) (bf : Option Bytes) (r : Bytes)
    → length r < fuel
    → Ensures (Left r) IsReal (read_initial fuel info bf r)
unfolding read_initial
read_initial-Ensures zero info bf r enough = absurd (omega arith)
read_initial-Ensures (suc fuel) info bf r enough = Ensures->>= (next_message r) λ (m, rest) less.
    let next = handle_initial info bf m in
    last_or_next next.1 r rest next.0 less
      (read_initial-Ensures fuel info next.0 rest (omega arith))

wait_for_unchoke-Ensures :
    (fuel : ℕ) (bf : Option Bytes) (r : Bytes)
    → length r < fuel
    → Ensures (Left r) IsReal (wait_for_unchoke fuel bf r)
unfolding wait_for_unchoke
wait_for_unchoke-Ensures zero bf r enough = absurd (omega arith)
wait_for_unchoke-Ensures (suc fuel) bf r enough = Ensures->>= (next_message r) λ (m, rest) less.
    let next = handle_choked bf m in
    last_or_next next.1 r rest next.0 less (wait_for_unchoke-Ensures fuel next.0 rest (omega arith))

-- Whatever the peer sends before it stops, `waitForUnchoke` ends within the fuel that the session
-- gives it.
pub wait_for_unchoke-ne-out_of_fuel :
    (bf : Option Bytes) (r : Bytes) → wait_for_unchoke (suc (length r)) bf r ≢ err out_of_fuel
wait_for_unchoke-ne-out_of_fuel bf r e =
    Ensures-err (wait_for_unchoke-Ensures (suc (length r)) bf r (omega arith)) e refl

-- What holds of the send of a round, if the process goes on.
abbrev pub OnTurn : (Option Deed → Type 0) → Turn → Type 0
OnTurn P crashes = Unit {0}
OnTurn P (returns d) = P d
OnTurn P (continues d s) = P d

OnTurn-if :
    (P : Option Deed → Type 0) (b : Bool) (x y : Turn)
    → OnTurn P x
    → OnTurn P y
    → OnTurn P (if b then x else y)
OnTurn-if P true x y hx hy = hx
OnTurn-if P false x y hx hy = hy

OnTurn-resume :
    (P : Option Deed → Type 0) (d : Option Deed) (s : Session)
    (r : Result Error (Option Bytes × Bytes))
    → P d
    → OnTurn P (resume d s r)
OnTurn-resume P d s (ok (bf, rest)) h = h
OnTurn-resume P d s (err e) h = h
OnTurn-resume P d s panic h = tt

module _ (sha1 : Bytes → Bytes) where
  -- A result without an error holds data of the size and the digest of its piece.
  abbrev pub IsVerified : PieceWork → PieceResult → Type 0
  IsVerified pw r =
      (b : Bytes) × (r ≡ record { index = pw.index; piece = some b })
      × (sha1 b ≡ pw.hash)
      × (pw.size ≡ pos (length b))

  -- A piece that comes from the queue is put back, or delivered.
  abbrev pub IsSettled : PieceWork → Option Deed → Type 0
  IsSettled pw none = ⊥
  IsSettled pw (some (give_back pw')) = pw' ≡ pw
  IsSettled pw (some (deliver r)) = IsVerified pw r

  -- A piece of the endgame is delivered, or left to the others.
  abbrev pub IsRaced : PieceWork → Option Deed → Type 0
  IsRaced pw none = Unit {0}
  IsRaced pw (some (give_back pw')) = ⊥
  IsRaced pw (some (deliver r)) = IsVerified pw r

  -- What holds whether or not the download succeeds holds of the round.
  on_result_lem :
      (P : Option Deed → Type 0) (racing : Bool) (pw : PieceWork) (s : Session)
      (r : Result Piece.Error Progress)
      → ((st : Progress)
          → r ≡ ok st
          → P (some (deliver (record { index = pw.index; piece = some st.buf }))))
      → P (back racing pw)
      → OnTurn P (on_result racing pw s r)
  unfolding on_result
  on_result_lem P racing pw s (ok st) h hb = h st refl
  on_result_lem P racing pw s (err choked) h hb =
      let rest = after_choke (suc (length s.incoming)) s.incoming in
      OnTurn-resume P (back racing pw) s (wait_for_unchoke (suc (length rest)) s.bitfield rest) hb
  on_result_lem P racing pw s (err request_failed) h hb = hb
  on_result_lem P racing pw s (err hash_mismatch) h hb = hb
  on_result_lem P racing pw s (err Piece.out_of_fuel) h hb = hb
  on_result_lem P racing pw s (err (Piece.message e)) h hb = hb
  on_result_lem P racing pw s panic h hb = tt

  verified :
      (link : Link) (pw : PieceWork) (incoming : Bytes) (st : Progress)
      → download_piece sha1 pw link.pool incoming link.room ≡ ok st
      → IsVerified pw (record { index = pw.index; piece = some st.buf })
  verified link pw incoming st e =
      let (size, digest, _, _) = download_piece_sound sha1 pw link.pool incoming link.room st e in
      (st.buf, refl, digest, size)

  -- Whatever the peer sends: a worker that takes a piece from the queue puts that piece back or
  -- delivers data with its size and digest, one of both and once, unless the process crashes.
  pub session_round-IsSettled :
      (link : Link) (pw : PieceWork) (s : Session)
      → OnTurn (IsSettled pw) (session_round sha1 link (work pw) s)
  unfolding session_round
  session_round-IsSettled link pw s =
      OnTurn-if (IsSettled pw) (wants s.bitfield pw.index) _ _
        (on_result_lem (IsSettled pw) false pw (record s { misses = 0 })
          (download_piece sha1 pw link.pool s.incoming link.room) (verified link pw s.incoming)
          refl)
        (OnTurn-if (IsSettled pw) (leb max_misses (s.misses + 1)) _ _ refl refl)

  -- Whatever the peer sends: for a piece of the endgame a worker delivers data with its size and
  -- digest, or nothing; it puts nothing back.
  pub session_round-IsRaced :
      (link : Link) (pw : PieceWork) (s : Session)
      → OnTurn (IsRaced pw) (session_round sha1 link (race (some pw)) s)
  unfolding session_round
  session_round-IsRaced link pw s =
      on_result_lem (IsRaced pw) true pw s (download_piece sha1 pw link.pool s.incoming link.room)
        (verified link pw s.incoming) tt

  -- Whatever the peer sends before it stops, the loop over its first messages ends within the fuel
  -- that it is given.
  pub run_peer_session-ne-out_of_fuel :
      (info : Info) (can_send : Bool) (incoming : Bytes) (sights : List (Link × Sight))
      → run_peer_session sha1 info can_send incoming sights ≢ err out_of_fuel
  unfolding run_peer_session
  run_peer_session-ne-out_of_fuel info can_send incoming sights e = Ensures-err ends e refl
    where
      ends : Ensures (λ _. Unit {0}) IsReal (run_peer_session sha1 info can_send incoming sights)
      ends = Ensures->>= (Ensures-guard can_send not_sent (λ e. cc)) λ _ _.
          Ensures->>=
            (read_initial-Ensures (suc (length incoming)) info none incoming (omega arith))
            λ (bf, rest) _. holds tt
