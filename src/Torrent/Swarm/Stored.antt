-- ===== src/Torrent/Swarm/Stored.antt =====
-- The whole download: workers, coordinator and writer together.
use amish.Base.{
  ℕ, ◌<◌, ◌≡◌, refl, sym, ap, ◌∙◌, subst, some, List, [], ◌∷◌, ◌++◌, Bytes, append_assoc, length,
  get_or, map, All, All-append, false, arith,
}
use amish.Base.Int.{pos}
use amish.Metainfo.{Info, num_pieces, piece_size}
use amish.Torrent.Endgame.{PieceWork, new_endgame_tracker}
use amish.Torrent.Writer.{System, Writer}
use amish.Torrent.Writer.Layout.{Extent, entry_of}
use amish.Torrent.Writer.Plan.{Works}
use amish.Torrent.Writer.Flat.{byte_at}
use amish.Torrent.Coordinator.{
  Event, arrive, Download, succeeded, Signal, go_on, return_with, work_of, handle_result, begin,
  step, collect, download_pieces,
}
use amish.Torrent.Coordinator.Content.{IsTorrent, IsGenuine, piece_of}
use amish.Torrent.Coordinator.Stored.{download_pieces_stored}
use amish.Torrent.Session.{wants, work, race, Deed, give_back, deliver, session_round, event_of}
use amish.Torrent.Session.Sound.{IsSettled, IsRaced, session_round-IsSettled, session_round-IsRaced}
use amish.Torrent.Swarm.{Swarm, Move, receives, picks, settles, finishes, Run, start, next}
use amish.Torrent.Swarm.Conserved.{OnGo}
use amish.Torrent.Swarm.Laws.{OnTurn-deed}
use amish.Torrent.Swarm.Work.{
  IsWork, HasWork, All-drop_one, All-middle, picked-All, pick_piece-All, fill_queue-IsWork,
  accept-HasWork,
}

-- No other bytes of its length have the digest that the metadata names for a piece.
abbrev pub AreDigests : (Bytes → Bytes) → Info → ℕ → Bytes → Type 0
AreDigests sha1 info p content =
    (i : ℕ) (b : Bytes)
    → i < num_pieces info
    → sha1 b ≡ get_or info.pieces i []
    → piece_size info i ≡ pos (length b)
    → b ≡ piece_of content p i

module _ (sha1 : Bytes → Bytes) (sys : System) (info : Info) (p : ℕ) (content : Bytes)
    (digests : AreDigests sha1 info p content) where
  verified-IsGenuine :
      (pw : PieceWork) (b : Bytes)
      → IsWork info pw
      → sha1 b ≡ pw.hash
      → pw.size ≡ pos (length b)
      → IsGenuine info content p (arrive (record { index = pw.index; piece = some b }))
  unfolding work_of
  verified-IsGenuine pw b (lt, same) digest size = (
    lt,
    digests pw.index b lt (digest ∙ ap (λ q. q.hash) same) (sym (ap (λ q. q.size) same) ∙ size),
  )

  -- What a move adds: an event that is genuine, and pieces of the torrent.
  abbrev Good : Event → List PieceWork → List PieceWork → Download → Type 0
  Good e held racing st =
      IsGenuine info content p e
      × All (IsWork info) held
      × All (IsWork info) racing
      × OnGo (HasWork info) (step sys info e st)

  abbrev HasAll : Swarm → Type 0
  HasAll n = HasWork info n.st × All (IsWork info) n.held × All (IsWork info) n.racing

  deliver-Good :
      (pw : PieceWork) (b : Bytes) (held racing : List PieceWork) (st : Download)
      → IsWork info pw
      → sha1 b ≡ pw.hash
      → pw.size ≡ pos (length b)
      → HasWork info st
      → All (IsWork info) held
      → All (IsWork info) racing
      → Good (arrive (record { index = pw.index; piece = some b })) held racing st
  unfolding step handle_result
  deliver-Good pw b held racing st w digest size h hh hr =
      (verified-IsGenuine pw b w digest size, hh, hr, accept-HasWork info sys pw.index b st h)

  settle-Good :
      (pw : PieceWork) (d : Deed) (held racing : List PieceWork) (st : Download)
      → IsWork info pw
      → IsSettled sha1 pw (some d)
      → HasWork info st
      → All (IsWork info) held
      → All (IsWork info) racing
      → Good (event_of d) held racing st
  unfolding step
  settle-Good pw (give_back pw') held racing st w same (hw, he) hh hr = (
    tt,
    hh,
    hr,
    (All-append (IsWork info) st.work (pw' ∷ []) hw (subst (IsWork info) (sym same) w, tt), he),
  )
  settle-Good pw (deliver r) held racing st w (b, e, digest, size) h hh hr =
      subst (λ r. Good (arrive r) held racing st) (sym e)
        (deliver-Good pw b held racing st w digest size h hh hr)

  finish-Good :
      (pw : PieceWork) (d : Deed) (held racing : List PieceWork) (st : Download)
      → IsWork info pw
      → IsRaced sha1 pw (some d)
      → HasWork info st
      → All (IsWork info) held
      → All (IsWork info) racing
      → Good (event_of d) held racing st
  finish-Good pw (give_back pw') held racing st w no_deed h hh hr = absurd no_deed
  finish-Good pw (deliver r) held racing st w (b, e, digest, size) h hh hr =
      subst (λ r. Good (arrive r) held racing st) (sym e)
        (deliver-Good pw b held racing st w digest size h hh hr)

  Move-Good :
      (n : Swarm) (e : Event) (held racing : List PieceWork)
      → HasAll n
      → Move sha1 n e held racing
      → Good e held racing n.st
  unfolding step
  Move-Good n _ _ _ ((hw, he), hh, hr) (receives pw rest e) =
      let (hp, hrest) : All (IsWork info) (pw ∷ rest) = subst (All (IsWork info)) e hw in
      (tt, (hp, hh), hr, (All-drop_one (IsWork info) n.st.work hw, he))
  Move-Good n _ _ _ ((hw, he), hh, hr) (picks bf on) = (
    tt,
    hh,
    picked-All (IsWork info) (wants bf) n.st.endgame n.racing he hr,
    (hw, pick_piece-All (IsWork info) (wants bf) n.st.endgame he),
  )
  Move-Good n _ _ _ (h, hh, hr) (settles xs ys pw link s d e runs) =
      let (hp, rest) = All-middle (IsWork info) xs pw ys (subst (All (IsWork info)) e hh) in
      settle-Good pw d (xs ++ ys) n.racing n.st hp
        (OnTurn-deed (IsSettled sha1 pw) (session_round sha1 link (work pw) s) d
          (session_round-IsSettled sha1 link pw s) runs)
        h rest hr
  Move-Good n _ _ _ (h, hh, hr) (finishes xs ys pw link s d e runs) =
      let (hp, rest) = All-middle (IsWork info) xs pw ys (subst (All (IsWork info)) e hr) in
      finish-Good pw d n.held (xs ++ ys) n.st hp
        (OnTurn-deed (IsRaced sha1 pw) (session_round sha1 link (race (some pw)) s) d
          (session_round-IsRaced sha1 link pw s) runs)
        h hh rest

  module _ (w : Writer) where
    begin-HasAll : HasAll (record { st = begin info w; held = []; racing = [] })
    begin-HasAll = (
      (fill_queue-IsWork info (num_pieces info) (omega arith), unfold new_endgame_tracker in tt),
      tt,
      tt,
    )

    Run-Good :
        (events : List Event) (n : Swarm)
        → Run sha1 sys info w events n
        → All (IsGenuine info content p) events × HasAll n
    Run-Good _ _ start = (tt, begin-HasAll)
    Run-Good _ _ (next {events} {n} {e} {held} {racing} {st} run move go) =
        let (genuine, all) = Run-Good events n run in
        let (g, hh, hr, h) = Move-Good n e held racing all move in
        (
          All-append (IsGenuine info content p) events (e ∷ []) genuine (g, tt),
          (subst (OnGo (HasWork info)) go h, hh, hr),
        )

collect_cons :
    (sys : System) (info : Info) (e : Event) (more : List Event) (st : Download)
    (x : Signal × Download)
    → step sys info e st ≡ x
    → collect sys info (e ∷ more) st
      ≡ elim x.0 [ go_on ↦ collect sys info more x.1 | return_with o ↦ (o, x.1) ]
unfolding collect
collect_cons sys info e more st x h =
    ap (λ x. elim x.0 [ go_on ↦ collect sys info more x.1 | return_with o ↦ (o, x.1) ]) h

-- What the coordinator makes of the events of a run, and of those that follow.
collect-Run :
    (sha1 : Bytes → Bytes) (sys : System) (info : Info) (w : Writer) (events more : List Event)
    (n : Swarm)
    → Run sha1 sys info w events n
    → collect sys info (events ++ more) (begin info w) ≡ collect sys info more n.st
collect-Run sha1 sys info w _ more _ start = refl
collect-Run sha1 sys info w _ more _ (next {events} {n} {e} {held} {racing} {st} run move go) =
    ap (λ es. collect sys info es (begin info w)) (append_assoc events (e ∷ []) more)
    ∙ collect-Run sha1 sys info w events (e ∷ more) n run
    ∙ collect_cons sys info e more n.st (go_on, st) go

-- The metadata describes a content: its length, below 2^63, in pieces of `p` bytes that reach the end
-- and no further, and in files of different paths; no other bytes of its length have the digest
-- that the metadata names for a piece. If no call of the system fails and the writer starts open on
-- these files, then, however many workers there are, whatever their peers send them, and in
-- whatever order the workers do what they do: when the coordinator returns with success,
-- downloadPieces has, for these events, ended with it, and each byte of the content stands in its
-- file at its place, where a byte that a file does not have counts as zero. Of what a file holds
-- behind the size that the metadata gives it, nothing is said.
pub swarm_stored :
    (sha1 : Bytes → Bytes) (sys : System) (info : Info) (es : List Extent) (p : ℕ) (content : Bytes)
    (w : Writer) (events : List Event) (n : Swarm) (e : Event) (held racing : List PieceWork)
    (st : Download) (g : ℕ)
    → Works sys
    → IsTorrent info es p content
    → AreDigests sha1 info p content
    → w.info ≡ info
    → w.files ≡ map entry_of es
    → w.closed ≡ false
    → Run sha1 sys info w events n
    → Move sha1 n e held racing
    → step sys info e n.st ≡ (return_with succeeded, st)
    → g < length content
    → (download_pieces sys info (events ++ e ∷ []) w ≡ (succeeded, st))
      × (byte_at st.writer.disk es g ≡ get_or content g 0)
unfolding download_pieces
swarm_stored sha1 sys info es p content w events n e held racing st g works t digests same_info
      same_files usable run move ends lt =
    let whole =
      collect-Run sha1 sys info w events (e ∷ []) n run
      ∙ collect_cons sys info e [] n.st (return_with succeeded, st) ends in
    let (genuine, all) = Run-Good sha1 sys info p content digests w events n run in
    let (last, _, _, _) = Move-Good sha1 sys info p content digests n e held racing all move in
    (
      whole,
      download_pieces_stored sys info es p content (events ++ e ∷ []) w st g works t same_info
          same_files usable
          (All-append (IsGenuine info content p) events (e ∷ []) genuine (last, tt)) whole lt,
    )
