-- ===== src/Torrent/Swarm/Work.antt =====
-- The pieces that go around are the torrent's, and a result without an error holds its piece.
use amish.Base.{
  ℕ, zero, suc, ◌-◌, ◌<◌, ◌≤◌, ◌≡◌, refl, sym, subst, Bool, true, false, ◌&&◌, not, some, List, [],
  ◌∷◌, ◌++◌, Bytes, leb, ◌==◌, if◌then◌else◌, length, drop, take, set, get_elem?, arith, All,
  All-append, Bool-cases, Option-cases, inl, inr, Result, ok, err, panic,
}
use amish.Metainfo.{Info, num_pieces}
use amish.Torrent.Endgame.{
  PieceWork, EndgameTracker, contains, activate, add_piece, pick_piece, complete, find_index,
  swap_remove, remove_piece, endgame_threshold,
}
use amish.Torrent.Endgame.Pick.{pick_piece_found}
use amish.Torrent.Writer
use amish.Torrent.Writer.{System, Writer, write_piece}
use amish.Torrent.Coordinator.{
  Download, fill_queue, work_of, add_missing, mark, transition_to_endgame, after_write, written,
  accept,
}
use amish.Torrent.Swarm.{add_picked}
use amish.Torrent.Swarm.Conserved.{OnGo, OnGo-if}

module _ (P : PieceWork → Type 0) where
  All-get_elem? :
      (ps : List PieceWork) (i : ℕ) (pw : PieceWork) → All P ps → get_elem? ps i ≡ some pw → P pw
  All-get_elem? [] i pw h e = absurd (cc)
  All-get_elem? (q ∷ ps) zero pw (hq, h) e = subst P (cc) hq
  All-get_elem? (q ∷ ps) (suc i) pw (hq, h) e = All-get_elem? ps i pw h e

  All-set : (ps : List PieceWork) (i : ℕ) (pw : PieceWork) → All P ps → P pw → All P (set ps i pw)
  All-set [] i pw h hp = tt
  All-set (q ∷ ps) zero pw (hq, h) hp = (hp, h)
  All-set (q ∷ ps) (suc i) pw (hq, h) hp = (hq, All-set ps i pw h hp)

  All-take : (n : ℕ) (ps : List PieceWork) → All P ps → All P (take n ps)
  All-take zero ps h = tt
  All-take (suc n) [] h = tt
  All-take (suc n) (q ∷ ps) (hq, h) = (hq, All-take n ps h)

  pub All-drop_one : (ps : List PieceWork) → All P ps → All P (drop 1 ps)
  All-drop_one [] h = tt
  All-drop_one (q ∷ ps) (hq, h) = h

  pub All-middle :
      (xs : List PieceWork) (pw : PieceWork) (ys : List PieceWork)
      → All P (xs ++ pw ∷ ys)
      → P pw × All P (xs ++ ys)
  All-middle [] pw ys h = h
  All-middle (x ∷ xs) pw ys (hx, h) = let (hp, rest) = All-middle xs pw ys h in (hp, (hx, rest))

  swap_remove-All : (i : ℕ) (ps : List PieceWork) → All P ps → All P (swap_remove i ps)
  unfolding swap_remove
  swap_remove-All i ps h = elim (Option-cases (get_elem? ps (length ps - 1))) [
    | inl e ↦ rw (e, swap_remove) h
    | inr (last, e) ↦
        rw (e, swap_remove)
          (All-take (length ps - 1) (set ps i last)
            (All-set ps i last h (All-get_elem? ps (length ps - 1) last h e)))
  ]

  remove_piece-All : (index : ℕ) (ps : List PieceWork) → All P ps → All P (remove_piece index ps)
  unfolding remove_piece
  remove_piece-All index ps h = elim (Option-cases (find_index index ps)) [
    | inl e ↦ rw (e, remove_piece) h
    | inr (i, e) ↦ rw (e, remove_piece) (swap_remove-All i ps h)
  ]

  add_piece-All :
      (pw : PieceWork) (e : EndgameTracker) → P pw → All P e.pieces → All P (add_piece pw e).pieces
  unfolding add_piece
  add_piece-All pw e hp h = elim (Bool-cases (contains e.completed pw.index)) [
    | inl old ↦ rw old h
    | inr new ↦ rw new (All-append P e.pieces (pw ∷ []) h (hp, tt))
  ]

  complete-All :
      (index : ℕ) (e : EndgameTracker) → All P e.pieces → All P (complete index e).1.pieces
  unfolding complete
  complete-All index e h = elim (Bool-cases (contains e.completed index)) [
    | inl old ↦ rw old h
    | inr new ↦ rw new (remove_piece-All index e.pieces h)
  ]

  pub pick_piece-All :
      (has_piece : ℕ → Bool) (e : EndgameTracker)
      → All P e.pieces
      → All P (pick_piece has_piece e).1.pieces
  unfolding pick_piece
  pick_piece-All has_piece e h = elim (Bool-cases (length e.pieces == 0)) [
    | inl empty ↦ rw empty h
    | inr some_left ↦ rw some_left h
  ]

  pub picked-All :
      (has_piece : ℕ → Bool) (e : EndgameTracker) (ps : List PieceWork)
      → All P e.pieces
      → All P ps
      → All P (add_picked (pick_piece has_piece e).0 ps)
  picked-All has_piece e ps h hs = elim (Option-cases (pick_piece has_piece e).0) [
    | inl none_found ↦ subst (λ o. All P (add_picked o ps)) (sym none_found) hs
    | inr (pw, found) ↦
        let (k, there, _) = pick_piece_found has_piece e pw found in
        subst (λ o. All P (add_picked o ps)) (sym found) (All-get_elem? e.pieces k pw h there, hs)
  ]

-- A piece of the torrent, as the coordinator describes it.
abbrev pub IsWork : Info → PieceWork → Type 0
IsWork info pw = (pw.index < num_pieces info) × (pw ≡ work_of info pw.index)

-- The pieces that the shared state has.
abbrev pub HasWork : Info → Download → Type 0
HasWork info st = All (IsWork info) st.work × All (IsWork info) st.endgame.pieces

work_of-IsWork : (info : Info) (n : ℕ) → n < num_pieces info → IsWork info (work_of info n)
work_of-IsWork info n lt = unfold work_of in (lt, refl)

pub fill_queue-IsWork :
    (info : Info) (n : ℕ) → n ≤ num_pieces info → All (IsWork info) (fill_queue info n)
unfolding fill_queue
fill_queue-IsWork info zero le = tt
fill_queue-IsWork info (suc n) le =
    All-append (IsWork info) (fill_queue info n) (work_of info n ∷ [])
      (fill_queue-IsWork info n (omega arith)) (work_of-IsWork info n (omega arith), tt)

add_missing-IsWork :
    (info : Info) (completed : List ℕ) (n : ℕ) (e : EndgameTracker)
    → n ≤ num_pieces info
    → All (IsWork info) e.pieces
    → All (IsWork info) (add_missing info completed n e).pieces
unfolding add_missing
add_missing-IsWork info completed zero e le h = h
add_missing-IsWork info completed (suc n) e le h =
    let e' = add_missing info completed n e in
    let ih = add_missing-IsWork info completed n e (omega arith) h in
    elim (Bool-cases (contains completed n)) [
      | inl old ↦ rw old ih
      | inr new ↦
          rw new (add_piece-All (IsWork info) (work_of info n) e' (work_of-IsWork info n le) ih)
    ]

module _ (info : Info) where
  transition-HasWork :
      (st : Download) → HasWork info st → HasWork info (transition_to_endgame info st)
  unfolding transition_to_endgame activate
  transition-HasWork st (hw, he) =
      (tt, add_missing-IsWork info st.completed (num_pieces info) st.endgame (omega arith) he)

  after_write-HasWork :
      (st : Download) → HasWork info st → OnGo (HasWork info) (after_write info st)
  unfolding after_write
  after_write-HasWork st h =
      OnGo-if (HasWork info) (leb (num_pieces info) st.done) _ _ (λ _. tt)
        λ _.
          OnGo-if (HasWork info)
            (leb (num_pieces info - st.done) endgame_threshold && not st.endgame.active) _ _
            (λ _. transition-HasWork st h) (λ _. h)

  written-HasWork :
      (i : ℕ) (st : Download) (x : Result Writer.Error (Unit {0}) × Writer)
      → HasWork info st
      → OnGo (HasWork info) (written info (mark i st) x)
  written-HasWork i st (ok u, w) (hw, he) = after_write-HasWork _ (hw, branch st.endgame.active)
    where
      branch :
          (b : Bool)
          → All (IsWork info) (if b then (complete i st.endgame).1 else st.endgame).pieces
      branch true = complete-All (IsWork info) i st.endgame he
      branch false = he
  written-HasWork i st (err e, w) h = tt
  written-HasWork i st (panic, w) h = tt

  pub accept-HasWork :
      (sys : System) (i : ℕ) (b : Bytes) (st : Download)
      → HasWork info st
      → OnGo (HasWork info) (accept sys info i (some b) st)
  accept-HasWork sys i b st h = elim (Bool-cases (contains st.completed i)) [
    | inl old ↦ rw old h
    | inr new ↦ rw new (written-HasWork i st (write_piece sys i b st.writer) h)
  ]
