-- ===== src/Torrent/Swarm/Laws.antt =====
-- In every state that the workers and the coordinator reach, no piece is lost.
use amish.Base.{
  ℕ, zero, suc, ◌≡◌, refl, sym, ap, ◌∙◌, subst, Bool, true, false, Option, some, List, [], ◌∷◌,
  ◌++◌, Bytes, ltb, ◌==◌, if◌then◌else◌, length, drop, arith, Bool-cases, inl, inr,
}
use amish.Metainfo.{Info, num_pieces}
use amish.Torrent.Endgame.{PieceWork, new_endgame_tracker, pick_piece}
use amish.Torrent.Endgame.Counts.{count, count-append}
use amish.Torrent.Writer.{System, Writer}
use amish.Torrent.Coordinator.{
  Event, arrive, Download, fill_queue, work_of, handle_result, begin, step,
}
use amish.Torrent.Coordinator.Counting.{occurrences}
use amish.Torrent.Session.{
  wants, work, race, Deed, give_back, deliver, Turn, crashes, returns, continues, session_round,
  event_of,
}
use amish.Torrent.Session.Sound.{
  OnTurn, IsSettled, IsRaced, session_round-IsSettled, session_round-IsRaced,
}
use amish.Torrent.Swarm.{deed_of, Swarm, Move, receives, picks, settles, finishes, Run, start, next}
use amish.Torrent.Swarm.Conserved.{IsConserved, OnGo, Stays, count-nil, count-cons, count-middle}
use amish.Torrent.Swarm.Marked.{accept-IsConserved}

count-fill_queue :
    (info : Info) (j n : ℕ) → count j (fill_queue info n) ≡ (if ltb j n then 1 else 0)
unfolding fill_queue
count-fill_queue info j zero = ground (arith, count-nil j)
count-fill_queue info j (suc n) = ground (
  arith,
  count-append j (fill_queue info n) (work_of info n ∷ []),
  count-fill_queue info j n,
  one,
)
  where
    one : count j (work_of info n ∷ []) ≡ (if n == j then 1 else 0)
    one = unfold count work_of in omega arith

begin-IsConserved : (info : Info) (w : Writer) → IsConserved info (begin info w) [] []
unfolding new_endgame_tracker
begin-IsConserved info w = record {
  together = refl;
  once = λ j. unfold occurrences in omega arith;
  before = λ _. (
    refl,
    refl,
    refl,
    λ j lt.
        unfold occurrences in
        ground (arith, count-fill_queue info j (num_pieces info), count-nil j, lt),
  );
  after = λ a. absurd (differ a);
}
  where
    differ : false ≡ true → ⊥
    differ e = cc

receive-IsConserved :
    (info : Info) (st : Download) (held racing rest : List PieceWork) (pw : PieceWork)
    → IsConserved info st held racing
    → st.work ≡ pw ∷ rest
    → IsConserved info (record st { work = drop 1 st.work }) (pw ∷ held) racing
receive-IsConserved info st held racing rest pw h e = record {
  together = h.together;
  once = h.once;
  before = λ a.
      let (none_racing, no_pieces, none_yet, counts) = h.before a in
      (
        none_racing,
        no_pieces,
        none_yet,
        λ j lt. omega (
          arith,
          counts j lt,
          ap (count j) e,
          ap (λ ps. count j (drop 1 ps)) e,
          count-cons j pw rest,
          count-cons j pw held,
        ),
      );
  after = h.after;
}

put_back-IsConserved :
    (info : Info) (st : Download) (xs ys racing : List PieceWork) (pw : PieceWork)
    → IsConserved info st (xs ++ pw ∷ ys) racing
    → IsConserved info (record st { work = st.work ++ pw ∷ [] }) (xs ++ ys) racing
put_back-IsConserved info st xs ys racing pw h = record {
  together = h.together;
  once = h.once;
  before = λ a.
      let (none_racing, no_pieces, none_yet, counts) = h.before a in
      (
        none_racing,
        no_pieces,
        none_yet,
        λ j lt. omega (
          arith,
          counts j lt,
          count-append j st.work (pw ∷ []),
          count-cons j pw [],
          count-nil j,
          count-middle j xs pw ys,
        ),
      );
  after = h.after;
}

-- `PickPiece` changes the offset only.
pick-IsConserved :
    (info : Info) (st : Download) (held racing racing' : List PieceWork) (has_piece : ℕ → Bool)
    → IsConserved info st held racing
    → st.in_endgame ≡ true
    → IsConserved info (record st { endgame = (pick_piece has_piece st.endgame).1 }) held racing'
unfolding pick_piece
pick-IsConserved info st held racing racing' has_piece h on =
    elim (Bool-cases (length st.endgame.pieces == 0)) [
      | inl e ↦ rw e (record {
        together = h.together;
        once = h.once;
        before = λ a. absurd (differ (sym h.together ∙ on) a);
        after = h.after;
      })
      | inr e ↦ rw e (record {
        together = h.together;
        once = h.once;
        before = λ a. absurd (differ (sym h.together ∙ on) a);
        after = h.after;
      })
    ]
  where
    differ : st.endgame.active ≡ true → st.endgame.active ≡ false → ⊥
    differ a b = cc

pub OnTurn-deed :
    (P : Option Deed → Type 0) (t : Turn) (d : Deed) → OnTurn P t → deed_of t ≡ some d → P (some d)
OnTurn-deed P crashes d h e = absurd (cc)
OnTurn-deed P (returns o) d h e = subst P e h
OnTurn-deed P (continues o s) d h e = subst P e h

module _ (sha1 : Bytes → Bytes) (sys : System) (info : Info) where
  settle-IsConserved :
      (st : Download) (xs ys racing : List PieceWork) (pw : PieceWork) (d : Deed)
      → IsConserved info st (xs ++ pw ∷ ys) racing
      → IsSettled sha1 pw (some d)
      → OnGo (Stays info (xs ++ ys) racing) (step sys info (event_of d) st)
  unfolding step handle_result
  settle-IsConserved st xs ys racing pw (give_back pw') h same =
      subst (λ p. IsConserved info (record st { work = st.work ++ p ∷ [] }) (xs ++ ys) racing)
        (sym same) (put_back-IsConserved info st xs ys racing pw h)
  settle-IsConserved st xs ys racing pw (deliver r) h (b, e, _, _) =
      subst (λ r. OnGo (Stays info (xs ++ ys) racing) (step sys info (arrive r) st)) (sym e)
        (accept-IsConserved info pw.index st (xs ++ pw ∷ ys) (xs ++ ys) racing racing h
          (λ a. ((h.before a).0, λ j. count-middle j xs pw ys)) sys b)

  finish-IsConserved :
      (st : Download) (held xs ys : List PieceWork) (pw : PieceWork) (d : Deed)
      → IsConserved info st held (xs ++ pw ∷ ys)
      → IsRaced sha1 pw (some d)
      → OnGo (Stays info held (xs ++ ys)) (step sys info (event_of d) st)
  unfolding step handle_result
  finish-IsConserved st held xs ys pw (give_back pw') h no_deed = absurd no_deed
  finish-IsConserved st held xs ys pw (deliver r) h (b, e, _, _) =
      subst (λ r. OnGo (Stays info held (xs ++ ys)) (step sys info (arrive r) st)) (sym e)
        (accept-IsConserved info pw.index st held held (xs ++ pw ∷ ys) (xs ++ ys) h
          (λ a. absurd (occupied xs (h.before a).0)) sys b)
    where
      occupied : (zs : List PieceWork) → zs ++ pw ∷ ys ≡ [] → ⊥
      occupied [] e = cc
      occupied (z ∷ zs) e = cc

  Move-IsConserved :
      (n : Swarm) (e : Event) (held racing : List PieceWork)
      → IsConserved info n.st n.held n.racing
      → Move sha1 n e held racing
      → OnGo (Stays info held racing) (step sys info e n.st)
  unfolding step
  Move-IsConserved n _ _ _ h (receives pw rest e) =
      receive-IsConserved info n.st n.held n.racing rest pw h e
  Move-IsConserved n _ _ _ h (picks bf on) =
      pick-IsConserved info n.st n.held n.racing _ (wants bf) h on
  Move-IsConserved n _ _ _ h (settles xs ys pw link s d e runs) =
      settle-IsConserved n.st xs ys n.racing pw d
        (subst (λ ps. IsConserved info n.st ps n.racing) e h)
        (OnTurn-deed (IsSettled sha1 pw) (session_round sha1 link (work pw) s) d
          (session_round-IsSettled sha1 link pw s) runs)
  Move-IsConserved n _ _ _ h (finishes xs ys pw link s d e runs) =
      finish-IsConserved n.st n.held xs ys pw d (subst (λ ps. IsConserved info n.st n.held ps) e h)
        (OnTurn-deed (IsRaced sha1 pw) (session_round sha1 link (race (some pw)) s) d
          (session_round-IsRaced sha1 link pw s) runs)

  -- Whatever any number of workers do, in whatever order, and whatever their peers send: before the
  -- endgame each piece is in the queue, with one worker or completed, and in one of these places only;
  -- in the endgame each piece is completed or in the tracker, and once; no piece is completed twice.
  pub Run-IsConserved :
      (w : Writer) (events : List Event) (n : Swarm)
      → Run sha1 sys info w events n
      → IsConserved info n.st n.held n.racing
  Run-IsConserved w _ _ start = begin-IsConserved info w
  Run-IsConserved w _ _ (next {events} {n} {e} {held} {racing} {st} run move go) =
      subst (OnGo (Stays info held racing)) go
        (Move-IsConserved n e held racing (Run-IsConserved w events n run) move)
