-- ===== src/Torrent/Coordinator/Arrived.antt =====
-- A download for which a result of every piece arrives.
use amish.Base.{
  ℕ, suc, ◌-◌, ◌≤◌, ◌<◌, ◌≡◌, ◌≢◌, refl, sym, ap, ◌∙◌, Bool, true, false, ◌&&◌, ◌||◌, not, Option,
  none, some, List, [], ◌∷◌, Bytes, leb, ltb, ◌==◌, ==→eq, if◌then◌else◌, length, arith, Bool-cases,
  inl, inr, Result, ok, err, panic,
}
use amish.Metainfo.{Info, num_pieces}
use amish.Torrent.Endgame.{contains, endgame_threshold}
use amish.Torrent.Writer
use amish.Torrent.Writer.{System, Writer, write_piece}
use amish.Torrent.Coordinator.{
  Event, arrive, take_work, put_back, pick, Download, Outcome, succeeded, all_failed, Signal, go_on,
  return_with, transition_to_endgame, after_write, written, mark, accept, handle_result, step,
  collect, begin, download_pieces,
}
use amish.Torrent.Coordinator.Counting.{covers-length}

-- An event adds its index, if it is the arrival of a result without an error.
abbrev pub with_arrival : ℕ → Option Bytes → List ℕ → List ℕ
with_arrival index none is = is
with_arrival index (some piece) is = index ∷ is

abbrev pub with_event : Event → List ℕ → List ℕ
with_event (arrive r) is = with_arrival r.index r.piece is
with_event _ is = is

-- The indices for which a result without an error arrives.
abbrev pub arrived : List Event → List ℕ
arrived [] = []
arrived (e ∷ es) = with_event e (arrived es)

-- A step that goes on has completed these indices, and counted what is completed.
abbrev Reaches : List ℕ → Signal × Download → Type 0
Reaches is (go_on, st) =
    (st.done ≡ length st.completed)
    × ((j : ℕ) → contains is j ≡ true → contains st.completed j ≡ true)
Reaches is (return_with o, st) = o ≢ all_failed

Reaches-if :
    (is : List ℕ) (b : Bool) (x y : Signal × Download)
    → Reaches is x
    → Reaches is y
    → Reaches is (if b then x else y)
Reaches-if is true x y hx hy = hx
Reaches-if is false x y hx hy = hy

module _ (info : Info) where
  after_write-Reaches :
      (st : Download) → st.done ≡ length st.completed → Reaches st.completed (after_write info st)
  unfolding after_write transition_to_endgame
  after_write-Reaches st h =
      Reaches-if st.completed (leb (num_pieces info) st.done) _ _ (λ e. cc)
        (Reaches-if st.completed
          (leb (num_pieces info - st.done) endgame_threshold && not st.endgame.active) _ _
          (h, λ j there. there) (h, λ j there. there))

  written-Reaches :
      (index : ℕ) (st : Download) (x : Result Writer.Error (Unit {0}) × Writer)
      → st.done ≡ length st.completed
      → Reaches (index ∷ st.completed) (written info (mark index st) x)
  written-Reaches index st (ok u, w) h = after_write-Reaches _ (ap suc h)
  written-Reaches index st (err e, w) h = λ e. cc
  written-Reaches index st (panic, w) h = λ e. cc

contains_again :
    (index : ℕ) (is : List ℕ)
    → contains is index ≡ true
    → (j : ℕ) → contains (index ∷ is) j ≡ true
    → contains is j ≡ true
unfolding contains
contains_again index is old j h = elim (Bool-cases (index == j)) [
  | inl same ↦ ap (contains is) (sym (==→eq index j same)) ∙ old
  | inr other ↦ ground (arith, other, h)
]

module _ (sys : System) (info : Info) where
  accept-Reaches :
      (index : ℕ) (piece : Option Bytes) (st : Download)
      → st.done ≡ length st.completed
      → Reaches (with_arrival index piece st.completed) (accept sys info index piece st)
  accept-Reaches index none st h = (h, λ j there. there)
  accept-Reaches index (some piece) st h = elim (Bool-cases (contains st.completed index)) [
    | inl old ↦ rw old (h, contains_again index st.completed old)
    | inr new ↦ rw new (written-Reaches info index st (write_piece sys index piece st.writer) h)
  ]

  step-Reaches :
      (e : Event) (st : Download)
      → st.done ≡ length st.completed
      → Reaches (with_event e st.completed) (step sys info e st)
  unfolding step handle_result
  step-Reaches (arrive r) st h = accept-Reaches r.index r.piece st h
  step-Reaches take_work st h = (h, λ j there. there)
  step-Reaches (put_back pw) st h = (h, λ j there. there)
  step-Reaches (pick has_piece) st h = (h, λ j there. there)

-- What has arrived by now, or arrives later.
arrival_moves :
    (index : ℕ) (piece : Option Bytes) (is later : List ℕ) (j : ℕ)
    → (contains is j || contains (with_arrival index piece later) j) ≡ true
    → (contains (with_arrival index piece is) j || contains later j) ≡ true
unfolding contains
arrival_moves index none is later j h = h
arrival_moves index (some piece) is later j h = ground arith

event_moves :
    (e : Event) (is later : List ℕ) (j : ℕ)
    → (contains is j || contains (with_event e later) j) ≡ true
    → (contains (with_event e is) j || contains later j) ≡ true
event_moves (arrive r) is later j h = arrival_moves r.index r.piece is later j h
event_moves take_work is later j h = h
event_moves (put_back pw) is later j h = h
event_moves (pick has_piece) is later j h = h

grown : (a b c : Bool) → (a || b) ≡ true → (a ≡ true → c ≡ true) → (c || b) ≡ true
grown true b c h more = rw (more refl) refl
grown false true true h more = refl
grown false true false h more = refl
grown false false c h more = absurd (cc)

module _ (sys : System) (info : Info) where
  -- The pieces that are completed, or whose result still arrives.
  abbrev Pending : List Event → Download → Type 0
  Pending es st =
      (j : ℕ) → j < num_pieces info → (contains st.completed j || contains (arrived es) j) ≡ true

  abbrev Ends : Outcome × Download → Type 0
  Ends (o, st) = o ≢ all_failed

  collect-Reaches :
      (es : List Event) (st : Download)
      → st.done ≡ length st.completed
      → Pending es st
      → Ends (collect sys info es st)
  unfolding collect contains
  collect-Reaches [] st h pending = settle (num_pieces info) st h many
    where
      there : (b : Bool) → (b || false) ≡ true → b ≡ true
      there true e = refl
      there false e = absurd (cc)

      many : num_pieces info ≤ length st.completed
      many =
          covers-length (num_pieces info) st.completed
            (λ j lt. there (contains st.completed j) (pending j lt))

      all_there : (k m n : ℕ) → k ≡ m → n ≤ m → ltb k n ≡ false
      all_there k m n h le = ground arith

      succeeds : (b : Bool) → b ≡ false → (if b then all_failed else succeeded) ≢ all_failed
      succeeds true e same = absurd (cc)
      succeeds false e same = cc

      settle :
          (n : ℕ) (st : Download)
          → st.done ≡ length st.completed
          → n ≤ length st.completed
          → (if ltb st.done n then all_failed else succeeded) ≢ all_failed
      settle n st h le = succeeds (ltb st.done n) (all_there st.done (length st.completed) n h le)
  collect-Reaches (e ∷ es) st h pending =
      next (step sys info e st) (collect sys info es (step sys info e st).1)
        (step-Reaches sys info e st h)
        (λ counted reaches. collect-Reaches es (step sys info e st).1 counted (λ j lt.
          grown _ _ _ (event_moves e st.completed (arrived es) j (pending j lt)) (reaches j)))
    where
      next :
          (x : Signal × Download) (rest : Outcome × Download)
          → Reaches (with_event e st.completed) x
          → (x.1.done ≡ length x.1.completed
              → ((j : ℕ)
                  → contains (with_event e st.completed) j ≡ true
                  → contains x.1.completed j ≡ true)
              → Ends rest)
          → Ends (elim x.0 [ go_on ↦ rest | return_with o ↦ (o, x.1) ])
      next (go_on, st') rest (counted, reaches) more = more counted reaches
      next (return_with o, st') rest h more = h

  -- If a result without an error arrives for every piece, in whatever order, and whatever else the
  -- workers do, the download does not end with the error that not all pieces were got: it succeeds,
  -- unless a piece cannot be written.
  pub download_pieces-arrived :
      (es : List Event) (w : Writer)
      → ((j : ℕ) → j < num_pieces info → contains (arrived es) j ≡ true)
      → (download_pieces sys info es w).0 ≢ all_failed
  unfolding download_pieces contains
  download_pieces-arrived es w all = collect-Reaches es (begin info w) refl all
