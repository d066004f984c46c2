-- ===== src/Torrent/Coordinator/Stored.antt =====
-- The files after a download that succeeds.
use native.Mathlib.Nat.{div-lt_iff_lt-mul}
use amish.Base.{
  ℕ, ◌-◌, ◌*◌, ◌/◌, ◌<◌, ◌≡◌, sym, ap, subst, ◌∙◌, Bool, true, false, ◌&&◌, not, Option, none, some,
  List, [], ◌∷◌, Bytes, leb, ltb, if◌then◌else◌, length, drop, get_or, min, map, arith, All,
  Bool-cases, inl, inr, Result, ok, err, panic, length-take, length-drop,
}
use amish.Metainfo.{Info, num_pieces, piece_size}
use amish.Metainfo.Sizes.{piece_size-min}
use amish.Torrent.Endgame.{contains, endgame_threshold}
use amish.Torrent.Writer
use amish.Torrent.Writer.{System, Writer, write_piece}
use amish.Torrent.Writer.Layout.{Extent, entry_of}
use amish.Torrent.Writer.Plan.{Works}
use amish.Torrent.Writer.Flat.{byte_at, write_piece_lem}
use amish.Torrent.Writer.Kept.{write_piece-Keeps}
use amish.Torrent.Coordinator.{
  Event, arrive, take_work, put_back, pick, Download, Outcome, succeeded, all_failed, crashed,
  write_error, Signal, go_on, return_with, transition_to_endgame, after_write, written, mark,
  accept, handle_result, step, collect, begin, download_pieces,
}
use amish.Torrent.Coordinator.Laws.{IsIndexed, download_pieces_sound}
use amish.Torrent.Coordinator.Content.{
  IsTorrent, piece_of, Matches, IsGenuine, IsStored, starts_within, byte_after,
}

module _ (sys : System) (works : Works sys) (info : Info) (es : List Extent) (p : ℕ)
    (content : Bytes) (t : IsTorrent info es p content) where
  -- After a piece is written, its bytes are on the disk, too.
  write_piece-IsStored :
      (i : ℕ) (is : List ℕ) (w : Writer)
      → IsStored info es p content is w
      → i < num_pieces info
      → IsStored info es p content (i ∷ is) (write_piece sys i (piece_of content p i) w).1
  write_piece-IsStored i is w h lt =
      let len = length content in
      let n = min p (len - i * p) in
      let lo = starts_within (num_pieces info) p i len t.needed lt in
      let size = piece_size-min info len p i t.whole t.in_pieces t.fits (omega arith) in
      let (a, b, c) = write_piece-Keeps sys i (piece_of content p i) w in
      let step = λ (g : ℕ) (g_lt : g < len).
        write_piece_lem sys w es i p n (piece_of content p i) g works h.usable h.same_files
          t.distinct (ap (λ f. f.piece_length) h.same_info ∙ t.in_pieces)
          (ap (λ f. piece_size f i) h.same_info ∙ size)
          (omega (arith, length-take p (drop (i * p) content), length-drop (i * p) content))
          (omega (arith, t.in_files)) (omega (arith, t.in_files, t.fits))
          (omega (arith, t.in_files, g_lt)) in
      record {
        stored = λ g g_lt there.
            (step g g_lt).1
            ∙ byte_after content p i is (byte_at w.disk es g) g t.positive g_lt there
                (h.stored g g_lt);
        same_info = a ∙ h.same_info;
        same_files = b ∙ h.same_files;
        usable = c ∙ h.usable;
      }

  -- It is written without an error.
  write_piece_ok :
      (i : ℕ) (is : List ℕ) (w : Writer)
      → IsStored info es p content is w
      → i < num_pieces info
      → (write_piece sys i (piece_of content p i) w).0 ≡ ok tt
  write_piece_ok i is w h lt =
      let len = length content in
      let n = min p (len - i * p) in
      let lo = starts_within (num_pieces info) p i len t.needed lt in
      let size = piece_size-min info len p i t.whole t.in_pieces t.fits (omega arith) in
      (write_piece_lem sys w es i p n (piece_of content p i) (i * p) works h.usable h.same_files
        t.distinct (ap (λ f. f.piece_length) h.same_info ∙ t.in_pieces)
        (ap (λ f. piece_size f i) h.same_info ∙ size)
        (omega (arith, length-take p (drop (i * p) content), length-drop (i * p) content))
        (omega (arith, t.in_files)) (omega (arith, t.in_files, t.fits))
        (omega (arith, t.in_files, lo))).0

  abbrev pub Holds : Outcome → Download → Type 0
  Holds succeeded st = IsStored info es p content st.completed st.writer
  Holds all_failed st = Unit {0}
  Holds crashed st = ⊥
  Holds (write_error e) st = ⊥

  abbrev HoldsAfter : Signal × Download → Type 0
  HoldsAfter (go_on, st) = IsStored info es p content st.completed st.writer
  HoldsAfter (return_with o, st) = Holds o st

  HoldsAfter-if :
      (b : Bool) (x y : Signal × Download)
      → HoldsAfter x
      → HoldsAfter y
      → HoldsAfter (if b then x else y)
  HoldsAfter-if true x y hx hy = hx
  HoldsAfter-if false x y hx hy = hy

  after_write-HoldsAfter :
      (st : Download)
      → IsStored info es p content st.completed st.writer
      → HoldsAfter (after_write info st)
  unfolding after_write transition_to_endgame
  after_write-HoldsAfter st h = HoldsAfter-if (leb (num_pieces info) st.done) _ _ h (
      HoldsAfter-if (leb (num_pieces info - st.done) endgame_threshold && not st.endgame.active) _ _
        h h)

  written-HoldsAfter :
      (i : ℕ) (st : Download) (x : Result Writer.Error (Unit {0}) × Writer)
      → IsStored info es p content (i ∷ st.completed) x.1
      → x.0 ≡ ok tt
      → HoldsAfter (written info (mark i st) x)
  written-HoldsAfter i st (ok u, w) h e = after_write-HoldsAfter _ h
  written-HoldsAfter i st (err x, w) h e = absurd (cc)
  written-HoldsAfter i st (panic, w) h e = absurd (cc)

  accept-HoldsAfter :
      (i : ℕ) (piece : Option Bytes) (st : Download)
      → IsStored info es p content st.completed st.writer
      → i < num_pieces info
      → Matches content p i piece
      → HoldsAfter (accept sys info i piece st)
  accept-HoldsAfter i none st h lt same = h
  accept-HoldsAfter i (some b) st h lt same = elim (Bool-cases (contains st.completed i)) [
    | inl old ↦ rw old h
    | inr new ↦ rw new (
        written-HoldsAfter i st (write_piece sys i b st.writer)
          (subst
            (λ b. IsStored info es p content (i ∷ st.completed) (write_piece sys i b st.writer).1)
            (sym same) (write_piece-IsStored i st.completed st.writer h lt))
          (ap (λ b. (write_piece sys i b st.writer).0) same
            ∙ write_piece_ok i st.completed st.writer h lt))
  ]

  step-HoldsAfter :
      (e : Event) (st : Download)
      → IsStored info es p content st.completed st.writer
      → IsGenuine info content p e
      → HoldsAfter (step sys info e st)
  unfolding step handle_result
  step-HoldsAfter (arrive r) st h (lt, same) = accept-HoldsAfter r.index r.piece st h lt same
  step-HoldsAfter take_work st h i = h
  step-HoldsAfter (put_back pw) st h i = h
  step-HoldsAfter (pick has_piece) st h i = h

  abbrev HoldsFinally : Outcome × Download → Type 0
  HoldsFinally (o, st) = Holds o st

  pub collect-HoldsFinally :
      (events : List Event) (st : Download)
      → IsStored info es p content st.completed st.writer
      → All (IsGenuine info content p) events
      → HoldsFinally (collect sys info events st)
  unfolding collect
  collect-HoldsFinally [] st h i = elim (Bool-cases (ltb st.done (num_pieces info))) [
    | inl few ↦ rw few tt
    | inr all ↦ rw all h
  ]
  collect-HoldsFinally (e ∷ events) st h (i, is) =
      next (step sys info e st) (collect sys info events (step sys info e st).1)
        (step-HoldsAfter e st h i) (λ go. collect-HoldsFinally events (step sys info e st).1 go is)
    where
      next :
          (x : Signal × Download) (rest : Outcome × Download)
          → HoldsAfter x
          → (IsStored info es p content x.1.completed x.1.writer → HoldsFinally rest)
          → HoldsFinally (elim x.0 [ go_on ↦ rest | return_with o ↦ (o, x.1) ])
      next (go_on, st') rest h more = more h
      next (return_with o, st') rest h more = h

All-IsIndexed :
    (info : Info) (content : Bytes) (p : ℕ) (events : List Event)
    → All (IsGenuine info content p) events
    → All (IsIndexed info) events
All-IsIndexed info content p [] h = tt
All-IsIndexed info content p (arrive r ∷ events) ((lt, same), h) =
    (lt, All-IsIndexed info content p events h)
All-IsIndexed info content p (take_work ∷ events) (i, h) =
    (tt, All-IsIndexed info content p events h)
All-IsIndexed info content p (put_back pw ∷ events) (i, h) =
    (tt, All-IsIndexed info content p events h)
All-IsIndexed info content p (pick has_piece ∷ events) (i, h) =
    (tt, All-IsIndexed info content p events h)

empty : (j : ℕ) → contains [] j ≡ true → ⊥
unfolding contains
empty j h = ground arith

pub none-IsStored :
    (info : Info) (es : List Extent) (p : ℕ) (content : Bytes) (w : Writer)
    → w.info ≡ info
    → w.files ≡ map entry_of es
    → w.closed ≡ false
    → IsStored info es p content [] w
none-IsStored info es p content w same_info same_files usable = record {
  stored = λ k k_lt there. absurd (empty (k / p) there);
  same_info = same_info;
  same_files = same_files;
  usable = usable;
}

-- The metadata describes a content: its length, below 2^63, in pieces of `p` bytes that reach the end
-- and no further, and in files of different paths. If no call of the system fails, the writer
-- starts open on these files, and every result that arrives without an error is the piece of its
-- index, then after a download that succeeds, in whatever order the workers did what they did, each
-- byte of the content stands in its file at its place, where a byte that a file does not have
-- counts as zero. Of what a file holds behind the size that the metadata gives it, nothing is said.
pub download_pieces_stored :
    (sys : System) (info : Info) (es : List Extent) (p : ℕ) (content : Bytes) (events : List Event)
    (w : Writer) (st : Download) (g : ℕ)
    → Works sys
    → IsTorrent info es p content
    → w.info ≡ info
    → w.files ≡ map entry_of es
    → w.closed ≡ false
    → All (IsGenuine info content p) events
    → download_pieces sys info events w ≡ (succeeded, st)
    → g < length content
    → byte_at st.writer.disk es g ≡ get_or content g 0
unfolding download_pieces
download_pieces_stored sys info es p content events w st g works t same_info same_files usable
      genuine e lt =
    let none_yet = none-IsStored info es p content w same_info same_files usable in
    let h : IsStored info es p content st.completed st.writer =
      subst (λ (o, s). Holds sys works info es p content t o s) e
        (collect-HoldsFinally sys works info es p content t events (begin info w) none_yet
          genuine) in
    let all =
      download_pieces_sound sys info events w st (g / p)
        (All-IsIndexed info content p events genuine) e
        ((div-lt_iff_lt-mul {k = p} {x = g} {y = num_pieces info} t.positive).1
          (omega (arith, t.enough, lt))) in
    h.stored g lt all.0
