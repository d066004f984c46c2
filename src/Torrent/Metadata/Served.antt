-- ===== src/Torrent/Metadata/Served.antt =====
-- What a peer that has the metadata sends, and what one of its messages changes.
use amish.Base.{
  ℕ, suc, ◌+◌, ◌-◌, ◌*◌, ◌/◌, ◌≤◌, ◌<◌, ◌≡◌, ◌≢◌, refl, sym, ap, ◌∙◌, subst, Bool, true, false,
  ◌||◌, Option, none, some, List, [], ◌∷◌, ◌++◌, Bytes, codes, ltb, ◌==◌, ==→eq, lt→ltb, length,
  take, drop, get_or, set, length-take, length-drop, length-set, Bool-cases, inl, inr, ◌⊎◌, arith,
  Result, ok, err, min,
}
use amish.Base.Int.{ℤ, pos}
use amish.Bencode
use amish.Bencode.{unexpected_eof, Fields, int64, dict, lookup}
use amish.Bencode.Encode.{encode}
use amish.Bencode.Decode.{decode_bytes}
use amish.Bencode.WellFormed.{IsEncodable}
use amish.Peer.Message.{Message, msg_extended}
use amish.Peer.Message.RoundTrip.{Fits}
use amish.Peer.Extension
use amish.Peer.Extension.{parse_metadata_piece}
use amish.Peer.Extension.Laws.{parse_metadata_piece-encode}
use amish.Torrent.Writer.Files.{covers}
use amish.Torrent.Writer.Spread.{get_or-drop, get_or-take}
use amish.Torrent.Metadata.{
  metadata_piece_size, pieces_of_size, Fetch, copy_at, take_data, handle_data, on_payload,
}
use amish.Torrent.Metadata.Buffer.{
  length-copy_at, get_or-copy_at, count_true, count_true-set, get_or-set_self, get_or-set_ne,
}

-- The bytes of one piece of the metadata.
abbrev pub piece_of : Bytes → ℕ → Bytes
piece_of raw i = take 16384 (drop (i * 16384) raw)

-- A message that is none of the extension protocol's.
abbrev pub IsChatter : Option Message → Type 0
IsChatter none = Unit {0}
IsChatter (some m) = (m.id == msg_extended) ≡ false

-- A piece is answered with a bencoded map, and the bytes of the piece behind it. Other messages may
-- stand between the answers.
pub data Reply : Type 0 where
  chatter : Option Message → Reply
  answer : ℕ → Bytes → Reply

abbrev pub message_for : Bytes → Reply → Option Message
message_for raw (chatter m) = m
message_for raw (answer i head) =
    some (record { id = msg_extended; payload = 1 ∷ (head ++ piece_of raw i) })

-- The map of an answer: it can have any further entries.
abbrev pub IsHeader : ℕ → Bytes → Type 0
IsHeader i head =
    (f : Fields) × (lookup (codes "msg_type") f ≡ some (int64 (pos 1)))
    × (lookup (codes "piece") f ≡ some (int64 (pos i)))
    × (encode (dict f) ≡ ok head)
    × IsEncodable (dict f)

abbrev pub IsReply : Bytes → Reply → Type 0
IsReply raw (chatter m) = Fits m × IsChatter m
IsReply raw (answer i head) =
    (i * 16384 < length raw) × Fits (message_for raw (answer i head)) × IsHeader i head

-- Whether a piece is among the answers.
abbrev pub answers : List Reply → ℕ → Bool
answers [] i = false
answers (chatter m ∷ rs) i = answers rs i
answers (answer j head ∷ rs) i = j == i || answers rs i

-- The bytes of the pieces that are marked are in the buffer.
pub record IsCollected (raw : Bytes) (st : Fetch) : Type 0 where
  pub sized : length st.metadata ≡ length raw
  pub flagged : length st.received ≡ pieces_of_size (length raw)
  pub counted : st.got ≡ count_true st.received
  pub copied :
      (j : ℕ)
      → j < length raw
      → get_or st.received (j / 16384) false ≡ true
      → get_or st.metadata j 0 ≡ get_or raw j 0

-- Nothing that was marked loses its mark.
abbrev Keeps : Fetch → Fetch → Type 0
Keeps st st' = (i : ℕ) → get_or st.received i false ≡ true → get_or st'.received i false ≡ true

-- What a message changes, for a piece that it may carry.
abbrev pub Collects : Bytes → Fetch → Reply → Fetch → Type 0
Collects raw st r st' =
    IsCollected raw st'
    × (st'.incoming ≡ st.incoming)
    × ((i : ℕ)
        → (get_or st.received i false ≡ true) ⊎ (answers (r ∷ []) i ≡ true)
        → get_or st'.received i false ≡ true)

length-piece_of :
    (raw : Bytes) (i : ℕ) → length (piece_of raw i) ≡ min 16384 (length raw - i * 16384)
length-piece_of raw i =
    omega (arith, length-take 16384 (drop (i * 16384) raw), length-drop (i * 16384) raw)

get_or-piece_of :
    (raw : Bytes) (i k : ℕ) → k < 16384 → get_or (piece_of raw i) k 0 ≡ get_or raw (i * 16384 + k) 0
get_or-piece_of raw i k lt =
    get_or-take 16384 (drop (i * 16384) raw) k lt ∙ get_or-drop (i * 16384) raw k

module _ (raw : Bytes) (st : Fetch) (i : ℕ) (h : IsCollected raw st) where
  abbrev taken : Fetch
  taken = record st {
    metadata = copy_at st.metadata (i * metadata_piece_size) (piece_of raw i);
    received = set st.received i true;
    got = suc st.got;
  }

  fits : i * 16384 < length raw → i * 16384 + length (piece_of raw i) ≤ length st.metadata
  fits lt = omega (arith, length-piece_of raw i, h.sized)

  taken-copied :
      i * 16384 < length raw
      → (j : ℕ) → j < length raw
      → get_or (set st.received i true) (j / 16384) false ≡ true
      → get_or taken.metadata j 0 ≡ get_or raw j 0
  taken-copied lt j below mark =
      get_or-copy_at st.metadata (i * 16384) (piece_of raw i) (fits lt) j
      ∙ elim (Bool-cases (covers (i * 16384) (length (piece_of raw i)) j)) [
        | inl c ↦
            let (from, near) =
              inside i j (length (piece_of raw i)) c (omega (arith, length-piece_of raw i)) in
            rw c
              (get_or-piece_of raw i (j - i * 16384) near ∙ ap (λ k. get_or raw k 0) (omega arith))
        | inr c ↦
            let other : i ≢ j / 16384 =
              outside i j (length raw) below (rw (length-piece_of raw i) at c) in
            rw c (h.copied j below (sym (get_or-set_ne st.received i (j / 16384) other) ∙ mark))
      ]
    where
      inside :
          (i j n : ℕ)
          → covers (i * 16384) n j ≡ true
          → n ≤ 16384
          → (i * 16384 ≤ j) × (j - i * 16384 < 16384)
      inside i j n c small = ground arith

      outside :
          (i j size : ℕ)
          → j < size
          → covers (i * 16384) (min 16384 (size - i * 16384)) j ≡ false
          → i ≢ j / 16384
      outside i j size below c e = ground arith

  taken-IsCollected :
      i * 16384 < length raw → get_or st.received i false ≡ false → IsCollected raw taken
  taken-IsCollected lt unmarked = record {
    sized = length-copy_at st.metadata (i * 16384) (piece_of raw i) (fits lt) ∙ h.sized;
    flagged = length-set st.received i true ∙ h.flagged;
    counted =
        ap suc h.counted
        ∙ sym (count_true-set st.received i (omega (arith, lt, h.flagged)) unmarked);
    copied = taken-copied lt;
  }

take_data_lem :
    (raw : Bytes) (st : Fetch) (i : ℕ) (head : Bytes)
    → IsCollected raw st
    → i * 16384 < length raw
    → Collects raw st
        (answer i head)
        (take_data (pieces_of_size (length raw)) st (pos i, piece_of raw i))
unfolding take_data
take_data_lem raw st i head h lt =
    let num = pieces_of_size (length raw) in
    let in_range : ltb i num ≡ true = lt→ltb i num (omega arith) in
    elim (Bool-cases (get_or st.received i false)) [
      | inl old ↦ rw (in_range, old) (h, refl, λ j. known j old)
      | inr new ↦ rw (in_range, new) (taken-IsCollected raw st i h lt new, refl, marks)
    ]
  where
    known :
        (j : ℕ)
        → get_or st.received i false ≡ true
        → (get_or st.received j false ≡ true) ⊎ ((i == j || false) ≡ true)
        → get_or st.received j false ≡ true
    known j old (inl m) = m
    known j old (inr e) =
        subst (λ k. get_or st.received k false ≡ true) (==→eq i j (ground (arith, e))) old

    kept :
        (j : ℕ)
        → (get_or st.received j false ≡ true) ⊎ ((i == j || false) ≡ true)
        → (i == j) ≡ false
        → get_or st.received j false ≡ true
    kept j (inl m) other = m
    kept j (inr e) other = ground (arith, e, other)

    marks :
        (j : ℕ)
        → (get_or st.received j false ≡ true) ⊎ ((i == j || false) ≡ true)
        → get_or (set st.received i true) j false ≡ true
    marks j m = elim (Bool-cases (i == j)) [
      | inl same ↦
          subst (λ k. get_or (set st.received i true) k false ≡ true) (==→eq i j same)
            (get_or-set_self st.received i (omega (arith, lt, h.flagged)))
      | inr other ↦ get_or-set_ne st.received i j (λ e. ground (arith, other, e)) ∙ kept j m other
    ]

parse_metadata_piece_nil : parse_metadata_piece [] ≡ err (Extension.bencode unexpected_eof)
unfolding parse_metadata_piece decode_bytes
parse_metadata_piece_nil = refl

-- A payload that `ParseMetadataPiece` reads has a byte.
on_payload_data :
    (num : ℕ) (st : Fetch) (body : Bytes) (r : ℤ × Bytes)
    → parse_metadata_piece body ≡ ok r
    → on_payload num st (1 ∷ body) ≡ ok (take_data num st r)
on_payload_data num st [] r e = absurd (ground (arith, e, parse_metadata_piece_nil))
on_payload_data num st (b ∷ body) r e = rw e refl

-- A message that carries no piece marks none.
marked :
    (st : Fetch) (i : ℕ)
    → (get_or st.received i false ≡ true) ⊎ (false ≡ true)
    → get_or st.received i false ≡ true
marked st i (inl m) = m
marked st i (inr e) = cc

-- A message of the peer, whatever it is.
pub handle_data_lem :
    (raw : Bytes) (st : Fetch) (r : Reply)
    → IsCollected raw st
    → IsReply raw r
    → (st' : Fetch) × (handle_data (pieces_of_size (length raw)) st (message_for raw r) ≡ ok st')
      × Collects raw st r st'
unfolding handle_data
handle_data_lem raw st (chatter none) h ok_reply = (st, refl, (h, refl, marked st))
handle_data_lem raw st (chatter (some m)) h (_, quiet) = (st, rw quiet refl, (h, refl, marked st))
handle_data_lem raw st (answer i head) h (lt, _, (f, ht, hp, enc, well)) =
    let (b, e, reads) = parse_metadata_piece-encode f (pos i) (piece_of raw i) well ht hp in
    let num = pieces_of_size (length raw) in
    (
      take_data num st (pos i, piece_of raw i),
      on_payload_data num st (head ++ piece_of raw i) (pos i, piece_of raw i)
          (ap (λ s. parse_metadata_piece (s ++ piece_of raw i)) (same enc e) ∙ reads),
      take_data_lem raw st i head h lt,
    )
  where
    same : {s t : Bytes} {v : Result Bencode.Error Bytes} → v ≡ ok s → v ≡ ok t → s ≡ t
    same p q = cc
