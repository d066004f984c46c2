-- ===== src/Torrent/Metadata/Complete.antt =====
-- A peer that has the metadata and answers every request: it is fetched.
use amish.Base.{
  ℕ, zero, suc, ◌-◌, ◌/◌, ◌%◌, ◌^◌, ◌≤◌, ◌<◌, ◌≡◌, ◌≢◌, refl, sym, ap, ◌∙◌, Bool, true, false,
  Option, none, some, List, [], ◌∷◌, ◌++◌, Bytes, ltb, ◌==◌, ne→==, ge→ltb, length, get_or,
  replicate, length-replicate, length-append, append_assoc, Bool-cases, inl, inr, ◌⊎◌, arith, ok,
  All, map_err,
}
use amish.Base.Int.{ℤ, pos, to_word}
use amish.Bencode.{max_alloc, dict}
use amish.Bencode.RoundTrip.Values.{decode_bytes-encode}
use amish.Peer.Message.{Message, read_message, write_message, msg_extended}
use amish.Peer.Message.RoundTrip.{Fits, read_message-write_message}
use amish.Peer.Extension.{
  Extensions, ut_metadata, get_id, handle_extension_handshake, request_metadata_piece,
}
use amish.Peer.Extension.Laws.{request_fields, request-IsEncodable}
use amish.Metainfo.Parse.{parse}
use amish.Torrent.Metadata.{
  metainfo, pieces_of_size, handle_hello, wait_for_handshake, request_pieces, Fetch, collect_pieces,
  handle_data, new_fetch, fetch_sized, read_metadata_from_peer,
}
use amish.Torrent.Metadata.Buffer.{
  get_or_ext, count_true-replicate, count_true_full, count_true_every,
}
use amish.Torrent.Metadata.Served.{
  Reply, IsReply, IsChatter, IsCollected, answers, message_for, handle_data_lem, chatter, answer,
}

-- The bytes of a sequence of messages.
abbrev pub write_all : List (Option Message) → Bytes
write_all [] = []
write_all (m ∷ ms) = write_message m ++ write_all ms

abbrev pub write_replies : Bytes → List Reply → Bytes
write_replies raw [] = []
write_replies raw (r ∷ rs) = write_message (message_for raw r) ++ write_replies raw rs

-- Messages that may come before the handshake.
abbrev pub IsQuiet : Option Message → Type 0
IsQuiet m = Fits m × IsChatter m

abbrev pub hello_message : Bytes → Option Message
hello_message hello = some (record { id = msg_extended; payload = 0 ∷ hello })

length-write_message : (m : Option Message) → 0 < length (write_message m)
unfolding write_message
length-write_message none = omega arith
length-write_message (some m) = omega arith

-- The next message of several, in front of what follows them.
read_next :
    (m : Option Message) (ms behind : Bytes)
    → Fits m
    → (read_message ((write_message m ++ ms) ++ behind) ≡ ok (m, ms ++ behind))
      × (length (ms ++ behind) < length ((write_message m ++ ms) ++ behind))
read_next m ms behind fits =
    let front = append_assoc (write_message m) ms behind in
    (
      ap read_message front ∙ read_message-write_message m (ms ++ behind) fits,
      omega (
        arith,
        ap length front,
        length-append (write_message m) (ms ++ behind),
        length-write_message m,
      ),
    )

handle_hello_quiet :
    (c : Extensions) (m : Option Message) → IsChatter m → handle_hello c m ≡ ok none
unfolding handle_hello
handle_hello_quiet c none quiet = refl
handle_hello_quiet c (some m) quiet = rw quiet refl

handle_hello_found :
    (c c' : Extensions) (hello : Bytes)
    → handle_extension_handshake c hello ≡ ok c'
    → handle_hello c (hello_message hello) ≡ ok (some c')
unfolding handle_hello
handle_hello_found c c' hello e = rw e refl

wait_for_handshake_ok :
    (c c' : Extensions) (hello : Bytes) (before : List (Option Message)) (behind : Bytes) (fuel : ℕ)
    → All IsQuiet before
    → Fits (hello_message hello)
    → handle_extension_handshake c hello ≡ ok c'
    → length (write_all before ++ (write_message (hello_message hello) ++ behind)) < fuel
    → wait_for_handshake fuel c
        (write_all before ++ (write_message (hello_message hello) ++ behind))
      ≡ ok (c', behind)
unfolding wait_for_handshake
wait_for_handshake_ok c c' hello before behind zero quiet fits e enough = absurd (omega arith)
wait_for_handshake_ok c c' hello [] behind (suc fuel) quiet fits e enough =
    rw
      (
        read_message-write_message (hello_message hello) behind fits,
        handle_hello_found c c' hello e,
      )
      refl
wait_for_handshake_ok c c' hello (m ∷ before) behind (suc fuel) (q, quiet) fits e enough =
    let rest = write_message (hello_message hello) ++ behind in
    let (reads, less) = read_next m (write_all before) rest q.0 in
    rw (reads, handle_hello_quiet c m q.1)
      (wait_for_handshake_ok c c' hello before behind fuel quiet fits e (omega arith))

request_ok :
    (c : Extensions) (k : ℤ) (i : ℕ)
    → get_id ut_metadata c.extension_ids ≡ some k
    → i < 2 ^ 63
    → (m : Message) × (request_metadata_piece c (pos i) ≡ ok m)
unfolding request_metadata_piece
request_ok c k i e lt =
    let (b, enc, reads) =
      decode_bytes-encode (dict (request_fields (pos i)))
        (request-IsEncodable (pos i) (lt, omega arith)) in
    (record { id = msg_extended; payload = (to_word k % 256) ∷ b }, rw (e, enc) refl)

request_pieces_ok :
    (c : Extensions) (k : ℤ) (room n : ℕ)
    → get_id ut_metadata c.extension_ids ≡ some k
    → n ≤ room
    → n < 2 ^ 63
    → (sent : List Message) × (request_pieces c room n ≡ ok (sent, room - n))
unfolding request_pieces
request_pieces_ok c k room zero e enough lt = ([], ap (λ l. ok ([], l)) (omega arith))
request_pieces_ok c k room (suc n) e enough lt =
    let (sent, before) = request_pieces_ok c k room n e (omega arith) (omega arith) in
    let (m, asks) = request_ok c k n e (omega arith) in
    (
      sent ++ m ∷ [],
      rw (before, asks, ne→== (room - n) 0 (omega arith))
          (ap (λ l. ok (sent ++ m ∷ [], l)) (omega arith)),
    )

abbrev num_of : Bytes → ℕ
num_of raw = pieces_of_size (length raw)

-- Every piece is in the buffer, or among the answers to come.
abbrev pub Covers : Bytes → Fetch → List Reply → Type 0
Covers raw st rs =
    (i : ℕ)
    → i < pieces_of_size (length raw)
    → (get_or st.received i false ≡ true) ⊎ (answers rs i ≡ true)

whole :
    (raw : Bytes) (st : Fetch)
    → IsCollected raw st
    → ((i : ℕ) → i < num_of raw → get_or st.received i false ≡ true)
    → st.metadata ≡ raw
whole raw st h marks = get_or_ext st.metadata raw h.sized (λ j lt.
    h.copied j (omega (arith, lt, h.sized)) (marks (j / 16384) (omega (arith, lt, h.sized))))

-- The loop stops when all marks are set, and only then.
full_marks :
    (raw : Bytes) (st : Fetch)
    → IsCollected raw st
    → ltb st.got (num_of raw) ≡ false
    → (i : ℕ) → i < num_of raw
    → get_or st.received i false ≡ true
full_marks raw st h stop i lt =
    count_true_full st.received i (reached st.got (num_of raw) stop h.counted h.flagged)
      (omega (arith, lt, h.flagged))
  where
    reached :
        (got num : ℕ) {count size : ℕ}
        → ltb got num ≡ false
        → got ≡ count
        → size ≡ num
        → size ≤ count
    reached got num stop e f = ground arith

no_more :
    (raw : Bytes) (st : Fetch)
    → IsCollected raw st
    → Covers raw st []
    → ltb st.got (num_of raw) ≡ false
no_more raw st h covers = ge→ltb st.got (num_of raw) (
    omega (
      arith,
      h.counted,
      h.flagged,
      count_true_every st.received (λ i lt. mark i (covers i (omega (arith, lt, h.flagged)))),
    ))
  where
    mark :
        (i : ℕ)
        → (get_or st.received i false ≡ true) ⊎ (false ≡ true)
        → get_or st.received i false ≡ true
    mark i (inl m) = m
    mark i (inr e) = cc

collect_stop :
    (num fuel : ℕ) (st : Fetch) → ltb st.got num ≡ false → collect_pieces num fuel st ≡ ok st
unfolding collect_pieces
collect_stop num zero st stop = rw stop refl
collect_stop num (suc fuel) st stop = rw stop refl

collect_next :
    (num fuel : ℕ) (st : Fetch) {m : Option Message} {rest : Bytes} {st' : Fetch}
    → ltb st.got num ≡ true
    → read_message st.incoming ≡ ok (m, rest)
    → handle_data num (record st { incoming = rest }) m ≡ ok st'
    → collect_pieces num (suc fuel) st ≡ collect_pieces num fuel st'
unfolding collect_pieces
collect_next num fuel st more reads handled = rw (more, reads, handled) refl

-- An answer more or less.
answers_cons :
    (r : Reply) (rs : List Reply) (i : ℕ)
    → answers (r ∷ rs) i ≡ true
    → (answers (r ∷ []) i ≡ true) ⊎ (answers rs i ≡ true)
answers_cons (chatter m) rs i h = inr h
answers_cons (answer j head) rs i h = elim (Bool-cases (j == i)) [
  | inl e ↦ inl (rw e refl)
  | inr e ↦ inr (ground (arith, h, e))
]

IsReply-Fits : (raw : Bytes) (r : Reply) → IsReply raw r → Fits (message_for raw r)
IsReply-Fits raw (chatter m) (fits, _) = fits
IsReply-Fits raw (answer i head) (_, fits, _) = fits

-- A piece that was covered is marked by the next message, or still to come.
still :
    {old new : Bool} (raw : Bytes) (rs : List Reply) (i : ℕ) (r : Reply)
    → (old ≡ true) ⊎ (answers (r ∷ rs) i ≡ true)
    → ((old ≡ true) ⊎ (answers (r ∷ []) i ≡ true) → new ≡ true)
    → (new ≡ true) ⊎ (answers rs i ≡ true)
still raw rs i r (inl m) marks = inl (marks (inl m))
still raw rs i r (inr a) marks = elim (answers_cons r rs i a) [
  | inl now ↦ inl (marks (inr now))
  | inr later ↦ inr later
]

collect_pieces_ok :
    (raw : Bytes) (rs : List Reply) (behind : Bytes) (fuel : ℕ) (st : Fetch)
    → IsCollected raw st
    → All (IsReply raw) rs
    → Covers raw st rs
    → st.incoming ≡ write_replies raw rs ++ behind
    → length st.incoming < fuel
    → (st' : Fetch) × (collect_pieces (num_of raw) fuel st ≡ ok st') × (st'.metadata ≡ raw)
collect_pieces_ok raw [] behind fuel st h good covers e enough =
    let stop = no_more raw st h covers in
    (st, collect_stop (num_of raw) fuel st stop, whole raw st h (full_marks raw st h stop))
collect_pieces_ok raw (r ∷ rs) behind zero st h good covers e enough = absurd (omega arith)
collect_pieces_ok raw (r ∷ rs) behind (suc fuel) st h (g, good) covers e enough =
    elim (Bool-cases (ltb st.got (num_of raw))) [
      | inr stop ↦ (
        st,
        collect_stop (num_of raw) (suc fuel) st stop,
        whole raw st h (full_marks raw st h stop),
      )
      | inl more ↦
          let (reads, less) =
            read_next (message_for raw r) (write_replies raw rs) behind (IsReply-Fits raw r g) in
          let st1 : Fetch = record st { incoming = write_replies raw rs ++ behind } in
          let h1 : IsCollected raw st1 = record {
            sized = h.sized;
            flagged = h.flagged;
            counted = h.counted;
            copied = h.copied;
          } in
          let (st2, handled, (h2, same, marks)) = handle_data_lem raw st1 r h1 g in
          let (st', runs, done) =
            collect_pieces_ok raw rs behind fuel st2 h2 good
              (λ i lt. still raw rs i r (covers i lt) (marks i)) same
              (omega (arith, less, ap length same, ap length e, enough)) in
          (
            st',
            collect_next (num_of raw) fuel st more (ap read_message e ∙ reads) handled ∙ runs,
            done,
          )
    ]

new_fetch-IsCollected : (raw incoming : Bytes) → IsCollected raw (new_fetch (length raw) incoming)
new_fetch-IsCollected raw incoming = record {
  sized = length-replicate (length raw) 0;
  flagged = length-replicate (num_of raw) false;
  counted = sym (count_true-replicate (num_of raw));
  copied = λ j lt mark. absurd (unmarked (num_of raw) (j / 16384) mark);
}
  where
    unmarked : (n i : ℕ) → get_or (replicate n false) i false ≡ true → ⊥
    unmarked zero i h = cc
    unmarked (suc n) zero h = cc
    unmarked (suc n) (suc i) h = unmarked n i h

fetch_sized_ok :
    (c : Extensions) (k : ℤ) (raw : Bytes) (rs : List Reply) (behind : Bytes) (room : ℕ)
    → get_id ut_metadata c.extension_ids ≡ some k
    → length raw ≢ 0
    → length raw ≤ max_alloc
    → num_of raw ≤ room
    → All (IsReply raw) rs
    → ((i : ℕ) → i < num_of raw → answers rs i ≡ true)
    → fetch_sized c (pos (length raw)) (write_replies raw rs ++ behind) room ≡ ok raw
unfolding fetch_sized
fetch_sized_ok c k raw rs behind room id some_bytes small enough good every =
    let incoming = write_replies raw rs ++ behind in
    let (sent, asks) = request_pieces_ok c k room (num_of raw) id enough (omega arith) in
    let (st, runs, done) =
      collect_pieces_ok raw rs behind (suc (length incoming)) (new_fetch (length raw) incoming)
        (new_fetch-IsCollected raw incoming) good (λ i lt. inr (every i lt)) refl (omega arith) in
    rw (ne→== (length raw) 0 some_bytes, ge→ltb max_alloc (length raw) small, asks, runs)
      (ap ok done)

-- If a peer completes the extension handshake and names the size of some bytes, which are not
-- empty and can be allocated, and answers for every piece of them at least once, in any order, with
-- messages that are not of the extension protocol before and between, and the connection takes the
-- requests, then what `readMetadataFromPeer` returns is what `Parse` makes of those bytes.
pub read_metadata_from_peer_complete :
    (sha1 : Bytes → Bytes) (info_hash : Bytes) (c c' : Extensions) (k : ℤ) (hello raw : Bytes)
    (before : List (Option Message)) (rs : List Reply) (behind : Bytes) (room : ℕ)
    → All IsQuiet before
    → Fits (hello_message hello)
    → handle_extension_handshake c hello ≡ ok c'
    → c'.metadata_size ≡ pos (length raw)
    → get_id ut_metadata c'.extension_ids ≡ some k
    → length raw ≢ 0
    → length raw ≤ max_alloc
    → pieces_of_size (length raw) ≤ room
    → All (IsReply raw) rs
    → ((i : ℕ) → i < pieces_of_size (length raw) → answers rs i ≡ true)
    → read_metadata_from_peer sha1 info_hash c
        (write_all before
          ++ (write_message (hello_message hello) ++ (write_replies raw rs ++ behind)))
        room
      ≡ map_err metainfo (parse sha1 raw info_hash)
unfolding read_metadata_from_peer
read_metadata_from_peer_complete sha1 info_hash c c' k hello raw before rs behind room quiet fits e
      size id some_bytes small enough good every =
    let rest = write_replies raw rs ++ behind in
    let waits =
      wait_for_handshake_ok c c' hello before rest
        (suc (length (write_all before ++ (write_message (hello_message hello) ++ rest)))) quiet
        fits e (omega arith) in
    let fetched = fetch_sized_ok c' k raw rs behind room id some_bytes small enough good every in
    rw (waits, ap (λ z. fetch_sized c' z rest room) size ∙ fetched) refl
