-- ===== src/Torrent/Metadata.antt =====
-- torrent/metadata.go: the metadata of a magnet link, fetched from the peers. A connection is the
-- bytes that the peer sends until it stops or the deadline passes, and how many messages can still be
-- sent. `sha1` is the digest that crypto/sha1 computes.
pub mod Dedup
pub mod Sound
pub mod Buffer
pub mod Served
pub mod Complete
mod Tests
use amish.Base.{
  ℕ, zero, suc, ◌+◌, ◌-◌, ◌*◌, ◌/◌, ◌≡◌, refl, Bool, true, false, not, Option, none, some, List, [],
  ◌∷◌, ◌++◌, Bytes, ltb, ◌==◌, ◌&&◌, if◌then◌else◌, length, take, drop, replicate, get_or, set,
  Result, ok, err, panic, ◌>>=◌, ◌>>◌, guard, map_err,
}
use amish.Base.Int.{ℤ, pos, negsuc}
use amish.Bencode.{max_alloc}
use amish.Peer.Message
use amish.Peer.Message.{Message, read_message, msg_extended}
use amish.Peer.Extension
use amish.Peer.Extension.{
  Extensions, send_extension_handshake, handle_extension_handshake, request_metadata_piece,
  parse_metadata_piece,
}
use amish.Metainfo
use amish.Metainfo.{Info}
use amish.Metainfo.Parse.{parse}

-- The errors of the other packages are passed on; `dial_failed` is one of `peer.Dial`. The loops of
-- the model have fuel.
pub data Error : Type 0 where
  dial_failed no_extension request_failed no_metadata_size no_metadata out_of_fuel : Error
  message : Message.Error → Error
  extension : Extension.Error → Error
  metainfo : Metainfo.Error → Error

abbrev pub metadata_piece_size : ℕ
metadata_piece_size = 16384

-- `(size + metadataPieceSize - 1) / metadataPieceSize`, for a size that memory holds.
abbrev pub pieces_of_size : ℕ → ℕ
pieces_of_size size = (size + 16383) / 16384

-- A message before the handshake: the new state, if it is the handshake.
abbrev pub on_hello : Extensions → Bytes → Result Error (Option Extensions)
on_hello c [] = ok none
on_hello c (sub ∷ body) =
    if sub == 0
    then (do c' ← map_err extension (handle_extension_handshake c body); ok (some c'))
    else ok none

unfoldable pub handle_hello : Extensions → Option Message → Result Error (Option Extensions)
handle_hello c none = ok none
handle_hello c (some m) = if m.id == msg_extended then on_hello c m.payload else ok none

-- The loop that waits for the extension handshake.
unfoldable pub wait_for_handshake : ℕ → Extensions → Bytes → Result Error (Extensions × Bytes)
unfolding handle_hello
wait_for_handshake zero c r = err out_of_fuel
wait_for_handshake (suc fuel) c r = do
  (m, rest) ← map_err message (read_message r)
  found ← handle_hello c m
  elim found [ none ↦ wait_for_handshake fuel c rest | some c' ↦ ok (c', rest) ]

-- The requests for the first `n` pieces, in order, and how many messages can still be sent.
unfoldable pub request_pieces : Extensions → ℕ → ℕ → Result Error (List Message × ℕ)
request_pieces c room zero = ok ([], room)
request_pieces c room (suc n) = do
  (sent, left) ← request_pieces c room n
  m ← map_err extension (request_metadata_piece c (pos n))
  guard (not (left == 0)) request_failed
  ok (sent ++ m ∷ [], left - 1)

-- `copy(dst[offset:], src)` stops at the end of `dst`.
unfoldable pub copy_at : Bytes → ℕ → Bytes → Bytes
copy_at dst offset src =
    take offset dst ++ (take (length dst - offset) src ++ drop (offset + length src) dst)

-- The variables of the loop that collects the responses.
pub record Fetch : Type 0 where
  pub incoming : Bytes
  pub metadata : Bytes
  pub received : List Bool
  pub got : ℕ

-- A piece that is out of range or was received before is skipped.
unfoldable pub take_data : ℕ → Fetch → ℤ × Bytes → Fetch
unfolding copy_at
take_data num st (negsuc n, block) = st
take_data num st (pos i, block) =
    if ltb i num && not (get_or st.received i false)
    then record st {
      metadata = copy_at st.metadata (i * metadata_piece_size) block;
      received = set st.received i true;
      got = suc st.got;
    }
    else st

-- What `ParseMetadataPiece` refuses is skipped.
abbrev pub on_piece : ℕ → Fetch → Result Extension.Error (ℤ × Bytes) → Result Error Fetch
on_piece num st (ok r) = ok (take_data num st r)
on_piece num st (err e) = ok st
on_piece num st panic = panic

-- A payload of two bytes at least, the first of which is the id that we chose.
abbrev pub on_payload : ℕ → Fetch → Bytes → Result Error Fetch
on_payload num st (sub ∷ b ∷ body) =
    if sub == 1 then on_piece num st (parse_metadata_piece (b ∷ body)) else ok st
on_payload num st _ = ok st

unfoldable pub handle_data : ℕ → Fetch → Option Message → Result Error Fetch
unfolding take_data
handle_data num st none = ok st
handle_data num st (some m) = if m.id == msg_extended then on_payload num st m.payload else ok st

-- The loop that collects the responses.
unfoldable pub collect_pieces : ℕ → ℕ → Fetch → Result Error Fetch
unfolding handle_data
collect_pieces num zero st = if ltb st.got num then err out_of_fuel else ok st
collect_pieces num (suc fuel) st =
    if ltb st.got num
    then (do
      (m, rest) ← map_err message (read_message st.incoming)
      st' ← handle_data num (record st { incoming = rest }) m
      collect_pieces num fuel st')
    else ok st

abbrev pub new_fetch : ℕ → Bytes → Fetch
new_fetch size incoming = record {
  incoming = incoming;
  metadata = replicate size 0;
  received = replicate (pieces_of_size size) false;
  got = 0;
}

-- The raw metadata, once its size is known. A negative size, or one that is too large for `make`,
-- panics.
unfoldable pub fetch_sized : Extensions → ℤ → Bytes → ℕ → Result Error Bytes
unfolding request_pieces collect_pieces
fetch_sized c (negsuc n) incoming room = panic
fetch_sized c (pos size) incoming room =
    if size == 0 then err no_metadata_size else if ltb max_alloc size then panic else (do
      (sent, left) ← request_pieces c room (pieces_of_size size)
      st ← collect_pieces (pieces_of_size size) (suc (length incoming)) (new_fetch size incoming)
      ok st.metadata)

-- A peer as `peer.Dial` reports it: whether it names the extension protocol, the state of the
-- connection, what it will send, and how many messages it takes; or none if it cannot be reached.
pub record Dialled : Type 0 where
  pub supports_extension : Bool
  pub extensions : Extensions
  pub incoming : Bytes
  pub room : ℕ

-- Each round of a loop reads four bytes at least, so that the bytes to come are fuel enough.
module _ (sha1 : Bytes → Bytes) (info_hash : Bytes) where
  unfoldable pub read_metadata_from_peer : Extensions → Bytes → ℕ → Result Error Info
  unfolding wait_for_handshake fetch_sized
  read_metadata_from_peer c incoming room = do
    (c', rest) ← wait_for_handshake (suc (length incoming)) c incoming
    raw ← fetch_sized c' c'.metadata_size rest room
    map_err metainfo (parse sha1 raw info_hash)

  abbrev pub after_dial : Dialled → Result Error Info
  after_dial d = do
    guard d.supports_extension no_extension
    (c, hello) ← map_err extension (send_extension_handshake d.extensions)
    guard (not (d.room == 0)) request_failed
    read_metadata_from_peer c d.incoming (d.room - 1)

  -- What one goroutine of `fetchMetadata` sends to `resCh`.
  unfoldable pub try_peer : Option Dialled → Result Error Info
  unfolding read_metadata_from_peer
  try_peer none = err dial_failed
  try_peer (some d) = after_dial d

  -- The loop over the results, in the order in which they arrive: the first metadata wins.
  unfoldable pub fetch_metadata : List (Option Dialled) → Result Error Info
  unfolding try_peer
  fetch_metadata [] = err no_metadata
  fetch_metadata (p ∷ ps) =
      let rest = fetch_metadata ps in
      elim (try_peer p) [ ok info ↦ ok info | err e ↦ rest | panic ↦ panic ]
