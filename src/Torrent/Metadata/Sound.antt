-- ===== src/Torrent/Metadata/Sound.antt =====
-- What metadata that was fetched has, and that every exchange ends.
use amish.Base.{
  ℕ, zero, suc, ◌-◌, ◌<◌, ◌≡◌, ◌≢◌, refl, ap, false, not, Option, none, some, List, [], ◌∷◌, Bytes,
  ltb, ◌==◌, ◌&&◌, bytes_eq, length, get_or, Bool-cases, inl, inr, arith, Result, ok, err, panic,
  map_err, Ensures, holds, fails, panics, Ensures-ok, Ensures-err, Ensures-if, Ensures->>=,
  Ensures-guard, Ensures-map_err, Ensures-weaken,
}
use amish.Base.Int.{ℤ, pos, negsuc}
use amish.Bencode.{max_alloc}
use amish.Peer.Message.{Message, read_message, msg_extended}
use amish.Peer.Message.Reading.{Shorter, read_message-Ensures}
use amish.Peer.Extension
use amish.Peer.Extension.{
  Extensions, send_extension_handshake, handle_extension_handshake, request_metadata_piece,
  parse_metadata_piece,
}
use amish.Metainfo.{Info}
use amish.Metainfo.Parse.{parse, parse_unverified}
use amish.Metainfo.Sound.{IsInfo, parse_sound}
use amish.Torrent.Metadata.{
  Error, message, extension, metainfo, no_extension, request_failed, out_of_fuel, on_hello,
  handle_hello, wait_for_handshake, request_pieces, Fetch, take_data, on_piece, on_payload,
  handle_data, collect_pieces, pieces_of_size, new_fetch, fetch_sized, read_metadata_from_peer,
  Dialled, try_peer, fetch_metadata,
}

-- An error that is not the model's own.
abbrev pub IsReal : Error → Type 0
IsReal e = e ≢ out_of_fuel

abbrev Anything {ℓ} : {A : Type ℓ} → A → Type 0
Anything a = Unit {0}

-- What is read is shorter, whatever the message is.
next_message : (r : Bytes) → Ensures (Shorter r) IsReal (map_err message (read_message r))
next_message r =
    Ensures-map_err message (read_message r) (λ _ e. Ensures-ok (read_message-Ensures r) e)
      (λ e. λ same. cc)

extension-IsReal {ℓ} :
    {A : Type ℓ} (r : Result Extension.Error A) → Ensures Anything IsReal (map_err extension r)
extension-IsReal r = Ensures-map_err extension r (λ _ _. tt) (λ e. λ same. cc)

on_hello-Ensures : (c : Extensions) (p : Bytes) → Ensures Anything IsReal (on_hello c p)
on_hello-Ensures c [] = holds tt
on_hello-Ensures c (sub ∷ body) =
    Ensures-if (sub == 0)
      (λ _. Ensures->>= (extension-IsReal (handle_extension_handshake c body)) (λ _ _. holds tt))
      (λ _. holds tt)

handle_hello-Ensures :
    (c : Extensions) (m : Option Message) → Ensures Anything IsReal (handle_hello c m)
unfolding handle_hello
handle_hello-Ensures c none = holds tt
handle_hello-Ensures c (some m) =
    Ensures-if (m.id == msg_extended) (λ _. on_hello-Ensures c m.payload) (λ _. holds tt)

abbrev Shrinks : Bytes → Extensions × Bytes → Type 0
Shrinks r (c, rest) = length rest < length r

hello_or_next :
    (found : Option Extensions) (r rest : Bytes) {next : Result Error (Extensions × Bytes)}
    → length rest < length r
    → Ensures (Shrinks r) IsReal next
    → Ensures (Shrinks r) IsReal (elim found [ none ↦ next | some c' ↦ ok (c', rest) ])
hello_or_next none r rest less h = h
hello_or_next (some c') r rest less h = holds less

wait_for_handshake-Ensures :
    (fuel : ℕ) (c : Extensions) (r : Bytes)
    → length r < fuel
    → Ensures (Shrinks r) IsReal (wait_for_handshake fuel c r)
unfolding wait_for_handshake
wait_for_handshake-Ensures zero c r enough = absurd (omega arith)
wait_for_handshake-Ensures (suc fuel) c r enough = Ensures->>= (next_message r) λ (m, rest) less.
    Ensures->>= (handle_hello-Ensures c m) λ found _. hello_or_next found r rest less (
      Ensures-weaken (λ _ h. omega (arith, h, less)) (λ _ h. h)
        (wait_for_handshake-Ensures fuel c rest (omega arith)))

request_pieces-Ensures :
    (c : Extensions) (room n : ℕ) → Ensures Anything IsReal (request_pieces c room n)
unfolding request_pieces
request_pieces-Ensures c room zero = holds tt
request_pieces-Ensures c room (suc n) =
    Ensures->>= (request_pieces-Ensures c room n) λ (sent, left) _.
      Ensures->>= (extension-IsReal (request_metadata_piece c (pos n))) λ m _.
        Ensures->>= (Ensures-guard (not (left == 0)) request_failed (λ e. cc)) λ _ _. holds tt

-- A response leaves what is still to come alone.
abbrev Same : Fetch → Fetch → Type 0
Same st st' = st'.incoming ≡ st.incoming

take_data_incoming : (num : ℕ) (st : Fetch) (r : ℤ × Bytes) → Same st (take_data num st r)
unfolding take_data
take_data_incoming num st (negsuc n, block) = refl
take_data_incoming num st (pos i, block) =
    elim (Bool-cases (ltb i num && not (get_or st.received i false))) [
      | inl hit ↦ rw hit refl
      | inr miss ↦ rw miss refl
    ]

on_payload-Ensures :
    (num : ℕ) (st : Fetch) (p : Bytes) → Ensures (Same st) IsReal (on_payload num st p)
on_payload-Ensures num st [] = holds refl
on_payload-Ensures num st (sub ∷ []) = holds refl
on_payload-Ensures num st (sub ∷ b ∷ body) =
    Ensures-if (sub == 1) (λ _. each (parse_metadata_piece (b ∷ body))) (λ _. holds refl)
  where
    each : (r : Result Extension.Error (ℤ × Bytes)) → Ensures (Same st) IsReal (on_piece num st r)
    each (ok r) = holds (take_data_incoming num st r)
    each (err e) = holds refl
    each panic = panics

handle_data-Ensures :
    (num : ℕ) (st : Fetch) (m : Option Message) → Ensures (Same st) IsReal (handle_data num st m)
unfolding handle_data
handle_data-Ensures num st none = holds refl
handle_data-Ensures num st (some m) =
    Ensures-if (m.id == msg_extended) (λ _. on_payload-Ensures num st m.payload) (λ _. holds refl)

collect_pieces-Ensures :
    (num fuel : ℕ) (st : Fetch)
    → length st.incoming < fuel
    → Ensures Anything IsReal (collect_pieces num fuel st)
unfolding collect_pieces
collect_pieces-Ensures num zero st enough = absurd (omega arith)
collect_pieces-Ensures num (suc fuel) st enough =
    Ensures-if (ltb st.got num)
      (λ _. Ensures->>= (next_message st.incoming) λ (m, rest) less.
        Ensures->>= (handle_data-Ensures num (record st { incoming = rest }) m) λ st' same.
          collect_pieces-Ensures num fuel st' (omega (arith, less, ap length same, enough)))
      (λ _. holds tt)

fetch_sized-Ensures :
    (c : Extensions) (z : ℤ) (incoming : Bytes) (room : ℕ)
    → Ensures Anything IsReal (fetch_sized c z incoming room)
unfolding fetch_sized
fetch_sized-Ensures c (negsuc n) incoming room = panics
fetch_sized-Ensures c (pos size) incoming room =
    Ensures-if (size == 0) (λ _. fails (λ e. cc))
      λ _.
        Ensures-if (ltb max_alloc size) (λ _. panics)
          λ _. Ensures->>= (request_pieces-Ensures c room (pieces_of_size size)) λ _ _.
            Ensures->>=
              (collect_pieces-Ensures (pieces_of_size size) (suc (length incoming))
                (new_fetch size incoming) (omega arith))
              λ _ _. holds tt

module _ (sha1 : Bytes → Bytes) (info_hash : Bytes) where
  -- The metadata is what bytes with the digest of the magnet link hold, and it is well formed.
  abbrev pub IsAuthentic : Info → Type 0
  IsAuthentic info =
      (raw : Bytes) × (sha1 raw ≡ info_hash) × (parse_unverified raw ≡ ok info) × IsInfo info

  parse-IsAuthentic :
      (raw : Bytes) (info : Info) → parse sha1 raw info_hash ≡ ok info → IsAuthentic info
  unfolding parse
  parse-IsAuthentic raw info e =
      let (well, same) = parse_sound sha1 raw info_hash info e in
      elim (Bool-cases (bytes_eq (sha1 raw) info_hash)) [
        | inl hit ↦ (raw, same, rw hit at e, well)
        | inr miss ↦ ground (arith, e, miss)
      ]

  read_metadata_from_peer-Ensures :
      (c : Extensions) (incoming : Bytes) (room : ℕ)
      → Ensures IsAuthentic IsReal (read_metadata_from_peer sha1 info_hash c incoming room)
  unfolding read_metadata_from_peer
  read_metadata_from_peer-Ensures c incoming room =
      Ensures->>= (wait_for_handshake-Ensures (suc (length incoming)) c incoming (omega arith))
        λ (c', rest) _. Ensures->>= (fetch_sized-Ensures c' c'.metadata_size rest room) λ raw _.
          Ensures-map_err metainfo (parse sha1 raw info_hash) (parse-IsAuthentic raw)
            (λ e. λ same. cc)

  try_peer-Ensures : (p : Option Dialled) → Ensures IsAuthentic IsReal (try_peer sha1 info_hash p)
  unfolding try_peer
  try_peer-Ensures none = fails (λ e. cc)
  try_peer-Ensures (some d) =
      Ensures->>= (Ensures-guard d.supports_extension no_extension (λ e. cc)) λ _ _.
        Ensures->>= (extension-IsReal (send_extension_handshake d.extensions)) λ (c, hello) _.
          Ensures->>= (Ensures-guard (not (d.room == 0)) request_failed (λ e. cc))
            λ _ _. read_metadata_from_peer-Ensures c d.incoming (d.room - 1)

  fetch_metadata-Ensures :
      (ps : List (Option Dialled)) → Ensures IsAuthentic IsReal (fetch_metadata sha1 info_hash ps)
  unfolding fetch_metadata
  fetch_metadata-Ensures [] = fails (λ e. cc)
  fetch_metadata-Ensures (p ∷ ps) = first (try_peer-Ensures p) (fetch_metadata-Ensures ps)
    where
      first :
          {r rest : Result Error Info}
          → Ensures IsAuthentic IsReal r
          → Ensures IsAuthentic IsReal rest
          → Ensures IsAuthentic IsReal (elim r [ ok info ↦ ok info | err e ↦ rest | panic ↦ panic ])
      first (holds h) hs = holds h
      first (fails h) hs = hs
      first panics hs = panics

  -- Whatever the peers send, and in whatever order their results arrive: the metadata that
  -- `fetchMetadata` returns is what bytes with the info hash hold, and it is well formed.
  pub fetch_metadata_sound :
      (ps : List (Option Dialled)) (info : Info)
      → fetch_metadata sha1 info_hash ps ≡ ok info
      → IsAuthentic info
  fetch_metadata_sound ps info e = Ensures-ok (fetch_metadata-Ensures ps) e

  -- Whatever a peer sends before it stops, both loops of `readMetadataFromPeer` end within the fuel
  -- that they are given.
  pub read_metadata_from_peer-ne-out_of_fuel :
      (c : Extensions) (incoming : Bytes) (room : ℕ)
      → read_metadata_from_peer sha1 info_hash c incoming room ≢ err out_of_fuel
  read_metadata_from_peer-ne-out_of_fuel c incoming room e =
      Ensures-err (read_metadata_from_peer-Ensures c incoming room) e refl
