-- ===== src/Peer/Extension.antt =====
-- The extension protocol of peer/conn.go (BEP 10) and its metadata messages (BEP 9), over bencoded
-- payloads.
pub mod Laws
use amish.Base.{
  ℕ, ◌+◌, ◌%◌, ◌^◌, ◌≡◌, refl, Bool, true, false, Option, none, some, [], ◌∷◌, ◌++◌, Bytes, codes,
  bytes_eq, if◌then◌else◌, drop, Result, ok, err, panic, ◌>>=◌, ◌>>◌, guard, require, map_err, List,
}
use amish.Base.Int.{ℤ, pos, negsuc, eq_int, to_word}
use amish.Bencode
use amish.Bencode.{
  Value, Fields, int64, string, list, dict, nil, cons, end, field, as_int64, as_dict, lookup,
  get_as,
}
use amish.Bencode.Encode.{encode}
use amish.Bencode.Decode.{decode, decode_bytes}
use amish.Peer.Message.{Message, msg_extended}

-- `bencode` wraps an error of that package.
pub data Error : Type 0 where
  bad_ext_handshake no_ut_metadata bad_metadata_resp : Error
  bencode : Bencode.Error → Error

-- The fields of `Conn` that the extension protocol reads and writes. A map that is nil has no
-- entry.
pub record Extensions : Type 0 where
  pub extension_ids : List (Bytes × ℤ)
  pub metadata_size : ℤ
  pub our_ext_ids : List (Bytes × ℤ)

abbrev pub no_extensions : Extensions
no_extensions = record { extension_ids = []; metadata_size = pos 0; our_ext_ids = [] }

abbrev pub ut_metadata : Bytes
ut_metadata = codes "ut_metadata"

unfoldable pub get_id : Bytes → List (Bytes × ℤ) → Option ℤ
get_id k [] = none
get_id k ((j, n) ∷ ids) = if bytes_eq j k then some n else get_id k ids

-- `for k, v := range m { if id, ok := v.(int64); ok { ids[k] = id } }`
unfoldable pub int_entries : Fields → List (Bytes × ℤ)
int_entries end = []
int_entries (field k v fs) =
    let rest = int_entries fs in elim (as_int64 v) [ none ↦ rest | some n ↦ (k, n) ∷ rest ]

-- The new `Conn` fields, and the message sent.
unfoldable pub send_extension_handshake : Extensions → Result Error (Extensions × Message)
send_extension_handshake c = do
  let sub = field ut_metadata (int64 (pos 1)) end
  payload ← map_err bencode (encode (dict (field (codes "m") (dict sub) end)))
  ok (
    record c { our_ext_ids = (ut_metadata, pos 1) ∷ [] },
    record { id = msg_extended; payload = 0 ∷ payload },
  )

abbrev with_ids : Extensions → Option Fields → Extensions
with_ids c none = c
with_ids c (some m) = record c { extension_ids = int_entries m }

abbrev with_size : Extensions → Option ℤ → Extensions
with_size c none = c
with_size c (some n) = record c { metadata_size = n }

-- An error of `bencode.Decode` is reported as a bad handshake.
unfoldable pub handle_extension_handshake : Extensions → Bytes → Result Error Extensions
unfolding int_entries
handle_extension_handshake c payload = do
  decoded ← map_err (λ _. bad_ext_handshake) (decode payload)
  d ← require (as_dict decoded) bad_ext_handshake
  let c' = with_ids c (get_as as_dict (codes "m") d)
  ok (with_size c' (get_as as_int64 (codes "metadata_size") d))

-- `byte(utMetadata)` keeps the low eight bits.
unfoldable pub request_metadata_piece : Extensions → ℤ → Result Error Message
unfolding get_id
request_metadata_piece c piece = do
  n ← require (get_id ut_metadata c.extension_ids) no_ut_metadata
  payload ← map_err bencode (
      encode
        (dict (field (codes "msg_type") (int64 (pos 0)) (field (codes "piece") (int64 piece) end))))
  ok (record { id = msg_extended; payload = (to_word n % 256) ∷ payload })

abbrev pub is_data : ℤ → Bool
is_data n = eq_int n (pos 1)

unfoldable pub parse_metadata_piece : Bytes → Result Error (ℤ × Bytes)
parse_metadata_piece payload = do
  (decoded, consumed) ← map_err bencode (decode_bytes payload)
  d ← require (as_dict decoded) bad_metadata_resp
  msg_type ← require (get_as as_int64 (codes "msg_type") d) bad_metadata_resp
  guard (is_data msg_type) bad_metadata_resp
  piece ← require (get_as as_int64 (codes "piece") d) bad_metadata_resp
  ok (piece, drop consumed payload)
