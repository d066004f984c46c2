-- ===== src/Peer/Extension/Laws.antt =====
-- What the two ends of a connection make of each other's extension messages.
use amish.Base.{
  ◌≡◌, refl, ap, ◌∙◌, false, some, [], ◌∷◌, ◌++◌, Bytes, codes, append-nil, arith, length,
  drop-append, ok, err,
}
use amish.Base.Int.{ℤ, pos, IsInt64}
use amish.Bencode.{Fields, int64, dict, end, field, lookup}
use amish.Bencode.Encode.{encode}
use amish.Bencode.Decode.{decode}
use amish.Bencode.WellFormed.{canon, IsEncodable}
use amish.Bencode.Maps.{get_int64-canon}
use amish.Base.Decimal.{format_int, parse_int}
use amish.Bencode.Sound.Total.{decode_of_decode_bytes}
use amish.Bencode.RoundTrip.Values.{decode_bytes-encode}
use amish.Peer.Message.{msg_extended}
use amish.Peer.Extension.{
  Extensions, ut_metadata, bad_metadata_resp, send_extension_handshake, handle_extension_handshake,
  is_data, request_metadata_piece, parse_metadata_piece,
}

-- A data message: any encodable map with the message type 1 and the index of a piece, followed by
-- the bytes of that piece, is read as that index and exactly those bytes.
pub parse_metadata_piece-encode :
    (m : Fields) (piece : ℤ) (block : Bytes)
    → IsEncodable (dict m)
    → lookup (codes "msg_type") m ≡ some (int64 (pos 1))
    → lookup (codes "piece") m ≡ some (int64 piece)
    → (b : Bytes) × (encode (dict m) ≡ ok b)
      × (parse_metadata_piece (b ++ block) ≡ ok (piece, block))
unfolding parse_metadata_piece
parse_metadata_piece-encode m piece block h ht hp =
    let (b, e, reads) = decode_bytes-encode (dict m) h in
    (
      b,
      e,
      rw (reads block) (
          unfold canon in
          rw (
            get_int64-canon (codes "msg_type") m (pos 1) h.0 ht,
            get_int64-canon (codes "piece") m piece h.0 hp,
            drop-append b block,
          )),
    )

-- A map with any other message type is refused: so are our own requests.
pub parse_metadata_piece_other :
    (m : Fields) (n : ℤ) (block : Bytes)
    → IsEncodable (dict m)
    → lookup (codes "msg_type") m ≡ some (int64 n)
    → is_data n ≡ false
    → (b : Bytes) × (encode (dict m) ≡ ok b)
      × (parse_metadata_piece (b ++ block) ≡ err bad_metadata_resp)
unfolding parse_metadata_piece
parse_metadata_piece_other m n block h ht ne =
    let (b, e, reads) = decode_bytes-encode (dict m) h in
    (
      b,
      e,
      rw (reads block) (unfold canon in rw (get_int64-canon (codes "msg_type") m n h.0 ht, ne)),
    )

abbrev hello : Bytes
hello = codes "d1:md11:ut_metadatai1eee"

-- The fields of a request, as they are encoded and as the other end reads them.
abbrev pub request_fields : ℤ → Fields
request_fields piece =
    field (codes "msg_type") (int64 (pos 0)) (field (codes "piece") (int64 piece) end)

pub request-IsEncodable : (piece : ℤ) → IsInt64 piece → IsEncodable (dict (request_fields piece))
request-IsEncodable piece h =
    (((refl, tt), (tt, tt)), (omega arith, (omega arith, omega arith), (omega arith, h, tt)))

canon-request : (piece : ℤ) → canon (dict (request_fields piece)) ≡ dict (request_fields piece)
canon-request piece = unfold canon in refl

-- The extension handshake that one end sends makes the other end name `ut_metadata` by the id 1,
-- and keep the rest of its state; its requests then carry that id in front of the message type 0
-- and the index of the piece, for every index that an int64 holds.
pub request_metadata_piece_after_handshake :
    (c d : Extensions) (piece : ℤ)
    → IsInt64 piece
    → (hello : Bytes) × (body : Bytes) × (send_extension_handshake c
        ≡ ok (
          record c { our_ext_ids = (ut_metadata, pos 1) ∷ [] },
          record { id = msg_extended; payload = 0 ∷ hello },
        ))
      × (handle_extension_handshake d hello
          ≡ ok (record d { extension_ids = (ut_metadata, pos 1) ∷ [] }))
      × (request_metadata_piece (record d { extension_ids = (ut_metadata, pos 1) ∷ [] }) piece
          ≡ ok (record { id = msg_extended; payload = 1 ∷ body }))
      × (decode body ≡ ok (dict (request_fields piece)))
request_metadata_piece_after_handshake c d piece h =
    let (b, e, reads) =
      decode_bytes-encode (dict (request_fields piece)) (request-IsEncodable piece h) in
    let whole = reads [] in
    (
      hello,
      b,
      unfold send_extension_handshake encode format_int in refl,
      unfold handle_extension_handshake decode parse_int lookup in refl,
      unfold request_metadata_piece in rw e,
      decode_of_decode_bytes b (canon (dict (request_fields piece))) (length b)
            (rw append-nil at whole)
          ∙ ap ok (canon-request piece),
    )
