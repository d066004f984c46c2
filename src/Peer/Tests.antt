-- ===== src/Peer/Tests.antt =====
-- Theorems on the wire protocol at concrete messages.
use amish.Base.{
  ◌≡◌, ◌↔◌, ◌/◌, refl, true, some, [], ◌∷◌, ◌++◌, Bytes, length, bytes_eq, ok, err, if◌then◌else◌,
  ltb, ◌==◌, ◌&&◌, replicate, arith,
}
use amish.Base.Int.{pos}
use amish.Bencode.{dict}
use amish.Bencode.Decode.{decode}
use amish.Peer.Message.{Message, read_message, write_message, unexpected_eof, msg_extended}
use amish.Peer.Message.RoundTrip.{Fits}
use amish.Peer.Message.Sound.{Fails, read_message-eq-ok_iff, read_message-eq-err}
use amish.Peer.Bitfield.{has_piece, set_piece}
use amish.Peer.Bitfield.Laws.{has_piece-set_piece}
use amish.Peer.Handshake.{recv_handshake, send_handshake, build_handshake_bytes, bad_info_hash}
use amish.Peer.Handshake.Laws.{recv_handshake-send_handshake, recv_handshake-build_handshake_bytes}
use amish.Peer.Handshake.Sound.{Accepted, recv_handshake_sound}
use amish.Peer.Extension.{
  no_extensions, ut_metadata, send_extension_handshake, handle_extension_handshake,
  request_metadata_piece,
}
use amish.Peer.Extension.Laws.{request_metadata_piece_after_handshake, request_fields}

abbrev a_have : Message
a_have = record { id = 4; payload = 0 ∷ 0 ∷ 0 ∷ 9 ∷ [] }

read_message-eq-ok_iff_example :
    (read_message (0 ∷ 0 ∷ 0 ∷ 5 ∷ 4 ∷ 0 ∷ 0 ∷ 0 ∷ 9 ∷ []) ≡ ok (some a_have, [])) ↔ (
      Fits (some a_have)
      × (0 ∷ 0 ∷ 0 ∷ 5 ∷ 4 ∷ 0 ∷ 0 ∷ 0 ∷ 9 ∷ [] ≡ write_message (some a_have) ++ []))
read_message-eq-ok_iff_example =
    read_message-eq-ok_iff (0 ∷ 0 ∷ 0 ∷ 5 ∷ 4 ∷ 0 ∷ 0 ∷ 0 ∷ 9 ∷ []) (some a_have) [] (omega arith)

too_short : read_message (0 ∷ 0 ∷ 0 ∷ 5 ∷ 4 ∷ []) ≡ err unexpected_eof
unfolding read_message
too_short = refl

read_message-eq-err_example : Fails (0 ∷ 0 ∷ 0 ∷ 5 ∷ 4 ∷ []) unexpected_eof
read_message-eq-err_example =
    read_message-eq-err (0 ∷ 0 ∷ 0 ∷ 5 ∷ 4 ∷ []) unexpected_eof (omega arith) too_short

abbrev two_bytes : Bytes
two_bytes = 0 ∷ 128 ∷ []

has_piece-set_piece_example :
    has_piece (set_piece two_bytes 8) 8
    ≡ (if (8 == 8) && ltb (8 / 8) (length two_bytes) then true else has_piece two_bytes 8)
has_piece-set_piece_example = has_piece-set_piece two_bytes 8 8 (omega arith)

abbrev hash : Bytes
hash = replicate 20 7

abbrev name : Bytes
name = replicate 20 65

recv_handshake-send_handshake_example : recv_handshake hash (send_handshake hash name ++ 1 ∷ []) ≡ (
    if bytes_eq hash hash
    then ok (record { supports_extension = true; peer_id = name }, 1 ∷ [])
    else err bad_info_hash)
recv_handshake-send_handshake_example =
    recv_handshake-send_handshake hash hash name (1 ∷ []) refl refl

recv_handshake_sound_example :
    Accepted hash
      (build_handshake_bytes hash name true)
      (record { supports_extension = true; peer_id = name }, [])
recv_handshake_sound_example =
    recv_handshake_sound hash (build_handshake_bytes hash name true)
      (record { supports_extension = true; peer_id = name }) []
      (recv_handshake-build_handshake_bytes hash name true refl refl)

request_metadata_piece_after_handshake_example :
    (hello : Bytes) × (body : Bytes) × (send_extension_handshake no_extensions
      ≡ ok (
        record no_extensions { our_ext_ids = (ut_metadata, pos 1) ∷ [] },
        record { id = msg_extended; payload = 0 ∷ hello },
      ))
    × (handle_extension_handshake no_extensions hello
        ≡ ok (record no_extensions { extension_ids = (ut_metadata, pos 1) ∷ [] }))
    × (request_metadata_piece
          (record no_extensions { extension_ids = (ut_metadata, pos 1) ∷ [] })
          (pos 2)
        ≡ ok (record { id = msg_extended; payload = 1 ∷ body }))
    × (decode body ≡ ok (dict (request_fields (pos 2))))
request_metadata_piece_after_handshake_example =
    request_metadata_piece_after_handshake no_extensions no_extensions (pos 2) (omega arith)
