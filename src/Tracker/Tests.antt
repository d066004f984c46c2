-- ===== src/Tracker/Tests.antt =====
-- Theorems on the answers of trackers at concrete ones.
use amish.Base.{◌≡◌, refl, List, [], ◌∷◌, Bytes, codes, length, replicate, ok, err, arith}
use amish.Base.Int.{pos}
use amish.Base.Decimal.{parse_int}
use amish.Bencode.{Fields, field, end, int64, string, dict, lookup}
use amish.Bencode.Encode.{encode}
use amish.Bencode.Decode.{decode}
use amish.Compact.{Peer, encode_peer_list, to4}
use amish.Compact.Laws.{v4_peers}
use amish.Tracker.{
  AnnounceParams, announce_request, announce_udp, connect_request, parse_http_response,
  tracker_failure, bad_response,
}
use amish.Tracker.Packet.{announce_layout, announce_request_layout}
use amish.Tracker.Udp.{connect_response, announce_response, announce_udp_complete}
use amish.Tracker.Http.{parse_http_response-encode}

abbrev params : AnnounceParams
params = record { info_hash = replicate 20 1; peer_id = replicate 20 2; port = 6881; left = pos 5 }

abbrev one_peer : List Peer
one_peer = record { ip = 10 ∷ 0 ∷ 0 ∷ 1 ∷ []; port = 80 } ∷ []

announce_request_layout_example :
    (announce_request 7 9 params ≡ announce_layout 7 9 params)
    × (length (announce_request 7 9 params) ≡ 98)
announce_request_layout_example = announce_request_layout 7 9 params refl refl

announce_udp_complete_example :
    announce_udp 5 6 params
      (connect_response 5 77 ∷ announce_response (replicate 16 0) one_peer ∷ [])
    ≡ ok (connect_request 5 ∷ announce_request 77 6 params ∷ [], v4_peers one_peer)
announce_udp_complete_example =
    announce_udp_complete 5 6 77 params (replicate 16 0) one_peer [] (omega arith) (omega arith)
      refl (unfold encode_peer_list to4 in omega arith) (omega arith, tt)

-- Another transaction id is refused.
other_id : announce_udp 5 6 params (connect_response 4 77 ∷ []) ≡ err bad_response
unfolding announce_udp
other_id = refl

abbrev compact : Bytes
compact = 10 ∷ 0 ∷ 0 ∷ 1 ∷ 0 ∷ 80 ∷ []

abbrev answer : Fields
answer = field (codes "interval") (int64 (pos 9)) (field (codes "peers") (string compact) end)

abbrev no_ip : Bytes → Bytes
no_ip s = []

parse_http_response-encode_example :
    (b : Bytes) × (encode (dict answer) ≡ ok b)
    × (parse_http_response no_ip b ≡ ok (v4_peers one_peer))
parse_http_response-encode_example =
    parse_http_response-encode no_ip answer one_peer
      (
        ((refl, tt), (tt, tt)),
        (omega arith, (omega arith, omega arith), (omega arith, omega arith, tt)),
      )
      (unfold lookup in refl) (unfold lookup encode_peer_list to4 in refl) (omega arith, tt)

failed : parse_http_response no_ip (codes "d14:failure reason1:xe") ≡ err tracker_failure
unfolding parse_http_response decode parse_int lookup
failed = refl
