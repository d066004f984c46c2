-- ===== src/Compact/Tests.antt =====
-- Theorems on compact peers at concrete ones.
use amish.Base.{◌≡◌, refl, List, [], ◌∷◌, ◌++◌, Bytes, length, replicate, ok, err, arith}
use amish.Compact.{Peer, bad_response, parse_compact_peers, encode_peer_list, to4}
use amish.Compact.Laws.{
  v4_peers, parse_compact_peers-encode_peer_list, encode_peer_list-parse_compact_peers,
}

-- An IPv4 address in both forms, and one that is IPv6.
abbrev some_peers : List Peer
some_peers =
    record { ip = 10 ∷ 0 ∷ 0 ∷ 1 ∷ []; port = 6881 }
    ∷ record { ip = 254 ∷ replicate 15 0; port = 1 }
    ∷ record { ip = replicate 10 0 ++ 255 ∷ 255 ∷ 1 ∷ 2 ∷ 3 ∷ 4 ∷ []; port = 80 }
    ∷ []

parse_compact_peers-encode_peer_list_example :
    parse_compact_peers (encode_peer_list some_peers) ≡ ok (v4_peers some_peers)
parse_compact_peers-encode_peer_list_example =
    parse_compact_peers-encode_peer_list some_peers (omega arith, (omega arith, (omega arith, tt)))

two_are_left : length (v4_peers some_peers) ≡ 2
unfolding v4_peers to4
two_are_left = refl

abbrev six_bytes : Bytes
six_bytes = 10 ∷ 0 ∷ 0 ∷ 1 ∷ 26 ∷ 225 ∷ []

encode_peer_list-parse_compact_peers_example :
    (ps : List Peer) × (parse_compact_peers six_bytes ≡ ok ps) × (encode_peer_list ps ≡ six_bytes)
encode_peer_list-parse_compact_peers_example =
    encode_peer_list-parse_compact_peers six_bytes
      (omega arith, (omega arith, (omega arith, (omega arith, (omega arith, (omega arith, tt))))))
      refl

cut_short : parse_compact_peers (1 ∷ []) ≡ err bad_response
unfolding parse_compact_peers
cut_short = refl
