-- ===== src/Tracker/Http.antt =====
-- A tracker that answers over HTTP with a bencoded map.
use amish.Base.{◌≡◌, refl, ap, ◌∙◌, none, some, List, Bytes, codes, ok, All}
use amish.Bencode.{Fields, string, dict, lookup, as_string, get_as}
use amish.Bencode.Encode.{encode}
use amish.Bencode.Decode.{decode}
use amish.Bencode.WellFormed.{canon, canon_fields, sort_fields, IsEncodable}
use amish.Bencode.Maps.{lookup-canon, lookup-canon_none}
use amish.Bencode.Sound.Total.{decode-encode}
use amish.Compact.{Peer, parse_compact_peers, encode_peer_list}
use amish.Compact.Laws.{HasPort, v4_peers, parse_compact_peers-encode_peer_list}
use amish.Tracker.{parse_peers, unless_failed, parse_http_response}

parse_peers_string :
    (parse_ip : Bytes → Bytes) (d : Fields) (s : Bytes) (ps : List Peer)
    → lookup (codes "peers") d ≡ some (string s)
    → parse_compact_peers s ≡ ok ps
    → parse_peers parse_ip d ≡ ok ps
unfolding parse_peers
parse_peers_string parse_ip d s ps e h = rw (e, h) refl

failure_of :
    (parse_ip : Bytes → Bytes) (d : Fields)
    → lookup (codes "failure reason") d ≡ none
    → unless_failed parse_ip (get_as as_string (codes "failure reason") d) d
      ≡ parse_peers parse_ip d
failure_of parse_ip d e =
    ap (λ o. unless_failed parse_ip (elim o [ none ↦ none | some v ↦ as_string v ]) d) e

read_answer :
    (parse_ip : Bytes → Bytes) (b : Bytes) (d : Fields)
    → decode b ≡ ok (dict d)
    → parse_http_response parse_ip b
      ≡ unless_failed parse_ip (get_as as_string (codes "failure reason") d) d
unfolding parse_http_response
read_answer parse_ip b d e = rw e refl

-- A tracker that answers with any encodable map that has no failure reason, and the compact form of
-- some peers under its key, is understood: the peers that have an IPv4 address come back, in its form
-- of four bytes, with their ports, in the same order; ports are below 2^16.
pub parse_http_response-encode :
    (parse_ip : Bytes → Bytes) (m : Fields) (ps : List Peer)
    → IsEncodable (dict m)
    → lookup (codes "failure reason") m ≡ none
    → lookup (codes "peers") m ≡ some (string (encode_peer_list ps))
    → All HasPort ps
    → (b : Bytes) × (encode (dict m) ≡ ok b) × (parse_http_response parse_ip b ≡ ok (v4_peers ps))
parse_http_response-encode parse_ip m ps h no_failure peers ports =
    let (b, e, reads) = decode-encode (dict m) h in
    let d = sort_fields (canon_fields m) in
    (
      b,
      e,
      read_answer parse_ip b d (unfold canon in reads)
          ∙ failure_of parse_ip d (lookup-canon_none (codes "failure reason") m h.0 no_failure)
          ∙ parse_peers_string parse_ip d (encode_peer_list ps) (v4_peers ps)
              (unfold canon in
                lookup-canon (codes "peers") m (string (encode_peer_list ps)) h.0 peers)
              (parse_compact_peers-encode_peer_list ps ports),
    )
