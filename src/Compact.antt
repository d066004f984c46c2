-- ===== src/Compact.antt =====
-- Compact peers, six bytes each: `ParseCompactPeers` of tracker/tracker.go, `encodePeerList` and the
-- string case of `decodePeers` of dht/dht.go, over the peers of netaddr/peer.go.
pub mod Laws
mod Tests
use amish.Base.{
  ℕ, ◌+◌, ◌*◌, ◌%◌, ◌≡◌, refl, Bool, true, false, ◌&&◌, Option, none, some, List, [], ◌∷◌, ◌++◌,
  Bytes, bytes_eq, ◌==◌, if◌then◌else◌, length, take, drop, replicate, Result, ok, err,
}
use amish.Base.Wire.{put_u16}

-- An IP address is its bytes, four or sixteen.
pub record Peer : Type 0 where
  pub ip : Bytes
  pub port : ℕ

pub data Error : Type 0 where
  bad_response : Error

-- The loop `for i := 0; i+6 <= len(s); i += 6`.
unfoldable pub decode_peers : Bytes → List Peer
decode_peers (a ∷ b ∷ c ∷ d ∷ e ∷ f ∷ rest) =
    record { ip = a ∷ b ∷ c ∷ d ∷ []; port = e * 256 + f } ∷ decode_peers rest
decode_peers _ = []

unfoldable pub parse_compact_peers : Bytes → Result Error (List Peer)
unfolding decode_peers
parse_compact_peers s = if length s % 6 == 0 then ok (decode_peers s) else err bad_response

-- `To4` of net.IP: four bytes are themselves, sixteen are an IPv4 address behind the prefix of the
-- mapped addresses.
unfoldable pub to4 : Bytes → Option Bytes
to4 ip =
    if length ip == 4
    then some ip
    else if length ip == 16 && bytes_eq (take 12 ip) (replicate 10 0 ++ 255 ∷ 255 ∷ [])
    then some (drop 12 ip)
    else none

-- A peer that has no IPv4 address is skipped.
unfoldable pub encode_peer_list : List Peer → Bytes
unfolding to4
encode_peer_list [] = []
encode_peer_list (p ∷ ps) =
    let rest = encode_peer_list ps in
    elim (to4 p.ip) [ none ↦ rest | some ip ↦ ip ++ (put_u16 p.port ++ rest) ]
