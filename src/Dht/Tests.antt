-- ===== src/Dht/Tests.antt =====
-- Theorems on the clients of the DHT at concrete ones.
use mathlib.Core.List.{Permᴰ}
use mathlib.Core.List.Permᴰ
use amish.Base.{
  ℕ, ◌≡◌, refl, Option, none, some, List, [], ◌∷◌, ◌++◌, Bytes, codes, bytes_eq, if◌then◌else◌,
  take, drop, replicate, ok, arith,
}
use amish.Base.Int.{pos}
use amish.Base.Wire.{put_u16, uint16}
use amish.Bencode.{Fields, string, dict, field, end, lookup}
use amish.Bencode.Encode.{encode}
use amish.Compact.{Peer, to4, encode_peer_list}
use amish.Compact
use amish.Compact.Laws.{v4_peers}
use amish.Dht.{
  Library, Client, query_get_peers, query_message, known_peers, receive, deliver, enter_query,
  response_of, decode_values, peers_in,
}
use amish.Dht.Nodes.{Node}
use amish.Dht.Query.{deliver_lem}
use amish.Dht.Search.{get_peers, get_peers_again}
use amish.Dht.Answer.{asking, get_peers_complete}

-- Addresses that are the bytes themselves.
abbrev addr_of : Bytes → ℕ → Bytes
addr_of ip port = ip ++ put_u16 port

abbrev reverse_onto : List Node → List Node → List Node
reverse_onto [] ms = ms
reverse_onto (n ∷ ns) ms = reverse_onto ns (n ∷ ms)

abbrev reversed : List Node → List Node
reversed ns = reverse_onto ns []

abbrev lib : Library
lib = record {
  sha1 = λ s. replicate 20 1;
  split_host_port = λ a. some (take 4 a, drop 4 a);
  parse_ip = λ s. s;
  scan_int = λ s. pos (uint16 s);
  range = reversed;
}

abbrev named : ℕ → Node
named n = record { id = replicate 20 n; addr = addr_of (10 ∷ 0 ∷ 0 ∷ n ∷ []) 6881 }

abbrev knowing : Client
knowing = record {
  id = replicate 20 1;
  secret = replicate 4 1;
  nodes = named 5 ∷ named 6 ∷ [];
  peers = [];
  queries = [];
}

abbrev asked : Fields
asked = field (codes "target") (string (replicate 20 9)) end

abbrev searched : Fields
searched = field (codes "info_hash") (string (replicate 20 3)) end

abbrev node : ℕ → Node
node n = record { id = n ∷ []; addr = n ∷ [] }

deliver_lem_example :
    (response_of
        (1 ∷ [])
        (deliver (1 ∷ []) end (deliver (1 ∷ []) (asking [] []) (enter_query (1 ∷ []) [])))
      ≡ some (asking [] []))
    × (response_of (2 ∷ []) (deliver (1 ∷ []) (asking [] []) (enter_query (1 ∷ []) []))
        ≡ response_of (2 ∷ []) [])
deliver_lem_example = deliver_lem (1 ∷ []) (2 ∷ []) (asking [] []) end [] refl

abbrev hash : Bytes
hash = replicate 20 3

abbrev peer : Peer
peer = record { ip = 10 ∷ 0 ∷ 0 ∷ 1 ∷ []; port = 80 }

abbrev asker : Client
asker = record { id = replicate 20 1; secret = replicate 4 1; nodes = []; peers = []; queries = [] }

abbrev teller : Client
teller = record asker { id = replicate 20 2; peers = (hash, peer ∷ []) ∷ [] }

knows : known_peers hash teller.peers ≡ peer ∷ []
unfolding known_peers
knows = refl

get_peers_complete_example :
    (query : Bytes) × (answer : Bytes) × (reply : Fields) × (resp : Fields) × (encode
        (dict (query_message (7 ∷ 8 ∷ []) query_get_peers (asking asker.id hash)))
      ≡ ok query)
    × (receive lib teller (codes "a") query ≡ some (teller, some reply))
    × (encode (dict reply) ≡ ok answer)
    × (receive lib (record asker { queries = enter_query (7 ∷ 8 ∷ []) [] }) (codes "b") answer
        ≡ some (
          record asker { queries = deliver (7 ∷ 8 ∷ []) resp (enter_query (7 ∷ 8 ∷ []) []) },
          none,
        ))
    × (response_of (7 ∷ 8 ∷ []) (deliver (7 ∷ 8 ∷ []) resp (enter_query (7 ∷ 8 ∷ []) []))
        ≡ some resp)
    × (peers_in lib resp ≡ v4_peers (peer ∷ []))
get_peers_complete_example =
    get_peers_complete lib asker teller (codes "a") (codes "b") (7 ∷ 8 ∷ []) hash peer [] knows
      (omega arith, tt) refl (omega arith) (omega arith) (omega arith) (omega arith)
      (unfold encode_peer_list to4 in omega arith)

abbrev table : Client
table = record asker { nodes = node 1 ∷ node 2 ∷ [] }

-- The first node answers with a peer.
abbrev answers : Node → Option Fields
answers n =
    if bytes_eq n.addr (1 ∷ [])
    then some (field (codes "values") (string (10 ∷ 0 ∷ 0 ∷ 1 ∷ 0 ∷ 80 ∷ [])) end)
    else none

abbrev found : Client
found = record table { peers = (hash, peer ∷ []) ∷ [] }

finds : get_peers lib addr_of answers hash table ≡ (found, peer ∷ [])
unfolding get_peers known_peers lookup peers_in decode_values Compact.decode_peers
finds = refl

get_peers_again_example :
    (known_peers hash found.peers ≡ peer ∷ [])
    × (get_peers lib addr_of (λ n. none) hash found ≡ (found, peer ∷ []))
get_peers_again_example =
    get_peers_again lib addr_of answers (λ n. none) hash table found peer []
      (unfold known_peers in refl) finds
