-- ===== src/Dht.antt =====
-- dht/dht.go: the state of a client, and what it does with each message. Every map is guarded by its
-- own lock, and a handler is taken as one step. A map is the list of its entries, and a loop over one
-- meets them in an order of the runtime's choice.
pub mod Nodes
pub mod Table
pub mod Query
pub mod Answer
pub mod Search
pub mod Order
pub mod Named
mod Tests
use Prim.Native.Nat.{bit_xor}
use amish.Base.{
  ℕ, zero, suc, ◌+◌, ◌-◌, ◌*◌, ◌%◌, ◌^◌, ◌≡◌, refl, Bool, true, false, not, Option, none, some,
  List, [], ◌∷◌, ◌++◌, Bytes, codes, bytes_eq, ltb, leb, ◌==◌, if◌then◌else◌, length, take, drop,
  Result, ok, err, panic,
}
use amish.Base.Int.{ℤ, to_word}
use amish.Base.Wire.{put_u16}
use amish.Bencode.{
  Value, Items, Fields, string, bytes, list, dict, nil, cons, end, field, insert, as_string,
  as_int64, as_dict, get_as, lookup,
}
use amish.Bencode.Decode.{decode}
use amish.Compact.{Peer, to4, encode_peer_list}
use amish.Compact
use amish.Dht.Nodes.{Node, decode_nodes, add_nodes}

-- The functions of other packages: crypto/sha1, net.SplitHostPort, net.ParseIP (a nil result has no
-- bytes), and fmt.Sscanf with "%d". `range` is the order in which a loop over the nodes meets them.
pub record Library : Type 0 where
  pub sha1 : Bytes → Bytes
  pub split_host_port : Bytes → Option (Bytes × Bytes)
  pub parse_ip : Bytes → Bytes
  pub scan_int : Bytes → ℤ
  pub range : List Node → List Node

-- A channel of capacity one: the response, once it came.
pub record Client : Type 0 where
  pub id : Bytes
  pub secret : Bytes
  pub nodes : List Node
  pub peers : List (Bytes × List Peer)
  pub queries : List (Bytes × Option Fields)

abbrev pub query_ping : Bytes
query_ping = codes "ping"

abbrev pub query_find_node : Bytes
query_find_node = codes "find_node"

abbrev pub query_get_peers : Bytes
query_get_peers = codes "get_peers"

-- The message that `query` sends.
abbrev pub query_message : Bytes → Bytes → Fields → Fields
query_message tid qtype args = field (codes "t") (string tid) (
    field (codes "y") (string (codes "q"))
      (field (codes "q") (string qtype) (field (codes "a") (dict args) end)))

-- A type assertion that fails gives the zero value: an empty string, or a nil map.
abbrev pub string_or : Option Bytes → Bytes
string_or none = []
string_or (some s) = s

abbrev pub dict_or : Option Fields → Fields
dict_or none = end
dict_or (some d) = d

-- `c.peers[infoHash]`
unfoldable pub known_peers : Bytes → List (Bytes × List Peer) → List Peer
known_peers h [] = []
known_peers h ((k, ps) ∷ rest) = if bytes_eq k h then ps else known_peers h rest

abbrev pub lets_through : Option (Node → Bool) → Node → Bool
lets_through none n = true
lets_through (some passes) n = passes n

-- The loop of `closestNodes`: `found` nodes were taken so far.
unfoldable pub closest_loop : Option (Node → Bool) → ℕ → List Node → List Node
closest_loop filter found [] = []
closest_loop filter found (n ∷ ns) =
    let skipped = closest_loop filter found ns in
    let rest = closest_loop filter (found + 1) ns in
    if lets_through filter n then if leb 8 (found + 1) then n ∷ [] else n ∷ rest else skipped

unfoldable pub closest_nodes : Option (Node → Bool) → List Node → List Node
unfolding closest_loop
closest_nodes filter nodes = closest_loop filter 0 nodes

-- The bytes of a digest over those of the secret, which are fewer.
unfoldable pub xor_bytes : Bytes → Bytes → Bytes
xor_bytes [] h = []
xor_bytes (s ∷ secret) [] = s ∷ secret
xor_bytes (s ∷ secret) (b ∷ h) = bit_xor s b ∷ xor_bytes secret h

-- A response goes to the query with its id, if that has none yet.
unfoldable pub deliver :
    Bytes → Fields → List (Bytes × Option Fields) → List (Bytes × Option Fields)
deliver t r [] = []
deliver t r ((k, ch) ∷ rest) =
    let others = deliver t r rest in
    if bytes_eq k t
    then (k, elim ch [ none ↦ some r | some old ↦ some old ]) ∷ rest
    else (k, ch) ∷ others

unfoldable pub handle_response : Client → Bytes → Fields → Client
unfolding deliver
handle_response c t msg = elim (get_as as_dict (codes "r") msg) [
  | none ↦ c
  | some r ↦ record c { queries = deliver t r c.queries }
]

module _ (lib : Library) where
  -- What `encodeCompactNodes` appends for a node: nothing where the address cannot be read.
  abbrev pub compact_host : Node → Option (Bytes × Bytes) → Bytes
  compact_host n none = []
  compact_host n (some (host, port)) = elim (to4 (lib.parse_ip host)) [
    | none ↦ []
    | some ip ↦ n.id ++ (ip ++ put_u16 (to_word (lib.scan_int port) % 2 ^ 16))
  ]

  unfoldable pub compact_node : Node → Bytes
  compact_node n = compact_host n (lib.split_host_port n.addr)

  unfoldable pub encode_compact_nodes : List Node → Bytes
  unfolding compact_node
  encode_compact_nodes [] = []
  encode_compact_nodes (n ∷ ns) = compact_node n ++ encode_compact_nodes ns

  unfoldable pub gen_token : Client → Bytes → Bytes
  unfolding xor_bytes
  gen_token c addr = xor_bytes c.secret (lib.sha1 (addr ++ c.secret))

  -- `if encoded := ...; len(encoded) > 0`
  unfoldable pub with_nodes : Client → Fields → Fields
  unfolding closest_nodes encode_compact_nodes
  with_nodes c r =
      let encoded = encode_compact_nodes (closest_nodes none (lib.range c.nodes)) in
      if ltb 0 (length encoded) then insert (codes "nodes") (string encoded) r else r

  abbrev pub peers_or_nodes : Client → List Peer → Fields → Fields
  peers_or_nodes c [] r = with_nodes c r
  peers_or_nodes c (p ∷ ps) r = insert (codes "values") (string (encode_peer_list (p ∷ ps))) r

  abbrev pub find_node_reply : Client → Option Bytes → Fields → Fields
  find_node_reply c none r = r
  find_node_reply c (some target) r = with_nodes c r

  abbrev pub get_peers_reply : Client → Bytes → Option Bytes → Fields → Fields
  get_peers_reply c addr none r = r
  get_peers_reply c addr (some h) r =
      if length h == 20
      then peers_or_nodes c (known_peers h c.peers)
          (insert (codes "token") (bytes (gen_token c addr)) r)
      else r

  -- The switch on the type of the query: the map under the key r.
  unfoldable pub reply_to : Client → Bytes → Bytes → Fields → Fields
  unfolding known_peers with_nodes gen_token
  reply_to c addr q args =
      let r = field (codes "id") (bytes c.id) end in
      if bytes_eq q query_ping
      then r
      else if bytes_eq q query_find_node
      then find_node_reply c (get_as as_string (codes "target") args) r
      else if bytes_eq q query_get_peers
      then get_peers_reply c addr (get_as as_string (codes "info_hash") args) r
      else r

  -- The message that is sent to the address of the query.
  unfoldable pub handle_query : Client → Bytes → Bytes → Fields → Fields
  unfolding reply_to
  handle_query c addr t msg = field (codes "t") (string t) (
      field (codes "y") (string (codes "r")) (
        field (codes "r")
          (dict (
            reply_to c addr (string_or (get_as as_string (codes "q") msg))
              (dict_or (get_as as_dict (codes "a") msg))))
          end))

  -- The new state, and the message that is sent back, if any.
  unfoldable pub handle : Client → Bytes → Fields → Client × Option Fields
  unfolding handle_query handle_response
  handle c addr msg =
      let y = string_or (get_as as_string (codes "y") msg) in
      let t = string_or (get_as as_string (codes "t") msg) in
      if bytes_eq y (codes "q")
      then (c, some (handle_query c addr t msg))
      else if bytes_eq y (codes "r")
      then (handle_response c t msg, none)
      else (c, none)

  -- A datagram that `recvLoop` reads: one over UDP has 65507 bytes at most, so that the buffer of
  -- 65536 holds all of it. A panic of the decoder ends the process.
  unfoldable pub receive : Client → Bytes → Bytes → Option (Client × Option Fields)
  unfolding handle
  receive c addr packet = elim (decode packet) [
    | panic ↦ none
    | err e ↦ some (c, none)
    | ok v ↦ elim (as_dict v) [ none ↦ some (c, none) | some msg ↦ some (handle c addr msg) ]
  ]

  -- `decodePeers`, for a value of any type.
  unfoldable pub dict_peers : Items → List Peer
  dict_peers nil = []
  dict_peers (cons v vs) =
      let rest = dict_peers vs in
      elim (as_dict v) [
        | none ↦ rest
        | some d ↦ elim (get_as as_string (codes "ip") d) [
          | none ↦ rest
          | some ip ↦ elim (get_as as_int64 (codes "port") d) [
            | none ↦ rest
            | some port ↦ record { ip = lib.parse_ip ip; port = to_word port % 2 ^ 16 } ∷ rest
          ]
        ]
      ]

  unfoldable pub decode_values : Value → List Peer
  unfolding dict_peers
  decode_values (string s) = Compact.decode_peers s
  decode_values (list vs) = dict_peers vs
  decode_values _ = []

-- `query`: the id is entered in the table, and taken out again when the query ends.
unfoldable pub enter_query : Bytes → List (Bytes × Option Fields) → List (Bytes × Option Fields)
enter_query t [] = (t, none) ∷ []
enter_query t ((k, ch) ∷ rest) =
    let others = enter_query t rest in if bytes_eq k t then (k, none) ∷ rest else (k, ch) ∷ others

unfoldable pub leave_query : Bytes → List (Bytes × Option Fields) → List (Bytes × Option Fields)
leave_query t [] = []
leave_query t ((k, ch) ∷ rest) =
    let others = leave_query t rest in if bytes_eq k t then rest else (k, ch) ∷ others

-- What the channel of a query holds.
unfoldable pub response_of : Bytes → List (Bytes × Option Fields) → Option Fields
response_of t [] = none
response_of t ((k, ch) ∷ rest) = if bytes_eq k t then ch else response_of t rest

-- What `GetPeers` takes from a response to its query: the peers.
unfoldable pub peers_in : Library → Fields → List Peer
unfolding decode_values
peers_in lib resp = elim (lookup (codes "values") resp) [ none ↦ [] | some v ↦ decode_values lib v ]
