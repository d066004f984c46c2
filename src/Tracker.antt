-- ===== src/Tracker.antt =====
-- tracker/tracker.go: what is sent to a tracker and what is made of its answers. An error is its
-- kind. `parse_ip` is net.ParseIP, whose result may be nil, and has no bytes then.
pub mod Udp
pub mod Http
pub mod Packet
mod Tests
use amish.Base.{
  ℕ, suc, ◌+◌, ◌-◌, ◌%◌, ◌^◌, ◌≡◌, refl, Bool, true, false, ◌||◌, not, Option, none, some, List, [],
  ◌∷◌, ◌++◌, Bytes, codes, bytes_eq, ltb, ◌==◌, if◌then◌else◌, length, take, drop, replicate,
  Result, ok, err, panic, ◌>>=◌, ◌>>◌, guard, require, map_err,
}
use amish.Base.Int.{ℤ, pos, eq_int, to_word}
use amish.Base.Wire.{put_u16, put_u32, put_u64, uint32, uint64, put_at}
use amish.Bencode.{
  Value, Items, Fields, string, list, nil, cons, lookup, as_string, as_int64, as_dict, get_as,
}
use amish.Bencode.Decode.{decode}
use amish.Compact.{Peer, parse_compact_peers}

pub data Error : Type 0 where
  bad_response tracker_failure write_failed read_failed : Error

-- `s, _ := v.(string)` and `n, _ := v.(int64)` give the zero value if the assertion fails.
abbrev pub string_or : Option Bytes → Bytes
string_or none = []
string_or (some s) = s

abbrev pub int_or : Option ℤ → ℤ
int_or none = pos 0
int_or (some n) = n

module _ (parse_ip : Bytes → Bytes) where
  -- One round of the loop of `parseDictPeers`; `uint16(port)` keeps the low bits.
  unfoldable pub dict_peer : Fields → Option Peer
  dict_peer d =
      let ip = string_or (get_as as_string (codes "ip") d) in
      let port = int_or (get_as as_int64 (codes "port") d) in
      if bytes_eq ip [] || eq_int port (pos 0)
      then none
      else some (record { ip = parse_ip ip; port = to_word port % 2 ^ 16 })

  abbrev pub add_peer : Option Peer → List Peer → List Peer
  add_peer none ps = ps
  add_peer (some p) ps = p ∷ ps

  unfoldable pub parse_dict_peers : Items → List Peer
  unfolding dict_peer
  parse_dict_peers nil = []
  parse_dict_peers (cons item items) =
      let rest = parse_dict_peers items in
      elim (as_dict item) [ none ↦ rest | some d ↦ add_peer (dict_peer d) rest ]

  -- The switch on the type of the value.
  unfoldable pub peers_of : Value → Result Error (List Peer)
  unfolding parse_dict_peers
  peers_of (string p) = map_err (λ _. bad_response) (parse_compact_peers p)
  peers_of (list items) = ok (parse_dict_peers items)
  peers_of _ = err bad_response

  unfoldable pub parse_peers : Fields → Result Error (List Peer)
  unfolding peers_of
  parse_peers d = do v ← require (lookup (codes "peers") d) bad_response; peers_of v

  abbrev pub unless_failed : Option Bytes → Fields → Result Error (List Peer)
  unless_failed (some reason) d = err tracker_failure
  unless_failed none d = parse_peers d

  unfoldable pub parse_http_response : Bytes → Result Error (List Peer)
  unfolding parse_peers
  parse_http_response body = do
    decoded ← map_err (λ _. bad_response) (decode body)
    d ← require (as_dict decoded) bad_response
    unless_failed (get_as as_string (codes "failure reason") d) d

-- A connection over UDP is the datagrams that will come before its deadline.
abbrev pub Datagrams : Type 0
Datagrams = List Bytes

-- io.ReadFull: a datagram that is too short is followed by the next; what does not fit is dropped.
unfoldable pub read_full : ℕ → Datagrams → Result Error (Bytes × Datagrams)
read_full n [] = if n == 0 then ok ([], []) else err read_failed
read_full n (d ∷ ds) =
    let got = take n d in
    let more = read_full (n - length d) ds in
    if n == 0 then ok ([], d ∷ ds) else (do (s, rest) ← more; ok (got ++ s, rest))

unfoldable pub connect_request : ℕ → Bytes
connect_request transaction_id =
    let req = put_at (replicate 16 0) 0 (put_u64 4497486125440) in
    let req = put_at req 8 (put_u32 0) in put_at req 12 (put_u32 transaction_id)

-- What the connect response holds: the connection id.
unfoldable pub check_connect : ℕ → Bytes → Result Error ℕ
check_connect transaction_id resp = do
  guard (uint32 (take 4 resp) == 0) bad_response
  guard (uint32 (take 4 (drop 4 resp)) == transaction_id) bad_response
  ok (uint64 (drop 8 resp))

-- `can_write` is whether the request can be sent.
unfoldable pub udp_connect_handshake : ℕ → Bool → Datagrams → Result Error (ℕ × Datagrams)
unfolding read_full check_connect
udp_connect_handshake transaction_id can_write ds = do
  guard can_write write_failed
  (resp, rest) ← read_full 16 ds
  id ← check_connect transaction_id resp
  ok (id, rest)

pub record AnnounceParams : Type 0 where
  pub info_hash : Bytes
  pub peer_id : Bytes
  pub port : ℕ
  pub left : ℤ

-- The buffer of 98 bytes, written field by field.
unfoldable pub announce_request : ℕ → ℕ → AnnounceParams → Bytes
announce_request connection_id transaction_id params =
    let req = put_at (replicate 98 0) 0 (put_u64 connection_id) in
    let req = put_at req 8 (put_u32 1) in
    let req = put_at req 12 (put_u32 transaction_id) in
    let req = put_at req 16 params.info_hash in
    let req = put_at req 36 params.peer_id in
    let req = put_at req 64 (put_u64 (to_word params.left)) in
    let req = put_at req 80 (put_u32 2) in
    let req = put_at req 92 (put_u32 4294967295) in put_at req 96 (put_u16 params.port)

-- One read into a buffer of 2048 bytes.
unfoldable pub read_one : Datagrams → Result Error Bytes
read_one [] = err read_failed
read_one (d ∷ ds) = ok (take 2048 d)

unfoldable pub check_announce : Bytes → Result Error (List Peer)
check_announce resp = do
  guard (not (ltb (length resp) 20)) bad_response
  guard (uint32 (take 4 resp) == 1) bad_response
  map_err (λ _. bad_response) (parse_compact_peers (drop 20 resp))

-- The transaction id of the response is not looked at.
unfoldable pub udp_announce_request : Bool → Datagrams → Result Error (List Peer)
unfolding read_one check_announce
udp_announce_request can_write ds = do
  guard can_write write_failed
  resp ← read_one ds
  check_announce resp

-- `announceUDP` on a connection: the packets sent, if every write succeeds, and the peers.
unfoldable pub announce_udp :
    ℕ → ℕ → AnnounceParams → Datagrams → Result Error (List Bytes × List Peer)
unfolding udp_connect_handshake udp_announce_request
announce_udp connect_id announce_id params ds = do
  (connection_id, rest) ← udp_connect_handshake connect_id true ds
  peers ← udp_announce_request true rest
  ok (connect_request connect_id ∷ announce_request connection_id announce_id params ∷ [], peers)
