-- ===== src/Dht/Answer.antt =====
-- A query for peers, from one client to another and back.
use amish.Base.{
  suc, ◌≤◌, ◌≡◌, refl, ap, ◌∙◌, none, some, List, [], ◌∷◌, ◌++◌, Bytes, codes, eq→==, length, arith,
  All, ok,
}
use amish.Bencode.{Fields, string, bytes, dict, end, field, insert, lookup, max_alloc}
use amish.Bencode.Encode.{encode}
use amish.Bencode.Decode.{decode}
use amish.Bencode.WellFormed.{canon, IsEncodable}
use amish.Bencode.Sound.Total.{decode-encode}
use amish.Compact.{Peer, encode_peer_list}
use amish.Compact.Laws.{HasPort, v4_peers, decode_peers-encode_peer_list}
use amish.Dht.{
  Library, Client, query_get_peers, query_message, known_peers, xor_bytes, gen_token,
  peers_or_nodes, reply_to, handle_query, handle_response, handle, receive, deliver, enter_query,
  response_of, decode_values, peers_in,
}
use amish.Dht.Query.{deliver-enter_query}

length-xor_bytes : (secret h : Bytes) → length (xor_bytes secret h) ≡ length secret
unfolding xor_bytes
length-xor_bytes [] h = refl
length-xor_bytes (s ∷ secret) [] = refl
length-xor_bytes (s ∷ secret) (b ∷ h) = ap suc (length-xor_bytes secret h)

-- The arguments of the query, and the map of the response that carries peers.
abbrev pub asking : Bytes → Bytes → Fields
asking id h = field (codes "id") (bytes id) (field (codes "info_hash") (bytes h) end)

abbrev pub telling : Bytes → Bytes → Bytes → Fields
telling id token values =
    field (codes "id") (bytes id)
      (field (codes "token") (bytes token) (field (codes "values") (string values) end))

abbrev told : Bytes → Bytes → Bytes → Fields
told id token values =
    field (codes "id") (string id)
      (field (codes "token") (string token) (field (codes "values") (string values) end))

abbrev reply_message : Bytes → Fields → Fields
reply_message tid r =
    field (codes "t") (string tid)
      (field (codes "y") (string (codes "r")) (field (codes "r") (dict r) end))

-- The messages as they are decoded: the keys in order, and strings for bytes.
canon-query :
    (tid id h : Bytes)
    → canon (dict (query_message tid query_get_peers (asking id h)))
      ≡ dict (
          field
            (codes "a")
            (dict (field (codes "id") (string id) (field (codes "info_hash") (string h) end)))
            (field
              (codes "q")
              (string query_get_peers)
              (field (codes "t") (string tid) (field (codes "y") (string (codes "q")) end))))
canon-query tid id h = unfold canon in refl

canon-reply :
    (tid id token values : Bytes)
    → canon (dict (reply_message tid (telling id token values)))
      ≡ dict (
          field
            (codes "r")
            (dict (told id token values))
            (field (codes "t") (string tid) (field (codes "y") (string (codes "r")) end)))
canon-reply tid id token values = unfold canon in refl

query-IsEncodable :
    (tid id h : Bytes)
    → length tid ≤ max_alloc
    → length id ≤ max_alloc
    → length h ≤ max_alloc
    → IsEncodable (dict (query_message tid query_get_peers (asking id h)))
query-IsEncodable tid id h ht hi hh = (
  ((refl, (refl, (refl, tt))), ((refl, (refl, tt)), ((refl, tt), (tt, tt)))),
  (
    omega arith,
    ht,
    (
      omega arith,
      omega arith,
      (
        omega arith,
        omega arith,
        (omega arith, (((refl, tt), (tt, tt)), (omega arith, hi, (omega arith, hh, tt))), tt),
      ),
    ),
  ),
)

reply-IsEncodable :
    (tid id token values : Bytes)
    → length tid ≤ max_alloc
    → length id ≤ max_alloc
    → length token ≤ max_alloc
    → length values ≤ max_alloc
    → IsEncodable (dict (reply_message tid (telling id token values)))
reply-IsEncodable tid id token values ht hi hk hv = (
  ((refl, (refl, tt)), ((refl, tt), (tt, tt))),
  (
    omega arith,
    ht,
    (
      omega arith,
      omega arith,
      (
        omega arith,
        (
          ((refl, (refl, tt)), ((refl, tt), (tt, tt))),
          (omega arith, hi, (omega arith, hk, (omega arith, hv, tt))),
        ),
        tt,
      ),
    ),
  ),
)

module _ (lib : Library) where
  receive_dict :
      (c : Client) (addr packet : Bytes) (msg : Fields)
      → decode packet ≡ ok (dict msg)
      → receive lib c addr packet ≡ some (handle lib c addr msg)
  unfolding receive
  receive_dict c addr packet msg e = rw (e, receive) refl

  -- The answer to a query for peers that are known.
  reply_to_known :
      (c : Client) (addr id h : Bytes) (p : Peer) (ps : List Peer)
      → length h ≡ 20
      → known_peers h c.peers ≡ p ∷ ps
      → reply_to lib c addr query_get_peers
          (field (codes "id") (string id) (field (codes "info_hash") (string h) end))
        ≡ telling c.id (gen_token lib c addr) (encode_peer_list (p ∷ ps))
  unfolding reply_to lookup insert
  reply_to_known c addr id h p ps size known = rw (eq→== (length h) 20 size) (
      ap
        (λ qs. peers_or_nodes lib c qs (
          insert (codes "token") (bytes (gen_token lib c addr))
            (field (codes "id") (bytes c.id) end)))
        known)

  -- The other client reads the query, and answers it.
  handle_asked :
      (c : Client) (addr tid id h : Bytes) (p : Peer) (ps : List Peer)
      → length h ≡ 20
      → known_peers h c.peers ≡ p ∷ ps
      → handle lib c addr (
          field
            (codes "a")
            (dict (field (codes "id") (string id) (field (codes "info_hash") (string h) end)))
            (field
              (codes "q")
              (string query_get_peers)
              (field (codes "t") (string tid) (field (codes "y") (string (codes "q")) end))))
        ≡ (
          c,
          some
              (reply_message tid (telling c.id (gen_token lib c addr) (encode_peer_list (p ∷ ps)))),
        )
  unfolding handle handle_query lookup
  handle_asked c addr tid id h p ps size known =
      ap (λ r. (c, some (reply_message tid r))) (reply_to_known c addr id h p ps size known)

  -- The first client reads the answer.
  handle_answered :
      (c : Client) (addr tid : Bytes) (r : Fields)
      → handle lib c addr (
          field
            (codes "r")
            (dict r)
            (field (codes "t") (string tid) (field (codes "y") (string (codes "r")) end)))
        ≡ (record c { queries = deliver tid r c.queries }, none)
  unfolding handle handle_response lookup
  handle_answered c addr tid r = refl

  peers_in-told :
      (id token : Bytes) (ps : List Peer)
      → All HasPort ps
      → peers_in lib (told id token (encode_peer_list ps)) ≡ v4_peers ps
  unfolding peers_in lookup decode_values
  peers_in-told id token ps ports = decode_peers-encode_peer_list ps ports

  -- A client that asks another one for the peers of an info hash, under an id of its choice, and the
  -- other one knows some: its query can be encoded, the other one's answer, too, whatever the routing
  -- tables hold, and when both have arrived the query has a response, whose peers are the known ones
  -- that have an IPv4 address, in its form of four bytes. The texts can be allocated, and ports are
  -- below 2^16.
  pub get_peers_complete :
      (a b : Client) (addr_a addr_b tid h : Bytes) (p : Peer) (ps : List Peer)
      → known_peers h b.peers ≡ p ∷ ps
      → All HasPort (p ∷ ps)
      → length h ≡ 20
      → length tid ≤ max_alloc
      → length a.id ≤ max_alloc
      → length b.id ≤ max_alloc
      → length b.secret ≤ max_alloc
      → length (encode_peer_list (p ∷ ps)) ≤ max_alloc
      → (query : Bytes) × (answer : Bytes) × (reply : Fields) × (resp : Fields) × (encode
            (dict (query_message tid query_get_peers (asking a.id h)))
          ≡ ok query)
        × (receive lib b addr_a query ≡ some (b, some reply))
        × (encode (dict reply) ≡ ok answer)
        × (receive lib (record a { queries = enter_query tid a.queries }) addr_b answer
            ≡ some (record a { queries = deliver tid resp (enter_query tid a.queries) }, none))
        × (response_of tid (deliver tid resp (enter_query tid a.queries)) ≡ some resp)
        × (peers_in lib resp ≡ v4_peers (p ∷ ps))
  get_peers_complete a b addr_a addr_b tid h p ps known ports size ht ha hb hs hv =
      let token = gen_token lib b addr_a in
      let values = encode_peer_list (p ∷ ps) in
      let (query, enc_q, dec_q) =
        decode-encode (dict (query_message tid query_get_peers (asking a.id h)))
          (query-IsEncodable tid a.id h ht ha (omega arith)) in
      let (answer, enc_r, dec_r) =
        decode-encode (dict (reply_message tid (telling b.id token values)))
          (reply-IsEncodable tid b.id token values ht hb (short b addr_a hs) hv) in
      (
        query,
        answer,
        reply_message tid (telling b.id token values),
        told b.id token values,
        enc_q,
        receive_dict b addr_a query _ (dec_q ∙ ap ok (canon-query tid a.id h))
            ∙ ap some (handle_asked b addr_a tid a.id h p ps size known),
        enc_r,
        receive_dict _ addr_b answer _ (dec_r ∙ ap ok (canon-reply tid b.id token values))
            ∙ ap some (handle_answered _ addr_b tid (told b.id token values)),
        deliver-enter_query tid (told b.id token values) a.queries,
        peers_in-told b.id token (p ∷ ps) ports,
      )
    where
      short :
          (b : Client) (addr : Bytes)
          → length b.secret ≤ max_alloc
          → length (gen_token lib b addr) ≤ max_alloc
      short b addr hs =
          unfold gen_token in
          omega (arith, length-xor_bytes b.secret (lib.sha1 (addr ++ b.secret)), hs)
