-- ===== src/Torrent/Metadata/Tests.antt =====
-- Theorems on the exchange of metadata, at a peer that answers for the one piece there is.
use amish.Base.{
  ℕ, ◌<◌, ◌≡◌, ◌≢◌, ◌||◌, ◌==◌, refl, true, false, Option, none, some, List, [], ◌∷◌, ◌++◌, Bytes,
  codes, length, map, ok, err, arith, map_err, ap, ◌>>=◌,
}
use amish.Base.Int.{pos}
use amish.Base.Decimal.{parse_int, format_int}
use amish.Bencode.{Fields, int64, dict, field, end, lookup}
use amish.Bencode.Decode.{decode}
use amish.Bencode.Encode.{encode}
use amish.Metainfo.{Info}
use amish.Metainfo.Parse.{parse}
use amish.Compact.{Peer}
use amish.Peer.Message.{Message, write_message, msg_unchoke, msg_extended}
use amish.Peer.Extension.{
  Extensions, no_extensions, ut_metadata, get_id, send_extension_handshake,
  handle_extension_handshake,
}
use amish.Torrent.Metadata.{
  metainfo, out_of_fuel, Dialled, read_metadata_from_peer, try_peer, fetch_metadata,
}
use amish.Torrent.Metadata.Dedup.{seen_addr, dedup_peers, IsDistinct}
use amish.Tracker.{read_failed}
use amish.Torrent.Discovery.{
  metadata, Answer, is_named, discover_peers, discover_and_fetch_metadata,
  discover_and_fetch_metadata_sound,
}
use amish.Torrent.Metadata.Sound.{IsAuthentic, read_metadata_from_peer-ne-out_of_fuel}
use amish.Torrent.Metadata.Served.{Reply, IsReply, chatter, answer}
use amish.Torrent.Metadata.Complete.{
  hello_message, write_all, write_replies, read_metadata_from_peer_complete,
}

abbrev by_length : Bytes → Bytes
by_length s = length s ∷ []

abbrev raw : Bytes
raw = codes "d6:lengthi0e4:name1:a12:piece lengthi1e6:pieces0:e"

abbrev info : Info
info = record { name = codes "a"; piece_length = pos 1; pieces = []; size = pos 0; files = [] }

abbrev hello : Bytes
hello = codes "d1:md11:ut_metadatai3ee13:metadata_sizei50ee"

abbrev met : Extensions
met = record {
  extension_ids = (ut_metadata, pos 3) ∷ [];
  metadata_size = pos 50;
  our_ext_ids = (ut_metadata, pos 1) ∷ [];
}

abbrev asked : Extensions
asked = record no_extensions { our_ext_ids = (ut_metadata, pos 1) ∷ [] }

greets : handle_extension_handshake asked hello ≡ ok met
unfolding handle_extension_handshake decode parse_int lookup
greets = refl

abbrev unchoke : Option Message
unchoke = some (record { id = msg_unchoke; payload = [] })

abbrev header : Fields
header = field (codes "msg_type") (int64 (pos 1)) (field (codes "piece") (int64 (pos 0)) end)

abbrev head : Bytes
head = codes "d8:msg_typei1e5:piecei0ee"

abbrev replies : List Reply
replies = chatter unchoke ∷ answer 0 head ∷ answer 0 head ∷ []

abbrev sent : Bytes
sent =
    write_all (none ∷ unchoke ∷ [])
    ++ (write_message (hello_message hello) ++ (write_replies raw replies ++ 9 ∷ []))

read_metadata_from_peer_complete_example :
    read_metadata_from_peer by_length (50 ∷ []) asked sent 1
    ≡ map_err metainfo (parse by_length raw (50 ∷ []))
read_metadata_from_peer_complete_example =
    read_metadata_from_peer_complete by_length (50 ∷ []) asked met (pos 3) hello raw
      (none ∷ unchoke ∷ []) replies (9 ∷ []) 1 ((tt, tt), ((omega arith, refl), tt)) (omega arith)
      greets refl (unfold get_id in refl) (omega arith) (omega arith) (omega arith)
      ((omega arith, refl), (answered, (answered, tt))) every
  where
    encoded : encode (dict header) ≡ ok head
    encoded = unfold encode format_int in refl

    answered : IsReply raw (answer 0 head)
    answered = (
      omega arith,
      omega arith,
      (
        header,
        (unfold lookup in refl),
        (unfold lookup in refl),
        encoded,
        (((refl, tt), (tt, tt)), (omega arith, omega arith, (omega arith, omega arith, tt))),
      ),
    )

    every : (i : ℕ) → i < 1 → (0 == i || (0 == i || false)) ≡ true
    every i h = ground arith

parsed : parse by_length raw (50 ∷ []) ≡ ok info
unfolding parse decode parse_int lookup
parsed = refl

abbrev our_hello : Message
our_hello = record { id = msg_extended; payload = 0 ∷ codes "d1:md11:ut_metadatai1eee" }

says_hello : send_extension_handshake no_extensions ≡ ok (asked, our_hello)
unfolding send_extension_handshake encode format_int
says_hello = refl

abbrev served : Dialled
served = record { supports_extension = true; extensions = no_extensions; incoming = sent; room = 2 }

tried : try_peer by_length (50 ∷ []) (some served) ≡ ok info
unfolding try_peer
tried = rw (says_hello, read_metadata_from_peer_complete_example, parsed, try_peer) refl

fetched : fetch_metadata by_length (50 ∷ []) (some served ∷ none ∷ []) ≡ ok info
unfolding fetch_metadata
fetched = rw (tried, fetch_metadata) refl

read_metadata_from_peer-ne-out_of_fuel_example :
    read_metadata_from_peer by_length (50 ∷ []) asked (0 ∷ 0 ∷ 0 ∷ 0 ∷ 1 ∷ []) 4 ≢ err out_of_fuel
read_metadata_from_peer-ne-out_of_fuel_example =
    read_metadata_from_peer-ne-out_of_fuel by_length (50 ∷ []) asked (0 ∷ 0 ∷ 0 ∷ 0 ∷ 1 ∷ []) 4

abbrev peer : ℕ → Peer
peer n = record { ip = 10 ∷ 0 ∷ 0 ∷ n ∷ []; port = 6881 }

abbrev addr : Peer → Bytes
addr p = p.ip

dedup_two : dedup_peers addr (peer 1 ∷ []) (peer 2 ∷ peer 1 ∷ peer 2 ∷ []) ≡ peer 1 ∷ peer 2 ∷ []
unfolding dedup_peers
dedup_two = refl

-- One tracker fails, one names a peer twice, and the DHT names another one.
abbrev trackers : List Answer
trackers = err read_failed ∷ ok (peer 2 ∷ peer 2 ∷ []) ∷ []

abbrev dials : List Peer → List (Option Dialled)
dials ps = some served ∷ none ∷ []

discovers :
    discover_and_fetch_metadata addr by_length (50 ∷ []) trackers (peer 1 ∷ []) dials
    ≡ ok (peer 2 ∷ peer 1 ∷ [], info)
unfolding discover_and_fetch_metadata discover_peers dedup_peers
discovers = ap (λ r. map_err metadata r >>= λ i. ok (peer 2 ∷ peer 1 ∷ [], i)) fetched

discover_and_fetch_metadata_sound_example :
    IsAuthentic by_length (50 ∷ []) info
    × IsDistinct (map addr (peer 2 ∷ peer 1 ∷ []))
    × ((a : Bytes)
        → seen_addr (map addr (peer 2 ∷ peer 1 ∷ [])) a
          ≡ (is_named addr trackers a || seen_addr (map addr (peer 1 ∷ [])) a))
discover_and_fetch_metadata_sound_example =
    discover_and_fetch_metadata_sound addr by_length (50 ∷ []) trackers (peer 1 ∷ []) dials
      (peer 2 ∷ peer 1 ∷ []) info discovers
