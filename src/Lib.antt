-- ===== src/Lib.antt =====
-- A model of amish, a BitTorrent client in Go, and the theorems that make its parts correct.
--
-- The program downloads the torrent of a magnet link: it finds peers (tracker/tracker.go and
-- dht/dht.go), shakes hands with them (peer/conn.go), fetches the metadata (torrent/metadata.go,
-- checked and parsed by metainfo/metainfo.go), and downloads the pieces from all peers at once
-- (torrent/torrent.go, torrent/peer_session.go, torrent/piece.go); in the last phase the peers race
-- for the pieces that are left (torrent/endgame.go). Each piece is written to the files that it
-- covers (torrent/writer.go). Everything that is not a plain message is bencoded
-- (bencode/bencode.go).
--
-- The files, and the code that they model:
-- - Base: shared names; byte strings and lists, results of fallible code (a panic is a result of its
--   own), Go's int64 with its wrap-around, big-endian words, decimal numbers as strconv reads and
--   fmt prints them.
-- - Bencode: bencode/bencode.go. Bencode.Syntax has its values and errors, Bencode.Encode and
--   Bencode.Decode its functions (`decodeValue` is `decode_value`, and so on). A reader is the list
--   of bytes that are left.
-- - Peer: the package peer. Peer.Message is peer/message.go; Peer.Handshake, Peer.Extension and
--   Peer.Bitfield are the parts of peer/conn.go. A connection is the bytes still to come, and what
--   is sent is a result.
-- - Compact: the compact form of peers, six bytes each, of tracker/tracker.go and dht/dht.go, over the
--   record of netaddr/peer.go.
-- - Metainfo: metainfo/metainfo.go, with the SHA-1 digest as a parameter.
-- - Torrent: Torrent.Endgame is torrent/endgame.go, whose methods hold a mutex and are thus steps on
--   its state; Torrent.Piece is torrent/piece.go, over the bytes that a peer sends; Torrent.Writer is
--   torrent/writer.go, over files that are byte strings by their paths and a record `System` of what
--   the operating system answers; Torrent.Coordinator is the loop of torrent/torrent.go that collects
--   the results (`downloadPieces`, `transitionToEndgame`), over what the workers do in any order.
-- - Torrent.Metadata: torrent/metadata.go, over the bytes that a peer sends and over the results of the
--   peers in the order in which they arrive.
-- - Torrent.Discovery: torrent/torrent.go before the download, over the answers of the trackers and the
--   DHT.
-- - Torrent.Session: torrent/peer_session.go, one worker over the bytes that its peer sends and over
--   what its channel operations meet; Torrent.Swarm: any number of workers and the coordinator, as a
--   relation between states of the channels and of the tracker.
-- - Magnet: magnet/magnet.go, with url.ParseQuery as a parameter.
-- - Tracker: tracker/tracker.go, the packets and the answers; a UDP connection is the datagrams to come.
-- - Dht: dht/dht.go. Dht.Nodes has the routing table, Dht.Search `GetPeers` and `pingNode`; a handler of
--   a datagram is a step on the state of the client, and a map is the list of its entries.
--   A loop over the nodes meets them in an order that is a parameter, any permutation of the list.
-- The other modules hold proofs, and are named for what they prove.
--
-- Bounds: the decoder recurses on fuel, twice the length of the input plus one, since each value
-- takes a byte at least; the loops of a piece's download, of the metadata exchange and over a worker's
-- first messages have one more than the bytes to come, as each round reads some. Go's `int` is taken
-- to have 64 bits. Memory that `make` allocates is limited by `max_alloc`, above which it panics.
--
-- Not modelled: sockets, deadlines and buffering of connections, the terminal and the command line
-- (display/display.go, main.go), which are input and output; in tracker/tracker.go the choice of the
-- protocol and the request over HTTP (Announce, announceHTTP); in dht/dht.go the random ids, the
-- socket and its loop over the bootstrap nodes (New, Listen, Close, Bootstrap, send); in
-- torrent/peer_session.go the reconnecting (peerWorker); in torrent/torrent.go the periodic announce
-- and the statistics.
pub mod Base
pub mod Bencode
pub mod Peer
pub mod Compact
pub mod Metainfo
pub mod Torrent
pub mod Magnet
pub mod Tracker
pub mod Dht
