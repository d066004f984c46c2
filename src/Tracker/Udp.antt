-- ===== src/Tracker/Udp.antt =====
-- A tracker that answers over UDP.
use amish.Base.{
  ℕ, ◌^◌, ◌≤◌, ◌<◌, ◌≡◌, refl, ap, ◌∙◌, true, List, [], ◌∷◌, ◌++◌, Bytes, ==_refl, ge→ltb, length,
  drop-append_of_eq, take_all, length-append, arith, All, ok,
}
use amish.Base.Wire.{put_u32, put_u64, uint32-put_u32, uint64-put_u64}
use amish.Compact.{Peer, encode_peer_list}
use amish.Compact.Laws.{HasPort, v4_peers, parse_compact_peers-encode_peer_list}
use amish.Tracker.{
  Datagrams, read_full, check_connect, udp_connect_handshake, AnnounceParams, connect_request,
  announce_request, check_announce, udp_announce_request, announce_udp,
}

abbrev pub connect_response : ℕ → ℕ → Bytes
connect_response transaction_id connection_id =
    put_u32 0 ++ (put_u32 transaction_id ++ put_u64 connection_id)

-- Behind the action come the transaction id, the interval, and two counts, of four bytes each.
abbrev pub announce_response : Bytes → List Peer → Bytes
announce_response counts ps = put_u32 1 ++ (counts ++ encode_peer_list ps)

read_full_none : (ds : Datagrams) → read_full 0 ds ≡ ok ([], ds)
unfolding read_full
read_full_none [] = refl
read_full_none (d ∷ ds) = refl

check_connect_ok :
    (transaction_id connection_id : ℕ)
    → transaction_id < 2 ^ 32
    → connection_id < 2 ^ 64
    → check_connect transaction_id (connect_response transaction_id connection_id)
      ≡ ok connection_id
unfolding check_connect
check_connect_ok transaction_id connection_id ht hc =
    rw (uint32-put_u32 transaction_id [] ht, ==_refl transaction_id)
      (ap ok (uint64-put_u64 connection_id [] hc))

connect_ok :
    (transaction_id connection_id : ℕ) (ds : Datagrams)
    → transaction_id < 2 ^ 32
    → connection_id < 2 ^ 64
    → udp_connect_handshake transaction_id true (connect_response transaction_id connection_id ∷ ds)
      ≡ ok (connection_id, ds)
unfolding udp_connect_handshake
connect_ok transaction_id connection_id ds ht hc =
    rw (read_full_none ds, check_connect_ok transaction_id connection_id ht hc) refl

check_announce_ok :
    (counts : Bytes) (ps : List Peer)
    → length counts ≡ 16
    → All HasPort ps
    → check_announce (announce_response counts ps) ≡ ok (v4_peers ps)
unfolding check_announce
check_announce_ok counts ps hc ports =
    rw
      (
        ge→ltb (length (announce_response counts ps)) 20
            (omega (arith, length-append counts (encode_peer_list ps), hc)),
        drop-append_of_eq 16 counts (encode_peer_list ps) hc,
        parse_compact_peers-encode_peer_list ps ports,
      )
      refl

announce_ok :
    (counts : Bytes) (ps : List Peer) (ds : Datagrams)
    → length counts ≡ 16
    → length (encode_peer_list ps) ≤ 2028
    → All HasPort ps
    → udp_announce_request true (announce_response counts ps ∷ ds) ≡ ok (v4_peers ps)
unfolding udp_announce_request
announce_ok counts ps ds hc small ports =
    ap (λ s. check_announce (put_u32 1 ++ s))
      (take_all 2044 (counts ++ encode_peer_list ps)
        (omega (arith, length-append counts (encode_peer_list ps))))
    ∙ check_announce_ok counts ps hc ports

-- A tracker that answers both requests over UDP, the first with the transaction id that it was sent,
-- is asked with the connection id that it named, and its peers are returned: those that have an IPv4
-- address, in its form of four bytes. Ids fit their words, ports are below 2^16, and the answer fits
-- the buffer.
pub announce_udp_complete :
    (connect_id announce_id connection_id : ℕ) (params : AnnounceParams) (counts : Bytes)
    (ps : List Peer) (ds : Datagrams)
    → connect_id < 2 ^ 32
    → connection_id < 2 ^ 64
    → length counts ≡ 16
    → length (encode_peer_list ps) ≤ 2028
    → All HasPort ps
    → announce_udp connect_id announce_id params
        (connect_response connect_id connection_id ∷ announce_response counts ps ∷ ds)
      ≡ ok (
        connect_request connect_id ∷ announce_request connection_id announce_id params ∷ [],
        v4_peers ps,
      )
unfolding announce_udp
announce_udp_complete connect_id announce_id connection_id params counts ps ds ht hc hn small
      ports =
    rw
      (
        connect_ok connect_id connection_id (announce_response counts ps ∷ ds) ht hc,
        announce_ok counts ps ds hn small ports,
      )
      refl
