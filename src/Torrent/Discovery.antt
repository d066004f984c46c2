-- ===== src/Torrent/Discovery.antt =====
-- torrent/torrent.go before the download: `discoverPeers` and `DiscoverAndFetchMetadata`. What each
-- tracker answers is a result of tracker.Announce, in the order in which they arrive; the peers of
-- the DHT are those that `discoverDHTPeers` took from its channel before the timeout.
use amish.Base.{
  ◌≡◌, refl, ap, ◌∙◌, Bool, false, ◌||◌, Option, List, [], ◌∷◌, ◌++◌, Bytes, map, Result, ok, err,
  panic, ◌>>=◌, >>=-eq-ok, sym, subst, map_err, ◌⊎◌, inl, inr, arith, bytes_eq, bytes_eq_refl,
}
use amish.Metainfo.{Info}
use amish.Compact.{Peer}
use amish.Tracker
use amish.Torrent.Metadata
use amish.Torrent.Metadata.{Dialled, fetch_metadata}
use amish.Torrent.Metadata.Dedup.{
  seen_addr, dedup_peers, IsDistinct, among, among-append, dedup_peers_lem,
}
use amish.Torrent.Metadata.Sound.{IsAuthentic, fetch_metadata_sound}

pub data Error : Type 0 where
  no_peers : Error
  metadata : Metadata.Error → Error

abbrev pub Answer : Type 0
Answer = Result Tracker.Error (List Peer)

-- The loop over the results: an error is skipped. A panic of a goroutine ends the process.
unfoldable pub all_peers : List Answer → Result Error (List Peer)
all_peers [] = ok []
all_peers (a ∷ rest) =
    let others = all_peers rest in
    elim a [ ok ps ↦ (do qs ← others; ok (ps ++ qs)) | err e ↦ others | panic ↦ panic ]

abbrev pub unless_empty : List Peer → Result Error (List Peer)
unless_empty [] = err no_peers
unless_empty (p ∷ ps) = ok (p ∷ ps)

unfoldable pub discover_peers : (Peer → Bytes) → List Answer → Result Error (List Peer)
unfolding all_peers
discover_peers addr answers = do all ← all_peers answers; unless_empty (dedup_peers addr [] all)

-- `t.peers` and `t.Info`. `dial` is what peers do that are dialled, in the order of their results.
unfoldable pub discover_and_fetch_metadata :
    (Peer → Bytes)
    → (Bytes → Bytes)
    → Bytes
    → List Answer
    → List Peer
    → (List Peer → List (Option Dialled))
    → Result Error (List Peer × Info)
unfolding discover_peers
discover_and_fetch_metadata addr sha1 info_hash answers dht_peers dial = do
  peers ← discover_peers addr answers
  info ← map_err metadata (fetch_metadata sha1 info_hash (dial (dedup_peers addr peers dht_peers)))
  ok (dedup_peers addr peers dht_peers, info)

-- The peers are those that the trackers named, each address once; there is an error if they named
-- none.
abbrev Discovered : (Peer → Bytes) → List Peer → Result Error (List Peer) → Type 0
Discovered addr named r =
    ((named ≡ []) × (r ≡ err no_peers))
    ⊎ ((ps : List Peer) × (r ≡ ok ps)
        × IsDistinct (map addr ps)
        × ((a : Bytes) → among addr ps a ≡ among addr named a))

unless_empty-Discovered :
    (addr : Peer → Bytes) (named unique : List Peer)
    → IsDistinct (map addr unique)
    → ((a : Bytes) → among addr unique a ≡ among addr named a)
    → Discovered addr named (unless_empty unique)
unfolding seen_addr
unless_empty-Discovered addr [] [] distinct same = inl (refl, refl)
unless_empty-Discovered addr (p ∷ named) [] distinct same = absurd (none_named p (same (addr p)))
  where
    none_named : (p : Peer) → false ≡ (bytes_eq (addr p) (addr p) || among addr named (addr p)) → ⊥
    none_named p e = ground (arith, bytes_eq_refl (addr p), e)
unless_empty-Discovered addr named (q ∷ unique) distinct same =
    inr (q ∷ unique, refl, distinct, same)

discover_peers-Discovered :
    (addr : Peer → Bytes) (answers : List Answer) (named : List Peer)
    → all_peers answers ≡ ok named
    → Discovered addr named (discover_peers addr answers)
unfolding discover_peers
discover_peers-Discovered addr answers named e =
    let (distinct, _, same) = dedup_peers_lem addr [] named tt in
    rw e (
      unless_empty-Discovered addr named (dedup_peers addr [] named) distinct
        (λ a. same a ∙ unfold seen_addr in refl))

metadata_of :
    (r : Result Metadata.Error Info) (info : Info) → map_err metadata r ≡ ok info → r ≡ ok info
metadata_of (ok i) info e = ground arith
metadata_of (err x) info e = absurd (cc)
metadata_of panic info e = absurd (cc)

-- A tracker that answered without an error named an address.
abbrev pub is_named : (Peer → Bytes) → List Answer → Bytes → Bool
is_named addr [] a = false
is_named addr (ok ps ∷ rest) a = among addr ps a || is_named addr rest a
is_named addr (err e ∷ rest) a = is_named addr rest a
is_named addr (panic ∷ rest) a = is_named addr rest a

-- No peer of a tracker is lost in the loop, and none is added.
all_peers-is_named :
    (addr : Peer → Bytes) (answers : List Answer) (ps : List Peer) (a : Bytes)
    → all_peers answers ≡ ok ps
    → among addr ps a ≡ is_named addr answers a
unfolding all_peers seen_addr
all_peers-is_named addr [] [] a e = refl
all_peers-is_named addr [] (p ∷ ps) a e = absurd (cc)
all_peers-is_named addr (ok qs ∷ rest) ps a e =
    let (more, heard, joined) = >>=-eq-ok (all_peers rest) _ e in
    ap (λ xs. among addr xs a) (settled ps (qs ++ more) joined)
    ∙ among-append addr qs more a
    ∙ ap (λ b. among addr qs a || b) (all_peers-is_named addr rest more a heard)
  where
    found : List Peer → Result Error (List Peer)
    found xs = ok xs

    settled : (ps qs : List Peer) → found qs ≡ found ps → ps ≡ qs
    settled ps qs e = cc
all_peers-is_named addr (err x ∷ rest) ps a e = all_peers-is_named addr rest ps a e
all_peers-is_named addr (panic ∷ rest) ps a e = absurd (cc)

-- If peers and metadata are found, whatever the trackers, the DHT and the peers answer, and in
-- whatever order: the metadata is what bytes with the info hash hold, and it is well formed; the
-- addresses of the peers are distinct, and they are exactly those that a tracker or the DHT named.
pub discover_and_fetch_metadata_sound :
    (addr : Peer → Bytes) (sha1 : Bytes → Bytes) (info_hash : Bytes) (answers : List Answer)
    (dht_peers : List Peer) (dial : List Peer → List (Option Dialled)) (peers : List Peer)
    (info : Info)
    → discover_and_fetch_metadata addr sha1 info_hash answers dht_peers dial ≡ ok (peers, info)
    → IsAuthentic sha1 info_hash info
      × IsDistinct (map addr peers)
      × ((a : Bytes) → among addr peers a ≡ (is_named addr answers a || among addr dht_peers a))
unfolding discover_and_fetch_metadata discover_peers
discover_and_fetch_metadata_sound addr sha1 info_hash answers dht_peers dial peers info e =
    let (found, discovered, e₁) = >>=-eq-ok (discover_peers addr answers) _ e in
    let (info', fetched, e₂) =
      >>=-eq-ok
        (map_err metadata (fetch_metadata sha1 info_hash (dial (dedup_peers addr found dht_peers))))
        _ e₁ in
    let (named, heard, some_found) = >>=-eq-ok (all_peers answers) _ discovered in
    let unique = unless_empty_ok (dedup_peers addr [] named) found some_found in
    let (distinct, _, same) = dedup_peers_lem addr [] named tt in
    let none_before : (a : Bytes) → (among addr [] a || among addr named a) ≡ among addr named a =
      λ a. unfold seen_addr in refl in
    let (all_distinct, _, all_same) =
      dedup_peers_lem addr found dht_peers
        (subst (λ ps. IsDistinct (map addr ps)) unique distinct) in
    let (e_peers, e_info) = both e₂ in
    (
      fetch_metadata_sound sha1 info_hash (dial (dedup_peers addr found dht_peers)) info
          (metadata_of _ info' fetched ∙ ap ok e_info),
      subst (λ ps. IsDistinct (map addr ps)) e_peers all_distinct,
      λ a.
          ap (λ ps. among addr ps a) (sym e_peers)
          ∙ all_same a
          ∙ ap (λ b. b || among addr dht_peers a)
              (ap (λ ps. among addr ps a) (sym unique)
                ∙ same a
                ∙ none_before a
                ∙ all_peers-is_named addr answers named a heard),
    )
  where
    unless_empty_ok : (ps found : List Peer) → unless_empty ps ≡ ok found → ps ≡ found
    unless_empty_ok [] found e = absurd (cc)
    unless_empty_ok (p ∷ ps) found e = cc

    done : List Peer → Info → Result Error (List Peer × Info)
    done ps i = ok (ps, i)

    both : {x y : List Peer} {i j : Info} → done x i ≡ done y j → (x ≡ y) × (i ≡ j)
    both e = (cc, cc)
