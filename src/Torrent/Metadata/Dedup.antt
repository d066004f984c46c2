-- ===== src/Torrent/Metadata/Dedup.antt =====
-- `dedupPeers`. `addr` is what `Addr` of netaddr/peer.go gives, a call of net.JoinHostPort.
use amish.Base.{
  ◌≡◌, refl, sym, ap, ◌∙◌, Bool, true, false, ◌||◌, List, [], ◌∷◌, ◌++◌, Bytes, bytes_eq,
  bytes_eq→eq, bytes_eq_refl, if◌then◌else◌, map, length, take, take-append, subst, Bool-cases, inl,
  inr, arith,
}
use amish.Compact.{Peer}

-- `seen[addr]` of a map[string]bool.
unfoldable pub seen_addr : List Bytes → Bytes → Bool
seen_addr [] a = false
seen_addr (b ∷ seen) a = bytes_eq b a || seen_addr seen a

module _ (addr : Peer → Bytes) where
  -- The loop over the new peers: what is appended.
  unfoldable pub fresh_peers : List Bytes → List Peer → List Peer
  unfolding seen_addr
  fresh_peers seen [] = []
  fresh_peers seen (p ∷ ps) =
      let skipped = fresh_peers seen ps in
      let rest = fresh_peers (addr p ∷ seen) ps in
      if seen_addr seen (addr p) then skipped else p ∷ rest

  unfoldable pub dedup_peers : List Peer → List Peer → List Peer
  unfolding fresh_peers
  dedup_peers existing new = existing ++ fresh_peers (map addr existing) new

-- Every address stands once.
abbrev pub IsDistinct : List Bytes → Type 0
IsDistinct [] = Unit {0}
IsDistinct (a ∷ rest) = (seen_addr rest a ≡ false) × IsDistinct rest

seen_addr-append :
    (xs ys : List Bytes) (a : Bytes) → seen_addr (xs ++ ys) a ≡ (seen_addr xs a || seen_addr ys a)
unfolding seen_addr
seen_addr-append [] ys a = refl
seen_addr-append (x ∷ xs) ys a = ground (arith, seen_addr-append xs ys a)

or_true : (b : Bool) {c : Bool} → c ≡ true → (b || c) ≡ true
or_true true h = refl
or_true false h = h

append-IsDistinct :
    (xs ys : List Bytes)
    → IsDistinct xs
    → IsDistinct ys
    → ((a : Bytes) → seen_addr xs a ≡ true → seen_addr ys a ≡ false)
    → IsDistinct (xs ++ ys)
unfolding seen_addr
append-IsDistinct [] ys hx hy apart = hy
append-IsDistinct (x ∷ xs) ys (hx, hxs) hy apart = (
  seen_addr-append xs ys x ∙ rw (hx, apart x (rw (bytes_eq_refl x) refl)) refl,
  append-IsDistinct xs ys hxs hy (λ a h. apart a (or_true (bytes_eq x a) h)),
)

module _ (addr : Peer → Bytes) where
  abbrev pub among : List Peer → Bytes → Bool
  among ps a = seen_addr (map addr ps) a

  pub among-append :
      (ps qs : List Peer) (a : Bytes) → among (ps ++ qs) a ≡ (among ps a || among qs a)
  unfolding seen_addr
  among-append [] qs a = refl
  among-append (p ∷ ps) qs a = ground (arith, among-append ps qs a)

  -- The two branches of the loop.
  fresh_skip :
      (seen : List Bytes) (p : Peer) (ps : List Peer)
      → seen_addr seen (addr p) ≡ true
      → fresh_peers addr seen (p ∷ ps) ≡ fresh_peers addr seen ps
  unfolding fresh_peers
  fresh_skip seen p ps h = rw (h, fresh_peers) refl

  fresh_keep :
      (seen : List Bytes) (p : Peer) (ps : List Peer)
      → seen_addr seen (addr p) ≡ false
      → fresh_peers addr seen (p ∷ ps) ≡ p ∷ fresh_peers addr (addr p ∷ seen) ps
  unfolding fresh_peers
  fresh_keep seen p ps h = rw (h, fresh_peers) refl

  -- What was seen is not appended.
  fresh_apart :
      (seen : List Bytes) (ps : List Peer) (a : Bytes)
      → seen_addr seen a ≡ true
      → among (fresh_peers addr seen ps) a ≡ false
  unfolding seen_addr
  fresh_apart seen [] a h = unfold fresh_peers in refl
  fresh_apart seen (p ∷ ps) a h = elim (Bool-cases (seen_addr seen (addr p))) [
    | inl old ↦ ap (λ qs. among qs a) (fresh_skip seen p ps old) ∙ fresh_apart seen ps a h
    | inr new ↦
        ap (λ qs. among qs a) (fresh_keep seen p ps new)
        ∙ ground (
          arith,
          bytes_eq→eq (addr p) a,
          fresh_apart (addr p ∷ seen) ps a (or_true (bytes_eq (addr p) a) h),
          h,
          new,
        )
  ]

  fresh-IsDistinct :
      (seen : List Bytes) (ps : List Peer) → IsDistinct (map addr (fresh_peers addr seen ps))
  unfolding seen_addr
  fresh-IsDistinct seen [] = unfold fresh_peers in tt
  fresh-IsDistinct seen (p ∷ ps) = elim (Bool-cases (seen_addr seen (addr p))) [
    | inl old ↦
        subst (λ qs. IsDistinct (map addr qs)) (sym (fresh_skip seen p ps old))
          (fresh-IsDistinct seen ps)
    | inr new ↦
        subst (λ qs. IsDistinct (map addr qs)) (sym (fresh_keep seen p ps new))
          (
            fresh_apart (addr p ∷ seen) ps (addr p) (rw (bytes_eq_refl (addr p)) refl),
            fresh-IsDistinct (addr p ∷ seen) ps,
          )
  ]

  fresh_all :
      (seen : List Bytes) (ps : List Peer) (a : Bytes)
      → (seen_addr seen a || among (fresh_peers addr seen ps) a) ≡ (seen_addr seen a || among ps a)
  unfolding seen_addr
  fresh_all seen [] a = unfold fresh_peers in refl
  fresh_all seen (p ∷ ps) a = elim (Bool-cases (seen_addr seen (addr p))) [
    | inl old ↦
        ap (λ qs. seen_addr seen a || among qs a) (fresh_skip seen p ps old)
        ∙ ground (arith, bytes_eq→eq (addr p) a, fresh_all seen ps a, old)
    | inr new ↦
        ap (λ qs. seen_addr seen a || among qs a) (fresh_keep seen p ps new)
        ∙ ground (arith, fresh_all (addr p ∷ seen) ps a)
  ]

  -- If the addresses of the existing peers are distinct, those of the result are; the existing peers
  -- come first, and an address is in the result exactly if it is among the existing peers or the new.
  pub dedup_peers_lem :
      (existing new : List Peer)
      → IsDistinct (map addr existing)
      → IsDistinct (map addr (dedup_peers addr existing new))
        × (take (length existing) (dedup_peers addr existing new) ≡ existing)
        × ((a : Bytes)
            → among (dedup_peers addr existing new) a ≡ (among existing a || among new a))
  unfolding dedup_peers
  dedup_peers_lem existing new h =
      let seen = map addr existing in
      let more = fresh_peers addr seen new in
      let parts : map addr (existing ++ more) ≡ seen ++ map addr more = map-append existing more in
      (
        subst IsDistinct (sym parts) (
            append-IsDistinct seen (map addr more) h (fresh-IsDistinct seen new)
              (fresh_apart seen new)),
        take-append existing more,
        λ a.
            ap (λ as'. seen_addr as' a) parts
            ∙ seen_addr-append seen (map addr more) a
            ∙ fresh_all seen new a,
      )
    where
      map-append : (xs ys : List Peer) → map addr (xs ++ ys) ≡ map addr xs ++ map addr ys
      map-append [] ys = refl
      map-append (x ∷ xs) ys = ap (λ t. addr x ∷ t) (map-append xs ys)
