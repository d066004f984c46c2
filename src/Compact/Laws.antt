-- ===== src/Compact/Laws.antt =====
-- Compact peers come back as they were sent.
use amish.Base.{
  ==→eq, ℕ, ◌+◌, ◌*◌, ◌%◌, ◌/◌, ◌^◌, ◌<◌, ◌≡◌, refl, sym, ap, ap₂, ◌∙◌, Bool, true, false, ◌&&◌,
  none, some, List, [], ◌∷◌, ◌++◌, Bytes, bytes_eq, ◌==◌, if◌then◌else◌, length, take, drop,
  replicate, arith, All, IsByte, ok, Bool-cases, inl, inr, Option-cases, length-drop, length-append,
}
use amish.Base.Wire.{put_u16}
use amish.Compact.{Peer, decode_peers, parse_compact_peers, to4, encode_peer_list}

-- The peers that have an IPv4 address, in its form of four bytes.
unfoldable pub v4_peers : List Peer → List Peer
v4_peers [] = []
v4_peers (p ∷ ps) =
    let rest = v4_peers ps in
    elim (to4 p.ip) [ none ↦ rest | some ip ↦ record { ip = ip; port = p.port } ∷ rest ]

length-to4 : (ip four : Bytes) → to4 ip ≡ some four → length four ≡ 4
unfolding to4
length-to4 ip four h = elim (Bool-cases (length ip == 4)) [
  | inl e ↦ sym (ap length (same (rw e at h))) ∙ ==→eq (length ip) 4 e
  | inr ne ↦
      mapped (length ip == 16 && bytes_eq (take 12 ip) (replicate 10 0 ++ 255 ∷ 255 ∷ [])) refl
        (rw ne at h)
]
  where
    same : {s t : Bytes} → some s ≡ some t → s ≡ t
    same e = cc

    mapped :
        (b : Bool)
        → (length ip == 16 && bytes_eq (take 12 ip) (replicate 10 0 ++ 255 ∷ 255 ∷ [])) ≡ b
        → (if b then some (drop 12 ip) else none) ≡ some four
        → length four ≡ 4
    mapped true e h = sym (ap length (same h)) ∙ ground (arith, e, length-drop 12 ip)
    mapped false e h = ground arith

decode_four :
    (four : Bytes) (port : ℕ) (rest : Bytes)
    → length four ≡ 4
    → port < 2 ^ 16
    → decode_peers (four ++ (put_u16 port ++ rest))
      ≡ record { ip = four; port = port } ∷ decode_peers rest
unfolding decode_peers
decode_four (a ∷ b ∷ c ∷ d ∷ []) port rest h lt =
    ap (λ n. record { ip = a ∷ b ∷ c ∷ d ∷ []; port = n } ∷ decode_peers rest) (omega arith)
decode_four [] port rest h lt = absurd (omega arith)
decode_four (a ∷ []) port rest h lt = absurd (omega arith)
decode_four (a ∷ b ∷ []) port rest h lt = absurd (omega arith)
decode_four (a ∷ b ∷ c ∷ []) port rest h lt = absurd (omega arith)
decode_four (a ∷ b ∷ c ∷ d ∷ e ∷ s) port rest h lt = absurd (omega arith)

abbrev pub HasPort : Peer → Type 0
HasPort p = p.port < 2 ^ 16

-- What a peer adds to the compact form, and to the peers that are read back.
module _ (p : Peer) (ps : List Peer) where
  encode_skipped : to4 p.ip ≡ none → encode_peer_list (p ∷ ps) ≡ encode_peer_list ps
  unfolding encode_peer_list
  encode_skipped e = rw (e, encode_peer_list) refl

  encode_sent :
      (four : Bytes)
      → to4 p.ip ≡ some four
      → encode_peer_list (p ∷ ps) ≡ four ++ (put_u16 p.port ++ encode_peer_list ps)
  unfolding encode_peer_list
  encode_sent four e = rw (e, encode_peer_list) refl

  v4_skipped : to4 p.ip ≡ none → v4_peers (p ∷ ps) ≡ v4_peers ps
  unfolding v4_peers
  v4_skipped e = rw (e, v4_peers) refl

  v4_sent :
      (four : Bytes)
      → to4 p.ip ≡ some four
      → v4_peers (p ∷ ps) ≡ record { ip = four; port = p.port } ∷ v4_peers ps
  unfolding v4_peers
  v4_sent four e = rw (e, v4_peers) refl

pub decode_peers-encode_peer_list :
    (ps : List Peer) → All HasPort ps → decode_peers (encode_peer_list ps) ≡ v4_peers ps
decode_peers-encode_peer_list [] h = unfold decode_peers encode_peer_list v4_peers in refl
decode_peers-encode_peer_list (p ∷ ps) (lt, h) = elim (Option-cases (to4 p.ip)) [
  | inl e ↦
      ap decode_peers (encode_skipped p ps e)
      ∙ decode_peers-encode_peer_list ps h
      ∙ sym (v4_skipped p ps e)
  | inr (four, e) ↦
      ap decode_peers (encode_sent p ps four e)
      ∙ decode_four four p.port (encode_peer_list ps) (length-to4 p.ip four e) lt
      ∙ ap (λ qs. record { ip = four; port = p.port } ∷ qs) (decode_peers-encode_peer_list ps h)
      ∙ sym (v4_sent p ps four e)
]

length-encode_peer_list : (ps : List Peer) → length (encode_peer_list ps) % 6 ≡ 0
length-encode_peer_list [] = unfold encode_peer_list in refl
length-encode_peer_list (p ∷ ps) = elim (Option-cases (to4 p.ip)) [
  | inl e ↦ ap (λ s. length s % 6) (encode_skipped p ps e) ∙ length-encode_peer_list ps
  | inr (four, e) ↦
      ap (λ s. length s % 6) (encode_sent p ps four e)
      ∙ omega (
        arith,
        length-to4 p.ip four e,
        length-append four (put_u16 p.port ++ encode_peer_list ps),
        length-encode_peer_list ps,
      )
]

-- What the DHT sends for a list of peers, `ParseCompactPeers` reads back: the peers that have an IPv4
-- address, in its form of four bytes, with their ports, in the same order; ports are below 2^16.
pub parse_compact_peers-encode_peer_list :
    (ps : List Peer) → All HasPort ps → parse_compact_peers (encode_peer_list ps) ≡ ok (v4_peers ps)
unfolding parse_compact_peers
parse_compact_peers-encode_peer_list ps h =
    rw (length-encode_peer_list ps) (ap ok (decode_peers-encode_peer_list ps h))

high : (f g : ℕ) → f < 256 → g < 256 → (f * 256 + g) / 2 ^ 8 % 256 ≡ f
high f g hf hg = omega arith

low : (f g : ℕ) → f < 256 → g < 256 → (f * 256 + g) % 256 ≡ g
low f g hf hg = omega arith

encode_decode :
    (s : Bytes) → All IsByte s → length s % 6 ≡ 0 → encode_peer_list (decode_peers s) ≡ s
unfolding decode_peers encode_peer_list to4
encode_decode [] b h = refl
encode_decode (a ∷ []) b h = absurd (omega arith)
encode_decode (a ∷ c ∷ []) b h = absurd (omega arith)
encode_decode (a ∷ c ∷ d ∷ []) b h = absurd (omega arith)
encode_decode (a ∷ c ∷ d ∷ e ∷ []) b h = absurd (omega arith)
encode_decode (a ∷ c ∷ d ∷ e ∷ f ∷ []) b h = absurd (omega arith)
encode_decode (a ∷ c ∷ d ∷ e ∷ f ∷ g ∷ s) (_, (_, (_, (_, (hf, (hg, bs)))))) h =
    ap (λ t. a ∷ c ∷ d ∷ e ∷ t)
      (ap₂ (λ x t. x ∷ t) (high f g hf hg)
        (ap₂ (λ x t. x ∷ t) (low f g hf hg) (encode_decode s bs (omega arith))))

-- Any bytes whose number six divides are accepted by `ParseCompactPeers`, and they are the compact
-- form of the peers that it returns: none of them is lost.
pub encode_peer_list-parse_compact_peers :
    (s : Bytes)
    → All IsByte s
    → length s % 6 ≡ 0
    → (ps : List Peer) × (parse_compact_peers s ≡ ok ps) × (encode_peer_list ps ≡ s)
unfolding parse_compact_peers
encode_peer_list-parse_compact_peers s bytes h =
    (decode_peers s, rw h refl, encode_decode s bytes h)
