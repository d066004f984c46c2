-- ===== src/Dht/Search.antt =====
-- `GetPeers` and `pingNode` of dht/dht.go. `answer` is what `query` gives for a node: its response,
-- or none where there is an error. Nothing else is taken to change the client meanwhile; a peer that
-- does not fit the channel of the caller is dropped there, so that the result is what is offered.
use amish.Base.{
  ℕ, ◌+◌, ◌≡◌, refl, sym, ap, ◌∙◌, subst, Bool, true, false, Option, none, some, List, [], ◌∷◌,
  ◌++◌, Bytes, codes, bytes_eq, bytes_eq_refl, leb, ◌==◌, if◌then◌else◌, length, append_assoc,
  append-nil, Bool-cases, inl, inr,
}
use amish.Bencode.{Value, Fields, lookup, as_string, get_as}
use amish.Compact.{Peer}
use amish.Dht.{Library, Client, known_peers, decode_values, peers_in}
use amish.Dht.Nodes.{Node, add_nodes}

-- `c.peers[h] = append(c.peers[h], peers...)`
unfoldable pub append_peers :
    Bytes → List Peer → List (Bytes × List Peer) → List (Bytes × List Peer)
append_peers h ps [] = (h, ps) ∷ []
append_peers h ps ((k, qs) ∷ rest) =
    let others = append_peers h ps rest in
    if bytes_eq k h then (k, qs ++ ps) ∷ rest else (k, qs) ∷ others

-- `c.nodes[addr] = node`, for a node that answered a ping.
unfoldable pub set_node : Node → List Node → List Node
set_node n [] = n ∷ []
set_node n (m ∷ ms) =
    let others = set_node n ms in if bytes_eq m.addr n.addr then n ∷ ms else m ∷ others

-- `pingNode`, for the response that the node at the address gave.
unfoldable pub ping_node : Client → Bytes → Fields → Client
unfolding set_node
ping_node c addr resp = elim (get_as as_string (codes "id") resp) [
  | none ↦ c
  | some id ↦
      if length id == 20
      then record c { nodes = set_node (record { id = id; addr = addr }) c.nodes }
      else c
]

module _ (lib : Library) (addr_of : Bytes → ℕ → Bytes) (answer : Node → Option Fields)
    (h : Bytes) where
  abbrev with_values : Option Value → List Peer → Client → Client
  with_values none ps c = c
  with_values (some v) ps c = record c { peers = append_peers h ps c.peers }

  abbrev with_named : Option Bytes → Client → Client
  with_named none c = c
  with_named (some s) c =
      if leb 26 (length s) then record c { nodes = add_nodes addr_of s c.nodes } else c

  -- What a response adds to the client.
  unfoldable pub absorb : Fields → Client → Client
  unfolding append_peers
  absorb resp c =
      with_named (get_as as_string (codes "nodes") resp)
        (with_values (lookup (codes "values") resp) (peers_in lib resp) c)

  abbrev offer : List Peer → Client × List Peer → Client × List Peer
  offer ps (c, qs) = (c, ps ++ qs)

  -- The loop over the nodes: `good` of them answered so far.
  unfoldable pub ask_nodes : ℕ → List Node → Client → Client × List Peer
  unfolding absorb
  ask_nodes good [] c = (c, [])
  ask_nodes good (n ∷ ns) c =
      let skipped = ask_nodes good ns c in
      if leb 8 good then (c, []) else elim (answer n) [
        | none ↦ skipped
        | some resp ↦ offer (peers_in lib resp) (ask_nodes (good + 1) ns (absorb resp c))
      ]

  abbrev from_cache : List Peer → Client → Client × List Peer
  from_cache [] c = ask_nodes 0 (lib.range c.nodes) c
  from_cache (p ∷ ps) c = (c, p ∷ ps)

  unfoldable pub get_peers : Client → Client × List Peer
  unfolding ask_nodes
  get_peers c = from_cache (known_peers h c.peers) c

known_peers-append_peers :
    (h : Bytes) (ps : List Peer) (table : List (Bytes × List Peer))
    → known_peers h (append_peers h ps table) ≡ known_peers h table ++ ps
unfolding known_peers append_peers
known_peers-append_peers h ps [] = rw (bytes_eq_refl h) refl
known_peers-append_peers h ps ((k, qs) ∷ rest) = elim (Bool-cases (bytes_eq k h)) [
  | inl e ↦ rw (e, append_peers, e) refl
  | inr e ↦ rw (e, append_peers, e) (known_peers-append_peers h ps rest)
]

module _ (lib : Library) (addr_of : Bytes → ℕ → Bytes) (answer : Node → Option Fields)
    (h : Bytes) where
  with_named_peers :
      (o : Option Bytes) (c : Client) → (with_named lib addr_of answer h o c).peers ≡ c.peers
  with_named_peers none c = refl
  with_named_peers (some s) c = elim (Bool-cases (leb 26 (length s))) [
    | inl e ↦ rw e refl
    | inr e ↦ rw e refl
  ]

  with_values_peers :
      (o : Option Value) (ps : List Peer) (c : Client)
      → (o ≡ none → ps ≡ [])
      → known_peers h (with_values lib addr_of answer h o ps c).peers ≡ known_peers h c.peers ++ ps
  with_values_peers none ps c e =
      sym (ap (λ qs. known_peers h c.peers ++ qs) (e refl) ∙ append-nil (known_peers h c.peers))
  with_values_peers (some v) ps c e = known_peers-append_peers h ps c.peers

  no_values : (resp : Fields) → lookup (codes "values") resp ≡ none → peers_in lib resp ≡ []
  unfolding peers_in
  no_values resp e = ap (λ o. elim o [ none ↦ [] | some v ↦ decode_values lib v ]) e

  absorb_peers :
      (resp : Fields) (c : Client)
      → known_peers h (absorb lib addr_of answer h resp c).peers
        ≡ known_peers h c.peers ++ peers_in lib resp
  unfolding absorb
  absorb_peers resp c =
      let o = lookup (codes "values") resp in
      let ps = peers_in lib resp in
      ap (known_peers h) (
        with_named_peers (get_as as_string (codes "nodes") resp)
          (with_values lib addr_of answer h o ps c))
      ∙ with_values_peers o ps c (no_values resp)

  -- The peers known for the info hash grow by those that are offered.
  abbrev Adds : Client → Client × List Peer → Type 0
  Adds c x = known_peers h x.0.peers ≡ known_peers h c.peers ++ x.1

  offer-Adds :
      (resp : Fields) (c : Client) (x : Client × List Peer)
      → Adds (absorb lib addr_of answer h resp c) x
      → Adds c (offer lib addr_of answer h (peers_in lib resp) x)
  offer-Adds resp c (c', qs) e =
      e
      ∙ ap (λ ps. ps ++ qs) (absorb_peers resp c)
      ∙ append_assoc (known_peers h c.peers) (peers_in lib resp) qs

  if-Adds :
      (b : Bool) (c : Client) (x y : Client × List Peer)
      → Adds c x
      → Adds c y
      → Adds c (if b then x else y)
  if-Adds true c x y hx hy = hx
  if-Adds false c x y hx hy = hy

  answer-Adds :
      (o : Option Fields) (c : Client) (x : Client × List Peer) (f : Fields → Client × List Peer)
      → Adds c x
      → ((resp : Fields) → Adds (absorb lib addr_of answer h resp c) (f resp))
      → Adds c (elim o [
        | none ↦ x
        | some resp ↦ offer lib addr_of answer h (peers_in lib resp) (f resp)
      ])
  answer-Adds none c x f hx hf = hx
  answer-Adds (some resp) c x f hx hf = offer-Adds resp c (f resp) (hf resp)

  ask_nodes-Adds :
      (good : ℕ) (ns : List Node) (c : Client) → Adds c (ask_nodes lib addr_of answer h good ns c)
  unfolding ask_nodes
  ask_nodes-Adds good [] c = sym (append-nil (known_peers h c.peers))
  ask_nodes-Adds good (n ∷ ns) c =
      if-Adds (leb 8 good) c _ _ (sym (append-nil (known_peers h c.peers))) (
        answer-Adds (answer n) c _
          (λ resp.
            ask_nodes lib addr_of answer h (good + 1) ns (absorb lib addr_of answer h resp c))
          (ask_nodes-Adds good ns c)
          (λ resp. ask_nodes-Adds (good + 1) ns (absorb lib addr_of answer h resp c)))

  from_cache_none :
      (c : Client) (ps : List Peer)
      → ps ≡ []
      → from_cache lib addr_of answer h ps c
        ≡ ask_nodes lib addr_of answer h 0 (lib.range c.nodes) c
  from_cache_none c [] e = refl
  from_cache_none c (p ∷ ps) e = absurd (cc)

-- If no peers are known for an info hash and `GetPeers` offers some, those are exactly the ones that
-- it then knows, and the next call offers them again, asks no node, and changes nothing.
pub get_peers_again :
    (lib : Library) (addr_of : Bytes → ℕ → Bytes) (answer later : Node → Option Fields) (h : Bytes)
    (c c' : Client) (p : Peer) (ps : List Peer)
    → known_peers h c.peers ≡ []
    → get_peers lib addr_of answer h c ≡ (c', p ∷ ps)
    → (known_peers h c'.peers ≡ p ∷ ps) × (get_peers lib addr_of later h c' ≡ (c', p ∷ ps))
unfolding get_peers
get_peers_again lib addr_of answer later h c c' p ps empty e =
    let asks = sym (from_cache_none lib addr_of answer h c (known_peers h c.peers) empty) ∙ e in
    let gained : known_peers h c'.peers ≡ p ∷ ps =
      subst (Adds lib addr_of answer h c) asks
        (ask_nodes-Adds lib addr_of answer h 0 (lib.range c.nodes) c)
      ∙ ap (λ qs. qs ++ p ∷ ps) empty in
    (gained, ap (λ qs. from_cache lib addr_of later h qs c') gained)
