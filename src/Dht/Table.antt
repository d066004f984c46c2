-- ===== src/Dht/Table.antt =====
-- The table: the nodes that are picked from it, and those that are added.
use amish.Base.{
  ℕ, zero, suc, ◌+◌, ◌^◌, ◌<◌, ◌≡◌, refl, sym, ap, ◌∙◌, Bool, true, false, Option, some, List, [],
  ◌∷◌, ◌++◌, Bytes, leb, if◌then◌else◌, length, take, arith, Bool-cases, inl, inr, append_assoc,
  append-nil,
}
use amish.Base.Int.{to_word}
use amish.Compact.{to4}
use amish.Dht.{Library, closest_loop, closest_nodes, lets_through}
use amish.Dht.Nodes.{Node, has_node, add_node, add_each}

-- The nodes that the filter lets through.
unfoldable pub passing : Option (Node → Bool) → List Node → List Node
passing filter [] = []
passing filter (n ∷ ns) =
    let rest = passing filter ns in if lets_through filter n then n ∷ rest else rest

-- With room for `k` nodes behind the next one.
closest_loop-take :
    (filter : Option (Node → Bool)) (found k : ℕ) (ns : List Node)
    → found + k ≡ 7
    → closest_loop filter found ns ≡ take (suc k) (passing filter ns)
unfolding closest_loop passing
closest_loop-take filter found k [] e = refl
closest_loop-take filter found zero (n ∷ ns) e = elim (Bool-cases (lets_through filter n)) [
  | inl p ↦ rw (p, full found e) refl
  | inr p ↦ rw p (closest_loop-take filter found zero ns e)
]
  where
    full : (found : ℕ) → found + 0 ≡ 7 → leb 8 (found + 1) ≡ true
    full found e = ground arith
closest_loop-take filter found (suc k) (n ∷ ns) e = elim (Bool-cases (lets_through filter n)) [
  | inl p ↦
      rw (p, room found k e)
        (ap (λ ms. n ∷ ms) (closest_loop-take filter (found + 1) k ns (omega arith)))
  | inr p ↦ rw p (closest_loop-take filter found (suc k) ns e)
]
  where
    room : (found k : ℕ) → found + suc k ≡ 7 → leb 8 (found + 1) ≡ false
    room found k e = ground arith

-- `closestNodes` returns the first eight nodes that the filter lets through, or all of them if they
-- are fewer.
pub closest_nodes-take :
    (filter : Option (Node → Bool)) (ns : List Node)
    → closest_nodes filter ns ≡ take 8 (passing filter ns)
unfolding closest_nodes
closest_nodes-take filter ns = closest_loop-take filter 0 7 ns (omega arith)

-- The library reads back the addresses that it wrote.
abbrev pub ReadsAddresses : Library → (Bytes → ℕ → Bytes) → Type 0
ReadsAddresses lib addr_of =
    (ip : Bytes) (port : ℕ)
    → length ip ≡ 4
    → port < 2 ^ 16
    → (host : Bytes) × (digits : Bytes) × (lib.split_host_port (addr_of ip port)
        ≡ some (host, digits))
      × (to4 (lib.parse_ip host) ≡ some ip)
      × (to_word (lib.scan_int digits) ≡ port)

-- The addresses of these nodes are distinct, and none is in the table.
abbrev pub AreNew : List Node → List Node → Type 0
AreNew nodes [] = Unit {0}
AreNew nodes (n ∷ ns) = (has_node nodes n.addr ≡ false) × AreNew (nodes ++ n ∷ []) ns

add_node_new :
    (n : Node) (nodes : List Node)
    → has_node nodes n.addr ≡ false
    → add_node n nodes ≡ nodes ++ n ∷ []
unfolding add_node
add_node_new n nodes h = rw h refl

pub add_each-append :
    (addr_of : Bytes → ℕ → Bytes) (ns nodes : List Node)
    → AreNew nodes ns
    → add_each addr_of ns nodes ≡ nodes ++ ns
add_each-append addr_of [] nodes h = sym (append-nil nodes)
add_each-append addr_of (n ∷ ns) nodes (fresh, h) =
    ap (add_each addr_of ns) (add_node_new n nodes fresh)
    ∙ add_each-append addr_of ns (nodes ++ n ∷ []) h
    ∙ append_assoc nodes (n ∷ []) ns
