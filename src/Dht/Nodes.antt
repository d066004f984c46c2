-- ===== src/Dht/Nodes.antt =====
-- The nodes of dht/dht.go, in their compact form of 26 bytes, and the routing table. `addr_of` is the
-- address that fmt.Sprintf makes of an IP address, as net.IP prints it, and a port.
use amish.Base.{
  ℕ, zero, suc, ◌/◌, Bool, false, ◌||◌, List, [], ◌∷◌, ◌++◌, Bytes, bytes_eq, if◌then◌else◌, length,
  take, drop,
}
use amish.Base.Wire.{uint16}

pub record Node : Type 0 where
  pub id : Bytes
  pub addr : Bytes

-- `_, ok := c.nodes[addr]`
unfoldable pub has_node : List Node → Bytes → Bool
has_node [] a = false
has_node (n ∷ ns) a = bytes_eq n.addr a || has_node ns a

-- A node that is known keeps its entry.
unfoldable pub add_node : Node → List Node → List Node
unfolding has_node
add_node n nodes = if has_node nodes n.addr then nodes else nodes ++ n ∷ []

module _ (addr_of : Bytes → ℕ → Bytes) where
  abbrev pub node_of : Bytes → Node
  node_of s = record {
    id = take 20 s;
    addr = addr_of (take 4 (drop 20 s)) (uint16 (take 2 (drop 24 s)));
  }

  -- The nodes that the loop of `addNodes` reads: `count` of them.
  unfoldable pub decode_nodes : ℕ → Bytes → List Node
  decode_nodes zero s = []
  decode_nodes (suc count) s = node_of s ∷ decode_nodes count (drop 26 s)

  abbrev pub add_each : List Node → List Node → List Node
  add_each [] nodes = nodes
  add_each (n ∷ ns) nodes = add_each ns (add_node n nodes)

  unfoldable pub add_nodes : Bytes → List Node → List Node
  unfolding decode_nodes add_node
  add_nodes s nodes = add_each (decode_nodes (length s / 26) s) nodes
