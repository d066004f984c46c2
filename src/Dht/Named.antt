-- ===== src/Dht/Named.antt =====
-- The nodes that a client names to others, at most eight, in whatever order its table is met.
use amish.Base.{ℕ, ◌^◌, ◌<◌, ◌≡◌, List, Bytes, length}
use amish.Dht.Nodes.{Node}

-- An id of twenty bytes, and an address that was made of an IPv4 address and a port.
abbrev pub IsAddressed : (Bytes → ℕ → Bytes) → Node → Type 0
IsAddressed addr_of n =
    (ip : Bytes) × (port : ℕ) × (length n.id ≡ 20)
    × (length ip ≡ 4)
    × (port < 2 ^ 16)
    × (n.addr ≡ addr_of ip port)
