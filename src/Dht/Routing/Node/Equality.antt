-- ===== src/Dht/Routing/Node/Equality.antt =====
-- When two addresses or two nodes of bip_dht/src/routing/node.rs are equal.
use rust_bt.Base.{◌≡◌, ◌↔◌, true, arith, bytes_eq_refl, bytes_eq→eq}
use rust_bt.Dht.Routing.Node.{SocketAddr, v4, v6, addr_eq, Node, node_eq}

pub addr_eq_refl : (a : SocketAddr) → addr_eq a a ≡ true
unfolding addr_eq
addr_eq_refl (v4 ip port) = ground (arith, bytes_eq_refl ip)
addr_eq_refl (v6 ip port flow scope) = ground (arith, bytes_eq_refl ip)

pub addr_eq→eq : (a b : SocketAddr) → addr_eq a b ≡ true → a ≡ b
unfolding addr_eq
addr_eq→eq (v4 ip port) (v4 ip' port') h = ground (arith, bytes_eq→eq ip ip')
addr_eq→eq (v6 ip port flow scope) (v6 ip' port' flow' scope') h =
    ground (arith, bytes_eq→eq ip ip')
addr_eq→eq (v4 ip port) (v6 ip' port' flow' scope') h = cc
addr_eq→eq (v6 ip port flow scope) (v4 ip' port') h = cc

-- Nodes are compared by identity and address alone.
pub node_eq_iff : (m n : Node) → (node_eq m n ≡ true) ↔ ((m.id ≡ n.id) × (m.addr ≡ n.addr))
unfolding node_eq
node_eq_iff m n = (
  λ h. ground (arith, bytes_eq→eq m.id n.id, addr_eq→eq m.addr n.addr),
  λ h. ground (arith, bytes_eq_refl m.id, addr_eq_refl m.addr),
)
