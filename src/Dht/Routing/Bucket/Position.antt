-- ===== src/Dht/Routing/Bucket/Position.antt =====
-- What `iter().position(..)` finds in the slots of bip_dht/src/routing/bucket.rs, and when two
-- nodes are equal.
use rust_bt.Base.{
  ℕ, zero, suc, ◌+◌, ◌≡◌, refl, List, [], ◌∷◌, Bool, true, false, none, some, get_elem?, arith,
  Bool-cases, inl, inr,
}
use rust_bt.Dht.Routing.Node.{Node}
use rust_bt.Dht.Routing.Bucket.{position, position_from}

pub record Found (p : Node → Bool) (ns : List Node) (i : ℕ) : Type 0 where
  pub node : Node
  pub at : get_elem? ns i ≡ some node
  pub holds : p node ≡ true

position_from-some :
    (k : ℕ) (p : Node → Bool) (ns : List Node) (i : ℕ)
    → position_from k p ns ≡ some i
    → (j : ℕ) × (i ≡ k + j) × Found p ns j
unfolding position_from
position_from-some k p [] i h = cc
position_from-some k p (n ∷ ns) i h = elim (Bool-cases (p n)) [
  | inl e ↦ (0, ground arith, record { node = n; at = refl; holds = e })
  | inr e ↦
      let (j, eq, f) = position_from-some (suc k) p ns i (ground arith) in
      (suc j, omega arith, record { node = f.node; at = f.at; holds = f.holds })
]

pub position-some :
    (p : Node → Bool) (ns : List Node) (i : ℕ) → position p ns ≡ some i → Found p ns i
unfolding position
position-some p ns i h =
    let (j, eq, f) = position_from-some 0 p ns i h in let here : i ≡ j = omega arith in rw here f

position_from-none :
    (k : ℕ) (p : Node → Bool) (ns : List Node)
    → position_from k p ns ≡ none
    → (i : ℕ) (n : Node) → get_elem? ns i ≡ some n
    → p n ≡ false
unfolding position_from
position_from-none k p [] h i n at = cc
position_from-none k p (m ∷ ns) h zero n at = ground arith
position_from-none k p (m ∷ ns) h (suc i) n at =
    position_from-none (suc k) p ns (ground arith) i n at

pub position-none :
    (p : Node → Bool) (ns : List Node)
    → position p ns ≡ none
    → (i : ℕ) (n : Node) → get_elem? ns i ≡ some n
    → p n ≡ false
unfolding position
position-none p ns = position_from-none 0 p ns
