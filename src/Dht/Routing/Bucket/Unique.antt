-- ===== src/Dht/Routing/Bucket/Unique.antt =====
-- No node stands in two slots of a bucket of bip_dht/src/routing/bucket.rs.
use rust_bt.Base.{
  ℕ, ◌≡◌, ◌≢◌, ◌⊎◌, Bool, true, some, get_elem?, get_elem?-set, get_elem?-lt, arith, inl, inr,
}
use rust_bt.Dht.Routing.Node.{Time, Node, node_eq}
use rust_bt.Dht.Routing.Bucket.{Bucket, add_node}
use rust_bt.Dht.Routing.Bucket.Add.{
  placed, Outcome, ignored, kept, renewed, replaced, full, add_node-Outcome,
}
use rust_bt.Dht.Routing.Node.Equality.{node_eq_iff}

-- No two slots hold nodes equal to `x`.
abbrev pub IsUnique : Node → Bucket → Type 0
IsUnique x b =
    (i j : ℕ) (m m' : Node)
    → get_elem? b.nodes i ≡ some m
    → get_elem? b.nodes j ≡ some m'
    → node_eq m x ≡ true
    → node_eq m' x ≡ true
    → i ≡ j

module _ (now : Time) (n : Node) (b : Bucket) (x : Node) where
  -- Outside slot `i` nothing equals `x`, if `n` does.
  abbrev IsAlone : ℕ → Type 0
  IsAlone i =
      (j : ℕ) (m : Node)
      → i ≢ j
      → get_elem? b.nodes j ≡ some m
      → node_eq m x ≡ true
      → node_eq n x ≡ true
      → ⊥

  slot-cases :
      (i j : ℕ) (m m₁ : Node)
      → get_elem? b.nodes i ≡ some m
      → get_elem? (placed now n b i).nodes j ≡ some m₁
      → ((i ≡ j) × (m₁ ≡ n)) ⊎ ((i ≢ j) × (get_elem? b.nodes j ≡ some m₁))
  slot-cases i j m m₁ at at₁ =
      ground (arith, get_elem?-set b.nodes i j n, get_elem?-lt b.nodes i at)

  placed-IsUnique :
      (i : ℕ) (m : Node)
      → get_elem? b.nodes i ≡ some m
      → IsAlone i
      → IsUnique x b
      → IsUnique x (placed now n b i)
  placed-IsUnique i m at alone unique j k m₁ m₂ at₁ at₂ e₁ e₂ = elim (slot-cases i j m m₁ at at₁) [
    | inl (p, q) ↦ elim (slot-cases i k m m₂ at at₂) [
      | inl (p', q') ↦ omega arith
      | inr (p', at') ↦ let e : node_eq n x ≡ true = cc in absurd (alone k m₂ p' at' e₂ e)
    ]
    | inr (p, at') ↦ elim (slot-cases i k m m₂ at at₂) [
      | inl (p', q') ↦ let e : node_eq n x ≡ true = cc in absurd (alone j m₁ p at' e₁ e)
      | inr (p', at'') ↦ unique j k m₁ m₂ at' at'' e₁ e₂
    ]
  ]

  -- equality of nodes, through a third
  via : (m : Node) → node_eq m x ≡ true → node_eq n x ≡ true → node_eq m n ≡ true
  via m h k =
      let p = (node_eq_iff m x).0 h in let q = (node_eq_iff n x).0 k in (node_eq_iff m n).1 (cc, cc)

  via' : (m : Node) → node_eq m n ≡ true → node_eq n x ≡ true → node_eq m x ≡ true
  via' m h k =
      let p = (node_eq_iff m n).0 h in let q = (node_eq_iff n x).0 k in (node_eq_iff m x).1 (cc, cc)

  Outcome-IsUnique : (r : Bucket × Bool) → Outcome now n b r → IsUnique x b → IsUnique x r.0
  Outcome-IsUnique r (ignored e _) u = rw e u
  Outcome-IsUnique r (kept i m e _ _ _) u = rw e u
  Outcome-IsUnique r (full e _ _ _) u = rw e u
  Outcome-IsUnique r (renewed i m e at same _) u =
      rw e (
        placed-IsUnique i m at (λ j m' apart at' h k. apart (u i j m m' at at' (via' m same k) h))
          u)
  Outcome-IsUnique r (replaced i m e absent at _) u = rw e (
      placed-IsUnique i m at
        (λ j m' apart at' h k. let clash = absent j m' at' in let met = via m' h k in cc) u)

  -- If no two slots hold nodes equal to `x`, none do after adding a node.
  pub add_node-IsUnique : IsUnique x b → IsUnique x (add_node now n b).0
  add_node-IsUnique = Outcome-IsUnique _ (add_node-Outcome now n b)
