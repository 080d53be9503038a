-- ===== src/Dht/Routing/Bucket/Slots.antt =====
-- The slots of a bucket of bip_dht/src/routing/bucket.rs before and after `Bucket::add_node`.
use rust_bt.Base.{
  ℕ, ◌≤◌, ◌<◌, ◌≡◌, ◌≢◌, ◌⊎◌, inr, refl, ap, Bool, true, false, some, length, get_elem?, arith,
  length-set, get_elem?-set, get_elem?-lt,
}
use rust_bt.Dht.Routing.Node.{Time, bad, rank, Node, node_eq, status}
use rust_bt.Dht.Routing.Bucket.{Bucket, add_node}
use rust_bt.Dht.Routing.Bucket.Add.{
  placed, Outcome, ignored, kept, renewed, replaced, full, add_node-Outcome,
}
use rust_bt.Dht.Routing.Node.Equality.{node_eq_iff}

-- Some slot holds a node equal to `n` of no lower status.
pub record Holds (now : Time) (n : Node) (b : Bucket) : Type 0 where
  pub index : ℕ
  pub node : Node
  pub at : get_elem? b.nodes index ≡ some node
  pub same : node_eq node n ≡ true
  pub up : rank (status now n) ≤ rank (status now node)

module _ (now : Time) (n : Node) (b : Bucket) where
  pub placed_self :
      (i : ℕ) (m : Node)
      → get_elem? b.nodes i ≡ some m
      → get_elem? (placed now n b i).nodes i ≡ some n
  placed_self i m h = ground (arith, get_elem?-set b.nodes i i n, get_elem?-lt b.nodes i h)

  pub placed-ne : (i j : ℕ) → i ≢ j → get_elem? (placed now n b i).nodes j ≡ get_elem? b.nodes j
  placed-ne i j h = ground (arith, get_elem?-set b.nodes i j n)

  node_eq_self : node_eq n n ≡ true
  node_eq_self = (node_eq_iff n n).1 (refl, refl)

  Outcome-length : (r : Bucket × Bool) → Outcome now n b r → length r.0.nodes ≡ length b.nodes
  Outcome-length r (ignored e _) = rw e
  Outcome-length r (kept i m e _ _ _) = rw e
  Outcome-length r (renewed i m e _ _ _) = rw e (length-set b.nodes i n)
  Outcome-length r (replaced i m e _ _ _) = rw e (length-set b.nodes i n)
  Outcome-length r (full e _ _ _) = rw e

  -- Adding a node keeps the number of slots.
  pub length-add_node : length (add_node now n b).0.nodes ≡ length b.nodes
  length-add_node = Outcome-length _ (add_node-Outcome now n b)

  lower-ne :
      (i j : ℕ) (m' m : Node)
      → i ≡ j
      → get_elem? b.nodes i ≡ some m'
      → get_elem? b.nodes j ≡ some m
      → rank (status now m') < rank (status now n)
      → rank (status now n) ≤ rank (status now m)
      → ⊥
  lower-ne i j m' m h at' at low up =
      let eq : m' ≡ m = cc (ap (get_elem? b.nodes) h) in
      omega (arith, ap (λ (x : Node). rank (status now x)) eq)

  Outcome-keeps :
      (r : Bucket × Bool) (j : ℕ) (m : Node)
      → Outcome now n b r
      → get_elem? b.nodes j ≡ some m
      → node_eq m n ≡ false
      → rank (status now n) ≤ rank (status now m)
      → get_elem? r.0.nodes j ≡ some m
  Outcome-keeps r j m (ignored e _) at ne up = rw e at
  Outcome-keeps r j m (kept i m' e _ _ _) at ne up = rw e at
  Outcome-keeps r j m (renewed i m' e at' same _) at ne up =
      let apart : i ≢ j = λ h. cc (ap (get_elem? b.nodes) h) in rw e (cc (placed-ne i j apart))
  Outcome-keeps r j m (replaced i m' e _ at' low) at ne up =
      let apart : i ≢ j = λ h. lower-ne i j m' m h at' at low up in rw e (cc (placed-ne i j apart))
  Outcome-keeps r j m (full e _ _ _) at ne up = rw e at

  -- A node keeps its slot when a node of no higher status and of another identity is added: an
  -- older node is never displaced by a newer one that is no better.
  pub add_node-keeps :
      (j : ℕ) (m : Node)
      → get_elem? b.nodes j ≡ some m
      → node_eq m n ≡ false
      → rank (status now n) ≤ rank (status now m)
      → get_elem? (add_node now n b).0.nodes j ≡ some m
  add_node-keeps j m = Outcome-keeps _ j m (add_node-Outcome now n b)

  Outcome-Holds :
      (r : Bucket × Bool) → Outcome now n b r → status now n ≢ bad → r.1 ≡ true → Holds now n r.0
  Outcome-Holds r (ignored e dead) live yes' = absurd (live dead)
  Outcome-Holds r (kept i m e at same up) live yes' =
      rw e (record { index = i; node = m; at = at; same = same; up = omega arith })
  Outcome-Holds r (renewed i m e at _ _) live yes' = rw e (record {
    index = i;
    node = n;
    at = placed_self i m at;
    same = node_eq_self;
    up = omega arith;
  })
  Outcome-Holds r (replaced i m e _ at _) live yes' = rw e (record {
    index = i;
    node = n;
    at = placed_self i m at;
    same = node_eq_self;
    up = omega arith;
  })
  Outcome-Holds r (full e _ _ _) live yes' = cc

  -- When adding a node that is not bad succeeds, a slot holds it, or an equal node of no lower status.
  pub add_node-Holds :
      status now n ≢ bad → (add_node now n b).1 ≡ true → Holds now n (add_node now n b).0
  add_node-Holds = Outcome-Holds _ (add_node-Outcome now n b)

  Outcome-full :
      (r : Bucket × Bool)
      → Outcome now n b r
      → r.1 ≡ false
      → (r.0 ≡ b)
        × (status now n ≢ bad)
        × ((i : ℕ) (m : Node)
            → get_elem? b.nodes i ≡ some m
            → (node_eq m n ≡ false) × (rank (status now n) ≤ rank (status now m)))
  Outcome-full r (full e live absent above) no' =
      (ap (λ x. x.0) e, live, λ i m at. (absent i m at, above i m at))
  Outcome-full r (ignored e _) no' = cc
  Outcome-full r (kept i m e _ _ _) no' = cc
  Outcome-full r (renewed i m e _ _ _) no' = cc
  Outcome-full r (replaced i m e _ _ _) no' = cc

  -- Adding fails only for a node that is not bad, in no slot, and no better than the node of any
  -- slot; the bucket is then unchanged.
  pub add_node-full :
      (add_node now n b).1 ≡ false
      → ((add_node now n b).0 ≡ b)
        × (status now n ≢ bad)
        × ((i : ℕ) (m : Node)
            → get_elem? b.nodes i ≡ some m
            → (node_eq m n ≡ false) × (rank (status now n) ≤ rank (status now m)))
  add_node-full = Outcome-full _ (add_node-Outcome now n b)

  Outcome-from :
      (r : Bucket × Bool) (j : ℕ) (m : Node)
      → Outcome now n b r
      → get_elem? r.0.nodes j ≡ some m
      → (m ≡ n) ⊎ (get_elem? b.nodes j ≡ some m)
  Outcome-from r j m (ignored e _) at = inr (rw e at at)
  Outcome-from r j m (kept i m' e _ _ _) at = inr (rw e at at)
  Outcome-from r j m (full e _ _ _) at = inr (rw e at at)
  Outcome-from r j m (renewed i m' e _ _ _) at =
      let at' : get_elem? (placed now n b i).nodes j ≡ some m = rw e at at in
      ground (arith, get_elem?-set b.nodes i j n)
  Outcome-from r j m (replaced i m' e _ _ _) at =
      let at' : get_elem? (placed now n b i).nodes j ≡ some m = rw e at at in
      ground (arith, get_elem?-set b.nodes i j n)

  -- Each slot holds the new node or what it held before.
  pub add_node-from :
      (j : ℕ) (m : Node)
      → get_elem? (add_node now n b).0.nodes j ≡ some m
      → (m ≡ n) ⊎ (get_elem? b.nodes j ≡ some m)
  add_node-from j m = Outcome-from _ j m (add_node-Outcome now n b)
