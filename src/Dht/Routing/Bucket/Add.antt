-- ===== src/Dht/Routing/Bucket/Add.antt =====
-- What `Bucket::add_node` of bip_dht/src/routing/bucket.rs does, on each of its branches.
use rust_bt.Base.{
  ℕ, ◌≤◌, ◌<◌, ◌≡◌, ◌≢◌, inl, inr, Bool, true, false, Option, none, some, get_elem?, get_or, set,
  arith, ltb, leb, Bool-cases, Option-cases, get_elem?-lt, get_elem?-get_or,
}
use rust_bt.Dht.Routing.Node.{Time, bad, rank, Node, node_eq, status}
use rust_bt.Dht.Routing.Bucket.{Bucket, position, add_node}
use rust_bt.Dht.Routing.Bucket.Position.{position-some, position-none}

module _ (now : Time) (n : Node) (b : Bucket) where
  -- No slot holds this node.
  abbrev pub IsAbsent : Type 0
  IsAbsent = (i : ℕ) (m : Node) → get_elem? b.nodes i ≡ some m → node_eq m n ≡ false

  abbrev pub placed : ℕ → Bucket
  placed i = record b { nodes = set b.nodes i n }

  pub data Outcome (r : Bucket × Bool) : Type 0 where
    ignored : r ≡ (b, true) → status now n ≡ bad → Outcome r
    kept :
        (i : ℕ) (m : Node)
        → r ≡ (b, true)
        → get_elem? b.nodes i ≡ some m
        → node_eq m n ≡ true
        → rank (status now n) < rank (status now m)
        → Outcome r
    renewed :
        (i : ℕ) (m : Node)
        → r ≡ (placed i, true)
        → get_elem? b.nodes i ≡ some m
        → node_eq m n ≡ true
        → rank (status now m) ≤ rank (status now n)
        → Outcome r
    replaced :
        (i : ℕ) (m : Node)
        → r ≡ (placed i, true)
        → IsAbsent
        → get_elem? b.nodes i ≡ some m
        → rank (status now m) < rank (status now n)
        → Outcome r
    full :
        r ≡ (b, false)
        → status now n ≢ bad
        → IsAbsent
        → ((i : ℕ) (m : Node)
            → get_elem? b.nodes i ≡ some m
            → rank (status now n) ≤ rank (status now m))
        → Outcome r

  -- The searches that `add_node` makes.
  abbrev by_identity : Option ℕ
  by_identity = position (λ node. node_eq node n) b.nodes

  abbrev by_rank : Option ℕ
  by_rank = position (λ node. ltb (rank (status now node)) (rank (status now n))) b.nodes

  add_node-bad : status now n ≡ bad → add_node now n b ≡ (b, true)
  unfolding add_node
  add_node-bad e = rw e

  same_node : (i : ℕ) (m : Node) (d : Node) → get_elem? b.nodes i ≡ some m → get_or b.nodes i d ≡ m
  same_node i m d h = cc (get_elem?-get_or b.nodes i d (get_elem?-lt b.nodes i h))

  found_identity : (i : ℕ) → status now n ≢ bad → by_identity ≡ some i → Outcome (add_node now n b)
  unfolding add_node
  found_identity i live e =
      let f = position-some _ b.nodes i e in
      let here = same_node i f.node n f.at in
      elim (Bool-cases (leb (rank (status now f.node)) (rank (status now n)))) [
        | inl up ↦ renewed i f.node (rw (e, here, up) (ground arith)) f.at f.holds (ground arith)
        | inr down ↦ kept i f.node (rw (e, here, down) (ground arith)) f.at f.holds (ground arith)
      ]

  no_identity : status now n ≢ bad → by_identity ≡ none → Outcome (add_node now n b)
  unfolding add_node
  no_identity live e = elim (Option-cases by_rank) [
    | inl e' ↦
        full (rw (e, e') (ground arith)) live (position-none _ b.nodes e)
          (λ i m at. let low = position-none _ b.nodes e' i m at in ground arith)
    | inr (i, e') ↦
        let f = position-some _ b.nodes i e' in
        let low = f.holds in
        replaced i f.node (rw (e, e') (ground arith)) (position-none _ b.nodes e) f.at
          (ground arith)
  ]

  pub add_node-Outcome : Outcome (add_node now n b)
  add_node-Outcome = elim (Bool-cases (leb (rank (status now n)) (rank bad))) [
    | inl dead ↦ let e : status now n ≡ bad = ground arith in ignored (add_node-bad e) e
    | inr live ↦
        let e : status now n ≢ bad = ground arith in
        elim (Option-cases by_identity) [
          | inl h ↦ no_identity e h
          | inr (i, h) ↦ found_identity i e h
        ]
  ]
