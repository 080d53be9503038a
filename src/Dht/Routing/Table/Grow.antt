-- ===== src/Dht/Routing/Table/Grow.antt =====
-- Adding a node to a table of bip_dht/src/routing/table.rs ends, does not panic, and keeps the
-- table well formed.
use rust_bt.Base.{
  ℕ, zero, suc, ◌≤◌, ◌<◌, ◌≡◌, ◌≢◌, inl, inr, refl, ap, subst, ◌∙◌, Bool, true, false, some, Bytes,
  length, get_elem?, get_or, set, arith, leb, ◌==◌, Bool-cases, if◌then◌else◌, length-set,
  get_elem?-get_or,
}
use rust_bt.Dht.Routing.Node.{Time, Node, bad, rank, status}
use rust_bt.Dht.Routing.Bucket
use rust_bt.Dht.Routing.Bucket.{Bucket}
use rust_bt.Dht.Routing.Table.{
  RoutingTable, max_buckets, leading_bit_count, bucket_placement, can_split_bucket, add_node_by,
  split_bucket, bucket_node, add_node,
}
use rust_bt.Dht.Routing.Table.Valid.{IsValid, home, set-IsValid}
use rust_bt.Dht.Routing.Table.Split.{
  Grows, Runs, Grows-trans, splits, Adds, split_bucket-Splits, split_bucket-keep,
}

home-lt : (n : Node) (t : RoutingTable) → IsValid t → home n t < length t.buckets
unfolding bucket_placement
home-lt n t v = let low = v.nonempty in ground arith

-- Every node is placed in, or kept out of, a table with few enough splits left.
abbrev Places : Time → ℕ → Type 0
Places now fuel =
    (n : Node) (k : ℕ) (t : RoutingTable)
    → leading_bit_count t.node_id n.id ≡ k
    → k ≢ max_buckets
    → IsValid t
    → splits t < fuel
    → Runs t (bucket_node fuel now n k t)

module _ (now : Time) where
  add_node_by-Runs :
      (fuel : ℕ) → Places now fuel → Adds (add_node_by (bucket_node fuel now) now) fuel
  unfolding add_node_by
  add_node_by-Runs fuel runs n t v h =
      let self : Grows t t = record { valid = v; same = refl; more = omega arith } in
      elim (Bool-cases (leb (rank (status now n)) (rank bad))) [
        | inl e ↦ record { table = t; returns = rw e refl; grows = self }
        | inr e ↦ elim (Bool-cases (leading_bit_count t.node_id n.id == max_buckets)) [
          | inl own ↦ record { table = t; returns = rw (e, own) refl; grows = self }
          | inr other ↦
              let r = runs n _ t refl (ground arith) v h in
              record { table = r.table; returns = rw (e, other) r.returns; grows = r.grows }
        ]
      ]

  -- One call of `bucket_node`: what becomes of the table with the node offered to its bucket.
  offered : Node → RoutingTable → Bucket → RoutingTable
  offered n t b = record t { buckets = set t.buckets (home n t) (Bucket.add_node now n b).0 }

  bucket_node-added :
      (fuel : ℕ) (n : Node) (t : RoutingTable) (b : Bucket)
      → get_elem? t.buckets (home n t) ≡ some b
      → (Bucket.add_node now n b).1 ≡ true
      → bucket_node (suc fuel) now n (leading_bit_count t.node_id n.id) t ≡ some (offered n t b)
  unfolding bucket_node offered
  bucket_node-added fuel n t b at e = rw (at, e) refl

  bucket_node-again :
      (fuel : ℕ) (n : Node) (t s : RoutingTable) (b : Bucket) (done : Bool)
      → get_elem? t.buckets (home n t) ≡ some b
      → (Bucket.add_node now n b).1 ≡ false
      → split_bucket (add_node_by (bucket_node fuel now) now) (home n t) (offered n t b)
        ≡ some (s, done)
      → bucket_node (suc fuel) now n (leading_bit_count t.node_id n.id) t
        ≡ (if done then bucket_node fuel now n (leading_bit_count t.node_id n.id) s else some s)
  unfolding bucket_node offered
  bucket_node-again fuel n t s b done at e split = rw (at, e, split) refl

  module _ (fuel : ℕ) (places : Places now fuel) (n : Node) (t : RoutingTable) (b : Bucket) where
    -- the bucket was full and the table was split: the node is offered again
    retry-Runs :
        get_elem? t.buckets (home n t) ≡ some b
        → (Bucket.add_node now n b).1 ≡ false
        → leading_bit_count t.node_id n.id ≢ max_buckets
        → splits t ≤ fuel
        → Grows t (offered n t b)
        → length (offered n t b).buckets ≡ length t.buckets
        → can_split_bucket (length (offered n t b).buckets) (home n t) ≡ true
        → Runs t (bucket_node (suc fuel) now n (leading_bit_count t.node_id n.id) t)
    retry-Runs at no-room other h self size can =
        let t' = offered n t b in
        let adds = add_node_by-Runs fuel places in
        let s = split_bucket-Splits _ fuel (home n t) t' adds self.valid (omega arith) can in
        let g = Grows-trans t t' s.table self s.grows in
        let k = leading_bit_count t.node_id n.id in
        let e : leading_bit_count s.table.node_id n.id ≡ k =
          ap (λ (x : Bytes). leading_bit_count x n.id) g.same in
        let r = places n k s.table e other g.valid (omega (arith, s.split)) in
        record {
          table = r.table;
          returns = bucket_node-again fuel n t s.table b true at no-room s.returns ∙ r.returns;
          grows = Grows-trans t s.table r.table g r.grows;
        }

    offer-Runs :
        get_elem? t.buckets (home n t) ≡ some b
        → leading_bit_count t.node_id n.id ≢ max_buckets
        → splits t ≤ fuel
        → Grows t (offered n t b)
        → length (offered n t b).buckets ≡ length t.buckets
        → Runs t (bucket_node (suc fuel) now n (leading_bit_count t.node_id n.id) t)
    offer-Runs at other h self size = elim (Bool-cases (Bucket.add_node now n b).1) [
      | inl added ↦ record {
        table = offered n t b;
        returns = bucket_node-added fuel n t b at added;
        grows = self;
      }
      | inr no-room ↦
          elim (Bool-cases (can_split_bucket (length (offered n t b).buckets) (home n t))) [
            | inl can ↦ retry-Runs at no-room other h self size can
            | inr cannot ↦ record {
              table = offered n t b;
              returns =
                  bucket_node-again fuel n t (offered n t b) b false at no-room
                    (split_bucket-keep _ (home n t) (offered n t b) cannot);
              grows = self;
            }
          ]
    ]

  offered-Grows :
      (n : Node) (t : RoutingTable) (b : Bucket)
      → get_elem? t.buckets (home n t) ≡ some b
      → leading_bit_count t.node_id n.id ≢ max_buckets
      → IsValid t
      → Grows t (offered n t b)
  unfolding offered
  offered-Grows n t b at other v = record {
    valid = set-IsValid now n t b at other v;
    same = refl;
    more = omega (arith, length-set t.buckets (home n t) (Bucket.add_node now n b).0);
  }

  length-offered :
      (n : Node) (t : RoutingTable) (b : Bucket) → length (offered n t b).buckets ≡ length t.buckets
  unfolding offered
  length-offered n t b = length-set t.buckets (home n t) _

  bucket_node-Runs : (fuel : ℕ) → Places now fuel
  bucket_node-Runs zero n k t e other v h = absurd (omega arith)
  bucket_node-Runs (suc fuel) n k t e other v h =
      let other' : leading_bit_count t.node_id n.id ≢ max_buckets = rw e other in
      let at = get_elem?-get_or t.buckets (home n t) Bucket.new (home-lt n t v) in
      let b = get_or t.buckets (home n t) Bucket.new in
      subst (λ j. Runs t (bucket_node (suc fuel) now n j t)) e
        (offer-Runs fuel (bucket_node-Runs fuel) n t b at other' (omega arith)
          (offered-Grows n t b at other' v) (length-offered n t b))

-- Adding any node to a well-formed table returns a table, with no panic and within the fuel of one
-- step for each possible split; that table is well formed, of the same node, and has no fewer
-- buckets.
pub add_node-Runs :
    (now : Time) (n : Node) (t : RoutingTable) → IsValid t → Runs t (add_node now n t)
unfolding add_node
add_node-Runs now n t v =
    add_node_by-Runs now (suc max_buckets) (bucket_node-Runs now (suc max_buckets)) n t v
      (omega arith)
