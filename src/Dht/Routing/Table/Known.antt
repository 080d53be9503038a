-- ===== src/Dht/Routing/Table/Known.antt =====
-- Which nodes `RoutingTable::find_node` of bip_dht/src/routing/table.rs finds.
use rust_bt.Base.{
  ℕ, zero, suc, ◌+◌, ◌<◌, ◌≡◌, inl, inr, refl, ap, List, Bool, ◌||◌, Option, none, some, length,
  get_or, ltb, ◌==◌, if◌then◌else◌, arith, Bool-cases, get_elem?-get_or,
}
use rust_bt.Dht.Routing.Node.{Time, Node}
use rust_bt.Dht.Routing.Bucket
use rust_bt.Dht.Routing.Bucket.{Bucket, pingable_nodes}
use rust_bt.Dht.Routing.Table.{RoutingTable, max_buckets, leading_bit_count}
use rust_bt.Dht.Routing.Table.Find.{
  BucketContents, empty, sorted, Buckets, next_contents, nth, find_in, find_node, or_assorted,
  search_contents,
}

module _ (bs : List Bucket) where
  -- Bucket `i` has been created as a bucket of its own.
  abbrev pub is_sorted : ℕ → Bool
  is_sorted i = ltb (i + 1) (length bs) || length bs == max_buckets

  abbrev item : ℕ → BucketContents
  item i = if is_sorted i then sorted (get_or bs i Bucket.new) else empty

  next_contents-item :
      (i : ℕ)
      → i < max_buckets
      → next_contents (record { buckets = bs; index = i })
        ≡ (some (item i), record { buckets = bs; index = i + 1 })
  unfolding next_contents
  next_contents-item i h = elim (Bool-cases (is_sorted i)) [
    | inl e ↦ let at = get_elem?-get_or bs i Bucket.new (ground arith) in ground arith
    | inr e ↦ ground arith
  ]

  nth-item :
      (k i : ℕ)
      → i + k < max_buckets
      → nth k (record { buckets = bs; index = i }) ≡ some (item (i + k))
  unfolding nth
  nth-item zero i h =
      let e : i + 0 ≡ i = omega arith in
      rw e (ap (λ (x : Option BucketContents × Buckets). x.0) (next_contents-item i (omega arith)))
  nth-item (suc k) i h =
      let e : i + suc k ≡ i + 1 + k = omega arith in
      rw (e, next_contents-item i (omega arith)) (nth-item k (i + 1) (omega arith))

  nth-buckets :
      (k : ℕ) → k < max_buckets → nth k (record { buckets = bs; index = 0 }) ≡ some (item k)
  nth-buckets k h = let e : 0 + k ≡ k = omega arith in rw e at (nth-item k 0 (omega arith))

-- The lookup of a node with another id than the table's, whose bucket exists by itself, searches that bucket's pingable nodes. For any
-- other node, whose place is in the last bucket, it finds nothing, whatever that bucket holds.
pub find_node_lem :
    (now : Time) (n : Node) (t : RoutingTable)
    → leading_bit_count t.node_id n.id < max_buckets
    → find_node now n t ≡ (
        if is_sorted t.buckets (leading_bit_count t.node_id n.id)
        then find_in n
            (pingable_nodes now (get_or t.buckets (leading_bit_count t.node_id n.id) Bucket.new))
        else none)
unfolding find_node or_assorted search_contents
find_node_lem now n t h =
    let i = leading_bit_count t.node_id n.id in
    elim (Bool-cases (is_sorted t.buckets i)) [
      | inl e ↦ rw (nth-buckets t.buckets i h, e) refl
      | inr e ↦ rw (nth-buckets t.buckets i h, e) refl
    ]
