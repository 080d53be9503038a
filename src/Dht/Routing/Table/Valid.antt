-- ===== src/Dht/Routing/Table/Valid.antt =====
-- When a table of bip_dht/src/routing/table.rs is well formed, and the two changes that keep it so:
-- adding a node to the bucket it belongs to, and splitting the last bucket.
use rust_bt.Base.{
  ℕ, zero, suc, ◌+◌, ◌≤◌, ◌<◌, ◌≡◌, ◌≢◌, inl, inr, refl, ◌∙◌, List, [], ◌∷◌, ◌++◌, false, none,
  some, Bytes, length, get_elem?, set, arith, length-set, set-cases, length-append,
}
use rust_bt.Dht.Routing.Node.{Time, Node, node_eq, as_bad}
use rust_bt.Dht.Routing.Bucket
use rust_bt.Dht.Routing.Bucket.{Bucket, max_bucket_size, placeholder}
use rust_bt.Dht.Routing.Bucket.Slots.{length-add_node, add_node-from}
use rust_bt.Dht.Routing.Bucket.Unique.{IsUnique, add_node-IsUnique}
use rust_bt.Dht.Routing.Table.{RoutingTable, new, max_buckets, leading_bit_count, bucket_placement}
use rust_bt.Dht.Routing.Table.Pop.{get_elem?-append_left, get_elem?-append_two, get_elem?-replicate}

-- Bucket `i` of `count` is well formed for the table of `node_id`: it has all its slots, every
-- node in them that ever responded belongs into this bucket by its leading bits and is not the
-- table's own, and none stands in two slots.
pub record IsPlaced (node_id : Bytes) (count i : ℕ) (b : Bucket) : Type 0 where
  pub slots : length b.nodes ≡ max_bucket_size
  pub sorted :
      (j : ℕ) (n : Node)
      → get_elem? b.nodes j ≡ some n
      → n.last_response ≢ none
      → (bucket_placement (leading_bit_count node_id n.id) count ≡ i)
        × (leading_bit_count node_id n.id ≢ max_buckets)
  pub unique : (x : Node) → node_eq placeholder x ≡ false → IsUnique x b

pub record IsValid (t : RoutingTable) : Type 0 where
  pub nonempty : 0 < length t.buckets
  pub bounded : length t.buckets ≤ max_buckets
  pub placed :
      (i : ℕ) (b : Bucket)
      → get_elem? t.buckets i ≡ some b
      → IsPlaced t.node_id (length t.buckets) i b

new_bucket-slot : (j : ℕ) (n : Node) → get_elem? Bucket.new.nodes j ≡ some n → n ≡ placeholder
unfolding Bucket.new
new_bucket-slot j n h = get_elem?-replicate max_bucket_size placeholder n j h

-- A new bucket is in order wherever it stands.
pub new_bucket-IsPlaced : (node_id : Bytes) (count i : ℕ) → IsPlaced node_id count i Bucket.new
unfolding Bucket.new as_bad
new_bucket-IsPlaced node_id count i = record {
  slots = refl;
  sorted = λ j n at live. absurd (live (cc (new_bucket-slot j n at)));
  unique = λ x other j k m m' at at' same same'. let e = new_bucket-slot j m at in cc;
}

only : (i : ℕ) (b : Bucket) → get_elem? (Bucket.new ∷ []) i ≡ some b → b ≡ Bucket.new
only zero b h = cc
only (suc i) b h = cc

-- The table of a new node is well formed.
pub new-IsValid : (node_id : Bytes) → IsValid (new node_id)
unfolding new
new-IsValid node_id = record {
  nonempty = omega arith;
  bounded = omega arith;
  placed = λ i b at. rw (only i b at) (new_bucket-IsPlaced node_id 1 i);
}

module _ (now : Time) (n : Node) (node_id : Bytes) (count i : ℕ) (b : Bucket) where
  pub add_node-IsPlaced :
      bucket_placement (leading_bit_count node_id n.id) count ≡ i
      → leading_bit_count node_id n.id ≢ max_buckets
      → IsPlaced node_id count i b
      → IsPlaced node_id count i (Bucket.add_node now n b).0
  add_node-IsPlaced here other p = record {
    slots = length-add_node now n b ∙ p.slots;
    sorted = λ j m at live. elim (add_node-from now n b j m at) [
      | inl new' ↦ rw new' (here, other)
      | inr old ↦ p.sorted j m old live
    ];
    unique = λ x apart. add_node-IsUnique now n b x (p.unique x apart);
  }

-- The index of the bucket that a node belongs to.
abbrev pub home : Node → RoutingTable → ℕ
home n t = bucket_placement (leading_bit_count t.node_id n.id) (length t.buckets)

module _ (now : Time) (n : Node) (t : RoutingTable) where
  -- Adding a node to its bucket keeps the table well formed.
  pub set-IsValid :
      (b : Bucket)
      → get_elem? t.buckets (home n t) ≡ some b
      → leading_bit_count t.node_id n.id ≢ max_buckets
      → IsValid t
      → IsValid (record t { buckets = set t.buckets (home n t) (Bucket.add_node now n b).0 })
  set-IsValid b at other v =
      let b' = (Bucket.add_node now n b).0 in
      let size = length-set t.buckets (home n t) b' in
      record {
        nonempty = omega (arith, size, v.nonempty);
        bounded = omega (arith, size, v.bounded);
        placed = λ i c at'. rw size (elim (set-cases t.buckets (home n t) i b' c at') [
          | inl (p, q) ↦
              rw q (add_node-IsPlaced now n t.node_id _ i b p other (v.placed i b (rw p at at)))
          | inr old ↦ v.placed i c old
        ]);
      }

-- A bucket before the last one keeps its place when the table gets one more bucket.
module _ (node_id : Bytes) (count i : ℕ) (b : Bucket) where
  grow-IsPlaced : suc i < count → IsPlaced node_id count i b → IsPlaced node_id (suc count) i b
  unfolding bucket_placement
  grow-IsPlaced h p = record {
    slots = p.slots;
    sorted = λ j n at live. let s = p.sorted j n at live in (let s' = s.0 in ground arith, s.1);
    unique = p.unique;
  }

-- Two empty buckets in place of the last one leave the table well formed.
pub split-IsValid :
    (t : RoutingTable) (rest : List Bucket) (last : Bucket)
    → t.buckets ≡ rest ++ last ∷ []
    → length t.buckets < max_buckets
    → IsValid t
    → IsValid (record t { buckets = rest ++ Bucket.new ∷ Bucket.new ∷ [] })
split-IsValid t rest last e room v =
    let size = length-append rest (Bucket.new ∷ Bucket.new ∷ []) in
    let size' : length t.buckets ≡ length rest + 1 = rw e (length-append rest (last ∷ [])) in
    let total : length (rest ++ Bucket.new ∷ Bucket.new ∷ []) ≡ suc (length t.buckets) =
      omega arith in
    record {
      nonempty = omega arith;
      bounded = omega arith;
      placed = λ i c at. rw total (elim (get_elem?-append_two rest Bucket.new Bucket.new c i at) [
        | inl (p, q) ↦
            grow-IsPlaced t.node_id (length t.buckets) i c (omega arith)
              (v.placed i c (rw e (get_elem?-append_left rest (last ∷ []) i p ∙ q)))
        | inr (inl q) ↦ rw q (new_bucket-IsPlaced t.node_id _ i)
        | inr (inr q) ↦ rw q (new_bucket-IsPlaced t.node_id _ i)
      ]);
    }
