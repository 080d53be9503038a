-- ===== src/Dht/Routing/Table.antt =====
-- bip_dht/src/routing/table.rs: the routing table, which adds nodes and splits its last bucket.
-- A result `none` is a panic, or the end of the fuel; Table/Grow.antt excludes both.
mod Pop
pub mod Valid
pub mod Split
pub mod Grow
pub mod Find
pub mod Known
pub mod Closest
use rust_bt.Base.{
  ℕ, zero, suc, ◌+◌, ◌-◌, ◌*◌, List, [], ◌∷◌, ◌++◌, Bool, true, false, ◌&&◌, not, Option, none,
  some, Bytes, length, get_elem?, set, ltb, leb, ◌==◌, if◌then◌else◌, ◌>>=◌,
}
use rust_bt.Util.Sha.{sha_hash_len, xor_hash, new_bits, count_same}
use rust_bt.Dht.Routing.Node.{Time, bad, rank, Node, status}
use rust_bt.Dht.Routing.Bucket
use rust_bt.Dht.Routing.Bucket.{Bucket}

abbrev pub max_buckets : ℕ
max_buckets = sha_hash_len * 8

pub record RoutingTable : Type 0 where
  pub buckets : List Bucket
  pub node_id : Bytes

unfoldable pub new : Bytes → RoutingTable
new node_id = record { buckets = Bucket.new ∷ []; node_id = node_id }

unfoldable pub leading_bit_count : Bytes → Bytes → ℕ
unfolding xor_hash new_bits count_same
leading_bit_count local_node remote_node =
    let diff_id = xor_hash local_node remote_node in
    count_same (length diff_id * 8) (new_bits diff_id)

unfoldable pub bucket_placement : ℕ → ℕ → ℕ
bucket_placement num_same_bits num_buckets =
    if leb num_buckets num_same_bits then num_buckets - 1 else num_same_bits

unfoldable pub can_split_bucket : ℕ → ℕ → Bool
can_split_bucket num_buckets bucket_index =
    bucket_index == num_buckets - 1 && not (bucket_index == max_buckets - 1)

-- `Vec::pop`: the last element and what stands before it.
unfoldable pub pop {ℓ} : {A : Type ℓ} → List A → Option (List A × A)
pop [] = none
pop (x ∷ xs) = elim (pop xs) [ none ↦ some ([], x) | some (ys, y) ↦ some (x ∷ ys, y) ]

-- `RoutingTable::add_node`, over the `bucket_node` that it calls.
unfoldable pub add_node_by :
    (Node → ℕ → RoutingTable → Option RoutingTable)
    → Time
    → Node
    → RoutingTable
    → Option RoutingTable
add_node_by bucket_node now node table =
    let num_same_bits = leading_bit_count table.node_id node.id in
    if leb (rank (status now node)) (rank bad)
    then some table
    else if num_same_bits == max_buckets
    then some table
    else bucket_node node num_same_bits table

-- `for node in split_bucket.iter() { self.add_node(node.clone()) }`
unfoldable pub add_all :
    (Node → RoutingTable → Option RoutingTable) → List Node → RoutingTable → Option RoutingTable
add_all add [] table = some table
add_all add (n ∷ ns) table = add n table >>= λ table'. add_all add ns table'

unfoldable pub split_bucket :
    (Node → RoutingTable → Option RoutingTable) → ℕ → RoutingTable → Option (RoutingTable × Bool)
split_bucket add bucket_index table =
    if can_split_bucket (length table.buckets) bucket_index
    then (pop table.buckets >>= λ (rest, split).
        add_all add split.nodes (record table { buckets = rest ++ Bucket.new ∷ Bucket.new ∷ [] })
        >>= λ table'. some (table', true))
    else some (table, false)

unfoldable pub bucket_node : ℕ → Time → Node → ℕ → RoutingTable → Option RoutingTable
bucket_node zero now node num_same_bits table = none
bucket_node (suc fuel) now node num_same_bits table =
    let bucket_index = bucket_placement num_same_bits (length table.buckets) in
    get_elem? table.buckets bucket_index >>= λ bucket.
    let (bucket', added) = Bucket.add_node now node bucket in
    let table' = record table { buckets = set table.buckets bucket_index bucket' } in
    let again =
      split_bucket (add_node_by (bucket_node fuel now) now) bucket_index table' >>= λ (split, done).
      let retry = bucket_node fuel now node num_same_bits split in
      if done then retry else some split in
    if added then some table' else again

-- Each split adds a bucket, and there are never more than `max_buckets` of them.
unfoldable pub add_node : Time → Node → RoutingTable → Option RoutingTable
add_node now node table = add_node_by (bucket_node (suc max_buckets) now) now node table
