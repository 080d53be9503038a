-- ===== src/Dht/Routing/Table/Find.antt =====
-- bip_dht/src/routing/table.rs: the iterator over the buckets, and `find_node`.
use rust_bt.Base.{
  ℕ, zero, suc, ◌+◌, ◌-◌, List, [], ◌∷◌, ◌||◌, Option, none, some, length, get_elem?, ltb, ◌==◌,
  if◌then◌else◌, ◌>>=◌,
}
use rust_bt.Dht.Routing.Node.{Time, Node, node_eq}
use rust_bt.Dht.Routing.Bucket.{Bucket, pingable_nodes}
use rust_bt.Dht.Routing.Table.{RoutingTable, max_buckets, leading_bit_count}

pub data BucketContents : Type 0 where
  empty : BucketContents
  sorted : Bucket → BucketContents
  assorted : Bucket → BucketContents

pub record Buckets : Type 0 where
  pub buckets : List Bucket
  pub index : ℕ

abbrev pub buckets : RoutingTable → Buckets
buckets table = record { buckets = table.buckets; index = 0 }

-- The item, and the iterator after it. The two reads are in bounds, so no panic hides in `none`.
unfoldable pub next_contents : Buckets → Option BucketContents × Buckets
next_contents it =
    let on = record it { index = it.index + 1 } in
    let count = length it.buckets in
    if ltb max_buckets it.index
    then (none, it)
    else if it.index == max_buckets
    then (
      if count == max_buckets || count == 0
          then none
          else get_elem? it.buckets (count - 1) >>= λ b. some (assorted b),
      on,
    )
    else if ltb (it.index + 1) count || count == max_buckets
    then (get_elem? it.buckets it.index >>= λ b. some (sorted b), on)
    else (some empty, on)

-- `skip(n).next()`
unfoldable pub nth : ℕ → Buckets → Option BucketContents
nth zero it = (next_contents it).0
nth (suc n) it = (next_contents it).0 >>= λ _. nth n (next_contents it).1

-- `find(..)` for the assorted bucket; the iterator ends after `max_buckets + 1` items.
unfoldable pub find_assorted : ℕ → Buckets → Option BucketContents
find_assorted zero it = none
find_assorted (suc fuel) it = elim (next_contents it).0 [
  | none ↦ none
  | some contents ↦ elim contents [
    | assorted b ↦ some (assorted b)
    | _ ↦ find_assorted fuel (next_contents it).1
  ]
]

unfoldable pub find_in : Node → List Node → Option Node
find_in node [] = none
find_in node (n ∷ ns) = if node_eq n node then some n else find_in node ns

-- The bucket contents that were skipped to, or else the assorted bucket if there is one.
unfoldable pub or_assorted : Option BucketContents → RoutingTable → Option BucketContents
or_assorted none table = find_assorted (max_buckets + 2) (buckets table)
or_assorted (some contents) table = some contents

unfoldable pub search_contents : Time → Node → Option BucketContents → Option Node
search_contents now node none = none
search_contents now node (some empty) = none
search_contents now node (some (sorted b)) = find_in node (pingable_nodes now b)
search_contents now node (some (assorted b)) = find_in node (pingable_nodes now b)

unfoldable pub find_node : Time → Node → RoutingTable → Option Node
find_node now node table =
    search_contents now node
      (or_assorted (nth (leading_bit_count table.node_id node.id) (buckets table)) table)
