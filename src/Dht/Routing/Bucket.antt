-- ===== src/Dht/Routing/Bucket.antt =====
-- bip_dht/src/routing/bucket.rs: eight slots of nodes. The clock stands still within one operation:
-- each `status()` in it reads the same time `now`.
mod Position
pub mod Add
pub mod Slots
pub mod Unique
use rust_bt.Base.{
  ℕ, zero, suc, List, [], ◌∷◌, Bool, true, false, ◌&&◌, ◌||◌, not, Option, none, some, Bytes,
  replicate, get_or, set, ltb, leb, if◌then◌else◌,
}
use rust_bt.Util.Sha.{sha_hash_len}
use rust_bt.Dht.Routing.Node.{
  Time, NodeStatus, bad, questionable, good, rank, SocketAddr, v4, Node, node_eq, as_bad, status,
}

abbrev pub max_bucket_size : ℕ
max_bucket_size = 8

pub record Bucket : Type 0 where
  pub nodes : List Node

abbrev pub placeholder : Node
placeholder = as_bad (replicate sha_hash_len 0) (v4 (127 ∷ 0 ∷ 0 ∷ 1 ∷ []) 0)

unfoldable pub new : Bucket
new = record { nodes = replicate max_bucket_size placeholder }

-- `iter().filter(..)`
unfoldable pub filter_nodes : (Node → Bool) → List Node → List Node
filter_nodes p [] = []
filter_nodes p (n ∷ ns) = if p n then n ∷ filter_nodes p ns else filter_nodes p ns

unfoldable pub good_nodes_filter : Time → Node → Bool
good_nodes_filter now node = elim (status now node) [ good ↦ true | _ ↦ false ]

unfoldable pub pingable_nodes_filter : Time → Node → Bool
pingable_nodes_filter now node = elim (status now node) [ bad ↦ false | _ ↦ true ]

unfoldable pub good_nodes : Time → Bucket → List Node
unfolding filter_nodes good_nodes_filter
good_nodes now bucket = filter_nodes (good_nodes_filter now) bucket.nodes

unfoldable pub pingable_nodes : Time → Bucket → List Node
unfolding filter_nodes pingable_nodes_filter
pingable_nodes now bucket = filter_nodes (pingable_nodes_filter now) bucket.nodes

-- `fold(true, |prev, node| prev && node.status() != Good)`
unfoldable pub refresh_fold : Time → Bool → List Node → Bool
unfolding good_nodes_filter
refresh_fold now prev [] = prev
refresh_fold now prev (n ∷ ns) = refresh_fold now (prev && not (good_nodes_filter now n)) ns

unfoldable pub needs_refresh : Time → Bucket → Bool
unfolding refresh_fold
needs_refresh now bucket = refresh_fold now true bucket.nodes

-- `iter().position(..)`
unfoldable pub position_from : ℕ → (Node → Bool) → List Node → Option ℕ
position_from i p [] = none
position_from i p (n ∷ ns) = if p n then some i else position_from (suc i) p ns

unfoldable pub position : (Node → Bool) → List Node → Option ℕ
unfolding position_from
position = position_from 0

-- The new bucket, and false if the node found no slot.
unfoldable pub add_node : Time → Node → Bucket → Bucket × Bool
add_node now new_node bucket =
    let new_rank = rank (status now new_node) in
    let placed = λ (i : ℕ). record bucket { nodes = set bucket.nodes i new_node } in
    if leb new_rank (rank bad)
    then (bucket, true)
    else elim (position (λ node. node_eq node new_node) bucket.nodes) [
      | some index ↦ (
        if leb (rank (status now (get_or bucket.nodes index new_node))) new_rank
            then placed index
            else bucket,
        true,
      )
      | none ↦ elim (position (λ node. ltb (rank (status now node)) new_rank) bucket.nodes) [
        | some index ↦ (placed index, true)
        | none ↦ (bucket, false)
      ]
    ]
