-- ===== src/Tests/Routing.antt =====
-- bip_dht/src/routing: nodes, a bucket and a table at fixed times.
use rust_bt.Base.{
  ℕ, zero, suc, ◌≤◌, ◌≡◌, ◌≢◌, ◌↔◌, refl, sym, subst, ◌∙◌, [], ◌∷◌, true, false, none, some, Bytes,
  bytes_eq, replicate, get_elem?, get_or, if◌then◌else◌, arith,
}
use rust_bt.Util.Sha.{xor_hash, new_bits, count_same}
use rust_bt.Dht.Routing.Node.{
  Time, minutes, bad, questionable, good, rank, v4, Node, addr_eq, node_eq, status,
}
use rust_bt.Dht.Routing.Node.Equality.{node_eq_iff}
use rust_bt.Dht.Routing.Bucket
use rust_bt.Dht.Routing.Bucket.{Bucket, pingable_nodes, placeholder}
use rust_bt.Dht.Routing.Bucket.Slots.{Holds, add_node-keeps, add_node-Holds, add_node-full}
use rust_bt.Dht.Routing.Bucket.Unique.{IsUnique, add_node-IsUnique}
use rust_bt.Dht.Routing.Table
use rust_bt.Dht.Routing.Table.{RoutingTable, leading_bit_count}
use rust_bt.Dht.Routing.Table.Valid.{new-IsValid}
use rust_bt.Dht.Routing.Table.Split.{Runs}
use rust_bt.Dht.Routing.Table.Grow.{add_node-Runs}
use rust_bt.Dht.Routing.Table.Find.{find_in, find_node}
use rust_bt.Dht.Routing.Table.Known.{is_sorted, find_node_lem}
use rust_bt.Dht.Routing.Table.Closest.{walk}

abbrev own_id : Bytes
own_id = replicate 20 255

abbrev now : Time
now = minutes 100

abbrev seen : ℕ → ℕ → Node
seen k m = record {
  id = replicate 20 k;
  addr = v4 (10 ∷ 0 ∷ 0 ∷ k ∷ []) 6881;
  last_request = none;
  last_response = some (minutes m);
  refresh_requests = 0;
}

abbrev fresh : Node
fresh = seen 1 95

abbrev other : Node
other = seen 2 95

-- seen 20 minutes ago
abbrev stale : Node
stale = seen 3 80

abbrev small : Bucket
small = record { nodes = fresh ∷ stale ∷ [] }

abbrev crowded : Bucket
crowded = record { nodes = fresh ∷ other ∷ [] }

status-fresh : status now fresh ≡ good
unfolding status
status-fresh = refl

status-other : status now other ≡ good
unfolding status
status-other = refl

status-stale : status now stale ≡ questionable
unfolding status
status-stale = refl

fresh-other : node_eq fresh other ≡ false
unfolding node_eq addr_eq bytes_eq
fresh-other = refl

-- the good node takes the slot of the questionable one
replaces : Bucket.add_node now other small ≡ (record { nodes = fresh ∷ other ∷ [] }, true)
unfolding Bucket.add_node status node_eq addr_eq bytes_eq Bucket.position
replaces = refl

refuses : Bucket.add_node now stale crowded ≡ (crowded, false)
unfolding Bucket.add_node status node_eq addr_eq bytes_eq Bucket.position
refuses = refl

add_node-keeps_example : get_elem? (Bucket.add_node now other small).0.nodes 0 ≡ some fresh
add_node-keeps_example =
    add_node-keeps now other small 0 fresh refl fresh-other
      (rw (status-fresh, status-other) (omega arith))

other-live : status now other ≢ bad
other-live h = cc status-other

add_node-Holds_example : Holds now other (Bucket.add_node now other small).0
add_node-Holds_example = add_node-Holds now other small other-live (rw replaces refl)

add_node-full_example :
    ((Bucket.add_node now stale crowded).0 ≡ crowded)
    × (status now stale ≢ bad)
    × ((i : ℕ) (m : Node)
        → get_elem? crowded.nodes i ≡ some m
        → (node_eq m stale ≡ false) × (rank (status now stale) ≤ rank (status now m)))
add_node-full_example = add_node-full now stale crowded (rw refuses refl)

-- slot 0 alone holds the node
small-slot : (i : ℕ) (m : Node) → get_elem? small.nodes i ≡ some m → node_eq m fresh ≡ true → i ≡ 0
unfolding node_eq addr_eq bytes_eq
small-slot zero m at e = refl
small-slot (suc zero) m at e =
    let same : m ≡ stale = cc in let e' = subst (λ (x : Node). node_eq x fresh ≡ true) same e in cc
small-slot (suc (suc i)) m at e = cc

small-IsUnique : IsUnique fresh small
small-IsUnique i j m m' at at' e e' = small-slot i m at e ∙ sym (small-slot j m' at' e')

add_node-IsUnique_example : IsUnique fresh (Bucket.add_node now other small).0
add_node-IsUnique_example = add_node-IsUnique now other small fresh small-IsUnique

add_node-Runs_example : Runs (Table.new own_id) (Table.add_node now fresh (Table.new own_id))
add_node-Runs_example = add_node-Runs now fresh (Table.new own_id) (new-IsValid own_id)

leading-fresh : leading_bit_count own_id fresh.id ≡ 0
unfolding leading_bit_count xor_hash new_bits count_same
leading-fresh = refl

abbrev two_buckets : RoutingTable
two_buckets = record { buckets = small ∷ Bucket.new ∷ []; node_id = own_id }

find_node_lem_example : find_node now fresh two_buckets ≡ (
    if is_sorted two_buckets.buckets (leading_bit_count two_buckets.node_id fresh.id)
    then find_in fresh (
        pingable_nodes now
          (get_or two_buckets.buckets (leading_bit_count two_buckets.node_id fresh.id) Bucket.new))
    else none)
find_node_lem_example = find_node_lem now fresh two_buckets (omega (arith, leading-fresh))

abbrev one_bucket : RoutingTable
one_bucket = record { buckets = small ∷ []; node_id = own_id }

-- a good node of the table that the lookup does not find
lost_node : find_node now fresh one_bucket ≡ none
lost_node =
    find_node_lem now fresh one_bucket (omega (arith, leading-fresh)) ∙ rw leading-fresh refl

walk_run : walk 7 6 1 1 ≡ 1 ∷ 2 ∷ 0 ∷ 3 ∷ 4 ∷ 5 ∷ []
unfolding walk Table.Closest.next_bucket_index
walk_run = refl

node_eq_iff_example :
    (node_eq fresh other ≡ true) ↔ ((fresh.id ≡ other.id) × (fresh.addr ≡ other.addr))
node_eq_iff_example = node_eq_iff fresh other
