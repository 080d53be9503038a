-- ===== src/Dht/Routing/Table/Split.antt =====
-- Splitting the last bucket of a table of bip_dht/src/routing/table.rs leaves it well formed, if adding
-- a node does.
use rust_bt.Base.{
  ℕ, suc, ◌-◌, ◌≤◌, ◌<◌, ◌≡◌, refl, ◌∙◌, List, [], ◌∷◌, ◌++◌, Bool, true, false, Option, some,
  length, arith, length-append,
}
use rust_bt.Dht.Routing.Node.{Node}
use rust_bt.Dht.Routing.Bucket
use rust_bt.Dht.Routing.Bucket.{Bucket}
use rust_bt.Dht.Routing.Table.{RoutingTable, max_buckets, can_split_bucket, add_all, split_bucket}
use rust_bt.Dht.Routing.Table.Pop.{pop-some}
use rust_bt.Dht.Routing.Table.Valid.{IsValid, split-IsValid}

-- A later state of the table: well formed, of the same node, and with no fewer buckets.
pub record Grows (t t' : RoutingTable) : Type 0 where
  pub valid : IsValid t'
  pub same : t'.node_id ≡ t.node_id
  pub more : length t.buckets ≤ length t'.buckets

pub record Runs (t : RoutingTable) (r : Option RoutingTable) : Type 0 where
  pub table : RoutingTable
  pub returns : r ≡ some table
  pub grows : Grows t table

pub Grows-trans : (t t' t'' : RoutingTable) → Grows t t' → Grows t' t'' → Grows t t''
Grows-trans t t' t'' g h = record { valid = h.valid; same = h.same ∙ g.same; more = omega arith }

-- The work that is left: how often the table can still be split.
abbrev pub splits : RoutingTable → ℕ
splits t = max_buckets - length t.buckets

-- Every table with few enough splits left is extended by `add`.
abbrev pub Adds : (Node → RoutingTable → Option RoutingTable) → ℕ → Type 0
Adds add fuel = (n : Node) (t : RoutingTable) → IsValid t → splits t < fuel → Runs t (add n t)

add_all-Runs :
    (add : Node → RoutingTable → Option RoutingTable) (fuel : ℕ)
    → Adds add fuel
    → (ns : List Node) (t : RoutingTable) → IsValid t
    → splits t < fuel
    → Runs t (add_all add ns t)
unfolding add_all
add_all-Runs add fuel adds [] t v h = record {
  table = t;
  returns = refl;
  grows = record { valid = v; same = refl; more = omega arith };
}
add_all-Runs add fuel adds (n ∷ ns) t v h =
    let first = adds n t v h in
    let g = first.grows in
    let next = add_all-Runs add fuel adds ns first.table g.valid (omega (arith, g.more)) in
    record {
      table = next.table;
      returns = rw first.returns next.returns;
      grows = Grows-trans t first.table next.table g next.grows;
    }

pub record Splits (t : RoutingTable) (r : Option (RoutingTable × Bool)) : Type 0 where
  pub table : RoutingTable
  pub returns : r ≡ some (table, true)
  pub grows : Grows t table
  pub split : suc (length t.buckets) ≤ length table.buckets

can-room :
    (t : RoutingTable) (i : ℕ)
    → IsValid t
    → can_split_bucket (length t.buckets) i ≡ true
    → length t.buckets < max_buckets
unfolding can_split_bucket
can-room t i v can = let low = v.nonempty in let high = v.bounded in ground arith

length-push :
    (rest : List Bucket) (last : Bucket) (t : RoutingTable)
    → t.buckets ≡ rest ++ last ∷ []
    → length (rest ++ Bucket.new ∷ Bucket.new ∷ []) ≡ suc (length t.buckets)
length-push rest last t e = rw (e, length-append, length-append) (omega arith)

pub split_bucket-Splits :
    (add : Node → RoutingTable → Option RoutingTable) (fuel i : ℕ) (t : RoutingTable)
    → Adds add fuel
    → IsValid t
    → splits t ≤ fuel
    → can_split_bucket (length t.buckets) i ≡ true
    → Splits t (split_bucket add i t)
unfolding split_bucket
split_bucket-Splits add fuel i t adds v h can =
    let (rest, last, e, eq) = pop-some t.buckets v.nonempty in
    let room : length t.buckets < max_buckets = can-room t i v can in
    let pushed : RoutingTable = record t { buckets = rest ++ Bucket.new ∷ Bucket.new ∷ [] } in
    let v' : IsValid pushed = split-IsValid t rest last eq room v in
    let size = length-push rest last t eq in
    let r = add_all-Runs add fuel adds last.nodes pushed v' (omega arith) in
    let g = r.grows in
    record {
      table = r.table;
      returns = rw (can, e, r.returns) refl;
      grows = record { valid = g.valid; same = g.same; more = omega (arith, g.more) };
      split = omega (arith, g.more);
    }

pub split_bucket-keep :
    (add : Node → RoutingTable → Option RoutingTable) (i : ℕ) (t : RoutingTable)
    → can_split_bucket (length t.buckets) i ≡ false
    → split_bucket add i t ≡ some (t, false)
unfolding split_bucket
split_bucket-keep add i t e = rw e refl
