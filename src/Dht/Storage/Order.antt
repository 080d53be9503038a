-- ===== src/Dht/Storage/Order.antt =====
-- While the clock does not run backwards, the expirations of bip_dht/src/storage.rs stay in the
-- order of their times.
use rust_bt.Base.{
  ◌≤◌, ◌≡◌, inl, inr, refl, List, [], ◌∷◌, ◌++◌, Bool, Option, Bytes, Bool-cases, arith,
}
use rust_bt.Dht.Routing.Node.{Time, SocketAddr}
use rust_bt.Dht.Storage.{
  ItemExpiration, AnnounceItem, AnnounceStorage, item_eq, is_expired, retain_ne, drain_expired,
  remove_expired_items, add_item,
}
use rust_bt.Dht.Storage.Add.{Outcome, renewed, inserted, refused, item, add_item-Outcome}
use rust_bt.Dht.Storage.Fresh.{IsOrdered}

-- In order between the two times.
abbrev pub IsTimely : Time → Time → List ItemExpiration → Type 0
IsTimely t now [] = t ≤ now
IsTimely t now (x ∷ xs) = (t ≤ x.inserted) × IsTimely x.inserted now xs

IsTimely-le : (t now : Time) (xs : List ItemExpiration) → IsTimely t now xs → t ≤ now
IsTimely-le t now [] o = o
IsTimely-le t now (x ∷ xs) o = omega (arith, o.0, IsTimely-le x.inserted now xs o.1)

IsTimely-from :
    (t u now : Time) (xs : List ItemExpiration) → t ≤ u → IsTimely u now xs → IsTimely t now xs
IsTimely-from t u now [] le o = omega arith
IsTimely-from t u now (x ∷ xs) le o = (omega (arith, o.0), o.1)

IsTimely-until :
    (t u now : Time) (xs : List ItemExpiration) → u ≤ now → IsTimely t u xs → IsTimely t now xs
IsTimely-until t u now [] le o = omega arith
IsTimely-until t u now (x ∷ xs) le o = (o.0, IsTimely-until x.inserted u now xs le o.1)

pub IsTimely-IsOrdered :
    (t now : Time) (xs : List ItemExpiration) → IsTimely t now xs → IsOrdered t xs
IsTimely-IsOrdered t now [] o = tt
IsTimely-IsOrdered t now (x ∷ xs) o = (o.0, IsTimely-IsOrdered x.inserted now xs o.1)

append-IsTimely :
    (t now : Time) (xs : List ItemExpiration) (i : ItemExpiration)
    → i.inserted ≡ now
    → IsTimely t now xs
    → IsTimely t now (xs ++ i ∷ [])
append-IsTimely t now [] i e o = (omega arith, omega arith)
append-IsTimely t now (x ∷ xs) i e o = (o.0, append-IsTimely x.inserted now xs i e o.1)

retain-IsTimely :
    (t now : Time) (d : ItemExpiration) (xs : List ItemExpiration)
    → IsTimely t now xs
    → IsTimely t now (retain_ne d xs)
unfolding retain_ne
retain-IsTimely t now d [] o = o
retain-IsTimely t now d (x ∷ xs) o =
    let rest = retain-IsTimely x.inserted now d xs o.1 in
    elim (Bool-cases (item_eq x d)) [
      | inl e ↦ rw e (IsTimely-from t x.inserted now (retain_ne d xs) o.0 rest)
      | inr e ↦ rw e (o.0, rest)
    ]

drain-IsTimely :
    (t u now : Time) (xs : List ItemExpiration) (storage : Bytes → Option (List AnnounceItem))
    → IsTimely t u xs
    → IsTimely t u (drain_expired now xs storage).expires
unfolding drain_expired
drain-IsTimely t u now [] storage o = o
drain-IsTimely t u now (x ∷ xs) storage o = elim (Bool-cases (is_expired now x)) [
  | inl e ↦ rw e (IsTimely-from t x.inserted u _ o.0 (drain-IsTimely x.inserted u now xs _ o.1))
  | inr e ↦ rw e o
]

module _ (u now : Time) (h : Bytes) (a : SocketAddr) (s : AnnounceStorage) where
  sweep-IsTimely :
      u ≤ now → IsTimely 0 u s.expires → IsTimely 0 now (remove_expired_items now s).expires
  unfolding remove_expired_items
  sweep-IsTimely le o = IsTimely-until 0 u now _ le (drain-IsTimely 0 u now s.expires s.storage o)

  Outcome-IsTimely :
      (r : AnnounceStorage × Bool)
      → Outcome now h a s r
      → u ≤ now
      → IsTimely 0 u s.expires
      → IsTimely 0 now r.0.expires
  Outcome-IsTimely r (renewed e _) le o =
      let i = item now h a s in
      let w = remove_expired_items now s in
      rw e (
        append-IsTimely 0 now (retain_ne i w.expires) i refl
          (retain-IsTimely 0 now i w.expires (sweep-IsTimely le o)))
  Outcome-IsTimely r (inserted e _ _) le o =
      rw e (append-IsTimely 0 now _ (item now h a s) refl (sweep-IsTimely le o))
  Outcome-IsTimely r (refused e _ _) le o = rw e (sweep-IsTimely le o)

  -- When an item is added no earlier than the last one, the expirations stay in order.
  pub add_item-IsTimely :
      u ≤ now → IsTimely 0 u s.expires → IsTimely 0 now (add_item now h a s).0.expires
  add_item-IsTimely = Outcome-IsTimely _ (add_item-Outcome now h a s)
