-- ===== src/Dht/Storage/Held.antt =====
-- The contacts that the map of bip_dht/src/storage.rs holds, under any number of info hashes.
use rust_bt.Base.{
  ◌≤◌, ◌≡◌, ◌≢◌, inl, inr, refl, sym, ap, ◌∙◌, List, [], ◌∷◌, ◌++◌, true, false, Option, none, some,
  Bytes, length, Bool-cases, arith,
}
use rust_bt.Dht.Routing.Node.{Time, SocketAddr}
use rust_bt.Dht.Storage.{
  max_items_stored, ItemExpiration, AnnounceItem, AnnounceStorage, item_eq, has, retain_ne,
  has_contact, add_item,
}
use rust_bt.Dht.Storage.Keys.{
  item_eq_refl, item_eq→eq, has-cong, has-append, has-retain_ne, length-retain_has, IsNodup,
  AreFiled, IsEntry,
}
use rust_bt.Dht.Storage.Valid.{IsConsistent, IsValid}
use rust_bt.Dht.Storage.Add.{add_item-IsValid}

abbrev pub contacts : Option (List AnnounceItem) → List AnnounceItem
contacts none = []
contacts (some items) = items

-- What is held under the info hashes, one after the other.
abbrev pub held : List Bytes → (Bytes → Option (List AnnounceItem)) → List AnnounceItem
held [] storage = []
held (h ∷ hs) storage = contacts (storage h) ++ held hs storage

-- The info hash is none of these.
abbrev pub IsOther : Bytes → List Bytes → Type 0
IsOther h [] = Unit {0}
IsOther h (k ∷ ks) = (h ≢ k) × IsOther h ks

abbrev pub AreDistinct : List Bytes → Type 0
AreDistinct [] = Unit {0}
AreDistinct (h ∷ hs) = IsOther h hs × AreDistinct hs

-- A list without repetitions whose items all stand in another is no longer than that.
length-IsNodup :
    (xs es : List ItemExpiration)
    → IsNodup xs
    → ((i : ItemExpiration) → has i xs ≡ true → has i es ≡ true)
    → length xs ≤ length es
unfolding has
length-IsNodup [] es n sub = omega arith
length-IsNodup (x ∷ xs) es n sub =
    let self = item_eq_refl x in
    let within : has x es ≡ true = sub x (ground arith) in
    let rest = length-IsNodup xs (retain_ne x es) n.1 (λ i at. elim (Bool-cases (item_eq x i)) [
      | inl e ↦ let same = has-cong x i xs e in absurd (ground (arith, n.0))
      | inr e ↦
          let there : has i es ≡ true = sub i (ground arith) in
          let kept = has-retain_ne i x es in ground arith
    ]) in
    omega (arith, rest, length-retain_has x es within)

entry-filed :
    (h : Bytes) (i : ItemExpiration) (xs : List ItemExpiration)
    → AreFiled h xs
    → has i xs ≡ true
    → i.info_hash ≡ h
unfolding has
entry-filed h i [] f at = cc
entry-filed h i (x ∷ xs) f at = elim (Bool-cases (item_eq x i)) [
  | inl e ↦ let same = item_eq→eq x i e in sym same.1 ∙ f.0
  | inr e ↦ entry-filed h i xs f.1 (ground arith)
]

contacts-filed :
    (h : Bytes) (i : ItemExpiration) (o : Option (List AnnounceItem))
    → IsEntry h o
    → has i (contacts o) ≡ true
    → i.info_hash ≡ h
unfolding has
contacts-filed h i none f at = cc
contacts-filed h i (some []) f at = absurd f
contacts-filed h i (some (x ∷ xs)) f at = entry-filed h i (x ∷ xs) f.0 at

contacts-IsNodup : (h : Bytes) (o : Option (List AnnounceItem)) → IsEntry h o → IsNodup (contacts o)
contacts-IsNodup h none f = tt
contacts-IsNodup h (some []) f = absurd f
contacts-IsNodup h (some (x ∷ xs)) f = f.1

has-contacts :
    (i : ItemExpiration) (o : Option (List AnnounceItem)) → has i (contacts o) ≡ has_contact i o
unfolding has_contact has
has-contacts i none = refl
has-contacts i (some xs) = refl

append-IsNodup :
    (xs ys : List ItemExpiration)
    → IsNodup xs
    → IsNodup ys
    → ((i : ItemExpiration) → has i xs ≡ true → has i ys ≡ false)
    → IsNodup (xs ++ ys)
unfolding has
append-IsNodup [] ys n k apart = k
append-IsNodup (x ∷ xs) ys n k apart =
    let self = item_eq_refl x in
    let gone : has x ys ≡ false = apart x (ground arith) in
    (
      ground (arith, has-append x xs ys, n.0),
      append-IsNodup xs ys n.1 k (λ i at. apart i (ground arith)),
    )

module _ (storage : Bytes → Option (List AnnounceItem)) (es : List ItemExpiration)
    (c : IsConsistent storage es) where
  held-other :
      (h : Bytes) (hs : List Bytes) (i : ItemExpiration)
      → IsOther h hs
      → i.info_hash ≡ h
      → has i (held hs storage) ≡ false
  unfolding has
  held-other h [] i o e = refl
  held-other h (k ∷ ks) i o e = elim (Bool-cases (has i (contacts (storage k)))) [
    | inl at ↦ absurd (o.0 (sym e ∙ contacts-filed k i (storage k) (c.entries k) at))
    | inr away ↦
        let rest = held-other h ks i o.1 e in
        ground (arith, has-append i (contacts (storage k)) (held ks storage))
  ]

  held-IsNodup : (hs : List Bytes) → AreDistinct hs → IsNodup (held hs storage)
  held-IsNodup [] d = tt
  held-IsNodup (h ∷ hs) d =
      append-IsNodup (contacts (storage h)) (held hs storage)
        (contacts-IsNodup h (storage h) (c.entries h)) (held-IsNodup hs d.1)
        (λ i at. held-other h hs i d.0 (contacts-filed h i (storage h) (c.entries h) at))

  held-noted :
      (hs : List Bytes) (i : ItemExpiration) → has i (held hs storage) ≡ true → has i es ≡ true
  unfolding has
  held-noted [] i at = cc
  held-noted (h ∷ hs) i at = elim (Bool-cases (has i (contacts (storage h)))) [
    | inl here ↦
        let e = contacts-filed h i (storage h) (c.entries h) here in
        sym (c.agrees i)
        ∙ ap (λ (k : Bytes). has_contact i (storage k)) e
        ∙ sym (has-contacts i (storage h))
        ∙ here
    | inr away ↦
        held-noted hs i (ground (arith, has-append i (contacts (storage h)) (held hs storage)))
  ]

-- Adding an item keeps the store valid, and of all that the map then holds, under whatever different
-- info hashes, no contact is held twice under one of them, and there are at most 500 in all.
pub held-add_item :
    (now : Time) (h : Bytes) (a : SocketAddr) (s : AnnounceStorage) (hs : List Bytes)
    → IsValid s
    → AreDistinct hs
    → IsValid (add_item now h a s).0
      × IsNodup (held hs (add_item now h a s).0.storage)
      × (length (held hs (add_item now h a s).0.storage) ≤ max_items_stored)
held-add_item now h a s hs v d =
    let w = add_item-IsValid now h a s v in
    let s' = (add_item now h a s).0 in
    let nodup = held-IsNodup s'.storage s'.expires w.consistent hs d in
    let within =
      length-IsNodup (held hs s'.storage) s'.expires nodup
        (held-noted s'.storage s'.expires w.consistent hs) in
    (w, nodup, omega (arith, within, w.bounded))
