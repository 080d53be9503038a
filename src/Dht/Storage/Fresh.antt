-- ===== src/Dht/Storage/Fresh.antt =====
-- What `AnnounceStorage::find_items` of bip_dht/src/storage.rs finds: every contact that was added
-- less than a day ago, and none that has expired.
use rust_bt.Base.{
  ◌+◌, ◌≤◌, ◌<◌, ◌≡◌, ◌⊎◌, inl, inr, refl, sym, ap, ◌∙◌, List, [], ◌∷◌, ◌++◌, true, false, Option,
  none, some, Bytes, map, Bool-cases, arith,
}
use rust_bt.Dht.Routing.Node.{Time, SocketAddr}
use rust_bt.Dht.Storage.{
  expiration_time, ItemExpiration, AnnounceItem, AnnounceStorage, item_eq, is_expired, has,
  drain_expired, remove_expired_items, has_contact, add_item, addresses, find_items,
}
use rust_bt.Dht.Storage.Keys.{item_eq_refl, item_eq→eq, has-append, IsEntry, AreFiled}
use rust_bt.Dht.Storage.Valid.{stored, IsValid, remove_expired_items-IsValid}
use rust_bt.Dht.Storage.Add.{new_item, add_item-IsValid, add_item_last}

abbrev pub Elem : {A : Type 0} → A → List A → Type 0
Elem x [] = ⊥
Elem x (y ∷ ys) = (x ≡ y) ⊎ Elem x ys

has-Elem :
    (i : ItemExpiration) (xs : List ItemExpiration)
    → has i xs ≡ true
    → (e : ItemExpiration) × Elem e xs × (e.address ≡ i.address) × (e.info_hash ≡ i.info_hash)
unfolding has
has-Elem i [] h = cc
has-Elem i (x ∷ xs) h = elim (Bool-cases (item_eq x i)) [
  | inl e ↦ let same = item_eq→eq x i e in (x, inl refl, same.0, same.1)
  | inr e ↦ let (y, at, a, b) = has-Elem i xs (ground arith) in (y, inr at, a, b)
]

Elem-has : (i : ItemExpiration) (xs : List ItemExpiration) → Elem i xs → has i xs ≡ true
unfolding has
Elem-has i [] h = absurd h
Elem-has i (x ∷ xs) (inl e) = rw (← e, item_eq_refl) refl
Elem-has i (x ∷ xs) (inr h) = ground (arith, Elem-has i xs h)

Elem-map :
    (i : ItemExpiration) (xs : List ItemExpiration)
    → Elem i xs
    → Elem i.address (map (λ (j : ItemExpiration). j.address) xs)
Elem-map i [] h = h
Elem-map i (x ∷ xs) (inl e) = inl (ap (λ (j : ItemExpiration). j.address) e)
Elem-map i (x ∷ xs) (inr h) = inr (Elem-map i xs h)

-- an address in an entry is that of a contact with the entry's info hash
entry-Elem :
    (a : SocketAddr) (h : Bytes) (xs : List ItemExpiration)
    → AreFiled h xs
    → Elem a (map (λ (j : ItemExpiration). j.address) xs)
    → (i : ItemExpiration) × Elem i xs × (i.address ≡ a) × (i.info_hash ≡ h)
entry-Elem a h [] f e = absurd e
entry-Elem a h (x ∷ xs) f (inl e) = (x, inl refl, sym e, f.0)
entry-Elem a h (x ∷ xs) f (inr e) = let (i, at, p, q) = entry-Elem a h xs f.1 e in (i, inr at, p, q)

contact-found :
    (i : ItemExpiration) (o : Option (List AnnounceItem))
    → has_contact i o ≡ true
    → Elem i.address (addresses o)
unfolding has_contact
contact-found i none h = cc
contact-found i (some xs) h =
    let (e, at, same, _) = has-Elem i xs h in rw same at (Elem-map e xs at)

-- an item outlives a sweep if the last item of the list has its key, the only one, and is fresh
drain-last :
    (now : Time) (i : ItemExpiration) (es : List ItemExpiration)
    (storage : Bytes → Option (List AnnounceItem))
    → is_expired now i ≡ false
    → has i (drain_expired now (es ++ i ∷ []) storage).expires ≡ true
unfolding drain_expired has
drain-last now i [] storage fresh = rw (fresh, item_eq_refl) refl
drain-last now i (e ∷ es) storage fresh = elim (Bool-cases (is_expired now e)) [
  | inl old ↦ rw old (drain-last now i es _ fresh)
  | inr young ↦
      rw young (let last = has-append i es (i ∷ []) in let self = item_eq_refl i in ground arith)
]

-- Expirations in the order of their times, the first not before `t`.
abbrev pub IsOrdered : Time → List ItemExpiration → Type 0
IsOrdered t [] = Unit {0}
IsOrdered t (x ∷ xs) = (t ≤ x.inserted) × IsOrdered x.inserted xs

pub IsOrdered-from :
    (t u : Time) (xs : List ItemExpiration) → t ≤ u → IsOrdered u xs → IsOrdered t xs
IsOrdered-from t u [] le o = tt
IsOrdered-from t u (x ∷ xs) le o = (omega arith, o.1)

IsOrdered-Elem :
    (t : Time) (i : ItemExpiration) (xs : List ItemExpiration)
    → IsOrdered t xs
    → Elem i xs
    → t ≤ i.inserted
IsOrdered-Elem t i [] o h = absurd h
IsOrdered-Elem t i (x ∷ xs) o (inl e) =
    omega (arith, ap (λ (j : ItemExpiration). j.inserted) e, o.0)
IsOrdered-Elem t i (x ∷ xs) o (inr h) = omega (arith, o.0, IsOrdered-Elem x.inserted i xs o.1 h)

-- in order, what a sweep leaves has not expired
drain-fresh :
    (t now : Time) (i : ItemExpiration) (es : List ItemExpiration)
    (storage : Bytes → Option (List AnnounceItem))
    → IsOrdered t es
    → Elem i (drain_expired now es storage).expires
    → (is_expired now i ≡ false) × Elem i es
unfolding drain_expired is_expired
drain-fresh t now i [] storage o h = absurd h
drain-fresh t now i (e ∷ es) storage o h = elim (Bool-cases (is_expired now e)) [
  | inl old ↦
      let (fresh, at) = drain-fresh e.inserted now i es _ o.1 (rw old at h) in (fresh, inr at)
  | inr young ↦
      let at : Elem i (e ∷ es) = rw young at h in
      let later : e.inserted ≤ i.inserted =
        IsOrdered-Elem e.inserted i (e ∷ es) (omega arith, o.1) at in
      (ground arith, at)
]

-- A contact that a valid store has accepted is found in it for the next day.
pub find_items-add_item :
    (now t : Time) (h : Bytes) (a : SocketAddr) (s : AnnounceStorage)
    → IsValid s
    → (add_item now h a s).1 ≡ true
    → t < now + expiration_time
    → Elem a (find_items t h (add_item now h a s).0).1
unfolding find_items remove_expired_items is_expired
find_items-add_item now t h a s v accepted soon =
    let i = new_item now h a in
    let s' = (add_item now h a s).0 in
    let (es, e, _) = add_item_last now h a s v accepted in
    let w = remove_expired_items-IsValid t s' (add_item-IsValid now h a s v) in
    let kept : has i (remove_expired_items t s').expires ≡ true =
      rw e (drain-last t i es s'.storage (ground arith)) in
    contact-found i _ (w.consistent.agrees i ∙ kept)

entry-found :
    (a : SocketAddr) (h : Bytes) (o : Option (List AnnounceItem))
    → IsEntry h o
    → Elem a (addresses o)
    → (i : ItemExpiration) × (has_contact i o ≡ true) × (i.address ≡ a) × (i.info_hash ≡ h)
unfolding has_contact
entry-found a h none f e = absurd e
entry-found a h (some []) f e = absurd f
entry-found a h (some (x ∷ xs)) f e =
    let (i, at, p, q) = entry-Elem a h (x ∷ xs) f.0 e in (i, Elem-has i (x ∷ xs) at, p, q)

-- Every address found for an info hash in a valid store was added for it less than a day ago,
-- provided that the expirations are in the order of their times.
pub find_items-fresh :
    (t : Time) (h : Bytes) (a : SocketAddr) (s : AnnounceStorage)
    → IsValid s
    → IsOrdered 0 s.expires
    → Elem a (find_items t h s).1
    → (i : ItemExpiration) × Elem i s.expires
      × (i.address ≡ a)
      × (i.info_hash ≡ h)
      × (t < i.inserted + expiration_time)
unfolding find_items remove_expired_items is_expired
find_items-fresh t h a s v o found =
    let s' = remove_expired_items t s in
    let w = remove_expired_items-IsValid t s v in
    let (i, held, p, q) = entry-found a h (s'.storage h) (w.consistent.entries h) found in
    let held' : stored i s'.storage ≡ true = rw (ap s'.storage q) held in
    let (e, at, p', q') = has-Elem i s'.expires (sym (w.consistent.agrees i) ∙ held') in
    let (fresh, at') = drain-fresh 0 t e s.expires s.storage o at in
    (e, at', p' ∙ p, q' ∙ q, ground arith)
