-- ===== src/Dht/Storage/Add.antt =====
-- What `AnnounceStorage::add_item` of bip_dht/src/storage.rs does, on each of its branches.
use rust_bt.Base.{
  ◌≤◌, ◌<◌, ◌≡◌, ◌⊎◌, ◌↔◌, inl, inr, refl, sym, ◌∙◌, List, [], ◌∷◌, ◌++◌, Bool, true, false, Bytes,
  length, length-append, ltb, Bool-cases, arith,
}
use rust_bt.Dht.Routing.Node.{Time, SocketAddr}
use rust_bt.Dht.Storage.{
  max_items_stored, ItemExpiration, AnnounceStorage, has, retain_ne, update, remove_expired_items,
  has_contact, push_contact, insert_contact, note_expiration, add_item,
}
use rust_bt.Dht.Storage.Keys.{item_eq_refl, has-retain_ne, length-retain_has}
use rust_bt.Dht.Storage.Valid.{
  stored, IsValid, remove_expired_items-IsValid, push-IsConsistent, renew-IsConsistent,
}

abbrev pub new_item : Time → Bytes → SocketAddr → ItemExpiration
new_item now info_hash address = record { address = address; inserted = now; info_hash = info_hash }

module _ (now : Time) (h : Bytes) (a : SocketAddr) (s : AnnounceStorage) where
  abbrev pub item : ItemExpiration
  item = new_item now h a

  -- The store that the item is offered to.
  abbrev pub swept : AnnounceStorage
  swept = remove_expired_items now s

  pub data Outcome (r : AnnounceStorage × Bool) : Type 0 where
    renewed :
        r ≡ (record swept { expires = retain_ne item swept.expires ++ item ∷ [] }, true)
        → stored item swept.storage ≡ true
        → Outcome r
    inserted :
        r ≡ (
          record swept {
            storage = update swept.storage h (push_contact item (swept.storage h));
            expires = swept.expires ++ item ∷ [];
          },
          true,
        )
        → stored item swept.storage ≡ false
        → length swept.expires < max_items_stored
        → Outcome r
    refused :
        r ≡ (swept, false)
        → stored item swept.storage ≡ false
        → max_items_stored ≤ length swept.expires
        → Outcome r

  pub add_item-Outcome : Outcome (add_item now h a s)
  unfolding add_item insert_contact note_expiration
  add_item-Outcome = elim (Bool-cases (has_contact item (swept.storage h))) [
    | inl e ↦ renewed (rw e refl) e
    | inr e ↦ elim (Bool-cases (ltb (length swept.expires) max_items_stored)) [
      | inl e' ↦ inserted (rw (e, e') refl) e (ground arith)
      | inr e' ↦ refused (rw (e, e') refl) e (ground arith)
    ]
  ]

  Outcome-IsValid : (r : AnnounceStorage × Bool) → Outcome r → IsValid s → IsValid r.0
  Outcome-IsValid r (refused e _ _) v = rw e (remove_expired_items-IsValid now s v)
  Outcome-IsValid r (renewed e known) v =
      let w = remove_expired_items-IsValid now s v in
      let noted : has item swept.expires ≡ true = sym (w.consistent.agrees item) ∙ known in
      rw e (record {
        consistent = renew-IsConsistent item swept w.consistent known;
        bounded = omega (
          arith,
          length-append (retain_ne item swept.expires) (item ∷ []),
          length-retain_has item swept.expires noted,
          w.bounded,
        );
      })
  Outcome-IsValid r (inserted e fresh room) v =
      let w = remove_expired_items-IsValid now s v in
      rw e (record {
        consistent = push-IsConsistent item swept w.consistent fresh;
        bounded = omega (arith, length-append swept.expires (item ∷ []));
      })

  -- Adding an item keeps the store valid.
  pub add_item-IsValid : IsValid s → IsValid (add_item now h a s).0
  add_item-IsValid = Outcome-IsValid _ add_item-Outcome

  Outcome-iff :
      (r : AnnounceStorage × Bool)
      → Outcome r
      → (r.1 ≡ true)
        ↔ ((stored item swept.storage ≡ true) ⊎ (length swept.expires < max_items_stored))
  Outcome-iff r (renewed e known) = (λ _. inl known, λ _. rw e refl)
  Outcome-iff r (inserted e fresh room) = (λ _. inr room, λ _. rw e refl)
  Outcome-iff r (refused e fresh full) = (λ p. cc, λ p. ground arith)

  -- An item is accepted exactly if it is known or there is room, once what has expired is gone.
  pub add_item_iff :
      ((add_item now h a s).1 ≡ true)
      ↔ ((stored item swept.storage ≡ true) ⊎ (length swept.expires < max_items_stored))
  add_item_iff = Outcome-iff _ add_item-Outcome

  Outcome-expires :
      (r : AnnounceStorage × Bool)
      → Outcome r
      → IsValid s
      → r.1 ≡ true
      → (es : List ItemExpiration) × (r.0.expires ≡ es ++ item ∷ []) × (has item es ≡ false)
  Outcome-expires r (renewed e known) v ok' =
      let gone = has-retain_ne item item swept.expires in
      let self = item_eq_refl item in (retain_ne item swept.expires, rw e refl, ground arith)
  Outcome-expires r (inserted e fresh room) v ok' =
      let w = remove_expired_items-IsValid now s v in
      (swept.expires, rw e refl, sym (w.consistent.agrees item) ∙ fresh)
  Outcome-expires r (refused e fresh full) v ok' = cc

  -- An item that was accepted stands last in the list of expirations, and nowhere before.
  pub add_item_last :
      IsValid s
      → (add_item now h a s).1 ≡ true
      → (es : List ItemExpiration) × ((add_item now h a s).0.expires ≡ es ++ item ∷ [])
        × (has item es ≡ false)
  add_item_last = Outcome-expires _ add_item-Outcome
