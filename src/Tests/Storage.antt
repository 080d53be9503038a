-- ===== src/Tests/Storage.antt =====
-- bip_dht/src/storage.rs: one contact added and looked up.
use rust_bt.Base.{bytes_eq, ◌+◌, ◌<◌, ◌≤◌, ap, length, ◌≡◌, refl, [], ◌∷◌, true, Bytes, arith}
use rust_bt.Dht.Routing.Node.{minutes, SocketAddr, v4}
use rust_bt.Dht.Storage.{
  max_items_stored, push_contact, update, is_expired, expiration_time, ItemExpiration,
  AnnounceStorage, new, has_contact, remove_expired_items, drain_expired, insert_contact,
  note_expiration, add_item, find_items,
}
use rust_bt.Dht.Storage.Valid.{IsValid, new-IsValid}
use rust_bt.Dht.Storage.Add.{add_item-IsValid}
use rust_bt.Dht.Storage.Keys.{IsNodup}
use rust_bt.Dht.Storage.Held.{held, held-add_item}
use rust_bt.Dht.Storage.Fresh.{Elem, find_items-add_item, find_items-fresh}

abbrev hash : Bytes
hash = 1 ∷ 2 ∷ []

abbrev peer : SocketAddr
peer = v4 (10 ∷ 0 ∷ 0 ∷ 1 ∷ []) 6881

abbrev one_item : AnnounceStorage
one_item = (add_item 5 hash peer new).0

one_item-IsValid : IsValid one_item
one_item-IsValid = add_item-IsValid 5 hash peer new new-IsValid

abbrev other_hash : Bytes
other_hash = 3 ∷ []

held-add_item_example :
    IsValid (add_item 7 other_hash peer one_item).0
    × IsNodup (held (hash ∷ other_hash ∷ []) (add_item 7 other_hash peer one_item).0.storage)
    × (length (held (hash ∷ other_hash ∷ []) (add_item 7 other_hash peer one_item).0.storage)
        ≤ max_items_stored)
held-add_item_example =
    held-add_item 7 other_hash peer one_item (hash ∷ other_hash ∷ []) one_item-IsValid
      (((λ e. let sizes = ap length e in omega arith), tt), (tt, tt))

both_held :
    length (held (hash ∷ other_hash ∷ []) (add_item 7 other_hash peer one_item).0.storage) ≡ 2
unfolding add_item insert_contact note_expiration remove_expired_items drain_expired has_contact new
    push_contact update is_expired bytes_eq
both_held = refl

added : (add_item 5 hash peer new).1 ≡ true
unfolding add_item insert_contact note_expiration remove_expired_items drain_expired has_contact new
added = refl

one_item_expires : one_item.expires ≡ record { address = peer; inserted = 5; info_hash = hash } ∷ []
unfolding add_item insert_contact note_expiration remove_expired_items drain_expired has_contact new
one_item_expires = refl

find_items-add_item_example :
    Elem peer (find_items (minutes 1000) hash (add_item 5 hash peer new).0).1
find_items-add_item_example =
    find_items-add_item 5 (minutes 1000) hash peer new new-IsValid added (omega arith)

find_items-fresh_example :
    (i : ItemExpiration) × Elem i one_item.expires
    × (i.address ≡ peer)
    × (i.info_hash ≡ hash)
    × (minutes 1000 < i.inserted + expiration_time)
find_items-fresh_example =
    find_items-fresh (minutes 1000) hash peer one_item one_item-IsValid
      (rw one_item_expires (omega arith, tt)) found
  where
    found : Elem peer (find_items (minutes 1000) hash one_item).1
    found = find_items-add_item 5 (minutes 1000) hash peer new new-IsValid added (omega arith)
