-- ===== src/Dht/Storage.antt =====
-- bip_dht/src/storage.rs: the peers announced for each info hash, and when they expire. The clock
-- stands still within one operation: `curr_time` and the `UTC::now()` of a new item are one time.
pub mod Keys
pub mod Valid
pub mod Add
pub mod Fresh
pub mod Order
pub mod Held
use rust_bt.Base.{
  ℕ, ◌+◌, ◌*◌, List, [], ◌∷◌, ◌++◌, Bool, true, false, ◌&&◌, ◌||◌, not, Option, none, some, Bytes,
  bytes_eq, length, map, ltb, leb, if◌then◌else◌,
}
use rust_bt.Dht.Routing.Node.{Time, minutes, SocketAddr, addr_eq}

abbrev pub max_items_stored : ℕ
max_items_stored = 500

abbrev pub expiration_time : Time
expiration_time = minutes (24 * 60)

pub record ItemExpiration : Type 0 where
  pub address : SocketAddr
  pub inserted : Time
  pub info_hash : Bytes

-- An `AnnounceItem` holds its expiration and nothing else.
abbrev pub AnnounceItem : Type 0
AnnounceItem = ItemExpiration

-- The time of insertion plays no part.
unfoldable pub item_eq : ItemExpiration → ItemExpiration → Bool
item_eq i j = addr_eq i.address j.address && bytes_eq i.info_hash j.info_hash

-- `now - self.inserted >= 24h` on signed durations, with the subtraction moved across.
unfoldable pub is_expired : Time → ItemExpiration → Bool
is_expired now item = leb (item.inserted + expiration_time) now

-- The map from info hashes to lists of contacts is a function.
pub record AnnounceStorage : Type 0 where
  pub storage : Bytes → Option (List AnnounceItem)
  pub expires : List ItemExpiration

unfoldable pub new : AnnounceStorage
new = record { storage = λ _. none; expires = [] }

-- `iter().any(|a| a == item)`
unfoldable pub has : ItemExpiration → List ItemExpiration → Bool
has item [] = false
has item (i ∷ is) = item_eq i item || has item is

-- `retain(|i| i != item)`
unfoldable pub retain_ne : ItemExpiration → List ItemExpiration → List ItemExpiration
retain_ne item [] = []
retain_ne item (i ∷ is) = if item_eq i item then retain_ne item is else i ∷ retain_ne item is

unfoldable pub update :
    (Bytes → Option (List AnnounceItem))
    → Bytes
    → Option (List AnnounceItem)
    → Bytes
    → Option (List AnnounceItem)
update storage key value k = if bytes_eq key k then value else storage k

-- The entry without the contact; an entry that becomes empty is removed.
unfoldable pub drop_contact :
    ItemExpiration → Option (List AnnounceItem) → Option (List AnnounceItem)
drop_contact item none = none
drop_contact item (some items) = elim (retain_ne item items) [ [] ↦ none | i ∷ is ↦ some (i ∷ is) ]

unfoldable pub remove_contact :
    ItemExpiration → (Bytes → Option (List AnnounceItem)) → Bytes → Option (List AnnounceItem)
remove_contact item storage =
    update storage item.info_hash (drop_contact item (storage item.info_hash))

-- The expired items are taken from the head of the list, and each from its entry in turn.
unfoldable pub drain_expired :
    Time → List ItemExpiration → (Bytes → Option (List AnnounceItem)) → AnnounceStorage
drain_expired now [] storage = record { storage = storage; expires = [] }
drain_expired now (i ∷ is) storage =
    let rest = drain_expired now is (remove_contact i storage) in
    if is_expired now i then rest else record { storage = storage; expires = i ∷ is }

unfoldable pub remove_expired_items : Time → AnnounceStorage → AnnounceStorage
remove_expired_items now s = drain_expired now s.expires s.storage

unfoldable pub has_contact : ItemExpiration → Option (List AnnounceItem) → Bool
has_contact item none = false
has_contact item (some items) = has item items

-- `Entry::Occupied` pushes, `Entry::Vacant` inserts a list of one.
unfoldable pub push_contact :
    ItemExpiration → Option (List AnnounceItem) → Option (List AnnounceItem)
push_contact item none = some (item ∷ [])
push_contact item (some items) = some (items ++ item ∷ [])

unfoldable pub insert_contact : ItemExpiration → AnnounceStorage → AnnounceStorage × Option Bool
insert_contact item s =
    if has_contact item (s.storage item.info_hash)
    then (s, some true)
    else if ltb (length s.expires) max_items_stored
    then (
      record s {
        storage = update s.storage item.info_hash (push_contact item (s.storage item.info_hash));
      },
      some false,
    )
    else (s, none)

-- The list of expirations after `insert_contact`, by its result.
unfoldable pub note_expiration :
    ItemExpiration → Option Bool → AnnounceStorage → AnnounceStorage × Bool
note_expiration item none s = (s, false)
note_expiration item (some true) s =
    (record s { expires = retain_ne item s.expires ++ item ∷ [] }, true)
note_expiration item (some false) s = (record s { expires = s.expires ++ item ∷ [] }, true)

unfoldable pub add_item : Time → Bytes → SocketAddr → AnnounceStorage → AnnounceStorage × Bool
add_item now info_hash address s =
    let item : ItemExpiration = record {
      address = address;
      inserted = now;
      info_hash = info_hash;
    } in
    let (s', inserted) = insert_contact item (remove_expired_items now s) in
    note_expiration item inserted s'

abbrev pub addresses : Option (List AnnounceItem) → List SocketAddr
addresses none = []
addresses (some items) = map (λ i. i.address) items

-- The addresses that the closure is invoked with, in order.
unfoldable pub find_items : Time → Bytes → AnnounceStorage → AnnounceStorage × List SocketAddr
find_items now info_hash s =
    let s' = remove_expired_items now s in (s', addresses (s'.storage info_hash))
