-- ===== src/Dht/Storage/Valid.antt =====
-- The invariant of the store of bip_dht/src/storage.rs, which every operation keeps: the list of
-- expirations and the map of contacts tell of the same items.
use rust_bt.Base.{
  ◌≤◌, ◌≡◌, inl, inr, refl, sym, ap, subst, ◌∙◌, List, [], ◌∷◌, ◌++◌, Bool, true, false, ◌&&◌, ◌||◌,
  not, Option, Bytes, bytes_eq, bytes_eq_refl, bytes_eq→eq, length, Bool-cases, arith,
}
use rust_bt.Dht.Routing.Node.{Time}
use rust_bt.Dht.Storage.{
  max_items_stored, ItemExpiration, AnnounceItem, AnnounceStorage, new, item_eq, is_expired, has,
  retain_ne, update, drop_contact, remove_contact, drain_expired, remove_expired_items, has_contact,
  push_contact,
}
use rust_bt.Dht.Storage.Keys.{
  item_eq_refl, item_eq→eq, has-cong, has-append, has-retain_ne, IsNodup, retain_ne-IsNodup,
  append-IsNodup, IsEntry, drop_contact-IsEntry, push_contact-IsEntry, has-drop_contact,
  has-push_contact,
}

-- The map holds the contact.
abbrev pub stored : ItemExpiration → (Bytes → Option (List AnnounceItem)) → Bool
stored i storage = has_contact i (storage i.info_hash)

-- No expiration is noted twice, a contact is held exactly if its expiration is noted, and every
-- entry of the map is a non-empty list of contacts with the entry's info hash, none of them twice.
pub record IsConsistent (storage : Bytes → Option (List AnnounceItem)) (es : List ItemExpiration)
    : Type 0 where
  pub nodup : IsNodup es
  pub agrees : (i : ItemExpiration) → stored i storage ≡ has i es
  pub entries : (h : Bytes) → IsEntry h (storage h)

pub record IsValid (s : AnnounceStorage) : Type 0 where
  pub consistent : IsConsistent s.storage s.expires
  pub bounded : length s.expires ≤ max_items_stored

stored-remove :
    (i d : ItemExpiration) (storage : Bytes → Option (List AnnounceItem))
    → stored i (remove_contact d storage) ≡ (stored i storage && not (item_eq d i))
unfolding remove_contact update
stored-remove i d storage = elim (Bool-cases (bytes_eq d.info_hash i.info_hash)) [
  | inl e ↦
      let same = bytes_eq→eq d.info_hash i.info_hash e in
      rw (e, ap storage same) (has-drop_contact i d (storage i.info_hash))
  | inr e ↦ rw e (ground (arith, item_eq→eq d i, bytes_eq_refl d.info_hash))
]

remove-IsConsistent :
    (i : ItemExpiration) (es : List ItemExpiration) (storage : Bytes → Option (List AnnounceItem))
    → IsConsistent storage (i ∷ es)
    → IsConsistent (remove_contact i storage) es
unfolding remove_contact update has
remove-IsConsistent i es storage c = record {
  nodup = c.nodup.1;
  agrees = λ j. ground (arith, stored-remove j i storage, c.agrees j, c.nodup.0, has-cong i j es);
  entries = λ h. elim (Bool-cases (bytes_eq i.info_hash h)) [
    | inl e ↦
        let kept =
          drop_contact-IsEntry i.info_hash (storage i.info_hash) i (c.entries i.info_hash) in
        rw e (
          subst (λ x. IsEntry x (drop_contact i (storage i.info_hash)))
            (bytes_eq→eq i.info_hash h e) kept)
    | inr e ↦ rw e (c.entries h)
  ];
}

drain-IsConsistent :
    (now : Time) (es : List ItemExpiration) (storage : Bytes → Option (List AnnounceItem))
    → IsConsistent storage es
    → IsConsistent (drain_expired now es storage).storage (drain_expired now es storage).expires
unfolding drain_expired
drain-IsConsistent now [] storage c = c
drain-IsConsistent now (i ∷ es) storage c = elim (Bool-cases (is_expired now i)) [
  | inl e ↦ rw e (drain-IsConsistent now es _ (remove-IsConsistent i es storage c))
  | inr e ↦ rw e c
]

length-drain :
    (now : Time) (es : List ItemExpiration) (storage : Bytes → Option (List AnnounceItem))
    → length (drain_expired now es storage).expires ≤ length es
unfolding drain_expired
length-drain now [] storage = omega arith
length-drain now (i ∷ es) storage = ground (arith, length-drain now es (remove_contact i storage))

-- Taking out what has expired keeps the store valid.
pub remove_expired_items-IsValid :
    (now : Time) (s : AnnounceStorage) → IsValid s → IsValid (remove_expired_items now s)
unfolding remove_expired_items
remove_expired_items-IsValid now s v = record {
  consistent = drain-IsConsistent now s.expires s.storage v.consistent;
  bounded = omega (arith, length-drain now s.expires s.storage, v.bounded);
}

-- A new store is valid.
pub new-IsValid : IsValid new
unfolding new has has_contact
new-IsValid = record {
  consistent = record { nodup = tt; agrees = λ i. refl; entries = λ h. tt };
  bounded = omega arith;
}

stored-push :
    (i d : ItemExpiration) (storage : Bytes → Option (List AnnounceItem))
    → stored i (update storage d.info_hash (push_contact d (storage d.info_hash)))
      ≡ (stored i storage || item_eq d i)
unfolding update
stored-push i d storage = elim (Bool-cases (bytes_eq d.info_hash i.info_hash)) [
  | inl e ↦
      let same = bytes_eq→eq d.info_hash i.info_hash e in
      rw (e, ap storage same) (has-push_contact i d (storage i.info_hash))
  | inr e ↦ rw e (ground (arith, item_eq→eq d i, bytes_eq_refl d.info_hash))
]

-- The store with a contact that was not there before.
pub push-IsConsistent :
    (d : ItemExpiration) (s : AnnounceStorage)
    → IsConsistent s.storage s.expires
    → stored d s.storage ≡ false
    → IsConsistent
        (update s.storage d.info_hash (push_contact d (s.storage d.info_hash)))
        (s.expires ++ d ∷ [])
unfolding update has
push-IsConsistent d s c fresh = record {
  nodup = append-IsNodup s.expires d c.nodup (sym (c.agrees d) ∙ fresh);
  agrees =
      λ i. ground (arith, stored-push i d s.storage, c.agrees i, has-append i s.expires (d ∷ []));
  entries = λ h. elim (Bool-cases (bytes_eq d.info_hash h)) [
    | inl e ↦
        let pushed =
          push_contact-IsEntry d.info_hash (s.storage d.info_hash) d (c.entries d.info_hash) refl
            fresh in
        rw e (
          subst (λ x. IsEntry x (push_contact d (s.storage d.info_hash)))
            (bytes_eq→eq d.info_hash h e) pushed)
    | inr e ↦ rw e (c.entries h)
  ];
}

-- The store with a contact's expiration moved to the end.
pub renew-IsConsistent :
    (d : ItemExpiration) (s : AnnounceStorage)
    → IsConsistent s.storage s.expires
    → stored d s.storage ≡ true
    → IsConsistent s.storage (retain_ne d s.expires ++ d ∷ [])
unfolding has
renew-IsConsistent d s c known = record {
  nodup =
      append-IsNodup (retain_ne d s.expires) d (retain_ne-IsNodup d s.expires c.nodup)
        (let gone = has-retain_ne d d s.expires in let self = item_eq_refl d in ground arith);
  agrees = λ i. ground (
    arith,
    c.agrees i,
    c.agrees d,
    known,
    has-append i (retain_ne d s.expires) (d ∷ []),
    has-retain_ne i d s.expires,
    has-cong d i s.expires,
  );
  entries = c.entries;
}
