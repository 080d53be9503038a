-- ===== src/Dht/Storage/Keys.antt =====
-- Lists of items of bip_dht/src/storage.rs by their keys, the address and the info hash.
use rust_bt.Base.{
  ◌≤◌, ◌<◌, ◌≡◌, refl, List, [], ◌∷◌, ◌++◌, true, false, ◌&&◌, ◌||◌, not, Option, none, some,
  Bool-cases, inl, inr, Bytes, bytes_eq_refl, bytes_eq→eq, length, arith,
}
use rust_bt.Dht.Routing.Node.Equality.{addr_eq_refl, addr_eq→eq}
use rust_bt.Dht.Storage.{
  ItemExpiration, item_eq, has, retain_ne, drop_contact, has_contact, push_contact,
}

pub item_eq_refl : (i : ItemExpiration) → item_eq i i ≡ true
unfolding item_eq
item_eq_refl i = ground (arith, addr_eq_refl i.address, bytes_eq_refl i.info_hash)

pub item_eq→eq :
    (i j : ItemExpiration)
    → item_eq i j ≡ true
    → (i.address ≡ j.address) × (i.info_hash ≡ j.info_hash)
unfolding item_eq
item_eq→eq i j h =
    ground (arith, addr_eq→eq i.address j.address, bytes_eq→eq i.info_hash j.info_hash)

-- Items with equal keys compare alike with every other.
pub item_eq-cong : (i j k : ItemExpiration) → item_eq i j ≡ true → item_eq i k ≡ item_eq j k
unfolding item_eq
item_eq-cong i j k h = let e = item_eq→eq i j h in cc (e.0, e.1)

pub item_eq_comm : (i j : ItemExpiration) → item_eq i j ≡ item_eq j i
item_eq_comm i j =
    let same = item_eq_refl i in
    let same' = item_eq_refl j in ground (arith, item_eq-cong i j i, item_eq-cong j i j)

pub has-cong :
    (i j : ItemExpiration) (xs : List ItemExpiration) → item_eq i j ≡ true → has i xs ≡ has j xs
unfolding has
has-cong i j [] h = refl
has-cong i j (x ∷ xs) h =
    ground (arith, has-cong i j xs, item_eq-cong i j x, item_eq_comm x i, item_eq_comm x j)

pub has-append :
    (i : ItemExpiration) (xs ys : List ItemExpiration) → has i (xs ++ ys) ≡ (has i xs || has i ys)
unfolding has
has-append i [] ys = refl
has-append i (x ∷ xs) ys = ground (arith, has-append i xs ys)

pub has-retain_ne :
    (i d : ItemExpiration) (xs : List ItemExpiration)
    → has i (retain_ne d xs) ≡ (has i xs && not (item_eq d i))
unfolding has retain_ne
has-retain_ne i d [] = refl
has-retain_ne i d (x ∷ xs) = ground (
  arith,
  has-retain_ne i d xs,
  item_eq-cong x d i,
  item_eq-cong d i x,
  item_eq_comm x d,
  item_eq_comm x i,
)

pub length-retain_ne :
    (d : ItemExpiration) (xs : List ItemExpiration) → length (retain_ne d xs) ≤ length xs
unfolding retain_ne
length-retain_ne d [] = omega arith
length-retain_ne d (x ∷ xs) = ground (arith, length-retain_ne d xs)

pub length-retain_has :
    (d : ItemExpiration) (xs : List ItemExpiration)
    → has d xs ≡ true
    → length (retain_ne d xs) < length xs
unfolding retain_ne has
length-retain_has d [] h = cc
length-retain_has d (x ∷ xs) h = ground (arith, length-retain_ne d xs, length-retain_has d xs)

-- No two items have the same key.
abbrev pub IsNodup : List ItemExpiration → Type 0
IsNodup [] = Unit {0}
IsNodup (x ∷ xs) = (has x xs ≡ false) × IsNodup xs

pub retain_ne-IsNodup :
    (d : ItemExpiration) (xs : List ItemExpiration) → IsNodup xs → IsNodup (retain_ne d xs)
unfolding retain_ne
retain_ne-IsNodup d [] n = n
retain_ne-IsNodup d (x ∷ xs) n = ground (arith, has-retain_ne x d xs, retain_ne-IsNodup d xs)

pub append-IsNodup :
    (xs : List ItemExpiration) (i : ItemExpiration)
    → IsNodup xs
    → has i xs ≡ false
    → IsNodup (xs ++ i ∷ [])
unfolding has
append-IsNodup [] i n h = (refl, tt)
append-IsNodup (x ∷ xs) i n h =
    ground (arith, has-append x xs (i ∷ []), append-IsNodup xs i, item_eq_comm x i)

-- Every contact of an entry carries the info hash that it is filed under.
abbrev pub AreFiled : Bytes → List ItemExpiration → Type 0
AreFiled h [] = Unit {0}
AreFiled h (x ∷ xs) = (x.info_hash ≡ h) × AreFiled h xs

-- A list that is not empty, holds no contact twice, and is filed under the info hash.
abbrev pub IsEntry : Bytes → Option (List ItemExpiration) → Type 0
IsEntry h none = Unit {0}
IsEntry h (some []) = ⊥
IsEntry h (some (x ∷ xs)) = AreFiled h (x ∷ xs) × IsNodup (x ∷ xs)

retain_ne-AreFiled :
    (h : Bytes) (d : ItemExpiration) (xs : List ItemExpiration)
    → AreFiled h xs
    → AreFiled h (retain_ne d xs)
unfolding retain_ne
retain_ne-AreFiled h d [] f = f
retain_ne-AreFiled h d (x ∷ xs) (e, f) = elim (Bool-cases (item_eq x d)) [
  | inl p ↦ rw p (retain_ne-AreFiled h d xs f)
  | inr p ↦ rw p (e, retain_ne-AreFiled h d xs f)
]

append-AreFiled :
    (h : Bytes) (xs : List ItemExpiration) (i : ItemExpiration)
    → AreFiled h xs
    → i.info_hash ≡ h
    → AreFiled h (xs ++ i ∷ [])
append-AreFiled h [] i f e = (e, tt)
append-AreFiled h (x ∷ xs) i (p, f) e = (p, append-AreFiled h xs i f e)

pub drop_contact-IsEntry :
    (h : Bytes) (o : Option (List ItemExpiration)) (d : ItemExpiration)
    → IsEntry h o
    → IsEntry h (drop_contact d o)
unfolding drop_contact
drop_contact-IsEntry h none d f = tt
drop_contact-IsEntry h (some []) d f = absurd f
drop_contact-IsEntry h (some (x ∷ xs)) d f =
    go (retain_ne d (x ∷ xs)) (retain_ne-AreFiled h d (x ∷ xs) f.0)
      (retain_ne-IsNodup d (x ∷ xs) f.1)
  where
    go :
        (ys : List ItemExpiration)
        → AreFiled h ys
        → IsNodup ys
        → IsEntry h (elim ys [ [] ↦ none | i ∷ is ↦ some (i ∷ is) ])
    go [] g n = tt
    go (y ∷ ys) g n = (g, n)

pub push_contact-IsEntry :
    (h : Bytes) (o : Option (List ItemExpiration)) (i : ItemExpiration)
    → IsEntry h o
    → i.info_hash ≡ h
    → has_contact i o ≡ false
    → IsEntry h (push_contact i o)
unfolding push_contact has_contact has
push_contact-IsEntry h none i f e fresh = ((e, tt), (refl, tt))
push_contact-IsEntry h (some []) i f e fresh = absurd f
push_contact-IsEntry h (some (x ∷ xs)) i f e fresh =
    (append-AreFiled h (x ∷ xs) i f.0 e, append-IsNodup (x ∷ xs) i f.1 fresh)

pub has-drop_contact :
    (i d : ItemExpiration) (o : Option (List ItemExpiration))
    → has_contact i (drop_contact d o) ≡ (has_contact i o && not (item_eq d i))
unfolding has_contact drop_contact has
has-drop_contact i d none = refl
has-drop_contact i d (some xs) = go (retain_ne d xs) (has-retain_ne i d xs)
  where
    go :
        (ys : List ItemExpiration)
        → has i ys ≡ (has i xs && not (item_eq d i))
        → has_contact i (elim ys [ [] ↦ none | y ∷ ys ↦ some (y ∷ ys) ])
          ≡ (has i xs && not (item_eq d i))
    go [] e = e
    go (y ∷ ys) e = e

pub has-push_contact :
    (i d : ItemExpiration) (o : Option (List ItemExpiration))
    → has_contact i (push_contact d o) ≡ (has_contact i o || item_eq d i)
unfolding has_contact push_contact has
has-push_contact i d none = ground arith
has-push_contact i d (some xs) = ground (arith, has-append i xs (d ∷ []))
