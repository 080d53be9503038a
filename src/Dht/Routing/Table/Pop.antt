-- ===== src/Dht/Routing/Table/Pop.antt =====
-- Taking the last bucket off the table of bip_dht/src/routing/table.rs and pushing two in its place.
use rust_bt.Base.{
  ℕ, zero, suc, ◌<◌, ◌≡◌, ◌⊎◌, inl, inr, refl, List, [], ◌∷◌, ◌++◌, some, length, get_elem?,
  replicate, arith,
}
use rust_bt.Dht.Routing.Table.{pop}

module _ {ℓ} {A : Type ℓ} where
  pub pop-some :
      (xs : List A)
      → 0 < length xs
      → (ys : List A) × (y : A) × (pop xs ≡ some (ys, y)) × (xs ≡ ys ++ y ∷ [])
  unfolding pop
  pop-some [] h = elim h [ ]
  pop-some (x ∷ []) h = ([], x, refl, refl)
  pop-some (x ∷ x' ∷ xs) h =
      let (ys, y, e, p) = pop-some (x' ∷ xs) (omega arith) in (x ∷ ys, y, rw e refl, rw p refl)

  pub get_elem?-append_left :
      (xs ys : List A) (i : ℕ) → i < length xs → get_elem? (xs ++ ys) i ≡ get_elem? xs i
  get_elem?-append_left [] ys i h = elim h [ ]
  get_elem?-append_left (x ∷ xs) ys zero h = refl
  get_elem?-append_left (x ∷ xs) ys (suc i) h = get_elem?-append_left xs ys i (omega arith)

  -- An element of a list with two more behind it is in the list or one of the two.
  pub get_elem?-append_two :
      (xs : List A) (a b c : A) (i : ℕ)
      → get_elem? (xs ++ a ∷ b ∷ []) i ≡ some c
      → ((i < length xs) × (get_elem? xs i ≡ some c)) ⊎ ((c ≡ a) ⊎ (c ≡ b))
  get_elem?-append_two [] a b c zero h = ground arith
  get_elem?-append_two [] a b c (suc zero) h = ground arith
  get_elem?-append_two [] a b c (suc (suc i)) h = cc
  get_elem?-append_two (x ∷ xs) a b c zero h = inl (omega arith, h)
  get_elem?-append_two (x ∷ xs) a b c (suc i) h = elim (get_elem?-append_two xs a b c i h) [
    | inl (p, q) ↦ inl (omega arith, q)
    | inr q ↦ inr q
  ]

  pub get_elem?-replicate : (n : ℕ) (a c : A) (i : ℕ) → get_elem? (replicate n a) i ≡ some c → c ≡ a
  get_elem?-replicate zero a c i h = cc
  get_elem?-replicate (suc n) a c zero h = cc
  get_elem?-replicate (suc n) a c (suc i) h = get_elem?-replicate n a c i h
