-- ===== src/Util/Shuffle/Permutes.antt =====
-- A shuffle of bip_util/src/lib.rs changes the order alone.
use rust_bt.Base.{
  ℕ, zero, suc, ◌+◌, ◌-◌, ◌%◌, ◌<◌, ◌≡◌, ◌≢◌, ◌⊎◌, inl, inr, refl, ◌∙◌, List, [], ◌∷◌, length,
  get_or, set, length-set, ◌==◌, if◌then◌else◌, arith,
}
use rust_bt.Util.Shuffle.{swap, shuffle_from, fisher_shuffle}
use native.Mathlib.Nat.{mod-lt}

abbrev pub one_if : ℕ → ℕ → ℕ
one_if x y = if x == y then 1 else 0

-- How often a number stands in a list.
abbrev pub count : ℕ → List ℕ → ℕ
count x [] = 0
count x (y ∷ ys) = one_if x y + count x ys

count-set :
    (x v d : ℕ) (ys : List ℕ) (i : ℕ)
    → i < length ys
    → count x (set ys i v) + one_if x (get_or ys i d) ≡ count x ys + one_if x v
count-set x v d [] i h = absurd (omega arith)
count-set x v d (y ∷ ys) zero h = omega arith
count-set x v d (y ∷ ys) (suc i) h = omega (arith, count-set x v d ys i (omega arith))

get_or-set :
    (ys : List ℕ) (i j v d : ℕ)
    → i < length ys
    → ((i ≡ j) × (get_or (set ys i v) j d ≡ v))
      ⊎ ((i ≢ j) × (get_or (set ys i v) j d ≡ get_or ys j d))
get_or-set [] i j v d h = absurd (omega arith)
get_or-set (y ∷ ys) zero zero v d h = inl (refl, refl)
get_or-set (y ∷ ys) zero (suc j) v d h = inr (λ e. omega arith, refl)
get_or-set (y ∷ ys) (suc i) zero v d h = inr (λ e. omega arith, refl)
get_or-set (y ∷ ys) (suc i) (suc j) v d h = ground (arith, get_or-set ys i j v d (omega arith))

length-swap : (d i j : ℕ) (ys : List ℕ) → length (swap d i j ys) ≡ length ys
unfolding swap
length-swap d i j ys =
    let l₁ = set ys i d in
    let l₂ = set l₁ j d in
    let l₃ = set l₂ i (get_or l₁ j d) in
    omega (
      arith,
      length-set ys i d,
      length-set l₁ j d,
      length-set l₂ i (get_or l₁ j d),
      length-set l₃ j (get_or ys i d),
    )

-- what a place holds after the default value was written there, and maybe elsewhere
set-default :
    (ys : List ℕ) (i j d : ℕ) → j < length ys → get_or ys i d ≡ d → get_or (set ys j d) i d ≡ d
set-default ys i j d q e = ground (arith, get_or-set ys j i d d q)

count-swap :
    (x d i j : ℕ) (ys : List ℕ)
    → i < length ys
    → j < length ys
    → count x (swap d i j ys) ≡ count x ys
unfolding swap
count-swap x d i j ys p q =
    let src = get_or ys i d in
    let l₁ = set ys i d in
    let dst = get_or l₁ j d in
    let l₂ = set l₁ j d in
    let l₃ = set l₂ i dst in
    let n₁ = length-set ys i d in
    let n₂ = length-set l₁ j d in
    let n₃ = length-set l₂ i dst in
    let c₁ = count-set x d d ys i p in
    let c₂ = count-set x d d l₁ j (omega arith) in
    let c₃ = count-set x dst d l₂ i (omega arith) in
    let c₄ = count-set x src d l₃ j (omega arith) in
    let g₁ : get_or l₁ i d ≡ d = ground (arith, get_or-set ys i i d d p) in
    let g₂ : get_or l₂ i d ≡ d = set-default l₁ i j d (omega arith) g₁ in
    let g₃ : get_or l₃ j d ≡ d =
      ground (arith, get_or-set l₂ i j dst d (omega arith), get_or-set l₁ j j d d (omega arith)) in
    let d₂ = rw g₂ at c₃ in let d₃ = rw g₃ at c₄ in omega (arith, c₁, c₂, d₂, d₃)

count-shuffle_from :
    (x d rounds i : ℕ) (random : ℕ → ℕ) (ys : List ℕ)
    → i + rounds ≡ length ys
    → count x (shuffle_from d rounds i random ys) ≡ count x ys
unfolding shuffle_from
count-shuffle_from x d zero i random ys h = refl
count-shuffle_from x d (suc rounds) i random ys h =
    let j = random i % (length ys - i) + i in
    let low : random i % (length ys - i) < length ys - i = mod-lt (random i) (omega arith) in
    let size = length-swap d i j ys in
    count-shuffle_from x d rounds (suc i) random (swap d i j ys) (omega arith)
    ∙ count-swap x d i j ys (omega arith) (omega arith)

-- Whatever numbers are drawn, a shuffle leaves each number as often in the list as it was before.
pub count-fisher_shuffle :
    (x d : ℕ) (random : ℕ → ℕ) (ys : List ℕ) → count x (fisher_shuffle d random ys) ≡ count x ys
unfolding fisher_shuffle
count-fisher_shuffle x d random ys = count-shuffle_from x d (length ys) 0 random ys (omega arith)

length-shuffle_from :
    (d rounds i : ℕ) (random : ℕ → ℕ) (ys : List ℕ)
    → length (shuffle_from d rounds i random ys) ≡ length ys
unfolding shuffle_from
length-shuffle_from d zero i random ys = refl
length-shuffle_from d (suc rounds) i random ys =
    length-shuffle_from d rounds (suc i) random _ ∙ length-swap d i _ ys

pub length-fisher_shuffle :
    (d : ℕ) (random : ℕ → ℕ) (ys : List ℕ) → length (fisher_shuffle d random ys) ≡ length ys
unfolding fisher_shuffle
length-fisher_shuffle d random ys = length-shuffle_from d (length ys) 0 random ys
