-- ===== src/Dht/Routing/Table/Closest.antt =====
-- bip_dht/src/routing/table.rs: the order in which `ClosestNodes` visits the buckets.
use rust_bt.Base.{
  ℕ, zero, suc, ◌+◌, ◌-◌, ◌*◌, ◌≤◌, ◌<◌, ◌≡◌, ◌⊎◌, inl, inr, refl, List, [], ◌∷◌, Bool-cases,
  Option-cases, Bool, false, Option, none, some, ltb, leb, ◌==◌, if◌then◌else◌, arith,
}

-- `checked_sub`; the additions stay far below the machine's bound, which is taken as unreachable.
abbrev checked_sub : ℕ → ℕ → Option ℕ
checked_sub a b = if leb b a then some (a - b) else none

unfoldable pub index_is_in_bounds : ℕ → Option ℕ → Bool
index_is_in_bounds length none = false
index_is_in_bounds length (some index) = ltb index length

-- The first of two candidates that is in bounds.
unfoldable pub first_in_bounds : ℕ → Option ℕ → Option ℕ → Option ℕ
unfolding index_is_in_bounds
first_in_bounds num_buckets first second =
    if index_is_in_bounds num_buckets first
    then first
    else if index_is_in_bounds num_buckets second
    then second
    else none

unfoldable pub next_bucket_index : ℕ → ℕ → ℕ → Option ℕ
unfolding first_in_bounds
next_bucket_index num_buckets start_index curr_index =
    if curr_index == start_index
    then first_in_bounds num_buckets (some (start_index + 1)) (checked_sub start_index 1)
    else if ltb start_index curr_index
    then first_in_bounds num_buckets (checked_sub start_index (curr_index - start_index))
        (some (curr_index + 1))
    else first_in_bounds num_buckets (some (start_index + (start_index - curr_index + 1)))
        (checked_sub curr_index 1)

-- The place of an index in the order of distance from the start, to the right before the left.
abbrev pub turn : ℕ → ℕ → ℕ
turn start i = 2 * (start - i) + (2 * (i - start) - 1)

-- From the start or an index in bounds the next bucket is, of all whose turn comes later, the one
-- whose turn comes first; there is none only when no later turn is left.
pub next_bucket_index-turn :
    (n start curr : ℕ)
    → (curr < n) ⊎ (curr ≡ start)
    → start ≤ n
    → ((j : ℕ)
        → next_bucket_index n start curr ≡ some j
        → (j < n)
          × (turn start curr < turn start j)
          × ((k : ℕ) → k < n → turn start curr < turn start k → turn start j ≤ turn start k))
      × (next_bucket_index n start curr ≡ none → (k : ℕ) → k < n → turn start k ≤ turn start curr)
unfolding next_bucket_index
next_bucket_index-turn n start curr h s =
    (λ j e. (ground arith, ground arith, λ k lt later. ground arith), λ e k lt. ground arith)

-- The indices visited from `curr` on, for at most `fuel` steps.
unfoldable pub walk : ℕ → ℕ → ℕ → ℕ → List ℕ
walk zero n start curr = []
walk (suc fuel) n start curr =
    curr ∷ elim (next_bucket_index n start curr) [ none ↦ [] | some j ↦ walk fuel n start j ]

abbrev pub Visits : ℕ → List ℕ → Type 0
Visits k [] = ⊥
Visits k (i ∷ is) = (k ≡ i) ⊎ Visits k is

walk-Visits :
    (fuel n start curr k : ℕ)
    → (curr < n) ⊎ (curr ≡ start)
    → start ≤ n
    → k < n
    → turn start curr ≤ turn start k
    → turn start k < turn start curr + fuel
    → Visits k (walk fuel n start curr)
unfolding walk
walk-Visits zero n start curr k h s lt le bound = absurd (omega arith)
walk-Visits (suc fuel) n start curr k h s lt le bound = elim (Bool-cases (k == curr)) [
  | inl here ↦ inl (ground arith)
  | inr other ↦
      let later : turn start curr < turn start k = ground arith in
      let turns = next_bucket_index-turn n start curr h s in
      elim (Option-cases (next_bucket_index n start curr)) [
        | inl e ↦ let last = turns.1 e k lt in absurd (omega arith)
        | inr (j, e) ↦
            let (inside, up, first) = turns.0 j e in
            let soon = first k lt later in
            inr (rw e (walk-Visits fuel n start j k (inl inside) s lt soon (omega arith)))
      ]
]

-- Starting from the bucket of the target, which is no further than one past the last, the walk visits
-- every bucket, in as many steps as there are turns.
pub walk_complete : (n start k : ℕ) → start ≤ n → k < n → Visits k (walk (2 * n + 1) n start start)
walk_complete n start k s lt =
    walk-Visits (2 * n + 1) n start start k (inr refl) s lt (omega arith) (omega arith)

-- The turns of the indices grow strictly from one to the next, starting above `low`.
abbrev pub IsAscending : ℕ → ℕ → List ℕ → Type 0
IsAscending start low [] = Unit {0}
IsAscending start low (i ∷ is) =
    (low < suc (turn start i)) × IsAscending start (suc (turn start i)) is

walk-IsAscending :
    (fuel n start curr low : ℕ)
    → (curr < n) ⊎ (curr ≡ start)
    → start ≤ n
    → low ≤ turn start curr
    → IsAscending start low (walk fuel n start curr)
unfolding walk
walk-IsAscending zero n start curr low h s le = tt
walk-IsAscending (suc fuel) n start curr low h s le =
    let turns = next_bucket_index-turn n start curr h s in
    elim (Option-cases (next_bucket_index n start curr)) [
      | inl e ↦ (omega arith, rw e tt)
      | inr (j, e) ↦
          let (inside, up, first) = turns.0 j e in
          (
            omega arith,
            rw e (
                walk-IsAscending fuel n start j (suc (turn start curr)) (inl inside) s
                  (omega arith)),
          )
    ]

-- However far it is followed, the walk takes the buckets in the order of their distance from the
-- bucket of the target, the right one of two at the same distance first, and none of them twice.
pub walk_ordered : (fuel n start : ℕ) → start ≤ n → IsAscending start 0 (walk fuel n start start)
walk_ordered fuel n start s = walk-IsAscending fuel n start start 0 (inr refl) s (omega arith)
