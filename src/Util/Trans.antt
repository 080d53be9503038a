-- ===== src/Util/Trans.antt =====
-- bip_util/src/trans: generators of transaction identifiers, for an unsigned type of `w` bits.
pub mod Distinct
pub mod Takes
use rust_bt.Base.{
  ℕ, zero, suc, ◌+◌, ◌-◌, ◌%◌, ◌^◌, List, [], ◌∷◌, Bool, true, false, ◌&&◌, ◌||◌, Option, none,
  some, ◌==◌, if◌then◌else◌,
}
use rust_bt.Util.Shuffle.{fisher_shuffle}

abbrev pub transaction_id_prealloc_len : ℕ
transaction_id_prealloc_len = 2048

pub record SequentialIds : Type 0 where
  pub next_id : ℕ

pub record LocallyShuffledIds : Type 0 where
  pub sequential : SequentialIds
  pub stored_ids : List ℕ

unfoldable pub start_at : ℕ → LocallyShuffledIds
start_at start = record { sequential = record { next_id = start }; stored_ids = [] }

-- `Vec::pop`: the last element and what stands before it.
unfoldable pub pop : List ℕ → Option (List ℕ × ℕ)
pop [] = none
pop (x ∷ xs) = elim (pop xs) [ none ↦ some ([], x) | some (ys, y) ↦ some (x ∷ ys, y) ]

module _ (w : ℕ) where
  -- The identifier, and the generator after it.
  unfoldable pub next_sequential : SequentialIds → ℕ × SequentialIds
  next_sequential ids = (ids.next_id, record { next_id = (ids.next_id + 1) % 2 ^ w })

  -- The loop of `refill_stored_ids`: what it pushes, and the sequential generator after it.
  unfoldable pub refill_from : ℕ → Bool → Bool → SequentialIds → List ℕ × SequentialIds
  refill_from zero contains_min contains_max ids = ([], ids)
  refill_from (suc rounds) contains_min contains_max ids =
      let (next_id, ids') = next_sequential ids in
      let (pushed, last) =
        refill_from rounds (contains_min || next_id == 0) (contains_max || next_id == 2 ^ w - 1)
          ids' in
      if contains_min && contains_max then ([], ids) else (next_id ∷ pushed, last)

  unfoldable pub refill_stored_ids : (ℕ → ℕ) → LocallyShuffledIds → LocallyShuffledIds
  refill_stored_ids random generator =
      let (pushed, last) =
        refill_from transaction_id_prealloc_len false false generator.sequential in
      record { sequential = last; stored_ids = fisher_shuffle 0 random pushed }

  -- `none` is the end of the fuel.
  unfoldable pub generate : ℕ → (ℕ → ℕ) → LocallyShuffledIds → Option (ℕ × LocallyShuffledIds)
  generate zero random generator = none
  generate (suc fuel) random generator = elim (pop generator.stored_ids) [
    | some (rest, id) ↦ some (id, record generator { stored_ids = rest })
    | none ↦ generate fuel random (refill_stored_ids random generator)
  ]
