-- ===== src/Util/Shuffle.antt =====
-- `fisher_shuffle` of bip_util/src/lib.rs. The number drawn in each round is an argument.
pub mod Permutes
use rust_bt.Base.{ℕ, zero, suc, ◌+◌, ◌-◌, ◌%◌, List, length, get_or, set}

module _ {ℓ} {A : Type ℓ} (default : A) where
  -- One round: the two elements are replaced by the default value, and then put back the other way.
  unfoldable pub swap : ℕ → ℕ → List A → List A
  swap i swap_index list =
      let src_val = get_or list i default in
      let list = set list i default in
      let dst_val = get_or list swap_index default in
      let list = set list swap_index default in
      let list = set list i dst_val in set list swap_index src_val

  unfoldable pub shuffle_from : ℕ → ℕ → (ℕ → ℕ) → List A → List A
  shuffle_from zero i random list = list
  shuffle_from (suc rounds) i random list =
      shuffle_from rounds (suc i) random (swap i (random i % (length list - i) + i) list)

  unfoldable pub fisher_shuffle : (ℕ → ℕ) → List A → List A
  fisher_shuffle random list = shuffle_from (length list) 0 random list
