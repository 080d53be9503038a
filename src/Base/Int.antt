-- ===== src/Base/Int.antt =====
-- Signed integers over the native numbers, for `i64` values and time differences.
use rust_bt.Base.{ℕ, ◌-◌, ◌==◌, if◌then◌else◌}

-- `negsuc n` is -(n + 1).
pub data ℤ : Type 0 where
  pos : ℕ → ℤ
  negsuc : ℕ → ℤ

abbrev pub neg_ℕ : ℕ → ℤ
neg_ℕ n = if n == 0 then pos 0 else negsuc (n - 1)
