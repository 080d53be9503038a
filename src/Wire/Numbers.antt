-- ===== src/Wire/Numbers.antt =====
-- Numbers of a fixed width as bytes, the most significant first, and signed ones by their bits.
use Prim.Native.Nat.{ℕ, zero, suc, ◌+◌, ◌-◌, ◌*◌, ◌/◌, ◌%◌, ◌^◌, ◌<◌}
use rust_bt.Base.{◌≡◌, [], ◌∷◌, Bytes, ltb, if◌then◌else◌, arith}
use rust_bt.Base.Int.{ℤ, pos, negsuc}

-- The number that bytes spell, behind the number n.
abbrev pub be_value : ℕ → Bytes → ℕ
be_value n [] = n
be_value n (b ∷ bs) = be_value (n * 256 + b) bs

-- The k bytes of a number.
abbrev pub big_endian : ℕ → ℕ → Bytes
big_endian zero n = []
big_endian (suc k) n = n / 256 ^ k % 256 ∷ big_endian k n

-- The bits of a signed number of w bits, and the number that bits stand for.
abbrev pub to_bits : ℕ → ℤ → ℕ
to_bits w (pos n) = n
to_bits w (negsuc n) = 2 ^ w - 1 - n

abbrev pub of_bits : ℕ → ℕ → ℤ
of_bits w v = if ltb v (2 ^ (w - 1)) then pos v else negsuc (2 ^ w - 1 - v)

abbrev pub IsSigned : ℕ → ℤ → Type 0
IsSigned w (pos n) = n < 2 ^ (w - 1)
IsSigned w (negsuc n) = n < 2 ^ (w - 1)

pub be_value-big_endian_2 : (n : ℕ) → n < 2 ^ 16 → be_value 0 (big_endian 2 n) ≡ n
be_value-big_endian_2 n h = omega arith

pub be_value-big_endian_4 : (n : ℕ) → n < 2 ^ 32 → be_value 0 (big_endian 4 n) ≡ n
be_value-big_endian_4 n h = omega arith

pub be_value-big_endian_8 : (n : ℕ) → n < 2 ^ 64 → be_value 0 (big_endian 8 n) ≡ n
be_value-big_endian_8 n h = omega arith

pub of_bits-to_bits_32 :
    (z : ℤ) → IsSigned 32 z → (of_bits 32 (to_bits 32 z) ≡ z) × (to_bits 32 z < 2 ^ 32)
of_bits-to_bits_32 (pos n) h = ground arith
of_bits-to_bits_32 (negsuc n) h = ground arith

pub of_bits-to_bits_64 :
    (z : ℤ) → IsSigned 64 z → (of_bits 64 (to_bits 64 z) ≡ z) × (to_bits 64 z < 2 ^ 64)
of_bits-to_bits_64 (pos n) h = ground arith
of_bits-to_bits_64 (negsuc n) h = ground arith
