-- ===== src/Base/Bits.antt =====
-- The laws of `|` and `&` on machine words that the program's packing of bytes needs.
use Prim.Native.Nat.{max, min, bit_or, bit_and, digits, bit_or-bitwise, bit_and-bitwise}
use rust_bt.Base.{ℕ, zero, suc, ◌+◌, ◌-◌, ◌*◌, ◌/◌, ◌%◌, ◌^◌, ◌≤◌, ◌<◌, ◌≡◌, refl, ap, ◌∙◌, arith}
use native.Mathlib.Nat.{pow-suc}

-- An operation by digits, given what it makes of a single number and of two digits.
module _ (alone : ℕ → ℕ) (pair : ℕ → ℕ → ℕ) where
  -- One more round than the number has digits is spent on nothing.
  spare : (n a b : ℕ) → a ≤ n → digits alone pair (suc n) a b ≡ digits alone pair n a b
  spare zero zero b h = refl
  spare zero (suc a) b h = absurd (omega arith)
  spare (suc n) zero b h = refl
  spare (suc n) (suc a) b h =
      ap (λ (t : ℕ). t * 2 + pair (suc a % 2) (b % 2)) (spare n (suc a / 2) (b / 2) (omega arith))

  spare_more : (k n a b : ℕ) → a ≤ n → digits alone pair (k + n) a b ≡ digits alone pair n a b
  spare_more zero n a b h = let e : 0 + n ≡ n = omega arith in rw e refl
  spare_more (suc k) n a b h =
      let e : suc k + n ≡ suc (k + n) = omega arith in
      rw e (spare (k + n) a b (omega arith) ∙ spare_more k n a b h)

  -- The last digit splits off.
  split_digit :
      ((b : ℕ) → alone b ≡ alone (b / 2) * 2 + pair 0 (b % 2))
      → (a b : ℕ)
      → digits alone pair a a b
        ≡ digits alone pair (a / 2) (a / 2) (b / 2) * 2 + pair (a % 2) (b % 2)
  split_digit law zero b = law b
  split_digit law (suc a) b =
      let half = suc a / 2 in
      let e : a - half + half ≡ a = omega arith in
      let less = spare_more (a - half) half half (b / 2) (omega arith) in
      let same = rw e at less in ap (λ (t : ℕ). t * 2 + pair (suc a % 2) (b % 2)) same

pub zero-bit_or : (b : ℕ) → bit_or 0 b ≡ b
zero-bit_or b = bit_or-bitwise 0 b

pub bit_or_step : (a b : ℕ) → bit_or a b ≡ bit_or (a / 2) (b / 2) * 2 + max (a % 2) (b % 2)
bit_or_step a b =
    let split = split_digit (λ c. c) max (λ c. omega arith) a b in
    omega (arith, split, bit_or-bitwise a b, bit_or-bitwise (a / 2) (b / 2))

or_nothing : (n a : ℕ) → a ≤ n → digits (λ c. c) max n a 0 ≡ a
or_nothing zero a h = omega arith
or_nothing (suc n) zero h = refl
or_nothing (suc n) (suc a) h = let rest = or_nothing n (suc a / 2) (omega arith) in omega arith

pub bit_or-zero : (a : ℕ) → bit_or a 0 ≡ a
bit_or-zero a = bit_or-bitwise a 0 ∙ or_nothing a a (omega arith)

-- A field of `k` bits joined to what lies above it adds up.
pub bit_or-disjoint : (k q r : ℕ) → r < 2 ^ k → bit_or (q * 2 ^ k) r ≡ q * 2 ^ k + r
bit_or-disjoint zero q r h = ground (arith, bit_or-zero q)
bit_or-disjoint (suc k) q r h =
    let p : 2 ^ suc k ≡ 2 ^ k * 2 = pow-suc 2 k in
    let e : q * 2 ^ suc k ≡ q * 2 ^ k * 2 = omega (arith, ap (λ (t : ℕ). q * t) p) in
    let half : q * 2 ^ suc k / 2 ≡ q * 2 ^ k = omega arith in
    let step = bit_or_step (q * 2 ^ suc k) r in
    let low = bit_or-disjoint k q (r / 2) (omega arith) in
    let step' = rw half at step in omega (arith, step', low)

pub bit_and_step : (a b : ℕ) → bit_and a b ≡ bit_and (a / 2) (b / 2) * 2 + min (a % 2) (b % 2)
bit_and_step a b =
    let split = split_digit (λ c. 0) min (λ c. omega arith) a b in
    omega (arith, split, bit_and-bitwise a b, bit_and-bitwise (a / 2) (b / 2))

and_nothing : (n a : ℕ) → digits (λ c. 0) min n a 0 ≡ 0
and_nothing zero a = refl
and_nothing (suc n) zero = refl
and_nothing (suc n) (suc a) = let rest = and_nothing n (suc a / 2) in omega arith

bit_and-zero : (a : ℕ) → bit_and a 0 ≡ 0
bit_and-zero a = bit_and-bitwise a 0 ∙ and_nothing a a

-- A mask of the low `k` bits takes the field of `k` bits out.
pub bit_and-mask : (k q r : ℕ) → r < 2 ^ k → bit_and (q * 2 ^ k + r) (2 ^ k - 1) ≡ r
bit_and-mask zero q r h = omega (arith, bit_and-zero (q * 1 + r))
bit_and-mask (suc k) q r h =
    let p : 2 ^ suc k ≡ 2 ^ k * 2 = pow-suc 2 k in
    let e : q * 2 ^ suc k ≡ q * 2 ^ k * 2 = omega (arith, ap (λ (t : ℕ). q * t) p) in
    let half : (q * 2 ^ suc k + r) / 2 ≡ q * 2 ^ k + r / 2 = omega arith in
    let mask : (2 ^ suc k - 1) / 2 ≡ 2 ^ k - 1 = omega arith in
    let step = bit_and_step (q * 2 ^ suc k + r) (2 ^ suc k - 1) in
    let low = bit_and-mask k q (r / 2) (omega arith) in
    let step' = rw (half, mask) at step in omega (arith, step', low)
