-- ===== src/Util/Sha.antt =====
-- bip_util/src/sha/mod.rs: SHA-1 hashes as 20 bytes, their xor, and the iterator over their bits.
-- Hashing itself is the crypto library's and is no part of this module.
use Prim.Native.Nat.{bit_xor}
use rust_bt.Base.{
  ℕ, zero, suc, ◌+◌, ◌-◌, ◌*◌, ◌/◌, ◌%◌, ◌^◌, [], ◌∷◌, Bool, true, false, Option, none, some, Bytes,
  length, get_or, ltb, ◌==◌, if◌then◌else◌,
}

abbrev pub sha_hash_len : ℕ
sha_hash_len = 20

-- `none` is the length error.
unfoldable pub from_hash : Bytes → Option Bytes
from_hash hash = if length hash == sha_hash_len then some hash else none

-- `bitxor` on two hashes walks both in step.
unfoldable pub xor_hash : Bytes → Bytes → Bytes
xor_hash [] ys = []
xor_hash (x ∷ xs) [] = x ∷ xs
xor_hash (x ∷ xs) (y ∷ ys) = bit_xor y x ∷ xor_hash xs ys

pub data BitRep : Type 0 where
  set unset : BitRep

pub data XorRep : Type 0 where
  diff same : XorRep

-- `PartialEq<XorRep> for BitRep`
unfoldable pub bit_eq_xor : BitRep → XorRep → Bool
bit_eq_xor set diff = true
bit_eq_xor unset same = true
bit_eq_xor _ _ = false

pub record Bits : Type 0 where
  pub bytes : Bytes
  pub bit_pos : ℕ

unfoldable pub new_bits : Bytes → Bits
new_bits bytes = record { bytes = bytes; bit_pos = 0 }

-- The byte is shifted and compared with 1 as a whole: nothing masks the bits above.
unfoldable pub next_bit : Bits → Option (BitRep × Bits)
next_bit bits =
    let byte_index = bits.bit_pos / 8 in
    let bit_offset = 7 - bits.bit_pos % 8 in
    let bit_value = get_or bits.bytes byte_index 0 / 2 ^ bit_offset in
    if ltb bits.bit_pos (length bits.bytes * 8)
    then some (if bit_value == 1 then set else unset, record bits { bit_pos = bits.bit_pos + 1 })
    else none

-- `bits().take_while(|&x| x == XorRep::Same).count()`, with fuel for the bits that are left.
unfoldable pub count_same : ℕ → Bits → ℕ
unfolding next_bit bit_eq_xor
count_same zero bits = 0
count_same (suc fuel) bits = elim (next_bit bits) [
  | none ↦ 0
  | some (bit, rest) ↦ elim (bit_eq_xor bit same) [ true ↦ suc (count_same fuel rest) | false ↦ 0 ]
]
