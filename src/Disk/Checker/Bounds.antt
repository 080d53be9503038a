-- ===== src/Disk/Checker/Bounds.antt =====
-- Blocks whose ends fit 64 bits, in bip_disk/src/disk/tasks/helpers/piece_checker.rs.
use Prim.Native.Nat.{min, max}
use mathlib.Core.List.{reverse, reverse-append}
use rust_bt.Base.{
  bytes_eq, ◌%◌, not, ◌==◌, ◌^◌, subst, sym, Option, if◌then◌else◌, ℕ, ◌+◌, ◌-◌, ◌≤◌, ◌<◌, ◌≡◌, inl,
  inr, refl, ◌∙◌, List, [], ◌∷◌, ◌++◌, ◌&&◌, ◌||◌, none, some, bytes_eq→eq, bytes_eq_refl, leb,
  Bool-cases, arith,
}
use rust_bt.Disk.Block.{BlockMetadata}
use rust_bt.Disk.Checker.{merge_piece_messages, insert_by_offset, sort_by_offset}

abbrev pub end_of : BlockMetadata → ℕ
end_of m = m.block_offset + m.block_length

-- The end of a block does not exceed 64 bits.
abbrev pub AreBounded : List BlockMetadata → Type 0
AreBounded [] = Unit {0}
AreBounded (m ∷ ms) = (end_of m < 2 ^ 64) × AreBounded ms

-- The merging of two blocks with ends that are not cut off.
unfoldable pub merge_exact : BlockMetadata → BlockMetadata → Option BlockMetadata
merge_exact a b =
    if not (bytes_eq a.info_hash b.info_hash) || not (a.piece_index == b.piece_index)
    then none
    else if leb a.block_offset b.block_offset && leb b.block_offset (end_of a)
    then some (record a { block_length = max (end_of a) (end_of b) - a.block_offset })
    else if leb b.block_offset a.block_offset && leb a.block_offset (end_of b)
    then some (record a {
      block_offset = b.block_offset;
      block_length = max (end_of a) (end_of b) - b.block_offset;
    })
    else none

pub merge_piece_messages-exact :
    (a b : BlockMetadata)
    → end_of a < 2 ^ 64
    → end_of b < 2 ^ 64
    → merge_piece_messages a b ≡ merge_exact a b
unfolding merge_piece_messages merge_exact
merge_piece_messages-exact a b h k =
    let e : end_of a % 2 ^ 64 ≡ end_of a = omega arith in
    let e' : end_of b % 2 ^ 64 ≡ end_of b = omega arith in rw (e, e') refl

-- The merged block starts where the first of the two does and ends where the last of them does.
pub merged_bounds :
    (a b m : BlockMetadata)
    → end_of a < 2 ^ 64
    → end_of b < 2 ^ 64
    → merge_piece_messages a b ≡ some m
    → (m.info_hash ≡ a.info_hash)
      × (m.piece_index ≡ a.piece_index)
      × (b.info_hash ≡ a.info_hash)
      × (b.piece_index ≡ a.piece_index)
      × (m.block_offset ≡ min a.block_offset b.block_offset)
      × (end_of m ≡ max (end_of a) (end_of b))
      × (a.block_offset ≤ end_of b)
      × (b.block_offset ≤ end_of a)
unfolding merge_exact
merged_bounds a b m fits fits' h =
    let exact : merge_exact a b ≡ some m = sym (merge_piece_messages-exact a b fits fits') ∙ h in
    ground (arith, bytes_eq→eq a.info_hash b.info_hash, bytes_eq_refl a.info_hash)

append-AreBounded :
    (ms ns : List BlockMetadata) → AreBounded ms → AreBounded ns → AreBounded (ms ++ ns)
append-AreBounded [] ns h k = k
append-AreBounded (m ∷ ms) ns h k = (h.0, append-AreBounded ms ns h.1 k)

pub reverse-AreBounded : (ms : List BlockMetadata) → AreBounded ms → AreBounded (reverse ms)
reverse-AreBounded [] h = tt
reverse-AreBounded (m ∷ ms) h =
    subst AreBounded (sym (reverse-append (m ∷ []) ms))
      (append-AreBounded (reverse ms) (m ∷ []) (reverse-AreBounded ms h.1) (h.0, tt))

insert-AreBounded :
    (m : BlockMetadata) (ns : List BlockMetadata)
    → end_of m < 2 ^ 64
    → AreBounded ns
    → AreBounded (insert_by_offset m ns)
unfolding insert_by_offset
insert-AreBounded m [] h k = (h, tt)
insert-AreBounded m (n ∷ ns) h k = elim (Bool-cases (leb m.block_offset n.block_offset)) [
  | inl e ↦ rw e (h, k)
  | inr e ↦ rw e (k.0, insert-AreBounded m ns h k.1)
]

pub sort-AreBounded : (ms : List BlockMetadata) → AreBounded ms → AreBounded (sort_by_offset ms)
unfolding sort_by_offset
sort-AreBounded [] h = tt
sort-AreBounded (m ∷ ms) h = insert-AreBounded m (sort_by_offset ms) h.0 (sort-AreBounded ms h.1)
