-- ===== src/Disk/Checker/Merge.antt =====
-- What the merging of pending blocks in bip_disk/src/disk/tasks/helpers/piece_checker.rs keeps.
use Prim.Native.Nat.{max}
use mathlib.Core.List.{reverse, reverse-append}
use rust_bt.Base.{
  ◌^◌, ℕ, ◌+◌, ◌-◌, ◌≤◌, ◌<◌, ◌≡◌, inl, inr, refl, ap, ◌∙◌, List, [], ◌∷◌, ◌++◌, Bool, true, false,
  ◌&&◌, ◌||◌, some, Bytes, bytes_eq_refl, ltb, leb, Option-cases, arith,
}
use rust_bt.Disk.Block.{BlockMetadata}
use rust_bt.Disk.Checker.{
  merge_piece_messages, insert_by_offset, sort_by_offset, merge_last, merge_reversed,
  merge_messages, piece_is_complete,
}
use rust_bt.Disk.Checker.Bounds.{
  end_of, AreBounded, merge_exact, merge_piece_messages-exact, merged_bounds, reverse-AreBounded,
  sort-AreBounded,
}

abbrev pub in_block : ℕ → BlockMetadata → Bool
in_block x m = leb m.block_offset x && ltb x (end_of m)

-- A byte stands in one of the blocks.
abbrev pub covers : ℕ → List BlockMetadata → Bool
covers x [] = false
covers x (m ∷ ms) = in_block x m || covers x ms

module _ (x : ℕ) where
  in_block-merged :
      (a b m : BlockMetadata)
      → end_of a < 2 ^ 64
      → end_of b < 2 ^ 64
      → merge_piece_messages a b ≡ some m
      → in_block x m ≡ (in_block x b || in_block x a)
  in_block-merged a b m fits fits' h = let f = merged_bounds a b m fits fits' h in ground arith

  covers-append : (ms ns : List BlockMetadata) → covers x (ms ++ ns) ≡ (covers x ms || covers x ns)
  covers-append [] ns = refl
  covers-append (m ∷ ms) ns = ground (arith, covers-append ms ns)

  covers-reverse : (ms : List BlockMetadata) → covers x (reverse ms) ≡ covers x ms
  covers-reverse [] = refl
  covers-reverse (m ∷ ms) =
      ap (covers x) (reverse-append (m ∷ []) ms)
      ∙ ground (arith, covers-append (reverse ms) (m ∷ []), covers-reverse ms)

  covers-insert :
      (m : BlockMetadata) (ns : List BlockMetadata)
      → covers x (insert_by_offset m ns) ≡ (in_block x m || covers x ns)
  unfolding insert_by_offset
  covers-insert m [] = refl
  covers-insert m (n ∷ ns) = ground (arith, covers-insert m ns)

  covers-sort : (ms : List BlockMetadata) → covers x (sort_by_offset ms) ≡ covers x ms
  unfolding sort_by_offset
  covers-sort [] = refl
  covers-sort (m ∷ ms) = ground (arith, covers-insert m (sort_by_offset ms), covers-sort ms)

  covers-merge_last :
      (m : BlockMetadata) (ms : List BlockMetadata)
      → AreBounded (m ∷ ms)
      → covers x (merge_last m ms) ≡ (in_block x m || covers x ms)
  unfolding merge_last
  covers-merge_last m [] h = refl
  covers-merge_last m (n ∷ ns) h = elim (Option-cases (merge_piece_messages n m)) [
    | inl e ↦ rw (e, merge_last) refl
    | inr (k, e) ↦
        let bounds = merged_bounds n m k h.1.0 h.0 e in
        let fits : end_of k < 2 ^ 64 = ground arith in
        rw (e, merge_last)
          (ground (arith, covers-merge_last k ns (fits, h.1.1), in_block-merged n m k h.1.0 h.0 e))
  ]

  covers-merge_reversed :
      (ms : List BlockMetadata) → AreBounded ms → covers x (merge_reversed ms) ≡ covers x ms
  unfolding merge_reversed
  covers-merge_reversed [] h = refl
  covers-merge_reversed (m ∷ ms) h = covers-merge_last m ms h

-- Merging the pending blocks of a piece, whose ends fit 64 bits, neither gains nor loses a byte.
pub covers-merge_messages :
    (x : ℕ) (ms : List BlockMetadata) → AreBounded ms → covers x (merge_messages ms) ≡ covers x ms
unfolding merge_messages
covers-merge_messages x ms h =
    let sorted = sort_by_offset ms in
    covers-reverse x (merge_reversed (reverse sorted))
    ∙ covers-merge_reversed x (reverse sorted) (reverse-AreBounded sorted (sort-AreBounded ms h))
    ∙ covers-reverse x sorted
    ∙ covers-sort x ms

-- Blocks before one that starts at an offset, from the last to the first: each starts no later than
-- the one behind it, which starts no later than its end.
abbrev pub Touch : ℕ → List BlockMetadata → Type 0
Touch offset [] = Unit {0}
Touch offset (n ∷ ns) = (n.block_offset ≤ offset) × (offset ≤ end_of n) × Touch n.block_offset ns

abbrev pub OfPiece : Bytes → ℕ → List BlockMetadata → Type 0
OfPiece hash index [] = Unit {0}
OfPiece hash index (m ∷ ms) = (m.info_hash ≡ hash) × (m.piece_index ≡ index) × OfPiece hash index ms

-- Where the last of the blocks ends, and where the first one starts.
abbrev pub last_end : List BlockMetadata → ℕ
last_end [] = 0
last_end (m ∷ ms) = max (end_of m) (last_end ms)

abbrev pub first_offset : ℕ → List BlockMetadata → ℕ
first_offset offset [] = offset
first_offset offset (n ∷ ns) = first_offset n.block_offset ns

module _ (hash : Bytes) (index : ℕ) where
  abbrev pub block_at : ℕ → ℕ → BlockMetadata
  block_at offset size = record {
    info_hash = hash;
    piece_index = index;
    block_offset = offset;
    block_length = size;
  }

  merge_touching :
      (n : BlockMetadata) (offset size : ℕ)
      → (n.info_hash ≡ hash) × (n.piece_index ≡ index)
      → n.block_offset ≤ offset
      → offset ≤ end_of n
      → end_of n < 2 ^ 64
      → offset + size < 2 ^ 64
      → merge_piece_messages n (block_at offset size)
        ≡ some (block_at n.block_offset (max (end_of n) (offset + size) - n.block_offset))
  unfolding merge_exact
  merge_touching n offset size of low high fits fits' =
      merge_piece_messages-exact n (block_at offset size) fits fits'
      ∙ ground (arith, bytes_eq_refl hash)

  merge_last-Touch :
      (offset size : ℕ) (ms : List BlockMetadata)
      → OfPiece hash index ms
      → Touch offset ms
      → AreBounded ms
      → offset + size < 2 ^ 64
      → merge_last (block_at offset size) ms
        ≡ block_at
            (first_offset offset ms)
            (max (offset + size) (last_end ms) - first_offset offset ms)
          ∷ []
  unfolding merge_last
  merge_last-Touch offset size [] of touch fits fits' =
      let e : max (offset + size) 0 - offset ≡ size = omega arith in rw e refl
  merge_last-Touch offset size (n ∷ ns) of touch fits fits' =
      let merged = merge_touching n offset size (of.0, of.1) touch.0 touch.1 fits.0 fits' in
      let size' = max (end_of n) (offset + size) - n.block_offset in
      let ih = merge_last-Touch n.block_offset size' ns of.2 touch.2 fits.1 (omega arith) in
      let e : max (n.block_offset + size') (last_end ns)
          ≡ max (offset + size) (max (end_of n) (last_end ns)) =
        omega arith in
      rw (merged, merge_last) (rw (ih, e) refl)

-- Pending blocks of one piece that, in the order of their offsets, start at 0, each begin no later
-- than the end of the one just before, and reach to the piece's length are merged into one block, and
-- the piece is found complete, if their ends fit 64 bits.
pub merge_messages_complete :
    (hash : Bytes) (index total last_size size : ℕ) (last : BlockMetadata)
    (before messages : List BlockMetadata)
    → reverse (sort_by_offset messages) ≡ last ∷ before
    → OfPiece hash index (last ∷ before)
    → AreBounded (last ∷ before)
    → Touch last.block_offset before
    → first_offset last.block_offset before ≡ 0
    → last_end (last ∷ before) ≡ size
    → (merge_messages messages ≡ block_at hash index 0 size ∷ [])
      × (piece_is_complete total last_size size (merge_messages messages) ≡ true)
unfolding merge_messages merge_reversed piece_is_complete
merge_messages_complete hash index total last_size size last before messages e of fits touch first
      end =
    let same : last ≡ block_at hash index last.block_offset last.block_length = ground arith in
    let single =
      merge_last-Touch hash index last.block_offset last.block_length before (of.2) touch fits.1
        fits.0 in
    let all : max (end_of last) (last_end before) - 0 ≡ size = omega arith in
    let last_merged : merge_last last before ≡ block_at hash index 0 size ∷ [] =
      ap (λ (m : BlockMetadata). merge_last m before) same ∙ single ∙ rw (first, all) refl in
    let merged : merge_messages messages ≡ block_at hash index 0 size ∷ [] =
      ap (λ (l : List BlockMetadata). reverse (merge_reversed l)) e ∙ ap reverse last_merged in
    (merged, rw merged (ground arith))
