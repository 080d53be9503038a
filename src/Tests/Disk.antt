-- ===== src/Tests/Disk.antt =====
-- bip_disk: reading a block, and the checker of pieces.
use rust_bt.Base.{
  ℕ, ◌*◌, ◌≤◌, some, get_elem?, Bytes, ◌+◌, ◌≡◌, refl, List, [], ◌∷◌, ◌++◌, Bool, true, ◌||◌, none,
  bytes_eq, length, ltb, arith,
}
use rust_bt.Disk.Block.{BlockMetadata}
use rust_bt.Disk.FileSystem.{ok, Io}
use rust_bt.Disk.Accessor.{read_piece, build_path}
use rust_bt.Disk.Accessor.Read.{AreStored, read_piece-concat}
use rust_bt.Disk.Checker.{
  merge_entries, PieceState, good, bad, PieceCheckerState, merge_piece_messages, merge_messages,
  contains, run_with_diff, piece_is_complete, merge_pieces, sort_by_offset, insert_by_offset,
}
use rust_bt.Disk.Checker.Run.{
  fill_checker_state, total_bytes, is_whole, after_check, run_with_whole_pieces, calculate_diff,
}
use rust_bt.Disk.Checker.Merge.{merge_messages_complete, covers-merge_messages, covers, block_at}
use rust_bt.Disk.Checker.Whole.{run_with_whole_pieces_conserves, count_whole}
use rust_bt.Disk.Checker.Verdicts.{IsWithin, is_match, verdicts, cleared, calculate_diff-verdicts}
use rust_bt.Metainfo.{Info}
use mathlib.Core.List.{Perm}
use rust_bt.Disk.Checker.Fill.{
  filled, one_each, sum_lengths, file_lengths, fill_checker_state_pending,
}
use rust_bt.Disk.Checker.Diff.{run_with_diff_once, note}
use rust_bt.Tests.Memory.{memory, hash, info, disk, block_of, order}

-- the files of the torrent
abbrev contents : List Bytes
contents = (1 ∷ 2 ∷ 3 ∷ []) ∷ (4 ∷ 5 ∷ 6 ∷ 7 ∷ []) ∷ []

stored : AreStored memory info.file_directory disk info.files contents
unfolding build_path bytes_eq
stored = (
  record {
    handle = (b'd' ∷ []) ∷ (b'a' ∷ []) ∷ [];
    opens = refl;
    reads = λ offset size. refl;
    fits = refl;
  },
  (
    record {
      handle = (b'd' ∷ []) ∷ (b'b' ∷ []) ∷ [];
      opens = refl;
      reads = λ offset size. refl;
      fits = refl;
    },
    tt,
  ),
)

-- the block that begins in the first file and ends in the second one
read_piece-concat_example :
    read_piece memory info (block_of 0 2 3) (0 ∷ 0 ∷ 0 ∷ [], disk) ≡ (ok tt, (3 ∷ 4 ∷ 5 ∷ [], disk))
read_piece-concat_example =
    read_piece-concat memory info (block_of 0 2 3) disk contents (0 ∷ 0 ∷ 0 ∷ []) stored refl
      (omega arith) (omega arith)

apart : merge_piece_messages (block_of 1 5 2) (block_of 1 0 4) ≡ none
unfolding merge_piece_messages bytes_eq
apart = refl

-- the blocks of a piece came out of order, and one twice
abbrev messages : List BlockMetadata
messages = block_of 1 2 1 ∷ block_of 1 0 2 ∷ block_of 1 0 2 ∷ []

merge_messages_complete_example :
    (merge_messages messages ≡ block_at hash 1 0 3 ∷ [])
    × (piece_is_complete 3 1 3 (merge_messages messages) ≡ true)
unfolding sort_by_offset insert_by_offset
merge_messages_complete_example =
    merge_messages_complete hash 1 3 1 3 (block_of 1 2 1) (block_of 1 0 2 ∷ block_of 1 0 2 ∷ [])
      messages refl (refl, refl, (refl, refl, (refl, refl, tt)))
      (omega arith, (omega arith, (omega arith, tt)))
      (omega arith, omega arith, (omega arith, omega arith, tt)) refl refl

covers-merge_messages_example : covers 1 (merge_messages messages) ≡ covers 1 messages
covers-merge_messages_example =
    covers-merge_messages 1 messages (omega arith, (omega arith, (omega arith, tt)))

-- a block inside another one keeps the piece apart
nested : length (merge_messages (block_of 1 0 10 ∷ block_of 1 2 1 ∷ block_of 1 5 1 ∷ [])) ≡ 3
unfolding merge_messages merge_piece_messages bytes_eq
nested = refl

-- the first piece is whole, of the second one a block is missing
abbrev state : PieceCheckerState
state = record {
  new_states = [];
  old_states = [];
  pending_blocks =
      (1, block_of 1 0 2 ∷ [])
      ∷ (0, block_of 0 1 2 ∷ block_of 0 0 1 ∷ [])
      ∷ (2, block_of 2 0 1 ∷ [])
      ∷ [];
  total_blocks = 3;
  last_block_size = 1;
}

-- every piece but the last one is good
abbrev verdict : BlockMetadata → Bool
verdict m = ltb m.piece_index 2

abbrev judge : BlockMetadata → Io (Unit {0}) Bool
judge m s = (ok (verdict m), s)

abbrev merged : PieceCheckerState
merged = merge_pieces state

abbrev hash_bytes : Bytes → Bytes
hash_bytes bytes = bytes

-- the torrent file has another hash for the last piece
abbrev changed : Info
changed = record info { pieces = (1 ∷ 2 ∷ 3 ∷ []) ∷ (4 ∷ 5 ∷ 6 ∷ []) ∷ (8 ∷ []) ∷ [] }

within :
    (index size : ℕ) (expected : Bytes)
    → get_elem? changed.pieces index ≡ some expected
    → size ≤ 3
    → index * 3 + size ≤ 7
    → IsWithin memory hash_bytes changed contents (block_of index 0 size)
within index size expected listed short fits = record {
  expected = expected;
  listed = listed;
  short = short;
  narrow = omega arith;
  within = omega arith;
}

calculate_diff-verdicts_example : calculate_diff memory hash_bytes changed (state, disk) ≡ (
  ok tt,
  (
    record state {
      pending_blocks = cleared state 3 (merge_entries state.pending_blocks);
      new_states =
          []
          ++ verdicts state 3
              (is_match memory hash_bytes changed contents)
              (merge_entries state.pending_blocks);
    },
    disk,
  ),
)
unfolding merge_entries bytes_eq
calculate_diff-verdicts_example =
    calculate_diff-verdicts memory hash_bytes changed contents disk stored state (
      λ _. within 1 2 (4 ∷ 5 ∷ 6 ∷ []) refl (omega arith) (omega arith),
      (
        λ _. within 0 3 (1 ∷ 2 ∷ 3 ∷ []) refl (omega arith) (omega arith),
        (λ _. within 2 1 (8 ∷ []) refl (omega arith) (omega arith), tt),
      ),
    )

-- the first piece is good, the last one is not
found_out :
    verdicts state 3
      (is_match memory hash_bytes changed contents)
      (merge_entries state.pending_blocks)
    ≡ good 0 ∷ bad 2 ∷ []
unfolding merge_entries bytes_eq piece_is_complete
found_out = refl

judged : (run_with_whole_pieces judge 3 (state, tt)).1.0.new_states ≡ good 0 ∷ bad 2 ∷ []
unfolding run_with_whole_pieces is_whole bytes_eq after_check
judged = refl

run_with_whole_pieces_conserves_example :
    count_whole judge 3 merged (run_with_whole_pieces judge 3 (state, tt)).1.0.pending_blocks
      + length (run_with_whole_pieces judge 3 (state, tt)).1.0.new_states
    ≡ count_whole judge 3 merged merged.pending_blocks + length state.new_states
run_with_whole_pieces_conserves_example = run_with_whole_pieces_conserves judge 3 state tt

abbrev found : PieceCheckerState
found = record state { new_states = good 0 ∷ bad 2 ∷ []; old_states = bad 2 ∷ [] }

run_with_diff_once_example :
    ((run_with_diff note found []).1 ≡ [] ++ found.new_states)
    × ((run_with_diff note found []).0.new_states ≡ [])
    × ((t : PieceState)
        → contains (run_with_diff note found []).0.old_states t
          ≡ (contains found.new_states t || contains found.old_states t))
run_with_diff_once_example = run_with_diff_once found []

abbrev fresh : PieceCheckerState
fresh = record state { pending_blocks = [] }

fill_checker_state_pending_example :
    (state' : PieceCheckerState) × (fill_checker_state info fresh tt ≡ (ok state', tt))
    × Perm state'.pending_blocks (filled info)
    × (sum_lengths state'.pending_blocks ≡ file_lengths info.files)
fill_checker_state_pending_example =
    fill_checker_state_pending info fresh tt refl (omega arith) (omega arith)

-- two pieces of three bytes, and one of a single byte
filled_lengths : filled info ≡ one_each 3 2 0 ++ one_each 1 1 2
unfolding total_bytes
filled_lengths = refl
