-- ===== src/Disk/Checker/Run.antt =====
-- The runs of the checker of bip_disk/src/disk/tasks/helpers/piece_checker.rs over the pending blocks
-- and the files.
use rust_bt.Base.{
  ◌^◌, ℕ, zero, suc, ◌+◌, ◌-◌, ◌/◌, ◌%◌, List, [], ◌∷◌, ◌++◌, Bool, true, false, ◌&&◌, not, Option,
  none, some, Bytes, bytes_eq, length, get_elem?, take, drop, replicate, ltb, ◌==◌, if◌then◌else◌,
}
use rust_bt.Metainfo.{FilePath, File, Info}
use rust_bt.Disk.Block.{BlockMetadata, with_default_hash}
use rust_bt.Disk.FileSystem.{
  IoResult, ok, err, panic, existing_file_size_check, Io, pure, ◌>>=◌, ◌>>◌, try_then, FileSystem,
}
use rust_bt.Disk.Accessor.{build_path, read_piece}
use rust_bt.Disk.Checker.{
  Entries, EntryOrder, PieceState, good, bad, PieceCheckerState, new, add_pending_block, contains,
  merge_pieces, piece_is_complete,
}

-- The result of the loop, with the entries, the new states and the callback's state that it leaves.
abbrev pub Checked : Type 0 → Type 0
Checked S = IoResult (Unit {0}) × Entries × List PieceState × S

abbrev pub keep_entry : {S : Type 0} → ℕ × List BlockMetadata → Checked S → Checked S
keep_entry entry (r, entries, new_states, s) = (r, entry ∷ entries, new_states, s)

-- What follows the callback: `next` runs the rest of the loop, which an error leaves out.
unfoldable pub after_check :
    {S : Type 0}
    → ℕ × BlockMetadata
    → Entries
    → List PieceState
    → (List PieceState → S → Checked S)
    → IoResult Bool × S
    → Checked S
after_check (key, message) entries new_states next (ok is_good, s) =
    let i = message.piece_index in
    keep_entry (key, []) (next (new_states ++ (if is_good then good i else bad i) ∷ []) s)
after_check (key, message) entries new_states next (err e, s) =
    (err e, (key, message ∷ []) ∷ entries, new_states, s)
after_check (key, message) entries new_states next (panic, s) =
    (panic, (key, message ∷ []) ∷ entries, new_states, s)

module _ {S : Type 0} (callback : BlockMetadata → Io S Bool) (piece_length : ℕ) where
  unfoldable pub is_whole : PieceCheckerState → List BlockMetadata → Bool
  unfolding piece_is_complete contains
  is_whole state [] = false
  is_whole state (message ∷ messages) =
      piece_is_complete state.total_blocks state.last_block_size piece_length (message ∷ messages)
      && not (contains state.old_states (good message.piece_index))

  unfoldable pub check_entries : PieceCheckerState → Entries → List PieceState → S → Checked S
  check_entries state [] new_states s = (ok tt, [], new_states, s)
  check_entries state ((key, []) ∷ entries) new_states s =
      keep_entry (key, []) (check_entries state entries new_states s)
  check_entries state ((key, message ∷ messages) ∷ entries) new_states s =
      elim (is_whole state (message ∷ messages)) [
        | true ↦
            after_check (key, message) entries new_states (check_entries state entries)
              (callback message s)
        | false ↦ keep_entry (key, message ∷ messages) (check_entries state entries new_states s)
      ]

  unfoldable pub run_with_whole_pieces : Io (PieceCheckerState × S) (Unit {0})
  unfolding merge_pieces check_entries
  run_with_whole_pieces (state, s) =
      let merged = merge_pieces state in
      let (r, entries, new_states, s') =
        check_entries merged merged.pending_blocks merged.new_states s in
      (r, (record merged { pending_blocks = entries; new_states = new_states }, s'))

-- The `sum` of `u64`.
unfoldable pub total_bytes : List File → ℕ
total_bytes [] = 0
total_bytes (file ∷ files) = (file.len + total_bytes files) % 2 ^ 64

-- A remainder by 0 panics.
unfoldable pub last_piece_size : {S : Type 0} → Info → Io S ℕ
unfolding total_bytes
last_piece_size info =
    if info.piece_len == 0
    then (λ s. (panic, s))
    else pure (total_bytes info.files % info.piece_len)

-- The loop over `0..full_pieces`, with the size of a piece, how many are left and the next one's index.
unfoldable pub add_pieces : ⦃order : EntryOrder⦄ → ℕ → ℕ → ℕ → PieceCheckerState → PieceCheckerState
unfolding add_pending_block with_default_hash
add_pieces size zero piece_index state = state
add_pieces size (suc left) piece_index state =
    add_pieces size left (suc piece_index)
      (add_pending_block (with_default_hash piece_index 0 size) state)

-- The division by a piece length of 0 panics.
unfoldable pub fill_checker_state :
    ⦃order : EntryOrder⦄ → {S : Type 0} → Info → PieceCheckerState → Io S PieceCheckerState
unfolding add_pieces last_piece_size
fill_checker_state info state =
    if info.piece_len == 0
    then (λ s. (panic, s))
    else let full_pieces = total_bytes info.files / info.piece_len in
      do
        size ← last_piece_size info
        let filled = add_pieces info.piece_len full_pieces 0 state
        if size == 0
            then pure filled
            else pure (add_pending_block (with_default_hash full_pieces 0 size) filled)

-- `InfoHash::from_bytes`, a SHA-1, is given.
module _ ⦃order : EntryOrder⦄ (fs : FileSystem) (hash_bytes : Bytes → Bytes) (info : Info) where
  open fs use {Disk, open_file, file_size, write_file}

  -- `expect` on the hash that the piece should have.
  unfoldable pub compare_hash : Bytes → Option Bytes → Io (Bytes × Disk) Bool
  compare_hash calculated (some expected) s = (ok (bytes_eq calculated expected), s)
  compare_hash calculated none s = (panic, s)

  -- The piece is read into the start of the buffer, `piece_buffer[..size]`.
  unfoldable pub read_into : BlockMetadata → Io (Bytes × Disk) Bytes
  unfolding read_piece
  read_into message (piece_buffer, disk) =
      let size = message.block_length in
      if ltb (length piece_buffer) size
      then (panic, (piece_buffer, disk))
      else let (r, (piece, disk')) = read_piece fs info message (take size piece_buffer, disk) in
        try_then (r, (piece ++ drop size piece_buffer, disk')) λ _. pure piece

  unfoldable pub check_piece : BlockMetadata → Io (Bytes × Disk) Bool
  unfolding read_into compare_hash
  check_piece message = do
    piece ← read_into message
    compare_hash (hash_bytes piece) (get_elem? info.pieces message.piece_index)

  unfoldable pub calculate_diff : Io (PieceCheckerState × Disk) (Unit {0})
  unfolding run_with_whole_pieces check_piece
  calculate_diff (state, disk) =
      let piece_buffer = replicate info.piece_len 0 in
      let (r, (state', (_, disk'))) =
        run_with_whole_pieces check_piece info.piece_len (state, (piece_buffer, disk)) in
      (r, (state', disk'))

  -- `expect` on the write that creates the file.
  unfoldable pub expect_written : IoResult ℕ × Disk → IoResult (Unit {0}) × Disk
  expect_written (ok size, disk) = (ok tt, disk)
  expect_written (err e, disk) = (panic, disk)
  expect_written (panic, disk) = (panic, disk)

  unfoldable pub check_size : FilePath → ℕ → fs.Handle → ℕ → Io Disk (Unit {0})
  unfolding expect_written
  check_size file_path expected_size file actual_size disk =
      let size_matches = actual_size == expected_size in
      let size_is_zero = actual_size == 0 in
      if not size_matches && size_is_zero
      then expect_written (write_file file (expected_size - 1) (0 ∷ []) disk)
      else if not size_matches
      then (err (existing_file_size_check file_path expected_size actual_size), disk)
      else (ok tt, disk)

  unfoldable pub validate_file : File → Io Disk (Unit {0})
  unfolding check_size build_path
  validate_file file = do
    let file_path = build_path info.file_directory file
    handle ← open_file file_path
    actual_size ← file_size handle
    check_size file_path file.len handle actual_size

  unfoldable pub validate_files_sizes : List File → Io Disk (Unit {0})
  unfolding validate_file
  validate_files_sizes [] = pure tt
  validate_files_sizes (file ∷ files) = do validate_file file; validate_files_sizes files

  -- The diff of the filled state, which it leaves.
  unfoldable pub diff_of : PieceCheckerState → Io Disk PieceCheckerState
  unfolding calculate_diff
  diff_of state disk =
      let (r, (state', disk')) = calculate_diff (state, disk) in
      try_then (r, disk') λ _. pure state'

  unfoldable pub init_state : Io Disk PieceCheckerState
  unfolding new validate_files_sizes fill_checker_state diff_of last_piece_size
  init_state = do
    size ← last_piece_size info
    validate_files_sizes info.files
    state ← fill_checker_state info (new (length info.pieces) size)
    diff_of state
