-- ===== src/Disk/Accessor.antt =====
-- bip_disk/src/disk/tasks/helpers/piece_accessor.rs: a block is read from, and written to, the files
-- that it stands in.
pub mod Read
use Prim.Native.Nat.{min}
use rust_bt.Base.{
  ℕ, ◌+◌, ◌-◌, ◌*◌, ◌%◌, ◌^◌, ◌≤◌, List, [], ◌∷◌, ◌++◌, Option, none, some, ◌&&◌, Bytes, length,
  take, drop, ltb, leb, ◌==◌, if◌then◌else◌,
}
use rust_bt.Metainfo.{FilePath, File, Info}
use rust_bt.Disk.Block.{BlockMetadata}
use rust_bt.Disk.FileSystem.{IoResult, ok, err, panic, Io, pure, ◌>>=◌, ◌>>◌, FileSystem}

-- `PathBuf::join` with the relative path of a file.
unfoldable pub build_path : Option FilePath → File → FilePath
build_path none file = file.path
build_path (some dir) file = dir ++ file.path

-- The closure gets the file, the offset in it, and the begin and the end in the block's buffer.
module _ {S Handle : Type 0} (open_file : FilePath → Io S Handle)
    (callback : Handle → ℕ → ℕ → ℕ → Io S (Unit {0})) (directory : Option FilePath)
    (total : ℕ) where
  -- One round of the loop over the files, with the bytes to skip taken off; what it returns is
  -- `total_bytes_accessed`.
  unfoldable pub access_region : File → ℕ → ℕ → Io S ℕ
  unfolding build_path
  access_region file bytes_to_access accessed = do
    fs_file ← open_file (build_path directory file)
    let actual = min (total - accessed) bytes_to_access
    let offset = file.len - bytes_to_access
    callback fs_file offset accessed (accessed + actual)
    pure (accessed + actual)

  unfoldable pub access_file : File → ℕ → ℕ → Io S ℕ
  unfolding access_region
  access_file file bytes_to_access accessed =
      if ltb 0 bytes_to_access && ltb accessed total
      then access_region file bytes_to_access accessed
      else pure accessed

  unfoldable pub access_files : List File → ℕ → ℕ → Io S (Unit {0})
  unfolding access_file
  access_files [] to_skip accessed = pure tt
  access_files (file ∷ files) to_skip accessed =
      let min_to_skip = min to_skip file.len in
      do
        accessed' ← access_file file (file.len - min_to_skip) accessed
        access_files files (to_skip - min_to_skip) accessed'

unfoldable pub run_with_file_regions :
    {S Handle : Type 0}
    → (FilePath → Io S Handle)
    → Info
    → BlockMetadata
    → (Handle → ℕ → ℕ → ℕ → Io S (Unit {0}))
    → Io S (Unit {0})
unfolding access_files
run_with_file_regions open_file info message callback =
    access_files open_file callback info.file_directory message.block_length info.files
      (((message.piece_index * info.piece_len) % 2 ^ 64 + message.block_offset) % 2 ^ 64) 0

-- A call of the file system leaves the buffer alone.
unfoldable pub lift : {D A B : Type 0} → Io D A → Io (B × D) A
lift m (buffer, disk) = let (r, disk') = m disk in (r, (buffer, disk'))

-- `buffer[begin..end]` is overwritten by what was read.
unfoldable pub copy_to : ℕ → Bytes → Bytes → Bytes
copy_to begin bytes buffer = take begin buffer ++ bytes ++ drop (begin + length bytes) buffer

abbrev slice : ℕ → ℕ → Bytes → Bytes
slice begin end bytes = take (end - begin) (drop begin bytes)

-- `buffer[begin..end]` panics where the end is behind the buffer's or the begin behind the end.
unfoldable pub check_slice : {S : Type 0} → ℕ → ℕ → Bytes → Io S (Unit {0})
check_slice begin end buffer s =
    if leb begin end && leb end (length buffer) then (ok tt, s) else (panic, s)

module _ (fs : FileSystem) where
  open fs use {Disk, Handle, open_file, read_file, write_file}

  unfoldable pub assert_size : {S : Type 0} → ℕ → ℕ → Io S (Unit {0})
  assert_size size expected s = if size == expected then (ok tt, s) else (panic, s)

  unfoldable pub store : ℕ → Bytes → Io (Bytes × Disk) (Unit {0})
  unfolding copy_to
  store begin bytes (buffer, disk) = (ok tt, (copy_to begin bytes buffer, disk))

  abbrev check_slice_of : ℕ → ℕ → Io (Bytes × Disk) (Unit {0})
  check_slice_of begin end (buffer, disk) = check_slice begin end buffer (buffer, disk)

  unfoldable pub read_region : Handle → ℕ → ℕ → ℕ → Io (Bytes × Disk) (Unit {0})
  unfolding check_slice lift store assert_size
  read_region file offset begin end = do
    check_slice_of begin end
    bytes ← lift (read_file file offset (end - begin))
    store begin bytes
    assert_size (length bytes) (end - begin)

  unfoldable pub read_piece : Info → BlockMetadata → Io (Bytes × Disk) (Unit {0})
  unfolding run_with_file_regions read_region lift
  read_piece info message = run_with_file_regions (λ p. lift (open_file p)) info message read_region

  unfoldable pub write_region : Bytes → Handle → ℕ → ℕ → ℕ → Io Disk (Unit {0})
  unfolding check_slice assert_size
  write_region piece_buffer file offset begin end = do
    check_slice begin end piece_buffer
    written ← write_file file offset (slice begin end piece_buffer)
    assert_size written (end - begin)

  unfoldable pub write_piece : Info → Bytes → BlockMetadata → Io Disk (Unit {0})
  unfolding run_with_file_regions write_region
  write_piece info piece_buffer message =
      run_with_file_regions open_file info message (write_region piece_buffer)
