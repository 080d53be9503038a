-- ===== src/Tests/Memory.antt =====
-- A torrent of two files, on a disk that is a function from paths to contents.
use rust_bt.Base.{
  ℕ, ◌+◌, [], ◌∷◌, ◌++◌, Bool, true, false, ◌&&◌, none, some, Bytes, bytes_eq, length, take, drop,
  replicate, if◌then◌else◌,
}
use mathlib.Core.List.Perm as Perm
use rust_bt.Disk.Checker.{EntryOrder}
use rust_bt.Metainfo.{FilePath, File, Info}
use rust_bt.Disk.Block.{BlockMetadata}
use rust_bt.Disk.FileSystem.{ok, FileSystem}

abbrev path_eq : FilePath → FilePath → Bool
path_eq [] [] = true
path_eq [] (b ∷ q) = false
path_eq (a ∷ p) [] = false
path_eq (a ∷ p) (b ∷ q) = bytes_eq a b && path_eq p q

abbrev Contents : Type 0
Contents = FilePath → Bytes

abbrev overwrite : FilePath → ℕ → Bytes → Contents → Contents
overwrite path offset bytes disk p =
    if path_eq p path
    then take offset (disk p) ++ bytes ++ drop (offset + length bytes) (disk p)
    else disk p

abbrev pub memory : FileSystem
memory = record {
  Disk = Contents;
  Handle = FilePath;
  open_file = λ path disk. (ok path, disk);
  sync_file = λ path disk. (ok tt, disk);
  file_size = λ path disk. (ok (length (disk path)), disk);
  read_file = λ path offset size disk. (ok (take size (drop offset (disk path))), disk);
  write_file = λ path offset bytes disk. (ok (length bytes), overwrite path offset bytes disk);
}

abbrev pub hash : Bytes
hash = replicate 20 7

abbrev file_a : File
file_a = record { len = 3; path = (b'a' ∷ []) ∷ [] }

abbrev file_b : File
file_b = record { len = 4; path = (b'b' ∷ []) ∷ [] }

-- two pieces of three bytes, and a last one of one byte
abbrev pub info : Info
info = record {
  info_hash = hash;
  files = file_a ∷ file_b ∷ [];
  pieces = (1 ∷ 2 ∷ 3 ∷ []) ∷ (4 ∷ 5 ∷ 6 ∷ []) ∷ (7 ∷ []) ∷ [];
  piece_len = 3;
  is_private = none;
  file_directory = some ((b'd' ∷ []) ∷ []);
}

abbrev pub disk : Contents
disk p =
    if path_eq p ((b'd' ∷ []) ∷ (b'a' ∷ []) ∷ [])
    then 1 ∷ 2 ∷ 3 ∷ []
    else if path_eq p ((b'd' ∷ []) ∷ (b'b' ∷ []) ∷ [])
    then 4 ∷ 5 ∷ 6 ∷ 7 ∷ []
    else []

-- a map that yields its entries in the order in which they came
instance abbrev pub order : EntryOrder
order = record { arrange = λ entries. entries; arrange-Perm = λ entries. Perm.refl entries }

abbrev pub block_of : ℕ → ℕ → ℕ → BlockMetadata
block_of index offset size = record {
  info_hash = hash;
  piece_index = index;
  block_offset = offset;
  block_length = size;
}
