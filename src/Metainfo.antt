-- ===== src/Metainfo.antt =====
-- bip_metainfo/src/metainfo.rs: the parsed torrent file, as its clients read it. The fields that no
-- client in this library reads (the comments, the trackers, the md5 sums) are left out.
use rust_bt.Base.{ℕ, List, Bool, Option, Bytes}

-- A path is the list of its components.
abbrev pub FilePath : Type 0
FilePath = List Bytes

pub record File : Type 0 where
  pub len : ℕ
  pub path : FilePath

-- The iterators `files()` and `pieces()` yield the elements of the two lists in their order.
pub record Info : Type 0 where
  pub info_hash : Bytes
  pub files : List File
  pub pieces : List Bytes
  pub piece_len : ℕ
  pub is_private : Option Bool
  pub file_directory : Option FilePath
