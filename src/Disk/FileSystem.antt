-- ===== src/Disk/FileSystem.antt =====
-- bip_disk/src/disk/fs/mod.rs: the trait of file systems, with the state that its calls change.
use rust_bt.Base.{ℕ, Bytes}
use rust_bt.Metainfo.{FilePath}

-- The kinds of errors of bip_disk/src/error.rs, into which an `io::Error`, here a number, is turned.
pub data DiskError : Type 0 where
  io : ℕ → DiskError
  existing_file_size_check : FilePath → ℕ → ℕ → DiskError
  existing_info_hash : Bytes → DiskError
  info_hash_not_found : Bytes → DiskError

-- A result, or a panic of the caller's assertions.
pub data IoResult (A : Type 0) : Type 0 where
  ok : A → IoResult A
  err : DiskError → IoResult A
  panic : IoResult A

-- A call reads and changes a state, and its result may be an error.
abbrev pub Io : Type 0 → Type 0 → Type 0
Io S A = S → IoResult A × S

abbrev pub pure : {S A : Type 0} → A → Io S A
pure a s = (ok a, s)

-- `try!`: after an error nothing more is run.
abbrev pub try_then : {S A B : Type 0} → IoResult A × S → (A → Io S B) → IoResult B × S
try_then (ok a, s) f = f a s
try_then (err e, s) f = (err e, s)
try_then (panic, s) f = (panic, s)

infixl 5 ◌>>=◌ ◌>>◌
abbrev pub ◌>>=◌ : {S A B : Type 0} → Io S A → (A → Io S B) → Io S B
◌>>=◌ m f s = try_then (m s) f

abbrev pub ◌>>◌ : {S B : Type 0} → Io S (Unit {0}) → Io S B → Io S B
m >> k = m >>= λ _. k

-- `Disk` is what the calls change, `Handle` the associated type `File`. A read returns the bytes that
-- it puts at the start of the buffer, whose length it is given; a write, how many it wrote.
pub record FileSystem : Type 1 where
  pub Disk : Type 0
  pub Handle : Type 0
  pub open_file : FilePath → Io Disk Handle
  pub sync_file : FilePath → Io Disk (Unit {0})
  pub file_size : Handle → Io Disk ℕ
  pub read_file : Handle → ℕ → ℕ → Io Disk Bytes
  pub write_file : Handle → ℕ → Bytes → Io Disk ℕ
