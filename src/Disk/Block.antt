-- ===== src/Disk/Block.antt =====
-- bip_disk/src/memory/block.rs: what is known of a block of memory.
use rust_bt.Base.{ℕ, Bytes, replicate}

pub record BlockMetadata : Type 0 where
  pub info_hash : Bytes
  pub piece_index : ℕ
  pub block_offset : ℕ
  pub block_length : ℕ

unfoldable pub with_default_hash : ℕ → ℕ → ℕ → BlockMetadata
with_default_hash index offset size = record {
  info_hash = replicate 20 0;
  piece_index = index;
  block_offset = offset;
  block_length = size;
}

pub record Block : Type 0 where
  pub metadata : BlockMetadata
  pub block_data : Bytes
