-- ===== src/Util.antt =====
-- bip_util: hashes (Sha), the byte conversions (Convert), the shuffle (Shuffle) and generators of
-- identifiers (Trans).
pub mod Sha
pub mod Convert
pub mod Shuffle
pub mod Trans
