-- ===== src/Bencode.antt =====
-- bip_bencode: values (Value), decimal numbers (Decimal), the encoder (Encode) and the decoder
-- (Decode).
pub mod Value
pub mod Decimal
pub mod Encode
pub mod Decode
