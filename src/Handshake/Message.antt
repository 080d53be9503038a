-- ===== src/Handshake/Message.antt =====
-- bip_handshake/src/bittorrent/message.rs, with protocol.rs and extensions.rs of
-- bip_handshake/src/message: the handshake message.
pub mod RoundTrip
use rust_bt.Base.{
  ℕ, ◌+◌, ◌/◌, ◌%◌, ◌^◌, [], ◌∷◌, ◌++◌, Bool, not, Bytes, bytes_eq, length, replicate, set, ◌==◌,
  if◌then◌else◌, get_elem?, Option, none, some,
}
use rust_bt.Wire.{Parser, Nom, ◌>>=◌, value}
use rust_bt.Tracker.Announce.{info_hash_len, peer_id_len}

abbrev pub bt_protocol : Bytes
bt_protocol =
    b'B' ∷ b'i' ∷ b't' ∷ b'T' ∷ b'o' ∷ b'r' ∷ b'r' ∷ b'e' ∷ b'n' ∷ b't' ∷ b' ' ∷ b'p' ∷ b'r' ∷ b'o'
    ∷ b't' ∷ b'o' ∷ b'c' ∷ b'o' ∷ b'l' ∷ []

abbrev pub bt_protocol_len : ℕ
bt_protocol_len = 19

abbrev pub num_extension_bytes : ℕ
num_extension_bytes = 8

pub data Protocol : Type 0 where
  bit_torrent : Protocol
  custom : Bytes → Protocol

pub record Extensions : Type 0 where
  pub bytes : Bytes

-- A custom protocol of more than 255 bytes, on which `from_parts` panics, is given no meaning.
pub record HandshakeMessage : Type 0 where
  pub prot : Protocol
  pub ext : Extensions
  pub hash : Bytes
  pub pid : Bytes

-- `len as u8`
unfoldable pub write_protocol : Protocol → Bytes
write_protocol bit_torrent = bt_protocol_len % 2 ^ 8 ∷ bt_protocol
write_protocol (custom prot) = length prot % 2 ^ 8 ∷ prot

unfoldable pub protocol_len : Protocol → ℕ
protocol_len bit_torrent = bt_protocol_len
protocol_len (custom prot) = length prot

unfoldable pub write_message : HandshakeMessage → Bytes
unfolding write_protocol
write_message m = write_protocol m.prot ++ (m.ext.bytes ++ (m.hash ++ m.pid))

unfoldable pub write_len_with_protocol_len : ℕ → ℕ
write_len_with_protocol_len protocol_len =
    1 + protocol_len + num_extension_bytes + info_hash_len + peer_id_len

unfoldable pub write_len : HandshakeMessage → ℕ
unfolding write_len_with_protocol_len protocol_len
write_len m = write_len_with_protocol_len (protocol_len m.prot % 2 ^ 8)

-- The arms of the `switch!`.
unfoldable pub protocol_of : Bytes → Protocol
protocol_of raw = if bytes_eq raw bt_protocol then bit_torrent else custom raw

module _ ⦃nom : Nom⦄ where
  unfoldable pub parse_raw_protocol : Parser Bytes
  parse_raw_protocol = do length ← nom.be_u8; nom.take length

  unfoldable pub parse_protocol : Parser Protocol
  unfolding protocol_of
  parse_protocol = do raw ← parse_raw_protocol; value (protocol_of raw)

  unfoldable pub parse_extension_bits : Parser Extensions
  parse_extension_bits = do
    bits ← nom.count_bytes num_extension_bytes
    value (record { bytes = bits })

  unfoldable pub parse_remote_hash : Parser Bytes
  parse_remote_hash = nom.take info_hash_len

  unfoldable pub parse_remote_pid : Parser Bytes
  parse_remote_pid = nom.take peer_id_len

  unfoldable pub parse_handshake : Parser HandshakeMessage
  parse_handshake = do
    prot ← parse_protocol
    ext ← parse_extension_bits
    hash ← parse_remote_hash
    pid ← parse_remote_pid
    value (record { prot = prot; ext = ext; hash = hash; pid = pid })
