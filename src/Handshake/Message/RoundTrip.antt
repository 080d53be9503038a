-- ===== src/Handshake/Message/RoundTrip.antt =====
-- What bip_handshake/src/bittorrent/message.rs writes is read back, and is as long as it says.
use rust_bt.Base.{
  subst, take, ℕ, ◌+◌, ◌%◌, ◌^◌, ◌<◌, ◌≡◌, ◌≢◌, refl, [], ◌∷◌, ◌++◌, Bool-cases, inl, inr, Bytes,
  bytes_eq, bytes_eq→eq, length, length-append, arith,
}
use rust_bt.Wire.{Nom}
use rust_bt.Wire.Reads.{Reads, Reads-then, Reads-map, Reads-take}
use rust_bt.Handshake.Message.{
  bt_protocol, Protocol, bit_torrent, custom, HandshakeMessage, write_protocol, protocol_len,
  write_message, write_len_with_protocol_len, write_len, parse_raw_protocol, protocol_of,
  parse_protocol, parse_extension_bits, parse_remote_hash, parse_remote_pid, parse_handshake,
}

-- A custom protocol has at most 255 bytes and is not the one of BitTorrent.
abbrev pub IsProtocol : Protocol → Type 0
IsProtocol bit_torrent = Unit {0}
IsProtocol (custom prot) = (length prot < 2 ^ 8) × (prot ≢ bt_protocol)

pub record IsMessage (m : HandshakeMessage) : Type 0 where
  pub protocol : IsProtocol m.prot
  pub extensions : length m.ext.bytes ≡ 8
  pub hash : length m.hash ≡ 20
  pub pid : length m.pid ≡ 20

module _ ⦃nom : Nom⦄ where
  Reads-raw : (raw : Bytes) (n : ℕ) → length raw ≡ n → Reads parse_raw_protocol (n ∷ raw) raw
  unfolding parse_raw_protocol
  Reads-raw raw n e =
      Reads-then {xs = n ∷ []} (record { reads = λ rest. nom.be_u8-done n rest })
        (Reads-take n raw e)

  Reads-protocol : (p : Protocol) → IsProtocol p → Reads parse_protocol (write_protocol p) p
  unfolding parse_protocol write_protocol protocol_of bytes_eq
  Reads-protocol bit_torrent h = Reads-map (Reads-raw bt_protocol 19 refl)
  Reads-protocol (custom prot) (short, ne) =
      let len : length prot % 2 ^ 8 ≡ length prot = omega arith in
      elim (Bool-cases (bytes_eq prot bt_protocol)) [
        | inl same ↦ absurd (ne (bytes_eq→eq prot bt_protocol same))
        | inr other ↦
            let read = Reads-map {g = protocol_of} (Reads-raw prot (length prot) refl) in
            let same : protocol_of prot ≡ custom prot = rw other refl in
            rw len (subst (Reads parse_protocol (length prot ∷ prot)) same read)
      ]

  Reads-count : (n : ℕ) (xs : Bytes) → length xs ≡ n → Reads (nom.count_bytes n) xs xs
  Reads-count n xs h = record { reads = λ rest. nom.count_bytes-done n xs rest h }

  -- A handshake message with 8 bytes of extensions and 20 of its hash and of its id each is read back
  -- from what is written, whatever follows it, if its protocol is that of BitTorrent, or one of at most
  -- 255 other bytes.
  pub parse_handshake-write_message :
      (m : HandshakeMessage) → IsMessage m → Reads parse_handshake (write_message m) m
  unfolding parse_handshake write_message parse_extension_bits parse_remote_hash parse_remote_pid
  parse_handshake-write_message m h = Reads-then (Reads-protocol m.prot h.protocol) (
      Reads-then (Reads-map (Reads-count 8 m.ext.bytes h.extensions))
        (Reads-then (Reads-take 20 m.hash h.hash) (Reads-map (Reads-take 20 m.pid h.pid))))

length-write_protocol :
    (p : Protocol)
    → IsProtocol p
    → (length (write_protocol p) ≡ 1 + protocol_len p) × (protocol_len p < 2 ^ 8)
unfolding write_protocol protocol_len
length-write_protocol bit_torrent h = (refl, omega arith)
length-write_protocol (custom prot) h = (omega arith, h.0)

first_byte :
    (p : Protocol) (rest : Bytes)
    → IsProtocol p
    → take 1 (write_protocol p ++ rest) ≡ protocol_len p ∷ []
unfolding write_protocol protocol_len
first_byte bit_torrent rest h = refl
first_byte (custom prot) rest h =
    let len : length prot % 2 ^ 8 ≡ length prot = omega arith in rw len refl

-- A handshake message with 8 bytes of extensions and 20 of its hash and of its id each, whose protocol
-- is that of BitTorrent or has at most 255 other bytes, is as long as it says, and as the length of
-- its protocol says, which is its first byte.
pub length-write_message :
    (m : HandshakeMessage)
    → IsMessage m
    → (length (write_message m) ≡ write_len m)
      × (write_len m ≡ write_len_with_protocol_len (protocol_len m.prot))
      × (take 1 (write_message m) ≡ protocol_len m.prot ∷ [])
unfolding write_message write_len write_len_with_protocol_len
length-write_message m h =
    let (size, short) = length-write_protocol m.prot h.protocol in
    let a = length-append (write_protocol m.prot) (m.ext.bytes ++ (m.hash ++ m.pid)) in
    let b = length-append m.ext.bytes (m.hash ++ m.pid) in
    let c = length-append m.hash m.pid in
    (
      omega (arith, size, a, b, c, h.extensions, h.hash, h.pid),
      omega arith,
      first_byte m.prot (m.ext.bytes ++ (m.hash ++ m.pid)) h.protocol,
    )
