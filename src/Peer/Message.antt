-- ===== src/Peer/Message.antt =====
-- bip_peer/src/message/mod.rs, with standard.rs, bits_ext/mod.rs and bits_ext/port.rs beside it: the
-- messages between peers. Where the input of a parser is `()`, what is left of it is [].
pub mod Standard
pub mod Whole
pub mod Header
pub mod BuiltIn
pub mod RoundTrip
pub mod Size
use rust_bt.Base.{
  ℕ, ◌+◌, ◌-◌, ◌%◌, ◌^◌, List, [], ◌∷◌, ◌++◌, Option, none, some, ◌&&◌, Bytes, length, take, drop,
  leb, ◌==◌, if◌then◌else◌,
}
use rust_bt.Wire.{IResult, done, error, incomplete, size, Parser, Nom, Byteorder, ◌>>=◌, value}
use rust_bt.Peer.{Result, ok, err, map_result, PeerProtocol}

abbrev pub keep_alive_message_len : ℕ
keep_alive_message_len = 0

abbrev pub choke_message_len : ℕ
choke_message_len = 1

abbrev pub unchoke_message_len : ℕ
unchoke_message_len = 1

abbrev pub interested_message_len : ℕ
interested_message_len = 1

abbrev pub uninterested_message_len : ℕ
uninterested_message_len = 1

abbrev pub have_message_len : ℕ
have_message_len = 5

abbrev pub base_bitfield_message_len : ℕ
base_bitfield_message_len = 1

abbrev pub request_message_len : ℕ
request_message_len = 13

abbrev pub base_piece_message_len : ℕ
base_piece_message_len = 9

abbrev pub cancel_message_len : ℕ
cancel_message_len = 13

abbrev pub port_message_len : ℕ
port_message_len = 3

abbrev pub base_extended_message_len : ℕ
base_extended_message_len = 6

abbrev pub choke_message_id : ℕ
choke_message_id = 0

abbrev pub unchoke_message_id : ℕ
unchoke_message_id = 1

abbrev pub interested_message_id : ℕ
interested_message_id = 2

abbrev pub uninterested_message_id : ℕ
uninterested_message_id = 3

abbrev pub have_message_id : ℕ
have_message_id = 4

abbrev pub bitfield_message_id : ℕ
bitfield_message_id = 5

abbrev pub request_message_id : ℕ
request_message_id = 6

abbrev pub piece_message_id : ℕ
piece_message_id = 7

abbrev pub cancel_message_id : ℕ
cancel_message_id = 8

abbrev pub port_message_id : ℕ
port_message_id = 9

abbrev pub extended_message_id : ℕ
extended_message_id = 20

abbrev pub extended_message_handshake_id : ℕ
extended_message_handshake_id = 0

abbrev pub message_length_len_bytes : ℕ
message_length_len_bytes = 4

abbrev pub header_len : ℕ
header_len = message_length_len_bytes + 1

pub record HaveMessage : Type 0 where
  pub piece_index : ℕ

pub record BitFieldMessage : Type 0 where
  pub bytes : Bytes

pub record RequestMessage : Type 0 where
  pub piece_index : ℕ
  pub block_offset : ℕ
  pub block_length : ℕ

pub record PieceMessage : Type 0 where
  pub piece_index : ℕ
  pub block_offset : ℕ
  pub block : Bytes

pub record CancelMessage : Type 0 where
  pub piece_index : ℕ
  pub block_offset : ℕ
  pub block_length : ℕ

pub record PortMessage : Type 0 where
  pub port : ℕ

-- What is used here of bits_ext/handshake.rs, the messages of the extension protocol's handshake.
pub record ExtendedCodec : Type 1 where
  pub ExtendedMessage : Type 0
  pub parse_extended : Bytes → ℕ → IResult (Result ExtendedMessage)
  pub write_extended : ExtendedMessage → Bytes
  pub bencode_size : ExtendedMessage → ℕ

pub data BitsExtensionMessage (E : Type 0) : Type 0 where
  port : PortMessage → BitsExtensionMessage E
  extended : E → BitsExtensionMessage E

-- `E` is the type of the extended messages, `P` that of the nested protocol's messages.
pub data PeerWireProtocolMessage (E P : Type 0) : Type 0 where
  keep_alive : PeerWireProtocolMessage E P
  choke : PeerWireProtocolMessage E P
  un_choke : PeerWireProtocolMessage E P
  interested : PeerWireProtocolMessage E P
  un_interested : PeerWireProtocolMessage E P
  have : HaveMessage → PeerWireProtocolMessage E P
  bit_field : BitFieldMessage → PeerWireProtocolMessage E P
  request : RequestMessage → PeerWireProtocolMessage E P
  piece : PieceMessage → PeerWireProtocolMessage E P
  cancel : CancelMessage → PeerWireProtocolMessage E P
  bits_extension : BitsExtensionMessage E → PeerWireProtocolMessage E P
  prot_extension : P → PeerWireProtocolMessage E P
