-- ===== src/Peer/Protocol.antt =====
-- bip_peer/src/protocol/wire.rs: the peer wire protocol around a nested one.
use rust_bt.Base.{Bytes}
use rust_bt.Wire.{Nom, Byteorder}
use rust_bt.Peer.{Result, ok, PeerProtocol}
use rust_bt.Peer.Message.{ExtendedCodec, bits_extension, extended}
use rust_bt.Peer.Message.Whole.{Message, parse_wire, write_wire, bytes_needed, message_size}

-- `NestedPeerProtocol` of bip_peer/src/protocol/mod.rs: what the nested protocol does on an extended
-- message that was received, and on one that was sent.
pub record NestedPeerProtocol (State ExtendedMessage : Type 0) : Type 0 where
  pub received_message : ExtendedMessage → State → State
  pub sent_message : ExtendedMessage → State → State

module _ ⦃nom : Nom⦄ ⦃order : Byteorder⦄ (codec : ExtendedCodec) (protocol : PeerProtocol)
    (nested : NestedPeerProtocol protocol.State codec.ExtendedMessage) where
  open protocol use {State}

  unfoldable pub notify_received :
      Result (Message codec protocol) × State → Result (Message codec protocol) × State
  notify_received (ok (bits_extension (extended msg)), state) =
      (ok (bits_extension (extended msg)), nested.received_message msg state)
  notify_received (other, state) = (other, state)

  unfoldable pub notify_sent :
      Message codec protocol → Result (Unit {0}) × Bytes × State → Result (Unit {0}) × Bytes × State
  notify_sent (bits_extension (extended msg)) (ok _, bytes, state) =
      (ok tt, bytes, nested.sent_message msg state)
  notify_sent message other = other

  abbrev pub peer_wire_protocol : PeerProtocol
  peer_wire_protocol = record {
    State = State;
    ProtocolMessage = Message codec protocol;
    bytes_needed = λ bytes state. (bytes_needed codec protocol bytes, state);
    parse_bytes = λ bytes state. notify_received (parse_wire codec protocol bytes state);
    write_bytes = λ message state. notify_sent message (write_wire codec protocol message state);
    message_size = message_size codec protocol;
  }
