-- ===== src/Peer/Codec/KeepAlive.antt =====
-- The keep alive message in bip_peer/src/message/mod.rs and bip_peer/src/codec.rs.
use rust_bt.Base.{
  ℕ, ◌≡◌, refl, ap, ◌∙◌, ◌++◌, true, Option, Bytes, length, length-append, take-append, leb,
  Bool-cases, inl, inr, arith,
}
use rust_bt.Wire.{incomplete, size, Nom, Byteorder}
use rust_bt.Wire.Reads.{Reads-u32, Reads-Ends, after_done, after_incomplete, alt_incomplete_first}
use rust_bt.Peer.{err, map_result, PeerProtocol}
use rust_bt.Peer.Message.{ExtendedCodec, keep_alive}
use rust_bt.Peer.Message.Standard.{throwaway_input, write_length_id_pair}
use rust_bt.Peer.Message.Whole.{
  parse_header, parse_built_in, parse_message, message_result, parse_wire, write_wire, message_of,
}
use rust_bt.Peer.Message.RoundTrip.{bytes_of}
use rust_bt.Peer.Message.Size.{message_size-write_wire}
use rust_bt.Peer.Protocol.{NestedPeerProtocol, notify_received, peer_wire_protocol}
use rust_bt.Peer.Codec.{exceeds, decode_needed, decode}

module _ ⦃nom : Nom⦄ ⦃order : Byteorder⦄ (codec : ExtendedCodec) (protocol : PeerProtocol) where
  open protocol use {State}

  -- `opt!` asks for the byte behind the four that the message has.
  header-incomplete : parse_header (order.write_u32 0) ≡ incomplete (size 1)
  unfolding parse_header
  header-incomplete =
      after_done _ (Reads-Ends (Reads-u32 0 (omega arith))).ends
      ∙ after_incomplete _ nom.opt_u8-short

  parse_wire-keep_alive :
      (state : State)
      → parse_wire codec protocol (bytes_of codec protocol keep_alive state) state ≡ (err, state)
  unfolding write_wire write_length_id_pair parse_wire message_result parse_message parse_built_in
      throwaway_input
  parse_wire-keep_alive state =
      let built_in =
        after_incomplete (λ _ header. message_of header.0 header.1 (order.write_u32 0))
          (ap throwaway_input header-incomplete) in
      ap (message_result codec protocol state)
        (alt_incomplete_first _ (after_incomplete _ built_in))

  module _ (nested : NestedPeerProtocol protocol.State codec.ExtendedMessage)
      (max_payload : Option ℕ) where
    abbrev wire : PeerProtocol
    wire = peer_wire_protocol codec protocol nested

    -- A keep alive message that the peer wire protocol wrote is refused by the codec with an error,
    -- whatever follows it in the stream and whatever the limit of the payload.
    pub decode-keep_alive :
        (state : State) (rest : Bytes)
        → (decode wire max_payload (bytes_of codec protocol keep_alive state ++ rest) state).0 ≡ err
    unfolding decode decode_needed notify_received map_result
    decode-keep_alive state rest =
        let bytes = bytes_of codec protocol keep_alive state in
        let needed = (message_size-write_wire codec protocol keep_alive state tt).1 rest in
        let refused = ap (notify_received codec protocol nested) (parse_wire-keep_alive state) in
        let all : leb (length bytes) (length (bytes ++ rest)) ≡ true =
          ground (arith, length-append bytes rest) in
        rw needed (elim (Bool-cases (exceeds max_payload (length bytes))) [
          | inl e ↦ rw e refl
          | inr e ↦ rw e (rw all (rw (take-append bytes rest) (rw refused refl)))
        ])
