-- ===== src/Peer/Message/Whole.antt =====
-- The messages as a whole, in bip_peer/src/message/mod.rs and bits_ext/mod.rs: which message bytes are,
-- what is written for one, and how long that is.
use rust_bt.Base.{
  ℕ, ◌+◌, ◌-◌, ◌%◌, ◌^◌, [], Option, none, some, ◌&&◌, Bytes, length, drop, ◌==◌, if◌then◌else◌,
}
use rust_bt.Wire.{IResult, done, error, incomplete, Parser, Nom, Byteorder, ◌>>=◌, value}
use rust_bt.Peer.{Result, ok, err, map_result, PeerProtocol}
use rust_bt.Peer.Message.{
  keep_alive_message_len, choke_message_len, unchoke_message_len, interested_message_len,
  uninterested_message_len, have_message_len, base_bitfield_message_len, request_message_len,
  base_piece_message_len, cancel_message_len, port_message_len, base_extended_message_len,
  choke_message_id, unchoke_message_id, interested_message_id, uninterested_message_id,
  have_message_id, bitfield_message_id, request_message_id, piece_message_id, cancel_message_id,
  port_message_id, extended_message_id, extended_message_handshake_id, message_length_len_bytes,
  header_len, ExtendedCodec, BitsExtensionMessage, port, extended, PeerWireProtocolMessage,
  keep_alive, choke, un_choke, interested, un_interested, have, bit_field, request, piece, cancel,
  bits_extension, prot_extension,
}
use rust_bt.Peer.Message.Standard.{
  throwaway_input, write_length_id_pair, write_have, write_bit_field, write_request, write_piece,
  write_cancel, write_port, parse_have, parse_bit_field, parse_request, parse_piece, parse_cancel,
  parse_port, map_ok,
}

module _ ⦃nom : Nom⦄ where
  open nom use {be_u8, be_u16, be_u32, opt_u8, and_then, alt, switch_error}

  unfoldable pub parse_header : Parser (ℕ × Option ℕ)
  parse_header = do len ← be_u32; id ← opt_u8; value (len, id)

  -- The arms of the `switch!` on the length and the id; `message_len - 1` is on 32 bits.
  unfoldable pub message_of :
      {E P : Type 0} → ℕ → Option ℕ → Bytes → IResult (Result (PeerWireProtocolMessage E P))
  message_of len none bytes =
      if len == keep_alive_message_len then done [] (ok keep_alive) else error switch_error
  message_of len (some id) bytes =
      let body = drop header_len bytes in
      let rest_len = (len + 2 ^ 32 - 1) % 2 ^ 32 in
      if len == choke_message_len && id == choke_message_id
      then done [] (ok choke)
      else if len == unchoke_message_len && id == unchoke_message_id
      then done [] (ok un_choke)
      else if len == interested_message_len && id == interested_message_id
      then done [] (ok interested)
      else if len == uninterested_message_len && id == uninterested_message_id
      then done [] (ok un_interested)
      else if len == have_message_len && id == have_message_id
      then map_ok have (throwaway_input (parse_have body))
      else if id == bitfield_message_id
      then map_ok bit_field (parse_bit_field body rest_len)
      else if len == request_message_len && id == request_message_id
      then map_ok request (throwaway_input (parse_request body))
      else if id == piece_message_id
      then map_ok piece (throwaway_input (parse_piece body rest_len))
      else if len == cancel_message_len && id == cancel_message_id
      then map_ok cancel (throwaway_input (parse_cancel body))
      else error switch_error

  unfoldable pub parse_built_in :
      {E P : Type 0} → Bytes → IResult (Result (PeerWireProtocolMessage E P))
  parse_built_in bytes =
      and_then (throwaway_input (parse_header bytes)) λ _ header. message_of header.0 header.1 bytes

  unfoldable pub parse_bits_header : Parser (ℕ × ℕ)
  parse_bits_header = do len ← be_u32; id ← be_u8; value (len, id)

  unfoldable pub parse_nested_header : Parser (ℕ × ℕ × ℕ)
  parse_nested_header = do len ← be_u32; id ← be_u8; nested ← be_u8; value (len, id, nested)

  unfoldable pub parse_port_message :
      {E : Type 0} → Bytes → IResult (Result (BitsExtensionMessage E))
  parse_port_message bytes = and_then (throwaway_input (parse_bits_header bytes)) λ _ header.
      if header.0 == port_message_len && header.1 == port_message_id
      then map_ok port (throwaway_input (parse_port (drop header_len bytes)))
      else error switch_error

  module _ (codec : ExtendedCodec) (protocol : PeerProtocol) where
    open codec use {ExtendedMessage, parse_extended}
    open protocol use {State, ProtocolMessage, parse_bytes}

    -- `message_len - 2` is on 32 bits.
    unfoldable pub parse_extended_message :
        Bytes → IResult (Result (BitsExtensionMessage ExtendedMessage))
    parse_extended_message bytes =
        and_then (throwaway_input (parse_nested_header bytes)) λ _ header.
          if header.1 == extended_message_id && header.2 == extended_message_handshake_id
          then and_then
              (parse_extended (drop (header_len + 1) bytes) ((header.0 + 2 ^ 32 - 2) % 2 ^ 32))
              (λ rest r. done rest (map_result extended r))
          else error switch_error

    unfoldable pub parse_extension : Bytes → IResult (Result (BitsExtensionMessage ExtendedMessage))
    unfolding parse_port_message parse_extended_message
    parse_extension bytes = alt (parse_port_message bytes) (parse_extended_message bytes)

    abbrev pub Message : Type 0
    Message = PeerWireProtocolMessage ExtendedMessage ProtocolMessage

    -- The nested protocol is asked last; its state is part of the value.
    unfoldable pub parse_message : Bytes → State → IResult (Result Message × State)
    parse_message bytes state =
        let with_state : IResult (Result Message) → IResult (Result Message × State) =
          λ (r : IResult (Result Message)). and_then r (λ rest m. done rest (m, state)) in
        let bits =
          and_then (parse_extension bytes) λ rest r. done rest (map_result bits_extension r) in
        let (nested, state') = parse_bytes bytes state in
        alt (with_state (parse_built_in bytes))
          (alt (with_state bits) (done [] (map_result prot_extension nested, state')))

    unfoldable pub message_result :
        State → IResult (Result Message × State) → Result Message × State
    message_result state (done _ result) = result
    message_result state (error e) = (err, state)
    message_result state (incomplete n) = (err, state)

    -- `PeerWireProtocolMessage::parse_bytes`
    unfoldable pub parse_wire : Bytes → State → Result Message × State
    unfolding message_result parse_message
    parse_wire bytes state = message_result state (parse_message bytes state)

    unfoldable pub needed_of : IResult ℕ → Option ℕ
    needed_of (done _ length) = some (message_length_len_bytes + length)
    needed_of (error e) = none
    needed_of (incomplete n) = none

    unfoldable pub bytes_needed : Bytes → Result (Option ℕ)
    unfolding needed_of
    bytes_needed bytes = ok (needed_of (be_u32 bytes))

    unfoldable pub bits_message_size : BitsExtensionMessage ExtendedMessage → ℕ
    bits_message_size (port _) = port_message_len
    bits_message_size (extended msg) = base_extended_message_len + codec.bencode_size msg

    unfoldable pub specific_len : Message → State → ℕ × State
    unfolding bits_message_size
    specific_len keep_alive state = (keep_alive_message_len, state)
    specific_len choke state = (choke_message_len, state)
    specific_len un_choke state = (unchoke_message_len, state)
    specific_len interested state = (interested_message_len, state)
    specific_len un_interested state = (uninterested_message_len, state)
    specific_len (have _) state = (have_message_len, state)
    specific_len (bit_field msg) state = (base_bitfield_message_len + length msg.bytes, state)
    specific_len (request _) state = (request_message_len, state)
    specific_len (piece msg) state = (base_piece_message_len + length msg.block, state)
    specific_len (cancel _) state = (cancel_message_len, state)
    specific_len (bits_extension msg) state = (bits_message_size msg, state)
    specific_len (prot_extension msg) state = protocol.message_size msg state

    unfoldable pub message_size : Message → State → ℕ × State
    unfolding specific_len
    message_size msg state =
        let (len, state') = specific_len msg state in (message_length_len_bytes + len, state')

    module _ ⦃order : Byteorder⦄ where
      unfoldable pub write_bits_extension : BitsExtensionMessage ExtendedMessage → Bytes
      write_bits_extension (port msg) = write_port msg
      write_bits_extension (extended msg) = codec.write_extended msg

      abbrev pub wrote : Bytes → State → Result (Unit {0}) × Bytes × State
      wrote bytes state = (ok tt, bytes, state)

      -- `PeerWireProtocolMessage::write_bytes`
      unfoldable pub write_wire : Message → State → Result (Unit {0}) × Bytes × State
      write_wire keep_alive = wrote (write_length_id_pair keep_alive_message_len none)
      write_wire choke = wrote (write_length_id_pair choke_message_len (some choke_message_id))
      write_wire un_choke =
          wrote (write_length_id_pair unchoke_message_len (some unchoke_message_id))
      write_wire interested =
          wrote (write_length_id_pair interested_message_len (some interested_message_id))
      write_wire un_interested =
          wrote (write_length_id_pair uninterested_message_len (some uninterested_message_id))
      write_wire (have msg) = wrote (write_have msg)
      write_wire (bit_field msg) = wrote (write_bit_field msg)
      write_wire (request msg) = wrote (write_request msg)
      write_wire (piece msg) = wrote (write_piece msg)
      write_wire (cancel msg) = wrote (write_cancel msg)
      write_wire (bits_extension msg) = wrote (write_bits_extension msg)
      write_wire (prot_extension msg) = protocol.write_bytes msg
