-- ===== src/Peer/Message/RoundTrip.antt =====
-- What bip_peer/src/message/mod.rs writes for a message is read back as the message, and is as long as
-- it says.
use rust_bt.Base.{
  ℕ, ◌+◌, ◌^◌, ◌<◌, ◌≡◌, refl, sym, ap, ◌∙◌, [], append-nil, some, Bytes, length, arith,
}
use rust_bt.Wire.{done, error, Nom, Byteorder}
use rust_bt.Wire.Reads.{Ends, Reads-map, Reads-u16, Reads-Ends, after_done, alt_first}
use rust_bt.Peer.{ok, PeerProtocol}
use rust_bt.Peer.Message.{
  ExtendedCodec, PortMessage, port, extended, keep_alive, choke, un_choke, interested,
  un_interested, have, bit_field, request, piece, cancel, bits_extension, prot_extension,
}
use rust_bt.Peer.Message.Standard.{throwaway_input, write_length_id_pair, write_port, parse_port}
use rust_bt.Peer.Message.Whole.{
  message_of, parse_built_in, parse_wire, write_wire, write_bits_extension, parse_extension,
  parse_port_message, Message,
}
use rust_bt.Peer.Message.Header.{
  framed, drop-framed, parse_built_in-message_of, parse_wire-built_in, parse_wire-bits,
  Reads-bits_header,
}
use rust_bt.Peer.Message.BuiltIn.{
  Fits, IsParsed, IsParsed-have, IsParsed-request, IsParsed-cancel, IsParsed-bit_field,
  IsParsed-piece, map_throwaway,
}

module _ ⦃nom : Nom⦄ ⦃order : Byteorder⦄ (codec : ExtendedCodec) (protocol : PeerProtocol) where
  open protocol use {State}

  -- Messages with an id whose numbers fit their widths, of the standard protocol or with a port.
  abbrev pub IsStandard : Message codec protocol → Type 0
  IsStandard keep_alive = ⊥
  IsStandard choke = Unit {0}
  IsStandard un_choke = Unit {0}
  IsStandard interested = Unit {0}
  IsStandard un_interested = Unit {0}
  IsStandard (have m) = m.piece_index < 2 ^ 32
  IsStandard (bit_field m) = 1 + length m.bytes < 2 ^ 32
  IsStandard (request m) = Fits m.piece_index m.block_offset m.block_length
  IsStandard (piece m) =
      (m.piece_index < 2 ^ 32) × (m.block_offset < 2 ^ 32) × (9 + length m.block < 2 ^ 32)
  IsStandard (cancel m) = Fits m.piece_index m.block_offset m.block_length
  IsStandard (bits_extension (port m)) = m.port < 2 ^ 16
  IsStandard (bits_extension (extended m)) = ⊥
  IsStandard (prot_extension m) = ⊥

  abbrev pub bytes_of : Message codec protocol → State → Bytes
  bytes_of m state = (write_wire codec protocol m state).1

  IsParsed-simple :
      (id : ℕ) (m : Message codec protocol)
      → message_of 1 (some id) (framed 1 id []) ≡ done [] (ok m)
      → IsParsed codec protocol (write_length_id_pair 1 (some id)) m
  IsParsed-simple id m h =
      ap (λ (b : Bytes). parse_built_in b) (sym (append-nil (write_length_id_pair 1 (some id))))
      ∙ parse_built_in-message_of 1 id (omega arith) []
      ∙ h

  Ends-port : (m : PortMessage) → m.port < 2 ^ 16 → Ends parse_port (order.write_u16 m.port) m
  unfolding parse_port
  Ends-port m h = Reads-Ends (Reads-map (Reads-u16 m.port h))

  parsed-port :
      (m : PortMessage)
      → m.port < 2 ^ 16
      → parse_extension codec protocol (write_port m) ≡ done [] (ok (port m))
  unfolding parse_extension parse_port_message write_port throwaway_input
  parsed-port m h =
      let body = order.write_u16 m.port in
      let header = (Reads-bits_header 3 9 (omega arith)).reads body in
      alt_first _ (
        after_done _ (ap throwaway_input header)
        ∙ map_throwaway port (Ends-port m h) (drop-framed 3 9 body))

  -- no standard message has the id 9
  no_built_in-port :
      (m : PortMessage)
      → parse_built_in {E = codec.ExtendedMessage} {P = protocol.ProtocolMessage} (write_port m)
        ≡ error nom.switch_error
  unfolding write_port message_of
  no_built_in-port m = parse_built_in-message_of 3 9 (omega arith) (order.write_u16 m.port)

  -- A message of the standard protocol other than keep alive, or one with a port, whose numbers and
  -- lengths fit their widths is read back from what is written for it, and the nested protocol is not
  -- asked.
  pub parse_wire-write_wire :
      (m : Message codec protocol) (state : State)
      → IsStandard m
      → parse_wire codec protocol (bytes_of m state) state ≡ (ok m, state)
  unfolding write_wire write_bits_extension message_of
  parse_wire-write_wire keep_alive state h = absurd h
  parse_wire-write_wire choke state h =
      parse_wire-built_in codec protocol _ state choke (IsParsed-simple 0 choke refl)
  parse_wire-write_wire un_choke state h =
      parse_wire-built_in codec protocol _ state un_choke (IsParsed-simple 1 un_choke refl)
  parse_wire-write_wire interested state h =
      parse_wire-built_in codec protocol _ state interested (IsParsed-simple 2 interested refl)
  parse_wire-write_wire un_interested state h =
      parse_wire-built_in codec protocol _ state un_interested
        (IsParsed-simple 3 un_interested refl)
  parse_wire-write_wire (have m) state h =
      parse_wire-built_in codec protocol _ state (have m) (IsParsed-have codec protocol m h)
  parse_wire-write_wire (bit_field m) state h =
      parse_wire-built_in codec protocol _ state (bit_field m)
        (IsParsed-bit_field codec protocol m h)
  parse_wire-write_wire (request m) state h =
      parse_wire-built_in codec protocol _ state (request m) (IsParsed-request codec protocol m h)
  parse_wire-write_wire (piece m) state (h, k, l) =
      parse_wire-built_in codec protocol _ state (piece m) (IsParsed-piece codec protocol m h k l)
  parse_wire-write_wire (cancel m) state h =
      parse_wire-built_in codec protocol _ state (cancel m) (IsParsed-cancel codec protocol m h)
  parse_wire-write_wire (bits_extension (port m)) state h =
      parse_wire-bits codec protocol _ state nom.switch_error (port m) (no_built_in-port m)
        (parsed-port m h)
  parse_wire-write_wire (bits_extension (extended m)) state h = absurd h
  parse_wire-write_wire (prot_extension m) state h = absurd h
