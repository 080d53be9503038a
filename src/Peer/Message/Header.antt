-- ===== src/Peer/Message/Header.antt =====
-- A message of bip_peer/src/message/mod.rs begins with its length and its id.
use rust_bt.Base.{
  ℕ, ◌+◌, ◌^◌, ◌<◌, ◌≡◌, refl, ap, [], ◌++◌, some, Bool, true, false, ◌&&◌, Bytes, length, drop,
  arith,
}
use rust_bt.Wire.{done, error, Nom, Byteorder}
use rust_bt.Wire.Reads.{
  Reads, Reads-then, Reads-map, Reads-u32, Reads-u8, after_done, after_error, alt_first, alt_second,
}
use rust_bt.Peer.{ok, PeerProtocol}
use rust_bt.Peer.Message.{header_len, ExtendedCodec, BitsExtensionMessage, bits_extension}
use rust_bt.Peer.Message.Standard.{throwaway_input, write_length_id_pair}
use rust_bt.Peer.Message.Whole.{
  parse_header, parse_bits_header, message_of, parse_built_in, parse_message, message_result,
  parse_wire, Message, parse_extension,
}

pub and_false : (b : Bool) → (b && false) ≡ false
and_false true = refl
and_false false = refl

module _ ⦃order : Byteorder⦄ (len id : ℕ) (body : Bytes) where
  abbrev pub framed : Bytes
  framed = write_length_id_pair len (some id) ++ body

  pub drop-framed : drop header_len framed ≡ body
  unfolding write_length_id_pair
  drop-framed = rw (order.write_u32-bytes len, order.write_u8-bytes id) refl

  pub length-framed : length framed ≡ header_len + length body
  unfolding write_length_id_pair
  length-framed = rw (order.write_u32-bytes len, order.write_u8-bytes id) (omega arith)

module _ ⦃nom : Nom⦄ ⦃order : Byteorder⦄ (len id : ℕ) (fits : len < 2 ^ 32) where
  Reads-opt_u8 : Reads nom.opt_u8 (order.write_u8 id) (some id)
  Reads-opt_u8 = record { reads = λ rest. rw (order.write_u8-bytes id) (nom.opt_u8-done id rest) }

  Reads-header : Reads parse_header (write_length_id_pair len (some id)) (len, some id)
  unfolding parse_header write_length_id_pair
  Reads-header = Reads-then (Reads-u32 len fits) (Reads-map Reads-opt_u8)

  pub Reads-bits_header : Reads parse_bits_header (write_length_id_pair len (some id)) (len, id)
  unfolding parse_bits_header write_length_id_pair
  Reads-bits_header = Reads-then (Reads-u32 len fits) (Reads-map (Reads-u8 id))

  module _ (body : Bytes) {E P : Type 0} where
    pub parse_built_in-message_of :
        parse_built_in {E = E} {P = P} (framed len id body)
        ≡ message_of len (some id) (framed len id body)
    unfolding parse_built_in throwaway_input
    parse_built_in-message_of =
        after_done (λ _ header. message_of header.0 header.1 (framed len id body))
          (ap throwaway_input (Reads-header.reads body))

module _ ⦃nom : Nom⦄ (codec : ExtendedCodec) (protocol : PeerProtocol) (bytes : Bytes)
    (state : protocol.State) where
  pub parse_wire-built_in :
      (m : Message codec protocol)
      → parse_built_in bytes ≡ done [] (ok m)
      → parse_wire codec protocol bytes state ≡ (ok m, state)
  unfolding parse_wire message_result parse_message
  parse_wire-built_in m h = ap (message_result codec protocol state) (alt_first _ (after_done _ h))

  pub parse_wire-bits :
      (e : ℕ) (m : BitsExtensionMessage codec.ExtendedMessage)
      → parse_built_in {E = codec.ExtendedMessage} {P = protocol.ProtocolMessage} bytes ≡ error e
      → parse_extension codec protocol bytes ≡ done [] (ok m)
      → parse_wire codec protocol bytes state ≡ (ok (bits_extension m), state)
  unfolding parse_wire message_result parse_message
  parse_wire-bits e m h k =
      ap (message_result codec protocol state)
        (alt_second (after_error _ h) (alt_first _ (after_done _ (after_done _ k))))
