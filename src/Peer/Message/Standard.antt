-- ===== src/Peer/Message/Standard.antt =====
-- The parsers and writers of bip_peer/src/message/standard.rs and bits_ext/port.rs.
use rust_bt.Base.{
  ℕ, ◌+◌, ◌-◌, ◌%◌, ◌^◌, [], ◌++◌, Option, none, some, Bytes, length, take, drop, leb,
  if◌then◌else◌,
}
use rust_bt.Wire.{IResult, done, error, incomplete, size, Parser, Nom, Byteorder, ◌>>=◌, value}
use rust_bt.Peer.{Result, ok}
use rust_bt.Peer.Message.{
  have_message_len, request_message_len, cancel_message_len, port_message_len, have_message_id,
  bitfield_message_id, request_message_id, piece_message_id, cancel_message_id, port_message_id,
  HaveMessage, BitFieldMessage, RequestMessage, PieceMessage, CancelMessage, PortMessage,
}

-- `throwaway_input!`
unfoldable pub throwaway_input : {A : Type 0} → IResult A → IResult A
throwaway_input (done _ result) = done [] result
throwaway_input (error e) = error e
throwaway_input (incomplete i) = incomplete i

module _ ⦃order : Byteorder⦄ where
  open order use {write_u8, write_u16, write_u32}

  unfoldable pub write_length_id_pair : ℕ → Option ℕ → Bytes
  write_length_id_pair length none = write_u32 length
  write_length_id_pair length (some id) = write_u32 length ++ write_u8 id

  unfoldable pub write_have : HaveMessage → Bytes
  write_have msg =
      write_length_id_pair have_message_len (some have_message_id) ++ write_u32 msg.piece_index

  unfoldable pub write_bit_field : BitFieldMessage → Bytes
  write_bit_field msg =
      write_length_id_pair ((1 + length msg.bytes) % 2 ^ 32) (some bitfield_message_id) ++ msg.bytes

  unfoldable pub write_request : RequestMessage → Bytes
  write_request msg =
      write_length_id_pair request_message_len (some request_message_id)
      ++ (write_u32 msg.piece_index
          ++ (write_u32 msg.block_offset ++ write_u32 (msg.block_length % 2 ^ 32)))

  unfoldable pub write_piece : PieceMessage → Bytes
  write_piece msg =
      write_length_id_pair ((9 + length msg.block) % 2 ^ 32) (some piece_message_id)
      ++ (write_u32 msg.piece_index ++ (write_u32 msg.block_offset ++ msg.block))

  unfoldable pub write_cancel : CancelMessage → Bytes
  write_cancel msg =
      write_length_id_pair cancel_message_len (some cancel_message_id)
      ++ (write_u32 msg.piece_index
          ++ (write_u32 msg.block_offset ++ write_u32 (msg.block_length % 2 ^ 32)))

  unfoldable pub write_port : PortMessage → Bytes
  write_port msg =
      write_length_id_pair port_message_len (some port_message_id) ++ write_u16 msg.port

module _ ⦃nom : Nom⦄ where
  open nom use {be_u8, be_u16, be_u32, opt_u8, and_then, alt, switch_error}

  unfoldable pub parse_have : Parser HaveMessage
  parse_have = do index ← be_u32; value (record { piece_index = index })

  unfoldable pub parse_bit_field : Bytes → ℕ → IResult BitFieldMessage
  parse_bit_field bytes len =
      if leb len (length bytes)
      then done [] (record { bytes = take len bytes })
      else incomplete (size (len - length bytes))

  unfoldable pub parse_request : Parser RequestMessage
  parse_request = do
    index ← be_u32
    offset ← be_u32
    length ← be_u32
    value (record { piece_index = index; block_offset = offset; block_length = length })

  -- `len - 8` is on 32 bits. The block is sliced out of the input, at 8.
  unfoldable pub parse_piece : Bytes → ℕ → IResult PieceMessage
  parse_piece bytes len =
      let block_len = (len + 2 ^ 32 - 8) % 2 ^ 32 in
      (do
        piece_index ← be_u32
        block_offset ← be_u32
        _ ← nom.take block_len
        value (record {
          piece_index = piece_index;
          block_offset = block_offset;
          block = take block_len (drop 8 bytes);
        }))
        bytes

  unfoldable pub parse_cancel : Parser CancelMessage
  parse_cancel = do
    index ← be_u32
    offset ← be_u32
    length ← be_u32
    value (record { piece_index = index; block_offset = offset; block_length = length })

  unfoldable pub parse_port : Parser PortMessage
  parse_port = do number ← be_u16; value (record { port = number })

  -- `map!` over a result that is always `Ok`.
  abbrev pub map_ok : {A B : Type 0} → (A → B) → IResult A → IResult (Result B)
  map_ok f r = and_then r λ rest a. done rest (ok (f a))
