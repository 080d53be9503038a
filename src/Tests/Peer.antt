-- ===== src/Tests/Peer.antt =====
-- bip_peer: messages around a nested protocol that reads nothing and counts how often it was asked.
use rust_bt.Base.{ℕ, ◌+◌, ◌≡◌, refl, [], ◌∷◌, ◌++◌, List, none, some, Bytes, length, arith}
use rust_bt.Wire.{error}
use rust_bt.Peer.{ok, err, PeerProtocol}
use rust_bt.Peer.Message.{
  ExtendedCodec, keep_alive, un_choke, have, bit_field, request, piece, bits_extension, port,
}
use rust_bt.Peer.Message.Standard.{
  write_length_id_pair, write_have, write_bit_field, write_request, write_piece, write_port,
}
use rust_bt.Peer.Message.Whole.{
  Message, parse_wire, message_size, bytes_needed, write_wire, write_bits_extension,
}
use rust_bt.Peer.Message.RoundTrip.{bytes_of, parse_wire-write_wire}
use rust_bt.Peer.Message.Size.{message_size-write_wire}
use rust_bt.Peer.Protocol.{NestedPeerProtocol, peer_wire_protocol}
use rust_bt.Peer.Codec.{decode, exceeds}
use rust_bt.Peer.Codec.KeepAlive.{decode-keep_alive}
use rust_bt.Peer.Codec.Frames.{encode_all, decode_all}
use rust_bt.Peer.Codec.Wire.{decode_all-encode_all-wire}
use rust_bt.Peer.BitField.{iter}
use rust_bt.Peer.BitField.Pieces.{collect, pieces_from, collect-iter}
use rust_bt.Tests.Wire.{nom, order}

abbrev codec : ExtendedCodec
codec = record {
  ExtendedMessage = Bytes;
  parse_extended = λ bytes len. error 0;
  write_extended = λ m. m;
  bencode_size = λ m. length m;
}

abbrev protocol : PeerProtocol
protocol = record {
  State = ℕ;
  ProtocolMessage = Bytes;
  bytes_needed = λ bytes state. (ok none, state);
  parse_bytes = λ bytes state. (err, state + 1);
  write_bytes = λ m state. (ok tt, m, state);
  message_size = λ m state. (length m, state);
}

abbrev nested : NestedPeerProtocol ℕ Bytes
nested = record { received_message = λ m state. state + 1; sent_message = λ m state. state + 1 }

abbrev block : Message codec protocol
block = piece (record { piece_index = 3; block_offset = 16384; block = 1 ∷ 2 ∷ 3 ∷ [] })

parse_wire-write_wire_example :
    parse_wire codec protocol (bytes_of codec protocol block 0) 0 ≡ (ok block, 0)
parse_wire-write_wire_example =
    parse_wire-write_wire codec protocol block 0 (omega arith, omega arith, omega arith)

block-bytes :
    bytes_of codec protocol block 0
    ≡ 0 ∷ 0 ∷ 0 ∷ 12 ∷ 7 ∷ 0 ∷ 0 ∷ 0 ∷ 3 ∷ 0 ∷ 0 ∷ 64 ∷ 0 ∷ 1 ∷ 2 ∷ 3 ∷ []
unfolding write_wire write_piece write_length_id_pair
block-bytes = refl

message_size-write_wire_example :
    (message_size codec protocol block 0 ≡ (length (bytes_of codec protocol block 0), 0))
    × ((rest : Bytes)
        → bytes_needed codec protocol (bytes_of codec protocol block 0 ++ rest)
          ≡ ok (some (length (bytes_of codec protocol block 0))))
message_size-write_wire_example =
    message_size-write_wire codec protocol block 0 (omega arith, omega arith, omega arith)

abbrev messages : List (Message codec protocol)
messages =
    un_choke
    ∷ bit_field (record { bytes = 224 ∷ [] })
    ∷ have (record { piece_index = 7 })
    ∷ request (record { piece_index = 3; block_offset = 0; block_length = 16384 })
    ∷ block
    ∷ bits_extension (port (record { port = 6881 }))
    ∷ []

decode_all-encode_all-wire_example :
    decode_all
      (peer_wire_protocol codec protocol nested)
      (some 20)
      6
      (encode_all (peer_wire_protocol codec protocol nested) (some 20) messages [] 0 ++ 0 ∷ 0 ∷ [])
      0
    ≡ (messages, 0 ∷ 0 ∷ [])
unfolding write_wire write_bits_extension write_have write_bit_field write_request write_piece
    write_port write_length_id_pair exceeds
decode_all-encode_all-wire_example =
    decode_all-encode_all-wire codec protocol nested (some 20) messages 0
      (
        (tt, refl),
        (
          (omega arith, refl),
          (
            (omega arith, refl),
            (
              ((omega arith, omega arith, omega arith), refl),
              (((omega arith, omega arith, omega arith), refl), ((omega arith, refl), tt)),
            ),
          ),
        ),
      )
      (0 ∷ 0 ∷ [])

-- the bits of 160 are set at 0 and 2, that of 1 at 15
collect-iter_example :
    collect 17 17 (iter (record { bytes = 160 ∷ 1 ∷ [] })) ≡ pieces_from (160 ∷ 1 ∷ []) 16 0
collect-iter_example =
    collect-iter (record { bytes = 160 ∷ 1 ∷ [] }) 17 17 (omega arith) (omega arith) (omega arith)

pieces_from-bits :
    pieces_from (160 ∷ 1 ∷ []) 16 0
    ≡ record { piece_index = 0 } ∷ record { piece_index = 2 } ∷ record { piece_index = 15 } ∷ []
pieces_from-bits = refl

decode-keep_alive_example :
    (decode
      (peer_wire_protocol codec protocol nested)
      (some 20)
      (bytes_of codec protocol keep_alive 0 ++ 0 ∷ 0 ∷ [])
      0).0
    ≡ err
decode-keep_alive_example = decode-keep_alive codec protocol nested (some 20) 0 (0 ∷ 0 ∷ [])
