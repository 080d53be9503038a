-- ===== src/Peer/Codec/Wire.antt =====
-- The codec of bip_peer/src/codec.rs over the peer wire protocol.
use rust_bt.Base.{ℕ, ◌≡◌, refl, ap, ◌∙◌, List, [], ◌∷◌, ◌++◌, false, Option, Bytes, length}
use rust_bt.Wire.{Nom, Byteorder}
use rust_bt.Peer.{Result, ok, PeerProtocol}
use rust_bt.Peer.Message.{
  ExtendedCodec, port, extended, keep_alive, choke, un_choke, interested, un_interested, have,
  bit_field, request, piece, cancel, bits_extension, prot_extension,
}
use rust_bt.Peer.Message.Whole.{Message, write_wire}
use rust_bt.Peer.Message.RoundTrip.{IsStandard, bytes_of, parse_wire-write_wire}
use rust_bt.Peer.Message.Size.{standard-IsSizable, message_size-write_wire}
use rust_bt.Peer.Protocol.{NestedPeerProtocol, notify_received, notify_sent, peer_wire_protocol}
use rust_bt.Peer.Codec.{exceeds}
use rust_bt.Peer.Codec.Frames.{IsFramed, AllFramed, encode_all, decode_all, decode_all-encode_all}

module _ ⦃nom : Nom⦄ ⦃order : Byteorder⦄ (codec : ExtendedCodec) (protocol : PeerProtocol)
    (nested : NestedPeerProtocol protocol.State codec.ExtendedMessage)
    (max_payload : Option ℕ) where
  open protocol use {State}

  abbrev wire : PeerProtocol
  wire = peer_wire_protocol codec protocol nested

  received :
      (m : Message codec protocol) (state : State)
      → IsStandard codec protocol m
      → notify_received codec protocol nested (ok m, state) ≡ (ok m, state)
  unfolding notify_received
  received keep_alive state h = absurd h
  received choke state h = refl
  received un_choke state h = refl
  received interested state h = refl
  received un_interested state h = refl
  received (have m) state h = refl
  received (bit_field m) state h = refl
  received (request m) state h = refl
  received (piece m) state h = refl
  received (cancel m) state h = refl
  received (bits_extension (port m)) state h = refl
  received (bits_extension (extended m)) state h = absurd h
  received (prot_extension m) state h = absurd h

  sent :
      (m : Message codec protocol) (state : State)
      → IsStandard codec protocol m
      → notify_sent codec protocol nested m (write_wire codec protocol m state)
        ≡ (ok tt, bytes_of codec protocol m state, state)
  unfolding notify_sent write_wire
  sent keep_alive state h = absurd h
  sent choke state h = refl
  sent un_choke state h = refl
  sent interested state h = refl
  sent un_interested state h = refl
  sent (have m) state h = refl
  sent (bit_field m) state h = refl
  sent (request m) state h = refl
  sent (piece m) state h = refl
  sent (cancel m) state h = refl
  sent (bits_extension (port m)) state h = refl
  sent (bits_extension (extended m)) state h = absurd h
  sent (prot_extension m) state h = absurd h

  -- The message's numbers and lengths fit, and it is not longer than the limit.
  abbrev pub IsSent : Message codec protocol → State → Type 0
  IsSent m state =
      IsStandard codec protocol m
      × (exceeds max_payload (length (bytes_of codec protocol m state)) ≡ false)

  abbrev pub AllSent : List (Message codec protocol) → State → Type 0
  AllSent [] state = Unit {0}
  AllSent (m ∷ ms) state = IsSent m state × AllSent ms state

  sent-IsFramed :
      (m : Message codec protocol) (state : State)
      → IsSent m state
      → IsFramed wire max_payload m state
  sent-IsFramed m state (h, within) =
      let size =
        message_size-write_wire codec protocol m state (standard-IsSizable codec protocol m h) in
      record {
        bytes = bytes_of codec protocol m state;
        sizes = ap (λ (s : ℕ × State). s.1) size.0;
        writes = sent m state h;
        needs = λ rest. ap (λ (r : Result (Option ℕ)). (r, state)) (size.1 rest);
        parses =
            ap (notify_received codec protocol nested)
              (parse_wire-write_wire codec protocol m state h)
            ∙ received m state h;
        within = within;
      }

  AllSent-AllFramed :
      (ms : List (Message codec protocol)) (state : State)
      → AllSent ms state
      → AllFramed wire max_payload ms state
  AllSent-AllFramed [] state h = tt
  AllSent-AllFramed (m ∷ ms) state (h, hs) =
      (sent-IsFramed m state h, AllSent-AllFramed ms state hs)

  -- Messages that are encoded one behind the other are decoded as they were, in their order, each from
  -- its own bytes, and what follows them is left, if they are of the standard protocol other than keep
  -- alive, or with a port, their numbers and lengths fit their widths, and none is longer than the
  -- maximum payload.
  pub decode_all-encode_all-wire :
      (ms : List (Message codec protocol)) (state : State)
      → AllSent ms state
      → (rest : Bytes)
      → decode_all wire max_payload
          (length ms)
          (encode_all wire max_payload ms [] state ++ rest)
          state
        ≡ (ms, rest)
  decode_all-encode_all-wire ms state h rest =
      decode_all-encode_all wire max_payload ms state (AllSent-AllFramed ms state h) rest
