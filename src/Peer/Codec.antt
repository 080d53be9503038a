-- ===== src/Peer/Codec.antt =====
-- bip_peer/src/codec.rs: messages of a protocol cut out of a stream of bytes, and put into it.
pub mod Frames
pub mod Wire
pub mod KeepAlive
use rust_bt.Base.{
  ℕ, [], ◌++◌, Bool, false, Option, none, some, Bytes, length, take, drop, ltb, leb, if◌then◌else◌,
}
use rust_bt.Peer.{Result, ok, err, map_result, PeerProtocol}

-- `max_payload.map(|max_payload| needed > max_payload).unwrap_or(false)`
unfoldable pub exceeds : Option ℕ → ℕ → Bool
exceeds none needed = false
exceeds (some max_payload) needed = ltb max_payload needed

module _ (protocol : PeerProtocol) (max_payload : Option ℕ) where
  open protocol use {State, ProtocolMessage, bytes_needed, parse_bytes, write_bytes}

  -- What is returned, what is left of the source, and the protocol's state.
  abbrev pub Decoded : Type 0
  Decoded = Result (Option ProtocolMessage) × Bytes × State

  -- The arms of the `match` on what is needed.
  unfoldable pub decode_needed : Bytes → Result (Option ℕ) × State → Decoded
  unfolding exceeds
  decode_needed src (err, state) = (err, src, state)
  decode_needed src (ok none, state) = (ok none, src, state)
  decode_needed src (ok (some needed), state) =
      let (message, state') = parse_bytes (take needed src) state in
      if exceeds max_payload needed
      then (err, src, state)
      else if leb needed (length src)
      then (map_result some message, drop needed src, state')
      else (ok none, src, state)

  unfoldable pub decode : Bytes → State → Decoded
  unfolding decode_needed
  decode src state = decode_needed src (bytes_needed src state)

  -- `reserve` makes room only.
  unfoldable pub encode : ProtocolMessage → Bytes → State → Result (Unit {0}) × Bytes × State
  encode item dst state =
      let (size, state') = protocol.message_size item state in
      let (r, bytes, state'') = write_bytes item state' in (r, dst ++ bytes, state'')
