-- ===== src/Peer.antt =====
-- bip_peer: the messages between peers, and how they are framed.
pub mod Message
pub mod Protocol
pub mod BitField
pub mod Codec
use rust_bt.Base.{ℕ, Option, Bytes}

-- An `io::Result`; the error is not looked into.
pub data Result (A : Type 0) : Type 0 where
  ok : A → Result A
  err : Result A

abbrev pub map_result : {A B : Type 0} → (A → B) → Result A → Result B
map_result f (ok a) = ok (f a)
map_result f err = err

-- The trait `PeerProtocol` of bip_peer/src/protocol/mod.rs, with the state that its calls change. A
-- writer is given the bytes that are written, also where the writing then fails.
pub record PeerProtocol : Type 1 where
  pub State : Type 0
  pub ProtocolMessage : Type 0
  pub bytes_needed : Bytes → State → Result (Option ℕ) × State
  pub parse_bytes : Bytes → State → Result ProtocolMessage × State
  pub write_bytes : ProtocolMessage → State → Result (Unit {0}) × Bytes × State
  pub message_size : ProtocolMessage → State → ℕ × State
