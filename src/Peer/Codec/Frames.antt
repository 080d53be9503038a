-- ===== src/Peer/Codec/Frames.antt =====
-- What bip_peer/src/codec.rs encodes is decoded, message by message.
use rust_bt.Base.{
  ℕ, zero, suc, ◌≡◌, refl, sym, ap, ◌∙◌, List, [], ◌∷◌, ◌++◌, append-nil, append_assoc, true, false,
  Option, none, some, Bytes, length, leb, length-append, take-append, drop-append, arith,
}
use rust_bt.Peer.{Result, ok, err, PeerProtocol}
use rust_bt.Peer.Codec.{exceeds, decode, encode}

module _ (protocol : PeerProtocol) (max_payload : Option ℕ) where
  open protocol use {State, ProtocolMessage, bytes_needed, parse_bytes, write_bytes}

  -- A message that the protocol writes as bytes which are asked for as they are, within the limit, and
  -- read back, none of which changes the state.
  pub record IsFramed (m : ProtocolMessage) (state : State) : Type 0 where
    pub bytes : Bytes
    pub sizes : (protocol.message_size m state).1 ≡ state
    pub writes : write_bytes m state ≡ (ok tt, bytes, state)
    pub needs :
        (rest : Bytes) → bytes_needed (bytes ++ rest) state ≡ (ok (some (length bytes)), state)
    pub parses : parse_bytes bytes state ≡ (ok m, state)
    pub within : exceeds max_payload (length bytes) ≡ false

  pub decode-framed :
      (m : ProtocolMessage) (state : State) (framed : IsFramed m state) (rest : Bytes)
      → decode protocol max_payload (framed.bytes ++ rest) state ≡ (ok (some m), rest, state)
  unfolding decode
  decode-framed m state framed rest =
      let all : leb (length framed.bytes) (length (framed.bytes ++ rest)) ≡ true =
        ground (arith, length-append framed.bytes rest) in
      rw (framed.needs rest) (
        rw (take-append framed.bytes rest, drop-append framed.bytes rest)
          (rw (framed.parses, framed.within) (rw all refl)))

  abbrev pub AllFramed : List ProtocolMessage → State → Type 0
  AllFramed [] state = Unit {0}
  AllFramed (m ∷ ms) state = IsFramed m state × AllFramed ms state

  -- The messages, one behind the other.
  abbrev pub encode_all : List ProtocolMessage → Bytes → State → Bytes
  encode_all [] dst state = dst
  encode_all (m ∷ ms) dst state =
      let (r, dst', state') = encode protocol max_payload m dst state in encode_all ms dst' state'

  -- Decodes as long as a message comes, in at most so many calls.
  abbrev pub continue_with :
      Result (Option ProtocolMessage) × Bytes × State
      → (Bytes → State → List ProtocolMessage × Bytes)
      → List ProtocolMessage × Bytes
  continue_with (ok (some m), src, state) next = let (ms, left) = next src state in (m ∷ ms, left)
  continue_with (ok none, src, state) next = ([], src)
  continue_with (err, src, state) next = ([], src)

  abbrev pub decode_all : ℕ → Bytes → State → List ProtocolMessage × Bytes
  decode_all zero src state = ([], src)
  decode_all (suc calls) src state =
      continue_with (decode protocol max_payload src state) (decode_all calls)

  all_bytes : (ms : List ProtocolMessage) (state : State) → AllFramed ms state → Bytes
  all_bytes [] state h = []
  all_bytes (m ∷ ms) state h = h.0.bytes ++ all_bytes ms state h.1

  encode_all-bytes :
      (ms : List ProtocolMessage) (state : State) (h : AllFramed ms state) (dst : Bytes)
      → encode_all ms dst state ≡ dst ++ all_bytes ms state h
  unfolding encode all_bytes
  encode_all-bytes [] state h dst = sym (append-nil dst)
  encode_all-bytes (m ∷ ms) state h dst = rw (h.0.sizes) (
      rw (h.0.writes) (
        encode_all-bytes ms state h.1 (dst ++ h.0.bytes)
        ∙ append_assoc dst h.0.bytes (all_bytes ms state h.1)))

  decode_all-bytes :
      (ms : List ProtocolMessage) (state : State) (h : AllFramed ms state) (rest : Bytes)
      → decode_all (length ms) (all_bytes ms state h ++ rest) state ≡ (ms, rest)
  unfolding all_bytes
  decode_all-bytes [] state h rest = refl
  decode_all-bytes (m ∷ ms) state h rest =
      ap
        (λ (b : Bytes).
          continue_with (decode protocol max_payload b state) (decode_all (length ms)))
        (append_assoc h.0.bytes (all_bytes ms state h.1) rest)
      ∙ ap (λ d. continue_with d (decode_all (length ms)))
          (decode-framed m state h.0 (all_bytes ms state h.1 ++ rest))
      ∙ ap (λ (r : List ProtocolMessage × Bytes). (m ∷ r.0, r.1))
          (decode_all-bytes ms state h.1 rest)

  pub decode_all-encode_all :
      (ms : List ProtocolMessage) (state : State)
      → AllFramed ms state
      → (rest : Bytes) → decode_all (length ms) (encode_all ms [] state ++ rest) state ≡ (ms, rest)
  decode_all-encode_all ms state h rest =
      ap (λ (b : Bytes). decode_all (length ms) (b ++ rest) state) (encode_all-bytes ms state h [])
      ∙ decode_all-bytes ms state h rest
