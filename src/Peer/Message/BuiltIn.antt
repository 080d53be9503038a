-- ===== src/Peer/Message/BuiltIn.antt =====
-- The messages of bip_peer/src/message/standard.rs, each parsed from what is written for it.
use rust_bt.Base.{
  ℕ, ◌+◌, ◌-◌, ◌%◌, ◌^◌, ◌<◌, ◌≡◌, refl, ap, ◌∙◌, [], ◌++◌, true, Bytes, length, drop, take_all,
  leb, ◌==◌, arith,
}
use rust_bt.Wire.{done, Parser, Nom, Byteorder}
use rust_bt.Wire.Reads.{
  Reads, Ends, Reads-then, Ends-then, Reads-map, Reads-u32, Reads-Ends, Reads-take, after_done,
}
use rust_bt.Peer.{ok, PeerProtocol}
use rust_bt.Peer.Message.{
  ExtendedCodec, HaveMessage, BitFieldMessage, RequestMessage, PieceMessage, CancelMessage, have,
  bit_field, request, piece, cancel,
}
use rust_bt.Peer.Message.Standard.{
  throwaway_input, write_have, write_bit_field, write_request, write_piece, write_cancel,
  parse_have, parse_bit_field, parse_request, parse_piece, parse_cancel, map_ok,
}
use rust_bt.Peer.Message.Whole.{message_of, parse_built_in, Message}
use rust_bt.Peer.Message.Header.{and_false, drop-framed, parse_built_in-message_of}

module _ ⦃nom : Nom⦄ ⦃order : Byteorder⦄ where
  open order use {write_u16, write_u32}

  pub map_throwaway :
      {A B : Type 0} {p : Parser A} {bytes body : Bytes} {a : A} (f : A → B)
      → Ends p body a
      → bytes ≡ body
      → map_ok f (throwaway_input (p bytes)) ≡ done [] (ok (f a))
  unfolding throwaway_input
  map_throwaway {p} {a} f h e = after_done _ (ap throwaway_input (ap p e ∙ h.ends))

  abbrev pub three : ℕ → ℕ → ℕ → Bytes
  three index offset size = write_u32 index ++ (write_u32 offset ++ write_u32 (size % 2 ^ 32))

  abbrev pub Fits : ℕ → ℕ → ℕ → Type 0
  Fits index offset size = (index < 2 ^ 32) × (offset < 2 ^ 32) × (size < 2 ^ 32)

  Ends-size : (size : ℕ) → size < 2 ^ 32 → Reads nom.be_u32 (write_u32 (size % 2 ^ 32)) size
  Ends-size size h = let same : size % 2 ^ 32 ≡ size = omega arith in rw same (Reads-u32 size h)

  Ends-request :
      (m : RequestMessage)
      → Fits m.piece_index m.block_offset m.block_length
      → Ends parse_request (three m.piece_index m.block_offset m.block_length) m
  unfolding parse_request
  Ends-request m (h, k, l) = Reads-Ends (
      Reads-then (Reads-u32 m.piece_index h)
        (Reads-then (Reads-u32 m.block_offset k) (Reads-map (Ends-size m.block_length l))))

  Ends-cancel :
      (m : CancelMessage)
      → Fits m.piece_index m.block_offset m.block_length
      → Ends parse_cancel (three m.piece_index m.block_offset m.block_length) m
  unfolding parse_cancel
  Ends-cancel m (h, k, l) = Reads-Ends (
      Reads-then (Reads-u32 m.piece_index h)
        (Reads-then (Reads-u32 m.block_offset k) (Reads-map (Ends-size m.block_length l))))

  Ends-piece :
      (m : PieceMessage)
      → m.piece_index < 2 ^ 32
      → m.block_offset < 2 ^ 32
      → 9 + length m.block < 2 ^ 32
      → parse_piece
          (write_u32 m.piece_index ++ (write_u32 m.block_offset ++ m.block))
          (8 + length m.block)
        ≡ done [] m
  unfolding parse_piece
  Ends-piece m h k l =
      let len : (8 + length m.block + 2 ^ 32 - 8) % 2 ^ 32 ≡ length m.block = omega arith in
      let behind : drop 8 (write_u32 m.piece_index ++ (write_u32 m.block_offset ++ m.block))
          ≡ m.block =
        rw (order.write_u32-bytes m.piece_index, order.write_u32-bytes m.block_offset) refl in
      let all = take_all (length m.block) m.block (omega arith) in
      rw (len, behind)
        (rw all
          (Ends-then (Reads-u32 m.piece_index h) (
            Ends-then (Reads-u32 m.block_offset k)
              (Reads-Ends (Reads-map (Reads-take (length m.block) m.block refl))))).ends)

  module _ (codec : ExtendedCodec) (protocol : PeerProtocol) where
    abbrev pub IsParsed : Bytes → Message codec protocol → Type 0
    IsParsed bytes m = parse_built_in bytes ≡ done [] (ok m)

    pub IsParsed-have :
        (m : HaveMessage) → m.piece_index < 2 ^ 32 → IsParsed (write_have m) (have m)
    unfolding write_have message_of parse_have
    IsParsed-have m h =
        let body = write_u32 m.piece_index in
        parse_built_in-message_of 5 4 (omega arith) body
        ∙ map_throwaway have (Reads-Ends (Reads-map (Reads-u32 m.piece_index h)))
            (drop-framed 5 4 body)

    pub IsParsed-request :
        (m : RequestMessage)
        → Fits m.piece_index m.block_offset m.block_length
        → IsParsed (write_request m) (request m)
    unfolding write_request message_of
    IsParsed-request m h =
        let body = three m.piece_index m.block_offset m.block_length in
        parse_built_in-message_of 13 6 (omega arith) body
        ∙ map_throwaway request (Ends-request m h) (drop-framed 13 6 body)

    pub IsParsed-cancel :
        (m : CancelMessage)
        → Fits m.piece_index m.block_offset m.block_length
        → IsParsed (write_cancel m) (cancel m)
    unfolding write_cancel message_of
    IsParsed-cancel m h =
        let body = three m.piece_index m.block_offset m.block_length in
        parse_built_in-message_of 13 8 (omega arith) body
        ∙ map_throwaway cancel (Ends-cancel m h) (drop-framed 13 8 body)

    pub IsParsed-bit_field :
        (m : BitFieldMessage)
        → 1 + length m.bytes < 2 ^ 32
        → IsParsed (write_bit_field m) (bit_field m)
    unfolding write_bit_field message_of parse_bit_field
    IsParsed-bit_field m h =
        let n = 1 + length m.bytes in
        let len : n % 2 ^ 32 ≡ n = omega arith in
        let rest : (n + 2 ^ 32 - 1) % 2 ^ 32 ≡ length m.bytes = omega arith in
        let all = take_all (length m.bytes) m.bytes (omega arith) in
        let enough : leb (length m.bytes) (length m.bytes) ≡ true = ground arith in
        rw len (
          parse_built_in-message_of n 5 h m.bytes
          ∙ rw (and_false (n == 1), and_false (n == 5))
              (rw (rest, drop-framed n 5 m.bytes) (rw (enough, all) (after_done _ refl))))

    pub IsParsed-piece :
        (m : PieceMessage)
        → m.piece_index < 2 ^ 32
        → m.block_offset < 2 ^ 32
        → 9 + length m.block < 2 ^ 32
        → IsParsed (write_piece m) (piece m)
    unfolding write_piece message_of throwaway_input
    IsParsed-piece m h k l =
        let n = 9 + length m.block in
        let len : n % 2 ^ 32 ≡ n = omega arith in
        let rest : (n + 2 ^ 32 - 1) % 2 ^ 32 ≡ 8 + length m.block = omega arith in
        let body = write_u32 m.piece_index ++ (write_u32 m.block_offset ++ m.block) in
        rw len (
          parse_built_in-message_of n 7 l body
          ∙ rw (and_false (n == 1), and_false (n == 5), and_false (n == 13))
              (rw (rest, drop-framed n 7 body)
                (after_done _ (ap throwaway_input (Ends-piece m h k l)))))
