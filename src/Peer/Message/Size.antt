-- ===== src/Peer/Message/Size.antt =====
-- A message of bip_peer/src/message/mod.rs is as long as it says, and as its first bytes say.
use rust_bt.Base.{
  subst, ℕ, ◌+◌, ◌%◌, ◌^◌, ◌<◌, ◌≡◌, refl, sym, ap, ◌∙◌, [], ◌++◌, append-nil, append_assoc, none,
  some, Bytes, length, length-append, arith,
}
use rust_bt.Wire.{Nom, Byteorder}
use rust_bt.Wire.Reads.{Reads-u32}
use rust_bt.Peer.{ok, PeerProtocol}
use rust_bt.Peer.Message.{
  ExtendedCodec, port, extended, keep_alive, choke, un_choke, interested, un_interested, have,
  bit_field, request, piece, cancel, bits_extension, prot_extension,
}
use rust_bt.Peer.Message.Standard.{
  write_length_id_pair, write_have, write_bit_field, write_request, write_piece, write_cancel,
  write_port,
}
use rust_bt.Peer.Message.Whole.{
  write_wire, write_bits_extension, Message, needed_of, bytes_needed, message_size, specific_len,
  bits_message_size,
}
use rust_bt.Peer.Message.Header.{framed, length-framed}
use rust_bt.Peer.Message.BuiltIn.{three}
use rust_bt.Peer.Message.RoundTrip.{IsStandard, bytes_of}

module _ ⦃order : Byteorder⦄ where
  length-write_u32 : (n : ℕ) → length (order.write_u32 n) ≡ 4
  length-write_u32 n = rw (order.write_u32-bytes n) refl

  length-write_u16 : (n : ℕ) → length (order.write_u16 n) ≡ 2
  length-write_u16 n = rw (order.write_u16-bytes n) refl

module _ ⦃nom : Nom⦄ ⦃order : Byteorder⦄ (codec : ExtendedCodec) (protocol : PeerProtocol) where
  open protocol use {State}

  -- A keep alive message, or one that is read back.
  abbrev pub IsSizable : Message codec protocol → Type 0
  IsSizable keep_alive = Unit {0}
  IsSizable choke = IsStandard codec protocol choke
  IsSizable un_choke = IsStandard codec protocol un_choke
  IsSizable interested = IsStandard codec protocol interested
  IsSizable un_interested = IsStandard codec protocol un_interested
  IsSizable (have m) = IsStandard codec protocol (have m)
  IsSizable (bit_field m) = IsStandard codec protocol (bit_field m)
  IsSizable (request m) = IsStandard codec protocol (request m)
  IsSizable (piece m) = IsStandard codec protocol (piece m)
  IsSizable (cancel m) = IsStandard codec protocol (cancel m)
  IsSizable (bits_extension (port m)) = IsStandard codec protocol (bits_extension (port m))
  IsSizable (bits_extension (extended m)) = IsStandard codec protocol (bits_extension (extended m))
  IsSizable (prot_extension m) = IsStandard codec protocol (prot_extension m)

  pub standard-IsSizable : (m : Message codec protocol) → IsStandard codec protocol m → IsSizable m
  standard-IsSizable keep_alive h = absurd h
  standard-IsSizable choke h = h
  standard-IsSizable un_choke h = h
  standard-IsSizable interested h = h
  standard-IsSizable un_interested h = h
  standard-IsSizable (have m) h = h
  standard-IsSizable (bit_field m) h = h
  standard-IsSizable (request m) h = h
  standard-IsSizable (piece m) h = h
  standard-IsSizable (cancel m) h = h
  standard-IsSizable (bits_extension (port m)) h = h
  standard-IsSizable (bits_extension (extended m)) h = h
  standard-IsSizable (prot_extension m) h = h

  length-three : (i o n : ℕ) → length (three i o n) ≡ 12
  length-three i o n =
      let a = length-write_u32 i in
      let b = length-write_u32 o in
      let c = length-write_u32 (n % 2 ^ 32) in
      omega (
        arith,
        a,
        b,
        c,
        length-append (order.write_u32 o) (order.write_u32 (n % 2 ^ 32)),
        length-append (order.write_u32 i) (order.write_u32 o ++ order.write_u32 (n % 2 ^ 32)),
      )

  -- What is said of a message's bytes: their number, and what the first four say.
  abbrev Sized : ℕ → Bytes → Type 0
  Sized size bytes =
      (size ≡ length bytes)
      × ((rest : Bytes) → bytes_needed codec protocol (bytes ++ rest) ≡ ok (some (length bytes)))

  framed-Sized :
      (len id : ℕ) (body : Bytes)
      → len ≡ 1 + length body
      → len < 2 ^ 32
      → Sized (4 + len) (framed len id body)
  unfolding write_length_id_pair bytes_needed needed_of
  framed-Sized len id body e fits =
      let size : 4 + len ≡ length (framed len id body) = omega (arith, length-framed len id body) in
      (
        size,
        λ rest.
            let parts =
              append_assoc (order.write_u32 len ++ order.write_u8 id) body rest
              ∙ append_assoc (order.write_u32 len) (order.write_u8 id) (body ++ rest) in
            ap (λ r. ok (needed_of codec protocol r))
              (ap nom.be_u32 parts
                ∙ (Reads-u32 len fits).reads (order.write_u8 id ++ (body ++ rest)))
            ∙ ap (λ (n : ℕ). ok (some n)) size,
      )

  -- The id alone.
  simple-Sized : (id : ℕ) → Sized 5 (write_length_id_pair 1 (some id))
  simple-Sized id =
      subst (Sized 5) (append-nil (write_length_id_pair 1 (some id)))
        (framed-Sized 1 id [] refl (omega arith))

  keep_alive-Sized : Sized 4 (write_length_id_pair 0 none)
  unfolding write_length_id_pair bytes_needed needed_of
  keep_alive-Sized =
      let size = length-write_u32 0 in
      (
        sym size,
        λ rest.
            ap (λ r. ok (needed_of codec protocol r)) ((Reads-u32 0 (omega arith)).reads rest)
            ∙ ap (λ (n : ℕ). ok (some n)) (sym size),
      )

  wire-Sized :
      (m : Message codec protocol) (state : State)
      → IsSizable m
      → Sized (4 + (specific_len codec protocol m state).0) (bytes_of codec protocol m state)
  unfolding write_wire specific_len bits_message_size write_bits_extension write_have
      write_bit_field write_request write_piece write_cancel write_port
  wire-Sized keep_alive state h = keep_alive-Sized
  wire-Sized choke state h = simple-Sized 0
  wire-Sized un_choke state h = simple-Sized 1
  wire-Sized interested state h = simple-Sized 2
  wire-Sized un_interested state h = simple-Sized 3
  wire-Sized (have m) state h =
      let body = order.write_u32 m.piece_index in
      framed-Sized 5 4 body (omega (arith, length-write_u32 m.piece_index)) (omega arith)
  wire-Sized (bit_field m) state h =
      let len : (1 + length m.bytes) % 2 ^ 32 ≡ 1 + length m.bytes = omega arith in
      rw len (framed-Sized (1 + length m.bytes) 5 m.bytes refl h)
  wire-Sized (request m) state h =
      let size = length-three m.piece_index m.block_offset m.block_length in
      framed-Sized 13 6 (three m.piece_index m.block_offset m.block_length) (omega (arith, size))
        (omega arith)
  wire-Sized (piece m) state (h, k, l) =
      let len : (9 + length m.block) % 2 ^ 32 ≡ 9 + length m.block = omega arith in
      let offset = order.write_u32 m.block_offset in
      let index = order.write_u32 m.piece_index in
      let size : 9 + length m.block ≡ 1 + length (index ++ (offset ++ m.block)) = omega (
        arith,
        length-write_u32 m.piece_index,
        length-write_u32 m.block_offset,
        length-append index (offset ++ m.block),
        length-append offset m.block,
      ) in
      rw len (framed-Sized (9 + length m.block) 7 (index ++ (offset ++ m.block)) size l)
  wire-Sized (cancel m) state h =
      let size = length-three m.piece_index m.block_offset m.block_length in
      framed-Sized 13 8 (three m.piece_index m.block_offset m.block_length) (omega (arith, size))
        (omega arith)
  wire-Sized (bits_extension (port m)) state h =
      framed-Sized 3 9 (order.write_u16 m.port) (omega (arith, length-write_u16 m.port))
        (omega arith)
  wire-Sized (bits_extension (extended m)) state h = absurd h
  wire-Sized (prot_extension m) state h = absurd h

  state-kept :
      (m : Message codec protocol) (state : State)
      → IsSizable m
      → (specific_len codec protocol m state).1 ≡ state
  unfolding specific_len
  state-kept keep_alive state h = refl
  state-kept choke state h = refl
  state-kept un_choke state h = refl
  state-kept interested state h = refl
  state-kept un_interested state h = refl
  state-kept (have m) state h = refl
  state-kept (bit_field m) state h = refl
  state-kept (request m) state h = refl
  state-kept (piece m) state h = refl
  state-kept (cancel m) state h = refl
  state-kept (bits_extension m) state h = refl
  state-kept (prot_extension m) state h = absurd h

  -- A message of the standard protocol, or one with a port, whose numbers and lengths fit their widths
  -- takes as many bytes as its size says, and the framing asks for exactly these, whatever follows
  -- them.
  pub message_size-write_wire :
      (m : Message codec protocol) (state : State)
      → IsSizable m
      → (message_size codec protocol m state ≡ (length (bytes_of codec protocol m state), state))
        × ((rest : Bytes)
            → bytes_needed codec protocol (bytes_of codec protocol m state ++ rest)
              ≡ ok (some (length (bytes_of codec protocol m state))))
  unfolding message_size
  message_size-write_wire m state h =
      let sized = wire-Sized m state h in
      (
        ap (λ (n : ℕ). (n, (specific_len codec protocol m state).1)) sized.0
            ∙ ap (λ (s : State). (length (bytes_of codec protocol m state), s))
                (state-kept m state h),
        sized.1,
      )
