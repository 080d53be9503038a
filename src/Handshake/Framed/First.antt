-- ===== src/Handshake/Framed/First.antt =====
-- The first poll of the stream of bip_handshake/src/bittorrent/framed.rs, which reads the length first.
use rust_bt.Base.{
  length-replicate, ◌⊎◌, ℕ, suc, ◌+◌, ◌-◌, ◌≤◌, ◌<◌, ◌≡◌, refl, sym, ap, ◌∙◌, subst, [], ◌∷◌, ◌++◌,
  inl, inr, Bytes, length, take, drop, replicate, length-drop, length-append, arith,
}
use rust_bt.Wire.{Nom}
use rust_bt.Handshake.Message.{
  HandshakeMessage, protocol_len, write_message, write_len_with_protocol_len,
}
use rust_bt.Handshake.Message.RoundTrip.{IsMessage, length-write_message}
use rust_bt.Handshake.Framed.{
  ReadResult, ready, not_ready, failed, Socket, length_of, FramedHandshake, new, pending, again,
  after_length, poll_round, Outcome, poll,
}
use rust_bt.Handshake.Framed.Reading.{
  IsStream, split_front, poll-again, poll-return, expected, Result, Result-later, ReadsOn,
  poll-reading,
}

module _ ⦃nom : Nom⦄ (socket : Socket) where
  open socket use {State, read_buf}

  module _ (is_stream : IsStream socket) (m : HandshakeMessage) (wf : IsMessage m)
      (rest : Bytes) where
    open is_stream use {stream, waits}

    abbrev written : Bytes
    written = write_message m

    abbrev ResultOf : State → Outcome socket → Type 0
    ResultOf = Result socket is_stream m wf rest

    written_some : 0 < length written
    unfolding write_len_with_protocol_len
    written_some = omega (arith, expected socket is_stream m wf rest)

    abbrev first_frame : ℕ → ℕ → FramedHandshake
    first_frame b len = record {
      read_buffer = b ∷ replicate (write_len_with_protocol_len len - 1) 0;
      read_pos = 1;
      state = length_of len;
    }

    -- The first byte is the length of the protocol, from which the rest of the buffer is made.
    after_first :
        (rounds b : ℕ) (s s' : State)
        → stream s ≡ written ++ rest
        → length written ≤ rounds
        → read_buf 1 s ≡ (ready (b ∷ []), s')
        → ResultOf s (poll socket (suc rounds) new s)
    unfolding new poll_round after_length ReadsOn
    after_first rounds b s s' comes enough e =
        let to_come : length (stream s) ≡ length written + length rest =
          ap length comes ∙ length-append written rest in
        let (some_read, fits, same, less) =
          is_stream.ready-stream 1 s s' (b ∷ []) e (omega arith) (omega (arith, written_some)) in
        let (front, back) =
          split_front (b ∷ []) (stream s') written rest (sym same ∙ comes) written_some in
        let len = protocol_len m.prot in
        let byte : b ∷ [] ≡ len ∷ [] = ap (take 1) (sym front) ∙ (length-write_message m wf).2 in
        let b_len : b ≡ len = cc in
        let pad = replicate (write_len_with_protocol_len len - 1) 0 in
        let frame = ap (first_frame b) b_len in
        let round =
          ap (λ (o : ReadResult × State). (after_length new o.0, o.1)) e
          ∙ ap (λ (f : FramedHandshake). (again f, s')) frame in
        let room : length pad ≡ length (drop 1 written) = omega (
          arith,
          length-replicate {A = ℕ} (write_len_with_protocol_len len - 1) 0,
          expected socket is_stream m wf rest,
          length-drop 1 written,
        ) in
        let behind =
          poll-reading socket is_stream m wf rest rounds (b ∷ []) (drop 1 written) pad s' front room
            back (omega (arith, length-drop 1 written, written_some)) in
        subst (ResultOf s) (sym (poll-again socket rounds new _ s s' round))
          (Result-later socket is_stream m wf rest s s' _ less behind)

    unfoldable pub Waits : ℕ → State → Type 0
    Waits rounds s =
        (s' : State) × (poll socket (suc rounds) new s ≡ (pending, new, s'))
        × (stream s' ≡ stream s)
        × (waits s' < waits s)

    pub first :
        (rounds : ℕ) (s : State) (r : ReadResult) (s' : State)
        → stream s ≡ written ++ rest
        → length written ≤ rounds
        → read_buf 1 s ≡ (r, s')
        → ResultOf s (poll socket (suc rounds) new s) ⊎ Waits rounds s
    unfolding new poll_round after_length Waits
    first rounds s not_ready s' comes enough e =
        let (same, less) = is_stream.not_ready-stream 1 s s' e in
        inr (s', poll-return socket rounds new new s s' pending (rw e refl), same, less)
    first rounds s (ready (b ∷ [])) s' comes enough e =
        inl (after_first rounds b s s' comes enough e)
    first rounds s failed s' comes enough e =
        let to_come = ap length comes ∙ length-append written rest in
        absurd
          (is_stream.failed-stream 1 s s' e (omega arith) (omega (arith, to_come, written_some)))
    first rounds s (ready []) s' comes enough e =
        let to_come = ap length comes ∙ length-append written rest in
        let (some_read, fits, _, _) =
          is_stream.ready-stream 1 s s' [] e (omega arith) (omega (arith, to_come, written_some)) in
        absurd (omega arith)
    first rounds s (ready (a ∷ b ∷ xs)) s' comes enough e =
        let to_come = ap length comes ∙ length-append written rest in
        let (some_read, fits, _, _) =
          is_stream.ready-stream 1 s s' (a ∷ b ∷ xs) e (omega arith)
            (omega (arith, to_come, written_some)) in
        absurd (omega arith)
