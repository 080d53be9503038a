-- ===== src/Handshake/Framed/Reading.antt =====
-- The stream of bip_handshake/src/bittorrent/framed.rs takes the message's bytes and no others.
use rust_bt.Base.{
  drop-drop, ℕ, zero, suc, ◌+◌, ◌-◌, ◌≤◌, ◌<◌, ◌≡◌, refl, sym, ap, ◌∙◌, subst, [], ◌∷◌, ◌++◌,
  append_assoc, append-nil, true, false, Bytes, length, take, drop, ◌==◌, take-append, drop-append,
  length-drop, length-append, arith,
}
use rust_bt.Wire.{done, Nom}
use rust_bt.Wire.Reads.{Reads-Ends}
use rust_bt.Handshake.Message.{
  HandshakeMessage, protocol_len, write_message, write_len_with_protocol_len, parse_handshake,
}
use rust_bt.Handshake.Message.RoundTrip.{
  IsMessage, parse_handshake-write_message, length-write_message,
}
use rust_bt.Handshake.Framed.{
  ReadResult, ready, not_ready, failed, Socket, length_of, finished, FramedHandshake, new, Polled,
  message, pending, Round, again, return, after_bytes, after_parse, poll_round, Outcome, poll,
}

-- A socket that delivers a stream of bytes: while some are to come, a read with room returns one at
-- least and no more than there is room for, or is not ready, which happens only so many times more.
pub record IsStream (socket : Socket) : Type 0 where
  pub stream : socket.State → Bytes
  pub waits : socket.State → ℕ
  pub ready-stream :
      (n : ℕ) (s s' : socket.State) (xs : Bytes)
      → socket.read_buf n s ≡ (ready xs, s')
      → 0 < n
      → 0 < length (stream s)
      → (0 < length xs) × (length xs ≤ n) × (stream s ≡ xs ++ stream s') × (waits s' ≤ waits s)
  pub not_ready-stream :
      (n : ℕ) (s s' : socket.State)
      → socket.read_buf n s ≡ (not_ready, s')
      → (stream s' ≡ stream s) × (waits s' < waits s)
  pub failed-stream :
      (n : ℕ) (s s' : socket.State)
      → socket.read_buf n s ≡ (failed, s')
      → 0 < n
      → 0 < length (stream s)
      → ⊥

length-zero : (xs : Bytes) → length xs ≡ 0 → xs ≡ []
length-zero [] h = refl
length-zero (x ∷ xs) h = absurd (omega arith)

-- Of two ways to split the same bytes, the shorter front is the start of the longer one.
pub split_front :
    (xs ys left rest : Bytes)
    → xs ++ ys ≡ left ++ rest
    → length xs ≤ length left
    → (left ≡ xs ++ drop (length xs) left) × (ys ≡ drop (length xs) left ++ rest)
split_front [] ys left rest e h = (refl, e)
split_front (x ∷ xs) ys [] rest e h = absurd (omega arith)
split_front (x ∷ xs) ys (l ∷ left) rest e h =
    let (front, back) = split_front xs ys left rest (ap (drop 1) e) (omega arith) in (cc, back)

module _ ⦃nom : Nom⦄ (socket : Socket) where
  open socket use {State, read_buf}

  pub poll-again :
      (rounds : ℕ) (f f' : FramedHandshake) (s s' : State)
      → poll_round socket f f.state s ≡ (again f', s')
      → poll socket (suc rounds) f s ≡ poll socket rounds f' s'
  unfolding poll
  poll-again rounds f f' s s' e = rw e refl

  pub poll-return :
      (rounds : ℕ) (f f' : FramedHandshake) (s s' : State) (p : Polled)
      → poll_round socket f f.state s ≡ (return p f', s')
      → poll socket (suc rounds) f s ≡ (p, f', s')
  unfolding poll
  poll-return rounds f f' s s' p e = rw e refl

  module _ (is_stream : IsStream socket) (m : HandshakeMessage) (wf : IsMessage m)
      (rest : Bytes) where
    open is_stream use {stream, waits}

    abbrev pub written : Bytes
    written = write_message m

    abbrev pub frame_at : Bytes → Bytes → FramedHandshake
    frame_at read pad = record {
      read_buffer = read ++ pad;
      read_pos = length read;
      state = length_of (protocol_len m.prot);
    }

    -- What was read, what is left, and the rest of the buffer.
    pub record IsReading (f : FramedHandshake) (s : State) : Type 0 where
      pub read : Bytes
      pub left : Bytes
      pub pad : Bytes
      pub splits : written ≡ read ++ left
      pub room : length pad ≡ length left
      pub frame : f ≡ frame_at read pad
      pub comes : stream s ≡ left ++ rest

    pub expected : write_len_with_protocol_len (protocol_len m.prot) ≡ length written
    expected = let (a, b, c) = length-write_message m wf in sym (a ∙ b)

    round-full :
        (read pad : Bytes) (s : State)
        → written ≡ read
        → pad ≡ []
        → poll_round socket (frame_at read pad) (length_of (protocol_len m.prot)) s
          ≡ (return (message m) (record (frame_at read pad) { state = finished }), s)
    unfolding poll_round after_parse
    round-full read pad s e p =
        let full : (length read == write_len_with_protocol_len (protocol_len m.prot)) ≡ true =
          ground (arith, expected, ap length e) in
        let parsed : parse_handshake (read ++ pad) ≡ done [] m =
          rw (p, append-nil, ← e) (Reads-Ends (parse_handshake-write_message m wf)).ends in
        rw full (rw parsed refl)

    pub data Result (s : State) : Outcome socket → Type 0 where
      delivered :
          (f : FramedHandshake) (s' : State) → stream s' ≡ rest → Result s (message m, f, s')
      paused :
          (f : FramedHandshake) (s' : State)
          → IsReading f s'
          → waits s' < waits s
          → Result s (pending, f, s')

    pub Result-later :
        (s s' : State) (o : Outcome socket) → waits s' ≤ waits s → Result s' o → Result s o
    Result-later s s' o h (delivered f t e) = delivered f t e
    Result-later s s' o h (paused f t r w) = paused f t r (omega arith)

    not_full :
        (read pad : Bytes) (f : FramedHandshake) (s : State) (r : ReadResult) (s' : State)
        → length read < length written
        → read_buf (length (read ++ pad) - length read) s ≡ (r, s')
        → poll_round socket (frame_at read pad) (length_of (protocol_len m.prot)) s
          ≡ (after_bytes (frame_at read pad) r, s')
    unfolding poll_round
    not_full read pad f s r s' short e =
        let more : (length read == write_len_with_protocol_len (protocol_len m.prot)) ≡ false =
          ground (arith, expected) in
        rw more (rw e refl)

    next_frame :
        (read piece pad : Bytes)
        → (record (frame_at read pad) {
          read_buffer =
              take (length read) (read ++ pad)
              ++ (piece ++ drop (length read + length piece) (read ++ pad));
          read_pos = length read + length piece;
        })
          ≡ frame_at (read ++ piece) (drop (length piece) pad)
    next_frame read piece pad =
        let behind : drop (length read + length piece) (read ++ pad) ≡ drop (length piece) pad =
          sym (drop-drop (length read) (length piece) (read ++ pad))
          ∙ ap (drop (length piece)) (drop-append read pad) in
        rw (take-append read pad, behind, length-append read piece)
          (rw (append_assoc read piece (drop (length piece) pad)) refl)

    after_bytes-again :
        (f : FramedHandshake) (xs : Bytes)
        → 0 < length xs
        → after_bytes f (ready xs)
          ≡ again (record f {
            read_buffer =
                take f.read_pos f.read_buffer
                ++ (xs ++ drop (f.read_pos + length xs) f.read_buffer);
            read_pos = f.read_pos + length xs;
          })
    unfolding after_bytes
    after_bytes-again f [] h = absurd (omega arith)
    after_bytes-again f (x ∷ xs) h = refl

    unfoldable pub ReadsOn : ℕ → Type 0
    ReadsOn rounds =
        (read left pad : Bytes) (s : State)
        → written ≡ read ++ left
        → length pad ≡ length left
        → stream s ≡ left ++ rest
        → length left < rounds
        → Result s (poll socket rounds (frame_at read pad) s)

    -- One round, given what the socket returns, and what the rounds behind it do.
    after_read :
        (rounds : ℕ)
        → ReadsOn rounds
        → (read left pad : Bytes) (s : State) (r : ReadResult) (s' : State) → written ≡ read ++ left
        → length pad ≡ length left
        → stream s ≡ left ++ rest
        → 0 < length left
        → length left < suc rounds
        → read_buf (length (read ++ pad) - length read) s ≡ (r, s')
        → Result s (poll socket (suc rounds) (frame_at read pad) s)
    unfolding ReadsOn after_bytes
    after_read rounds on read left pad s (ready xs) s' splits room comes some_left enough e =
        let n = length (read ++ pad) - length read in
        let size : n ≡ length pad = omega (arith, length-append read pad) in
        let all : length written ≡ length read + length left =
          ap length splits ∙ length-append read left in
        let to_come : length (stream s) ≡ length left + length rest =
          ap length comes ∙ length-append left rest in
        let (some_read, fits, same, less) =
          is_stream.ready-stream n s s' xs e (omega arith) (omega arith) in
        let (front, back) = split_front xs (stream s') left rest (sym same ∙ comes) (omega arith) in
        let round = not_full read pad new s (ready xs) s' (omega arith) e in
        let left' = drop (length xs) left in
        let pad' = drop (length xs) pad in
        let splits' : written ≡ (read ++ xs) ++ left' =
          splits ∙ ap (λ (t : Bytes). read ++ t) front ∙ sym (append_assoc read xs left') in
        let behind =
          on (read ++ xs) left' pad' s' splits'
            (omega (arith, length-drop (length xs) left, length-drop (length xs) pad)) back
            (omega (arith, length-drop (length xs) left)) in
        let went : after_bytes (frame_at read pad) (ready xs) ≡ again (frame_at (read ++ xs) pad') =
          after_bytes-again (frame_at read pad) xs some_read ∙ ap again (next_frame read xs pad) in
        let again_round = round ∙ ap (λ (o : Round). (o, s')) went in
        subst (Result s) (sym (poll-again rounds (frame_at read pad) _ s s' again_round))
          (Result-later s s' _ less behind)
    after_read rounds on read left pad s not_ready s' splits room comes some_left enough e =
        let all : length written ≡ length read + length left =
          ap length splits ∙ length-append read left in
        let round = not_full read pad new s not_ready s' (omega arith) e in
        let (same, less) = is_stream.not_ready-stream _ s s' e in
        let reading : IsReading (frame_at read pad) s' = record {
          read = read;
          left = left;
          pad = pad;
          splits = splits;
          room = room;
          frame = refl;
          comes = same ∙ comes;
        } in
        subst (Result s) (sym (poll-return rounds (frame_at read pad) _ s s' pending round))
          (paused (frame_at read pad) s' reading less)
    after_read rounds on read left pad s failed s' splits room comes some_left enough e =
        let size : length (read ++ pad) - length read ≡ length pad =
          omega (arith, length-append read pad) in
        let to_come : length (stream s) ≡ length left + length rest =
          ap length comes ∙ length-append left rest in
        absurd (is_stream.failed-stream _ s s' e (omega arith) (omega arith))

    pub poll-reading : (rounds : ℕ) → ReadsOn rounds
    unfolding ReadsOn
    poll-reading zero read left pad s splits room comes enough = absurd (omega arith)
    poll-reading (suc rounds) read [] pad s splits room comes enough =
        let round = round-full read pad s (splits ∙ append-nil read) (length-zero pad room) in
        subst (Result s) (sym (poll-return rounds (frame_at read pad) _ s s (message m) round))
          (delivered _ s comes)
    poll-reading (suc rounds) read (l ∷ left) pad s splits room comes enough =
        let (r, s') = read_buf (length (read ++ pad) - length read) s in
        after_read rounds (poll-reading rounds) read (l ∷ left) pad s r s' splits room comes
          (omega arith) enough refl
