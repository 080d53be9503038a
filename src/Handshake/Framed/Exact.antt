-- ===== src/Handshake/Framed/Exact.antt =====
-- Polled again whenever it is not ready, the stream of bip_handshake/src/bittorrent/framed.rs yields the
-- message that a peer wrote, and leaves the peer's next bytes in the socket.
use rust_bt.Base.{
  length-append, ℕ, zero, suc, ◌<◌, ◌≡◌, refl, sym, ap, ◌∙◌, subst, ◌++◌, inl, inr, Bytes, length,
  arith,
}
use rust_bt.Wire.{Nom}
use rust_bt.Handshake.Message.{HandshakeMessage, write_message}
use rust_bt.Handshake.Message.RoundTrip.{IsMessage}
use rust_bt.Handshake.Framed.{
  Socket, FramedHandshake, new, message, ended, pending, failure, panic, Outcome, poll,
}
use rust_bt.Handshake.Framed.Reading.{
  IsStream, Result, delivered, paused, IsReading, ReadsOn, poll-reading,
}
use rust_bt.Handshake.Framed.First.{first, Waits}

module _ ⦃nom : Nom⦄ (socket : Socket) where
  open socket use {State}

  abbrev pub continue_with :
      Outcome socket → (FramedHandshake → State → Outcome socket) → Outcome socket
  continue_with (pending, frame, sock) next = next frame sock
  continue_with (message m, frame, sock) next = (message m, frame, sock)
  continue_with (ended, frame, sock) next = (ended, frame, sock)
  continue_with (failure, frame, sock) next = (failure, frame, sock)
  continue_with (panic, frame, sock) next = (panic, frame, sock)

  -- The stream is polled again after each time that it was not ready, at most so many times, each in so
  -- many rounds.
  abbrev pub poll_until : ℕ → ℕ → FramedHandshake → State → Outcome socket
  poll_until rounds zero frame sock = (pending, frame, sock)
  poll_until rounds (suc polls) frame sock =
      continue_with (poll socket rounds frame sock) (poll_until rounds polls)

  module _ (is_stream : IsStream socket) (m : HandshakeMessage) (wf : IsMessage m)
      (rest : Bytes) where
    open is_stream use {stream, waits}

    abbrev Delivered : Outcome socket → Type 0
    Delivered o =
        (frame : FramedHandshake) × (s' : State) × (o ≡ (message m, frame, s')) × (stream s' ≡ rest)

    Next : ℕ → ℕ → Type 0
    Next rounds polls =
        (f : FramedHandshake) (s : State)
        → IsReading socket is_stream m wf rest f s
        → waits s < polls
        → Delivered (poll_until rounds polls f s)

    until_result :
        (rounds polls : ℕ) (s : State) (o : Outcome socket)
        → Result socket is_stream m wf rest s o
        → Next rounds polls
        → waits s < suc polls
        → Delivered (continue_with o (poll_until rounds polls))
    unfolding Next
    until_result rounds polls s o (delivered g t e) next k = (g, t, refl, e)
    until_result rounds polls s o (paused g t r w) next k = next g t r (omega arith)

    until_reading : (rounds polls : ℕ) → length (write_message m) < rounds → Next rounds polls
    unfolding Next ReadsOn
    until_reading rounds zero h f s r k = absurd (omega arith)
    until_reading rounds (suc polls) h f s r k =
        let size = ap length r.splits ∙ length-append r.read r.left in
        let polled =
          poll-reading socket is_stream m wf rest rounds r.read r.left r.pad s r.splits r.room
            r.comes (omega arith) in
        let of_frame =
          subst
            (λ (g : FramedHandshake). Result socket is_stream m wf rest s (poll socket rounds g s))
            (sym r.frame) polled in
        until_result rounds polls s (poll socket rounds f s) of_frame (until_reading rounds polls h)
          k

    -- From a fresh stream, whose socket delivers the bytes of a message and then others in pieces of
    -- any size and without an error, a client that polls once more than the socket is not ready gets the message, and the
    -- socket still has exactly the other bytes. The message has 8 bytes of extensions, 20 of its hash and
    -- of its id each, and the protocol of BitTorrent or one of at most 255 other bytes.
    pub poll_until-write_message :
        (rounds polls : ℕ) (s : State)
        → stream s ≡ write_message m ++ rest
        → suc (length (write_message m)) < rounds
        → waits s < polls
        → Delivered (poll_until rounds polls new s)
    unfolding Waits
    poll_until-write_message zero polls s comes h k = absurd (omega arith)
    poll_until-write_message (suc rounds) zero s comes h k = absurd (omega arith)
    poll_until-write_message (suc rounds) (suc polls) s comes h k =
        let (r, s') = socket.read_buf 1 s in
        elim (first socket is_stream m wf rest rounds s r s' comes (omega arith) refl) [
          | inl polled ↦
              until_result (suc rounds) polls s (poll socket (suc rounds) new s) polled
                (until_reading (suc rounds) polls (omega arith)) k
          | inr waited ↦
              let (t, e, same, less) = waited in
              subst
                (λ (o : Outcome socket).
                  Delivered (continue_with o (poll_until (suc rounds) polls)))
                (sym e)
                (poll_until-write_message (suc rounds) polls t (same ∙ comes) h (omega arith))
        ]
