-- ===== src/Handshake/Framed.antt =====
-- bip_handshake/src/bittorrent/framed.rs: a handshake message is read from a socket, which is not part
-- of this repository, without reading a byte more.
pub mod Reading
pub mod First
pub mod Exact
use rust_bt.Base.{
  ℕ, zero, suc, ◌+◌, ◌-◌, [], ◌∷◌, ◌++◌, Bytes, length, take, drop, replicate, ◌==◌, if◌then◌else◌,
}
use rust_bt.Wire.{IResult, done, error, incomplete, Nom}
use rust_bt.Handshake.Message.{HandshakeMessage, parse_handshake, write_len_with_protocol_len}

-- What a read returns: the bytes that it puts at the start of the buffer, or an error.
pub data ReadResult : Type 0 where
  ready : Bytes → ReadResult
  not_ready : ReadResult
  failed : ReadResult

-- `read_buf`, given the room in the buffer.
pub record Socket : Type 1 where
  pub State : Type 0
  pub read_buf : ℕ → State → ReadResult × State

pub data HandshakeState : Type 0 where
  waiting : HandshakeState
  length_of : ℕ → HandshakeState
  finished : HandshakeState

-- The fields that reading uses.
pub record FramedHandshake : Type 0 where
  pub read_buffer : Bytes
  pub read_pos : ℕ
  pub state : HandshakeState

unfoldable pub new : FramedHandshake
new = record { read_buffer = 0 ∷ []; read_pos = 0; state = waiting }

-- `Ready(Some(message))`, `Ready(None)`, `NotReady`, an error, and a panic.
pub data Polled : Type 0 where
  message : HandshakeMessage → Polled
  ended : Polled
  pending : Polled
  failure : Polled
  panic : Polled

-- The loop goes round again, or returns.
pub data Round : Type 0 where
  again : FramedHandshake → Round
  return : Polled → FramedHandshake → Round

module _ ⦃nom : Nom⦄ where
  unfoldable pub after_length : FramedHandshake → ReadResult → Round
  unfolding write_len_with_protocol_len
  after_length frame (ready []) = return ended frame
  after_length frame (ready (length ∷ [])) = again (record {
    read_buffer = length ∷ replicate (write_len_with_protocol_len length - 1) 0;
    read_pos = 1;
    state = length_of length;
  })
  after_length frame (ready (a ∷ b ∷ bs)) = return panic frame
  after_length frame not_ready = return pending frame
  after_length frame failed = return failure frame

  unfoldable pub after_bytes : FramedHandshake → ReadResult → Round
  after_bytes frame (ready []) = return ended frame
  after_bytes frame (ready (b ∷ bs)) =
      let read = b ∷ bs in
      again (record frame {
        read_buffer =
            take frame.read_pos frame.read_buffer
            ++ (read ++ drop (frame.read_pos + length read) frame.read_buffer);
        read_pos = frame.read_pos + length read;
      })
  after_bytes frame not_ready = return pending frame
  after_bytes frame failed = return failure frame

  unfoldable pub after_parse : FramedHandshake → IResult HandshakeMessage → Round
  after_parse frame (done _ m) = return (message m) (record frame { state = finished })
  after_parse frame (incomplete _) = return panic frame
  after_parse frame (error _) = return failure frame

  module _ (socket : Socket) where
    open socket use {State, read_buf}

    unfoldable pub poll_round : FramedHandshake → HandshakeState → State → Round × State
    unfolding after_length after_bytes after_parse
    poll_round frame waiting sock =
        let (r, sock') = read_buf (length frame.read_buffer) sock in (after_length frame r, sock')
    poll_round frame (length_of len) sock =
        let (r, sock') = read_buf (length frame.read_buffer - frame.read_pos) sock in
        if frame.read_pos == write_len_with_protocol_len len
        then (after_parse frame (parse_handshake frame.read_buffer), sock)
        else (after_bytes frame r, sock')
    poll_round frame finished sock = (return ended frame, sock)

    abbrev pub Outcome : Type 0
    Outcome = Polled × FramedHandshake × State

    unfoldable pub next_round : Round × State → (FramedHandshake → State → Outcome) → Outcome
    next_round (again frame, sock) next = next frame sock
    next_round (return polled frame, sock) next = (polled, frame, sock)

    -- Each round that goes round again reads a byte at least, so that one more round than the message
    -- has bytes, and one for the parse, are enough, and the clause for no round is never met.
    unfoldable pub poll : ℕ → FramedHandshake → State → Outcome
    unfolding next_round
    poll zero frame sock = (panic, frame, sock)
    poll (suc rounds) frame sock = next_round (poll_round frame frame.state sock) (poll rounds)
