-- ===== src/Tests/Handshake.antt =====
-- bip_handshake: a message that arrives in pieces.
use rust_bt.Base.{
  ℕ, suc, ◌≤◌, ◌<◌, ◌≡◌, refl, sym, ap, ◌∙◌, List, [], ◌∷◌, ◌++◌, append_assoc, Bool-cases, inl,
  inr, Bytes, length, take, drop, replicate, ltb, if◌then◌else◌, length-take, length-drop,
  take-append-drop, take_all, arith,
}
use rust_bt.Wire.Reads.{Reads}
use rust_bt.Handshake.Message.{
  HandshakeMessage, bit_torrent, write_message, parse_handshake, write_protocol,
}
use rust_bt.Handshake.Message.RoundTrip.{IsMessage, parse_handshake-write_message}
use rust_bt.Handshake.Framed.{
  ReadResult, ready, not_ready, failed, Socket, FramedHandshake, new, message,
}
use rust_bt.Handshake.Framed.Reading.{IsStream}
use rust_bt.Handshake.Framed.Exact.{poll_until, poll_until-write_message}
use rust_bt.Tests.Wire.{nom}

-- The pieces that arrive; an empty one stands for a read that is not ready.
abbrev Pieces : Type 0
Pieces = List Bytes

abbrev rest_of : ℕ → Bytes → Pieces → Pieces
rest_of n xs pieces = if ltb n (length xs) then drop n xs ∷ pieces else pieces

abbrev read_pieces : ℕ → Pieces → ReadResult × Pieces
read_pieces n [] = (ready [], [])
read_pieces n ([] ∷ pieces) = (not_ready, pieces)
read_pieces n ((x ∷ xs) ∷ pieces) = (ready (take n (x ∷ xs)), rest_of n (x ∷ xs) pieces)

abbrev socket : Socket
socket = record { State = Pieces; read_buf = read_pieces }

abbrev joined : Pieces → Bytes
joined [] = []
joined (xs ∷ pieces) = xs ++ joined pieces

abbrev count_empty : Pieces → ℕ
count_empty [] = 0
count_empty ([] ∷ pieces) = suc (count_empty pieces)
count_empty ((x ∷ xs) ∷ pieces) = count_empty pieces

count_empty-some :
    (ys : Bytes) (pieces : Pieces) → 0 < length ys → count_empty (ys ∷ pieces) ≡ count_empty pieces
count_empty-some [] pieces h = absurd (omega arith)
count_empty-some (y ∷ ys) pieces h = refl

rest_of-joined :
    (n : ℕ) (xs : Bytes) (pieces : Pieces)
    → (xs ++ joined pieces ≡ take n xs ++ joined (rest_of n xs pieces))
      × (count_empty (rest_of n xs pieces) ≤ count_empty pieces)
rest_of-joined n xs pieces = elim (Bool-cases (ltb n (length xs))) [
  | inl more ↦
      let some_left : 0 < length (drop n xs) = ground (arith, length-drop n xs) in
      let count = count_empty-some (drop n xs) pieces some_left in
      let parts =
        ap (λ (t : Bytes). t ++ joined pieces) (sym (take-append-drop n xs))
        ∙ append_assoc (take n xs) (drop n xs) (joined pieces) in
      rw more (parts, omega (arith, count))
  | inr all ↦
      let whole = take_all n xs (ground arith) in
      rw all (ap (λ (t : Bytes). t ++ joined pieces) (sym whole), omega arith)
]

ready_pieces :
    (n : ℕ) (s s' : Pieces) (ys : Bytes)
    → read_pieces n s ≡ (ready ys, s')
    → 0 < n
    → 0 < length (joined s)
    → (0 < length ys)
      × (length ys ≤ n)
      × (joined s ≡ ys ++ joined s')
      × (count_empty s' ≤ count_empty s)
ready_pieces n [] s' ys e h k = absurd (omega arith)
ready_pieces n ([] ∷ pieces) s' ys e h k = let clash : ⊥ = cc in absurd clash
ready_pieces n ((x ∷ xs) ∷ pieces) s' ys e h k =
    let read : take n (x ∷ xs) ≡ ys = cc in
    let left : rest_of n (x ∷ xs) pieces ≡ s' = cc in
    let (parts, fewer) = rest_of-joined n (x ∷ xs) pieces in
    let size = length-take n (x ∷ xs) in
    rw (← read, ← left) (omega (arith, size), omega (arith, size), parts, fewer)

not_ready_pieces :
    (n : ℕ) (s s' : Pieces)
    → read_pieces n s ≡ (not_ready, s')
    → (joined s' ≡ joined s) × (count_empty s' < count_empty s)
not_ready_pieces n [] s' e = let clash : ⊥ = cc in absurd clash
not_ready_pieces n ([] ∷ pieces) s' e =
    let left : pieces ≡ s' = cc in rw (← left) (refl, omega arith)
not_ready_pieces n ((x ∷ xs) ∷ pieces) s' e = let clash : ⊥ = cc in absurd clash

failed_pieces : (n : ℕ) (s s' : Pieces) → read_pieces n s ≡ (failed, s') → ⊥
failed_pieces n [] s' e = cc
failed_pieces n ([] ∷ pieces) s' e = cc
failed_pieces n ((x ∷ xs) ∷ pieces) s' e = cc

abbrev joined-IsStream : IsStream socket
joined-IsStream = record {
  stream = joined;
  waits = count_empty;
  ready-stream = ready_pieces;
  not_ready-stream = not_ready_pieces;
  failed-stream = λ n s s' e h k. failed_pieces n s s' e;
}

abbrev hello : HandshakeMessage
hello = record {
  prot = bit_torrent;
  ext = record { bytes = 0 ∷ 0 ∷ 0 ∷ 0 ∷ 0 ∷ 16 ∷ 0 ∷ 0 ∷ [] };
  hash = replicate 20 7;
  pid = replicate 20 9;
}

hello-IsMessage : IsMessage hello
hello-IsMessage = record { protocol = tt; extensions = refl; hash = refl; pid = refl }

parse_handshake-write_message_example : Reads parse_handshake (write_message hello) hello
parse_handshake-write_message_example = parse_handshake-write_message hello hello-IsMessage

-- ten bytes, a read that is not ready, the other bytes, and two of what follows
abbrev arriving : Pieces
arriving =
    take 10 (write_message hello) ∷ [] ∷ (drop 10 (write_message hello) ++ 1 ∷ []) ∷ (2 ∷ []) ∷ []

poll_until-write_message_example :
    (frame : FramedHandshake) × (s' : Pieces) × (poll_until socket 70 2 new arriving
      ≡ (message hello, frame, s'))
    × (joined s' ≡ 1 ∷ 2 ∷ [])
unfolding write_message write_protocol
poll_until-write_message_example =
    poll_until-write_message socket joined-IsStream hello hello-IsMessage (1 ∷ 2 ∷ []) 70 2 arriving
      refl (omega arith) (omega arith)
