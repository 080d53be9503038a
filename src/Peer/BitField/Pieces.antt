-- ===== src/Peer/BitField/Pieces.antt =====
-- The iterator of bip_peer/src/message/standard.rs yields the pieces whose bits are set.
use rust_bt.Base.{
  ℕ, zero, suc, ◌+◌, ◌-◌, ◌*◌, ◌/◌, ◌%◌, ◌^◌, ◌≤◌, ◌<◌, ◌≡◌, refl, sym, ap, ◌∙◌, List, [], ◌∷◌,
  Bool, true, false, Option, none, some, Bytes, length, get_elem?, ◌==◌, if◌then◌else◌, Bool-cases,
  inl, inr, arith,
}
use rust_bt.Peer.Message.{HaveMessage, BitFieldMessage}
use rust_bt.Peer.BitField.{BitFieldIter, iter, next}

-- The bit that stands b bits behind a byte's highest one.
abbrev pub bit_of : ℕ → ℕ → Bool
bit_of byte b = byte / 2 ^ (7 - b) % 2 == 1

abbrev bit_in : Option ℕ → ℕ → Bool
bit_in none b = false
bit_in (some byte) b = bit_of byte b

abbrev pub is_set : Bytes → ℕ → Bool
is_set bytes i = bit_in (get_elem? bytes (i / 8)) (i % 8)

-- The pieces, from one on and for so many bits, whose bits are set.
abbrev pub pieces_from : Bytes → ℕ → ℕ → List HaveMessage
pieces_from bytes zero i = []
pieces_from bytes (suc n) i =
    let behind = pieces_from bytes n (suc i) in
    if is_set bytes i then record { piece_index = i } ∷ behind else behind

abbrev pub yield_next :
    Option HaveMessage × BitFieldIter → (BitFieldIter → List HaveMessage) → List HaveMessage
yield_next (none, it) rest = []
yield_next (some m, it) rest = m ∷ rest it

-- What the iterator yields until it ends, in at most so many calls, each with so many rounds.
abbrev pub collect : ℕ → ℕ → BitFieldIter → List HaveMessage
collect rounds zero it = []
collect rounds (suc calls) it = yield_next (next rounds it) (collect rounds calls)

shifted : (byte b : ℕ) → b < 8 → byte * 2 ^ b % 256 / 2 ^ 7 ≡ byte / 2 ^ (7 - b) % 2
shifted byte zero h = omega arith
shifted byte (suc zero) h = omega arith
shifted byte (suc (suc zero)) h = omega arith
shifted byte (suc (suc (suc zero))) h = omega arith
shifted byte (suc (suc (suc (suc zero)))) h = omega arith
shifted byte (suc (suc (suc (suc (suc zero))))) h = omega arith
shifted byte (suc (suc (suc (suc (suc (suc zero)))))) h = omega arith
shifted byte (suc (suc (suc (suc (suc (suc (suc zero))))))) h = omega arith
shifted byte (suc (suc (suc (suc (suc (suc (suc (suc b)))))))) h = absurd (omega arith)

get_elem?-past : (xs : Bytes) (i : ℕ) → length xs ≤ i → get_elem? xs i ≡ none
get_elem?-past [] i h = refl
get_elem?-past (x ∷ xs) zero h = absurd (omega arith)
get_elem?-past (x ∷ xs) (suc i) h = get_elem?-past xs i (omega arith)

get_elem?-within : (xs : Bytes) (i : ℕ) → i < length xs → (x : ℕ) × (get_elem? xs i ≡ some x)
get_elem?-within [] i h = absurd (omega arith)
get_elem?-within (x ∷ xs) zero h = (x, refl)
get_elem?-within (x ∷ xs) (suc i) h = get_elem?-within xs i (omega arith)

module _ (bytes : Bytes) where
  abbrev at : ℕ → BitFieldIter
  at i = record { bytes = bytes; cur_bit = i }

  next-end : (rounds i : ℕ) → 8 * length bytes ≤ i → next (suc rounds) (at i) ≡ (none, at i)
  unfolding next
  next-end rounds i h = rw (get_elem?-past bytes (i / 8) (omega arith)) refl

  next-set :
      (rounds i : ℕ)
      → i < 8 * length bytes
      → is_set bytes i ≡ true
      → next (suc rounds) (at i) ≡ (some (record { piece_index = i % 2 ^ 32 }), at (i + 1))
  unfolding next
  next-set rounds i h set =
      let (byte, e) = get_elem?-within bytes (i / 8) (omega arith) in
      let bit = ap (λ (n : ℕ). n == 1) (shifted byte (i % 8) (omega arith)) in
      let set' : bit_of byte (i % 8) ≡ true = rw e at set in rw e (rw (bit, set') refl)

  next-clear :
      (rounds i : ℕ)
      → i < 8 * length bytes
      → is_set bytes i ≡ false
      → next (suc rounds) (at i) ≡ next rounds (at (i + 1))
  unfolding next
  next-clear rounds i h clear =
      let (byte, e) = get_elem?-within bytes (i / 8) (omega arith) in
      let bit = ap (λ (n : ℕ). n == 1) (shifted byte (i % 8) (omega arith)) in
      let clear' : bit_of byte (i % 8) ≡ false = rw e at clear in rw e (rw (bit, clear') refl)

  -- Any number of rounds larger than that of the bits that are left will do.
  next-rounds :
      (n i r s : ℕ) → n + i ≡ 8 * length bytes → n < r → n < s → next r (at i) ≡ next s (at i)
  next-rounds n i zero s e h k = absurd (omega arith)
  next-rounds n i (suc r) zero e h k = absurd (omega arith)
  next-rounds zero i (suc r) (suc s) e h k =
      next-end r i (omega arith) ∙ sym (next-end s i (omega arith))
  next-rounds (suc n) i (suc r) (suc s) e h k = elim (Bool-cases (is_set bytes i)) [
    | inl set ↦ next-set r i (omega arith) set ∙ sym (next-set s i (omega arith) set)
    | inr clear ↦
        next-clear r i (omega arith) clear
        ∙ next-rounds n (i + 1) r s (omega arith) (omega arith) (omega arith)
        ∙ sym (next-clear s i (omega arith) clear)
  ]

  module _ (rounds : ℕ) (enough : 8 * length bytes < rounds)
      (short : 8 * length bytes ≤ 2 ^ 32) where
    collect-pieces :
        (n i calls : ℕ)
        → n + i ≡ 8 * length bytes
        → n < calls
        → collect rounds calls (at i) ≡ pieces_from bytes n i
    collect-pieces n i zero e h = absurd (omega arith)
    collect-pieces zero i (suc calls) e h =
        let same = next-rounds 0 i rounds 1 e (omega arith) (omega arith) in
        ap (λ r. yield_next r (collect rounds calls)) (same ∙ next-end 0 i (omega arith))
    collect-pieces (suc n) i (suc calls) e h =
        let same = next-rounds (suc n) i rounds (suc (suc n)) e (omega arith) (omega arith) in
        let index : i % 2 ^ 32 ≡ i = omega arith in
        let one : i + 1 ≡ suc i = omega arith in
        elim (Bool-cases (is_set bytes i)) [
          | inl set ↦
              let found = same ∙ next-set (suc n) i (omega arith) set in
              let rest = collect-pieces n (i + 1) calls (omega arith) (omega arith) in
              rw (found, set) (rw (index, rest, one) refl)
          | inr clear ↦
              let moved =
                same
                ∙ next-clear (suc n) i (omega arith) clear
                ∙ next-rounds n (i + 1) (suc n) rounds (omega arith) (omega arith) (omega arith) in
              rw clear (
                ap (λ r. yield_next r (collect rounds calls)) moved
                ∙ collect-pieces n (i + 1) (suc calls) (omega arith) (omega arith)
                ∙ ap (pieces_from bytes n) one)
        ]

-- For a bit field of at most 2^32 bits, with more rounds and more calls than it has bits, the iterator
-- yields exactly the pieces whose bits are set, the highest bit of a byte first, in their order, and
-- ends.
pub collect-iter :
    (message : BitFieldMessage) (rounds calls : ℕ)
    → 8 * length message.bytes ≤ 2 ^ 32
    → 8 * length message.bytes < rounds
    → 8 * length message.bytes < calls
    → collect rounds calls (iter message) ≡ pieces_from message.bytes (8 * length message.bytes) 0
unfolding iter
collect-iter message rounds calls short enough more =
    collect-pieces message.bytes rounds enough short (8 * length message.bytes) 0 calls
      (omega arith) more
