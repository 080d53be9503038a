-- ===== src/Bencode/Decode/Ensures.antt =====
-- What each reader of bip_bencode/src/reference/decode.rs ensures on any input, and how this goes
-- through a chain of them.
use Prim.Native.Nat.{max}
use rust_bt.Base.{
  ℕ, ◌≤◌, ◌<◌, ◌≡◌, refl, [], ◌∷◌, Bool, true, false, ◌&&◌, Option, none, some, Bytes, length,
  get_elem?, get_elem?-lt, get_or, take, drop, length-drop, ltb, ◌==◌, if◌then◌else◌, bytes_lt,
  Bool-cases, Option-cases, inl, inr, arith,
}
use rust_bt.Base.Int.{ℤ, pos, negsuc}
use rust_bt.Bencode.Value.{Entries, end, entry, BencodeRef, height, height_entries}
use rust_bt.Bencode.Decimal.{from_str_radix}
use rust_bt.Bencode.Decode.{
  BDecodeOpt, Result, ok, err, out_of_fuel, ◌>>=◌, peek_byte, position, check_int, convert_int,
  decode_int, take_bytes, decode_bytes, contains, insert, check_order, insert_vacant,
}

-- The run ends, and its value, if it has one, has the property.
abbrev pub Ensures : {A : Type 0} → (A → Type 0) → Result A → Type 0
Ensures P (ok a) = P a
Ensures P (err e) = Unit {0}
Ensures P out_of_fuel = ⊥

module _ {A B : Type 0} (P : A → Type 0) (Q : B → Type 0) where
  pub Ensures-bind :
      (r : Result A) (f : A → Result B)
      → Ensures P r
      → ((a : A) → P a → Ensures Q (f a))
      → Ensures Q (r >>= f)
  Ensures-bind (ok a) f h k = k a h
  Ensures-bind (err e) f h k = tt
  Ensures-bind out_of_fuel f h k = absurd h

module _ {A : Type 0} (P Q : A → Type 0) where
  pub Ensures-mono : (r : Result A) → Ensures P r → ((a : A) → P a → Q a) → Ensures Q r
  Ensures-mono (ok a) h k = k a h
  Ensures-mono (err e) h k = tt
  Ensures-mono out_of_fuel h k = absurd h

module _ {A : Type 0} (P : A → Type 0) where
  pub Ensures-if :
      (c : Bool) (r s : Result A)
      → (c ≡ true → Ensures P r)
      → (c ≡ false → Ensures P s)
      → Ensures P (if c then r else s)
  Ensures-if true r s h k = h refl
  Ensures-if false r s h k = k refl

  pub Ensures-peek :
      (input : Bytes) (at : ℕ) (f : ℕ → Result A)
      → (at < length input → (c : ℕ) → Ensures P (f c))
      → Ensures P (peek_byte input at >>= f)
  unfolding peek_byte
  Ensures-peek input at f h = elim (Option-cases (get_elem? input at)) [
    | inl e ↦ rw (e, peek_byte) tt
    | inr (c, e) ↦ rw (e, peek_byte) (h (get_elem?-lt input at e) c)
  ]

-- What was read from `at` ends behind it and within the input.
abbrev pub Advances : {A : Type 0} → Bytes → ℕ → A × ℕ → Type 0
Advances input at (a, next) = (at < next) × (next ≤ length input)

position-bound : (d : ℕ) (xs : Bytes) (i : ℕ) → position d xs ≡ some i → i < length xs
unfolding position
position-bound d [] i h = cc
position-bound d (x ∷ xs) i h = elim (Option-cases (position d xs)) [
  | inl none_there ↦ ground arith
  | inr (j, there) ↦ let below = position-bound d xs j there in ground arith
]

convert_int-Ensures :
    (P : ℤ → Type 0) (at : ℕ) (text : Bytes) → ((n : ℤ) → P n) → Ensures P (convert_int at text)
unfolding convert_int
convert_int-Ensures P at text h = elim (Option-cases (from_str_radix text)) [
  | inl e ↦ rw (e, convert_int) tt
  | inr (n, e) ↦ rw (e, convert_int) (h n)
]

check_int-Ensures : (at : ℕ) (text : Bytes) → Ensures (λ _. Unit {0}) (check_int at text)
unfolding check_int
check_int-Ensures at text =
    Ensures-if _ (ltb 1 (length text)) _ _
      (λ _.
        Ensures-if _ (get_or text 0 0 == b'-' && get_or text 1 0 == b'0') _ _ (λ _. tt)
          (λ _. Ensures-if _ (get_or text 0 0 == b'0') _ _ (λ _. tt) (λ _. tt)))
      (λ _. tt)

pub decode_int-Ensures :
    (input : Bytes) (at delim : ℕ) → Ensures (Advances input at) (decode_int input at delim)
unfolding decode_int
decode_int-Ensures input at delim = elim (Option-cases (position delim (drop at input))) [
  | inl e ↦ rw (e, decode_int) tt
  | inr (i, e) ↦
      let below = position-bound delim (drop at input) i e in
      let left = length-drop at input in
      let text = take i (drop at input) in
      rw (e, decode_int)
        (Ensures-bind (λ _. Unit {0}) (Advances input at) (check_int at text) _
          (check_int-Ensures at text)
          (λ _ _.
            Ensures-bind (λ _. Unit {0}) (Advances input at) (convert_int at text) _
              (convert_int-Ensures _ at text (λ _. tt)) (λ n _. (omega arith, omega arith))))
]

take_bytes-Ensures :
    (input : Bytes) (at start : ℕ) (n : ℤ)
    → at < start
    → start ≤ length input
    → Ensures (Advances input at) (take_bytes input at n start)
unfolding take_bytes
take_bytes-Ensures input at start (negsuc n) l u = tt
take_bytes-Ensures input at start (pos n) l u =
    let left = length-drop start input in
    Ensures-if (Advances input at) (ltb (length (drop start input)) n) _ _ (λ _. tt)
      (λ e. (omega arith, ground arith))

pub decode_bytes-Ensures :
    (input : Bytes) (at : ℕ) → Ensures (Advances input at) (decode_bytes input at)
unfolding decode_bytes
decode_bytes-Ensures input at =
    Ensures-bind (Advances input at) (Advances input at) (decode_int input at b':') _
      (decode_int-Ensures input at b':')
      (λ (n, start) (l, u). take_bytes-Ensures input at start n l u)

pub check_order-Ensures :
    (opts : BDecodeOpt) (at : ℕ) (key : Bytes) (last : Option Bytes)
    → Ensures (λ _. Unit {0}) (check_order opts at key last)
unfolding check_order
check_order-Ensures opts at key none = tt
check_order-Ensures opts at key (some last) =
    Ensures-if _ (opts.check_key_sort && bytes_lt key last) _ _ (λ _. tt) (λ _. tt)

height-insert :
    (k : Bytes) (v : BencodeRef) (es : Entries Bytes)
    → height_entries (insert k v es) ≡ max (height v) (height_entries es)
unfolding height_entries insert
height-insert k v end = refl
height-insert k v (entry k' v' es) =
    let more = height-insert k v es in
    elim (Bool-cases (bytes_lt k k')) [ inl e ↦ rw e refl | inr e ↦ rw e (omega arith) ]

pub insert_vacant-Ensures :
    (at : ℕ) (k : Bytes) (v : BencodeRef) (es : Entries Bytes)
    → Ensures
        (λ es'. height_entries es' ≡ max (height v) (height_entries es))
        (insert_vacant at k v es)
unfolding insert_vacant
insert_vacant-Ensures at k v es =
    Ensures-if _ (contains k es) _ _ (λ _. tt) (λ _. height-insert k v es)
