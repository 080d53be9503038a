-- ===== src/Bencode/Decode/Read.antt =====
-- What the readers of bip_bencode/src/reference/decode.rs return on text that the encoder wrote. The
-- text to read is given as what is left of the input from a position on.
use rust_bt.Base.{
  take-append, drop-append, drop-drop, ℕ, zero, suc, ◌+◌, ◌-◌, ◌^◌, ◌<◌, ◌≡◌, ◌≢◌, ◌⊎◌, refl, sym,
  ap, ◌∙◌, List, [], ◌∷◌, ◌++◌, append_assoc, false, some, Bytes, length, get_elem?, drop, ltb,
  ◌==◌, Bool-cases, inl, inr, length-append, arith,
}
use rust_bt.Base.Int.{ℤ, pos, negsuc}
use rust_bt.Bencode.Value.{IsI64}
use rust_bt.Bencode.Decimal.{nat_to_string, to_string}
use rust_bt.Bencode.Decimal.RoundTrip.{AllDigits, nat_to_string-Printed, from_str_radix-to_string}
use rust_bt.Bencode.Encode.{byte_len_end, encode_bytes}
use rust_bt.Bencode.Decode.{
  ok, peek_byte, slice, position, check_int, convert_int, decode_int, take_bytes, decode_bytes,
}

module _ {A : Type 0} where
  -- Behind what stands at a position comes what follows it.
  pub drop-past :
      (at : ℕ) (input xs ys : List A) → drop at input ≡ xs ++ ys → drop (at + length xs) input ≡ ys
  drop-past at input xs ys h =
      sym (drop-drop at (length xs) input) ∙ ap (drop (length xs)) h ∙ drop-append xs ys

  pub get_elem?-drop :
      (at : ℕ) (input ys : List A) (x : A) → drop at input ≡ x ∷ ys → get_elem? input at ≡ some x
  get_elem?-drop zero [] ys x h = cc
  get_elem?-drop zero (y ∷ input) ys x h = cc
  get_elem?-drop (suc at) [] ys x h = cc
  get_elem?-drop (suc at) (y ∷ input) ys x h = get_elem?-drop at input ys x h

pub peek_byte-drop :
    (at : ℕ) (input ys : Bytes) (x : ℕ) → drop at input ≡ x ∷ ys → peek_byte input at ≡ ok x
unfolding peek_byte
peek_byte-drop at input ys x h = rw (get_elem?-drop at input ys x h, peek_byte) refl

-- The text at a position is the slice up to its end.
pub slice-drop :
    (at : ℕ) (input xs ys : Bytes) → drop at input ≡ xs ++ ys → slice input at (at + length xs) ≡ xs
unfolding slice
slice-drop at input xs ys h =
    let e : at + length xs - at ≡ length xs = omega arith in rw (e, h) (take-append xs ys)

abbrev Lacks : ℕ → Bytes → Type 0
Lacks d [] = Unit {0}
Lacks d (x ∷ xs) = (x ≢ d) × Lacks d xs

position-Lacks : (d : ℕ) (xs ys : Bytes) → Lacks d xs → position d (xs ++ d ∷ ys) ≡ some (length xs)
unfolding position
position-Lacks d [] ys l = ground arith
position-Lacks d (x ∷ xs) ys l = ground (arith, position-Lacks d xs ys)

digits-Lacks : (d : ℕ) (xs : Bytes) → b'9' < d → AllDigits xs → Lacks d xs
digits-Lacks d [] h all = tt
digits-Lacks d (x ∷ xs) h all = (omega (arith, all.0, all.1), digits-Lacks d xs h all.2)

pub to_string-Lacks : (d : ℕ) (n : ℤ) → b'9' < d → Lacks d (to_string n)
unfolding to_string
to_string-Lacks d (pos n) h =
    let p = nat_to_string-Printed n in
    rw p.spells (digits-Lacks d (p.first ∷ p.others) h p.all_digits)
to_string-Lacks d (negsuc n) h =
    let p = nat_to_string-Printed (suc n) in
    (omega arith, rw p.spells (digits-Lacks d (p.first ∷ p.others) h p.all_digits))

check_short : (at c : ℕ) (cs : Bytes) → (b'0' < c) ⊎ (cs ≡ []) → check_int at (c ∷ cs) ≡ ok tt
unfolding check_int
check_short at c [] h = refl
check_short at c (d ∷ cs) h = ground arith

check_minus : (at c : ℕ) (cs : Bytes) → b'0' < c → check_int at (b'-' ∷ c ∷ cs) ≡ ok tt
unfolding check_int
check_minus at c cs h = ground arith

-- A printed integer passes the checks on its first bytes.
check_int-to_string : (at : ℕ) (n : ℤ) → check_int at (to_string n) ≡ ok tt
unfolding to_string
check_int-to_string at (pos n) =
    let p = nat_to_string-Printed n in
    rw p.spells (
      check_short at p.first p.others (elim (Bool-cases (n == 0)) [
        | inl e ↦ inr (p.alone (ground arith))
        | inr e ↦ inl (p.nonzero (ground arith))
      ]))
check_int-to_string at (negsuc n) =
    let p = nat_to_string-Printed (suc n) in
    rw p.spells (check_minus at p.first p.others (p.nonzero (omega arith)))

-- A printed integer is read up to its delimiter.
pub decode_int-to_string :
    (input rest : Bytes) (at delim : ℕ) (n : ℤ)
    → IsI64 n
    → b'9' < delim
    → drop at input ≡ to_string n ++ delim ∷ rest
    → decode_int input at delim ≡ ok (n, at + length (to_string n) + 1)
unfolding decode_int convert_int
decode_int-to_string input rest at delim n range high h =
    let text = to_string n in
    let found = position-Lacks delim text rest (to_string-Lacks delim n high) in
    let cut = take-append text (delim ∷ rest) in
    let read = from_str_radix-to_string n range in
    rw (h, found, decode_int) (rw (h, cut, check_int-to_string at n, read, convert_int) refl)

encode_bytes_text :
    (s rest : Bytes)
    → (encode_bytes s ++ rest ≡ nat_to_string (length s) ++ byte_len_end ∷ (s ++ rest))
      × (length (encode_bytes s) ≡ length (nat_to_string (length s)) + suc (length s))
unfolding encode_bytes
encode_bytes_text s rest = (
  append_assoc (nat_to_string (length s)) (byte_len_end ∷ s) rest,
  length-append (nat_to_string (length s)) (byte_len_end ∷ s),
)

-- The same for a length.
decode_int-nat_to_string :
    (input rest : Bytes) (at delim n : ℕ)
    → n < 2 ^ 63
    → b'9' < delim
    → drop at input ≡ nat_to_string n ++ delim ∷ rest
    → decode_int input at delim ≡ ok (pos n, at + length (nat_to_string n) + 1)
unfolding to_string
decode_int-nat_to_string input rest at delim n = decode_int-to_string input rest at delim (pos n)

take_bytes-drop :
    (input rest s : Bytes) (at start : ℕ)
    → drop start input ≡ s ++ rest
    → take_bytes input at (pos (length s)) start ≡ ok (s, start + length s)
unfolding take_bytes
take_bytes-drop input rest s at start h =
    let fits : ltb (length (drop start input)) (length s) ≡ false =
      let size = ap length h in let total = length-append s rest in ground arith in
    rw (fits, slice-drop start input s rest h) refl

-- An encoded byte string is read back.
pub decode_bytes-encode_bytes :
    (input rest s : Bytes) (at : ℕ)
    → length s < 2 ^ 63
    → drop at input ≡ encode_bytes s ++ rest
    → decode_bytes input at ≡ ok (s, at + length (encode_bytes s))
unfolding decode_bytes
decode_bytes-encode_bytes input rest s at small h =
    let (h', size) = encode_bytes_text s rest in
    let n = length (nat_to_string (length s)) in
    let number =
      decode_int-nat_to_string input (s ++ rest) at byte_len_end (length s) small (omega arith)
        (h ∙ h') in
    let behind : drop (at + n + 1) input ≡ s ++ rest =
      drop-past (at + n) input (byte_len_end ∷ []) (s ++ rest)
        (drop-past at input (nat_to_string (length s)) (byte_len_end ∷ (s ++ rest)) (h ∙ h')) in
    let total : at + length (encode_bytes s) ≡ at + n + 1 + length s = omega arith in
    rw number (rw total (take_bytes-drop input rest s at (at + n + 1) behind))
