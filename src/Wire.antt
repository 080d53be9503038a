-- ===== src/Wire.antt =====
-- What the wire formats stand on: the parsers of the nom crate and the writers of the byteorder crate,
-- which are not part of this repository, as interfaces with the laws that their documentation states.
pub mod Numbers
pub mod Reads
use rust_bt.Base.{Option, some, ℕ, ◌+◌, ◌≤◌, ◌<◌, ◌≡◌, ◌≢◌, List, [], ◌∷◌, ◌++◌, Bytes, length}
use rust_bt.Base.Int.{ℤ}
use rust_bt.Wire.Numbers.{be_value, big_endian, to_bits, of_bits}

pub data Needed : Type 0 where
  unknown : Needed
  size : ℕ → Needed

-- What is left of the input and the value; or the code of an error; or what is missing.
pub data IResult (O : Type 0) : Type 0 where
  done : Bytes → O → IResult O
  error : ℕ → IResult O
  incomplete : Needed → IResult O

abbrev pub Parser : Type 0 → Type 0
Parser O = Bytes → IResult O

-- `opt_u8` is `opt!(be_u8)`, which is incomplete where there is too little input. `and_then` is the
-- sequence of `do_parse!` and of `switch!`, which `map!` and `call!` are instances of; what a
-- `do_parse!` consumed is not added to the size that is missing behind it, a number that the parsers
-- here pass on and no code reads. `switch_error` is the error of a `switch!` in which no pattern fits.
pub record Nom : Type 1 where
  pub and_then : {A B : Type 0} → IResult A → (Bytes → A → IResult B) → IResult B
  pub alt : {A : Type 0} → IResult A → IResult A → IResult A
  pub switch_error : ℕ
  pub be_u8 : Parser ℕ
  pub be_u16 : Parser ℕ
  pub be_u32 : Parser ℕ
  pub be_u64 : Parser ℕ
  pub be_i32 : Parser ℤ
  pub be_i64 : Parser ℤ
  pub opt_u8 : Parser (Option ℕ)
  pub take : ℕ → Parser Bytes
  pub take_str : ℕ → Parser Bytes
  pub count_bytes : ℕ → Parser Bytes
  pub tag : Bytes → Parser Bytes
  pub eof : Parser Bytes
  pub IsUtf8 : Bytes → Type 0
  pub and_then-done :
      {A B : Type 0} (rest : Bytes) (a : A) (f : Bytes → A → IResult B)
      → and_then (done rest a) f ≡ f rest a
  pub and_then-error :
      {A B : Type 0} (e : ℕ) (f : Bytes → A → IResult B) → and_then (error e) f ≡ error e
  pub and_then-incomplete :
      {A B : Type 0} (n : Needed) (f : Bytes → A → IResult B)
      → and_then (incomplete n) f ≡ incomplete n
  pub alt-done :
      {A : Type 0} (rest : Bytes) (a : A) (r : IResult A) → alt (done rest a) r ≡ done rest a
  pub alt-incomplete :
      {A : Type 0} (n : Needed) (r : IResult A) → alt (incomplete n) r ≡ incomplete n
  pub alt-error-done :
      {A : Type 0} (e : ℕ) (rest : Bytes) (a : A) → alt (error e) (done rest a) ≡ done rest a
  pub alt-error-incomplete :
      {A : Type 0} (e : ℕ) (n : Needed) → alt {A = A} (error e) (incomplete n) ≡ incomplete n
  pub alt_error : ℕ
  pub alt-error-error : {A : Type 0} (e f : ℕ) → alt {A = A} (error e) (error f) ≡ error alt_error
  pub be_u8-done : (b : ℕ) (rest : Bytes) → be_u8 (b ∷ rest) ≡ done rest b
  pub be_u8-short : be_u8 [] ≡ incomplete (size 1)
  pub opt_u8-done : (b : ℕ) (rest : Bytes) → opt_u8 (b ∷ rest) ≡ done rest (some b)
  pub opt_u8-short : opt_u8 [] ≡ incomplete (size 1)
  pub be_u16-done :
      (bs rest : Bytes) → length bs ≡ 2 → be_u16 (bs ++ rest) ≡ done rest (be_value 0 bs)
  pub be_u32-done :
      (bs rest : Bytes) → length bs ≡ 4 → be_u32 (bs ++ rest) ≡ done rest (be_value 0 bs)
  pub be_u64-done :
      (bs rest : Bytes) → length bs ≡ 8 → be_u64 (bs ++ rest) ≡ done rest (be_value 0 bs)
  pub be_i32-done :
      (bs rest : Bytes)
      → length bs ≡ 4
      → be_i32 (bs ++ rest) ≡ done rest (of_bits 32 (be_value 0 bs))
  pub be_i64-done :
      (bs rest : Bytes)
      → length bs ≡ 8
      → be_i64 (bs ++ rest) ≡ done rest (of_bits 64 (be_value 0 bs))
  pub take-done : (n : ℕ) (xs rest : Bytes) → length xs ≡ n → take n (xs ++ rest) ≡ done rest xs
  pub take-short : (n : ℕ) (xs : Bytes) → length xs < n → take n xs ≡ incomplete (size n)
  pub take_str-done :
      (n : ℕ) (xs rest : Bytes) → length xs ≡ n → IsUtf8 xs → take_str n (xs ++ rest) ≡ done rest xs
  pub count_bytes-done :
      (n : ℕ) (xs rest : Bytes) → length xs ≡ n → count_bytes n (xs ++ rest) ≡ done rest xs
  pub tag-done : (t rest : Bytes) → tag t (t ++ rest) ≡ done rest t
  pub tag_error : ℕ
  pub tag-other :
      (t xs rest : Bytes) → length xs ≡ length t → xs ≢ t → tag t (xs ++ rest) ≡ error tag_error
  pub eof-done : eof [] ≡ done [] []
  pub eof_error : ℕ
  pub eof-more : (x : ℕ) (xs : Bytes) → eof (x ∷ xs) ≡ error eof_error

-- The writers, with the bytes that they write.
pub record Byteorder : Type 0 where
  pub write_u8 : ℕ → Bytes
  pub write_u16 : ℕ → Bytes
  pub write_u32 : ℕ → Bytes
  pub write_u64 : ℕ → Bytes
  pub write_i32 : ℤ → Bytes
  pub write_i64 : ℤ → Bytes
  pub write_u8-bytes : (n : ℕ) → write_u8 n ≡ n ∷ []
  pub write_u16-bytes : (n : ℕ) → write_u16 n ≡ big_endian 2 n
  pub write_u32-bytes : (n : ℕ) → write_u32 n ≡ big_endian 4 n
  pub write_u64-bytes : (n : ℕ) → write_u64 n ≡ big_endian 8 n
  pub write_i32-bytes : (z : ℤ) → write_i32 z ≡ big_endian 4 (to_bits 32 z)
  pub write_i64-bytes : (z : ℤ) → write_i64 z ≡ big_endian 8 (to_bits 64 z)

module _ ⦃nom : Nom⦄ where
  infixl 5 ◌>>=◌
  abbrev pub ◌>>=◌ : {A B : Type 0} → Parser A → (A → Parser B) → Parser B
  ◌>>=◌ p f bytes = nom.and_then (p bytes) (λ rest a. f a rest)

-- `value!`, and the last line of `do_parse!`.
abbrev pub value : {A : Type 0} → A → Parser A
value a bytes = done bytes a
