-- ===== src/Tests/Wire.antt =====
-- The parsers and writers of the wire formats, by functions that obey their laws.
use rust_bt.Base.{
  Option, some, ℕ, ◌<◌, ◌≡◌, ◌≢◌, refl, [], ◌∷◌, ◌++◌, true, false, Bytes, bytes_eq, length, take,
  drop, take-append, drop-append, length-append, ltb, if◌then◌else◌, Bool-cases, inl, inr, arith,
  bytes_eq_refl, bytes_eq→eq,
}
use rust_bt.Wire.{size, IResult, done, error, incomplete, Parser, Nom, Byteorder}
use rust_bt.Wire.Numbers.{be_value, big_endian, to_bits, of_bits}

abbrev then_run : {A B : Type 0} → IResult A → (Bytes → A → IResult B) → IResult B
then_run (done rest a) f = f rest a
then_run (error e) f = error e
then_run (incomplete n) f = incomplete n

abbrev or_else : {A : Type 0} → IResult A → IResult A → IResult A
or_else (done rest a) r = done rest a
or_else (incomplete n) r = incomplete n
or_else (error e) (done rest a) = done rest a
or_else (error e) (incomplete n) = incomplete n
or_else (error e) (error f) = error 1

-- The first n bytes, as the value that they give.
abbrev read : {A : Type 0} → ℕ → (Bytes → A) → Parser A
read n f bytes =
    if ltb (length bytes) n then incomplete (size n) else done (drop n bytes) (f (take n bytes))

abbrev read_u8 : Parser ℕ
read_u8 [] = incomplete (size 1)
read_u8 (b ∷ rest) = done rest b

abbrev read_opt : Parser (Option ℕ)
read_opt [] = incomplete (size 1)
read_opt (b ∷ rest) = done rest (some b)

abbrev read_tag : Bytes → Parser Bytes
read_tag t bytes =
    if ltb (length bytes) (length t)
    then incomplete (size (length t))
    else if bytes_eq (take (length t) bytes) t
    then done (drop (length t) bytes) t
    else error 2

abbrev read_eof : Parser Bytes
read_eof [] = done [] []
read_eof (x ∷ xs) = error 3

pub read-done :
    {A : Type 0} (f : Bytes → A) (n : ℕ) (xs rest : Bytes)
    → length xs ≡ n
    → read n f (xs ++ rest) ≡ done rest (f xs)
read-done f n xs rest e =
    let enough : ltb (length (xs ++ rest)) n ≡ false = ground (arith, length-append xs rest) in
    rw (enough, ← e) (rw (take-append xs rest, drop-append xs rest) refl)

pub read-short :
    {A : Type 0} (f : Bytes → A) (n : ℕ) (xs : Bytes)
    → length xs < n
    → read n f xs ≡ incomplete (size n)
read-short f n xs h = let short : ltb (length xs) n ≡ true = ground arith in rw short refl

pub read_tag-done : (t rest : Bytes) → read_tag t (t ++ rest) ≡ done rest t
read_tag-done t rest =
    let enough : ltb (length (t ++ rest)) (length t) ≡ false =
      ground (arith, length-append t rest) in
    rw (enough, take-append t rest) (rw (drop-append t rest, bytes_eq_refl t) refl)

pub read_tag-other :
    (t xs rest : Bytes) → length xs ≡ length t → xs ≢ t → read_tag t (xs ++ rest) ≡ error 2
read_tag-other t xs rest e ne =
    let enough : ltb (length (xs ++ rest)) (length t) ≡ false =
      ground (arith, length-append xs rest) in
    elim (Bool-cases (bytes_eq xs t)) [
      | inl same ↦ absurd (ne (bytes_eq→eq xs t same))
      | inr other ↦ rw (enough, ← e) (rw (take-append xs rest, other) refl)
    ]

instance abbrev pub nom : Nom
nom = record {
  and_then = then_run;
  alt = or_else;
  switch_error = 0;
  be_u8 = read_u8;
  be_u16 = read 2 (be_value 0);
  be_u32 = read 4 (be_value 0);
  be_u64 = read 8 (be_value 0);
  be_i32 = read 4 (λ bs. of_bits 32 (be_value 0 bs));
  be_i64 = read 8 (λ bs. of_bits 64 (be_value 0 bs));
  opt_u8 = read_opt;
  take = λ n. read n (λ bs. bs);
  take_str = λ n. read n (λ bs. bs);
  count_bytes = λ n. read n (λ bs. bs);
  tag = read_tag;
  eof = read_eof;
  IsUtf8 = λ bs. Unit {0};
  and_then-done = λ rest a f. refl;
  and_then-error = λ e f. refl;
  and_then-incomplete = λ n f. refl;
  alt-done = λ rest a r. refl;
  alt-incomplete = λ n r. refl;
  alt-error-done = λ e rest a. refl;
  alt-error-incomplete = λ e n. refl;
  alt_error = 1;
  alt-error-error = λ e f. refl;
  be_u8-done = λ b rest. refl;
  be_u8-short = refl;
  opt_u8-done = λ b rest. refl;
  opt_u8-short = refl;
  be_u16-done = λ bs rest e. read-done (be_value 0) 2 bs rest e;
  be_u32-done = λ bs rest e. read-done (be_value 0) 4 bs rest e;
  be_u64-done = λ bs rest e. read-done (be_value 0) 8 bs rest e;
  be_i32-done = λ bs rest e. read-done (λ bs. of_bits 32 (be_value 0 bs)) 4 bs rest e;
  be_i64-done = λ bs rest e. read-done (λ bs. of_bits 64 (be_value 0 bs)) 8 bs rest e;
  take-done = λ n xs rest e. read-done (λ bs. bs) n xs rest e;
  take-short = λ n xs h. read-short (λ bs. bs) n xs h;
  take_str-done = λ n xs rest e u. read-done (λ bs. bs) n xs rest e;
  count_bytes-done = λ n xs rest e. read-done (λ bs. bs) n xs rest e;
  tag-done = read_tag-done;
  tag_error = 2;
  tag-other = read_tag-other;
  eof-done = refl;
  eof_error = 3;
  eof-more = λ x xs. refl;
}

instance abbrev pub order : Byteorder
order = record {
  write_u8 = λ n. n ∷ [];
  write_u16 = big_endian 2;
  write_u32 = big_endian 4;
  write_u64 = big_endian 8;
  write_i32 = λ z. big_endian 4 (to_bits 32 z);
  write_i64 = λ z. big_endian 8 (to_bits 64 z);
  write_u8-bytes = λ n. refl;
  write_u16-bytes = λ n. refl;
  write_u32-bytes = λ n. refl;
  write_u64-bytes = λ n. refl;
  write_i32-bytes = λ z. refl;
  write_i64-bytes = λ z. refl;
}
