-- ===== src/Wire/Reads.antt =====
-- Parsers that read back what was written.
use rust_bt.Base.{
  ℕ, ◌^◌, ◌<◌, ◌≡◌, refl, sym, ap, ◌∙◌, [], ◌++◌, append_assoc, append-nil, Bytes, length,
}
use rust_bt.Base.Int.{ℤ}
use rust_bt.Wire.Numbers.{
  big_endian, to_bits, of_bits, IsSigned, be_value-big_endian_2, be_value-big_endian_4,
  be_value-big_endian_8, of_bits-to_bits_32, of_bits-to_bits_64,
}
use rust_bt.Wire.{IResult, done, error, incomplete, Needed, Parser, Nom, Byteorder, ◌>>=◌, value}

-- Whatever follows the bytes, they are read as the value.
pub record Reads {A : Type 0} (p : Parser A) (bytes : Bytes) (a : A) : Type 0 where
  pub reads : (rest : Bytes) → p (bytes ++ rest) ≡ done rest a

-- The bytes, to their end, are read as the value.
pub record Ends {A : Type 0} (p : Parser A) (bytes : Bytes) (a : A) : Type 0 where
  pub ends : p bytes ≡ done [] a

module _ ⦃nom : Nom⦄ {A B : Type 0} where
  pub bind-done :
      (p : Parser A) (f : A → Parser B) (bytes rest : Bytes) (a : A)
      → p bytes ≡ done rest a
      → (p >>= f) bytes ≡ f a rest
  bind-done p f bytes rest a h =
      ap (λ (r : IResult A). nom.and_then r (λ rest a. f a rest)) h
      ∙ nom.and_then-done rest a (λ rest a. f a rest)

  module _ {p : Parser A} {f : A → Parser B} {xs ys : Bytes} {a : A} {b : B} where
    pub Reads-then : Reads p xs a → Reads (f a) ys b → Reads (p >>= f) (xs ++ ys) b
    Reads-then h k = record {
      reads = λ rest.
          rw (append_assoc xs ys rest) (
            bind-done p f (xs ++ (ys ++ rest)) (ys ++ rest) a (h.reads (ys ++ rest))
            ∙ k.reads rest);
    }

    pub Ends-then : Reads p xs a → Ends (f a) ys b → Ends (p >>= f) (xs ++ ys) b
    Ends-then h k = record { ends = bind-done p f (xs ++ ys) ys a (h.reads ys) ∙ k.ends }

  -- The last parser of a sequence, whose value goes into the result.
  module _ {p : Parser A} {g : A → B} {xs : Bytes} {a : A} where
    pub Reads-map : Reads p xs a → Reads (p >>= λ a. value (g a)) xs (g a)
    Reads-map h = record {
      reads = λ rest. bind-done p (λ a. value (g a)) (xs ++ rest) rest a (h.reads rest);
    }

    pub Ends-map : Ends p xs a → Ends (p >>= λ a. value (g a)) xs (g a)
    Ends-map h = record { ends = bind-done p (λ a. value (g a)) xs [] a h.ends }

module _ ⦃nom : Nom⦄ {A B : Type 0} {r : IResult A} (f : Bytes → A → IResult B) where
  pub after_done : {rest : Bytes} {a : A} → r ≡ done rest a → nom.and_then r f ≡ f rest a
  after_done {rest} {a} h = ap (λ (r : IResult A). nom.and_then r f) h ∙ nom.and_then-done rest a f

  pub after_error : {e : ℕ} → r ≡ error e → nom.and_then r f ≡ error e
  after_error {e} h = ap (λ (r : IResult A). nom.and_then r f) h ∙ nom.and_then-error e f

  pub after_incomplete : {n : Needed} → r ≡ incomplete n → nom.and_then r f ≡ incomplete n
  after_incomplete {n} h = ap (λ (r : IResult A). nom.and_then r f) h ∙ nom.and_then-incomplete n f

module _ ⦃nom : Nom⦄ {A : Type 0} {r : IResult A} where
  pub alt_first :
      (q : IResult A) {rest : Bytes} {a : A} → r ≡ done rest a → nom.alt r q ≡ done rest a
  alt_first q {rest} {a} h = ap (λ (r : IResult A). nom.alt r q) h ∙ nom.alt-done rest a q

  pub alt_incomplete_first :
      (q : IResult A) {n : Needed} → r ≡ incomplete n → nom.alt r q ≡ incomplete n
  alt_incomplete_first q {n} h = ap (λ (r : IResult A). nom.alt r q) h ∙ nom.alt-incomplete n q

module _ ⦃nom : Nom⦄ {A : Type 0} {r q : IResult A} {e : ℕ} (h : r ≡ error e) where
  pub alt_second : {rest : Bytes} {a : A} → q ≡ done rest a → nom.alt r q ≡ done rest a
  alt_second {rest} {a} k =
      ap (λ (r : IResult A). nom.alt r q) h ∙ ap (nom.alt (error e)) k ∙ nom.alt-error-done e rest a

  pub alt_incomplete : {n : Needed} → q ≡ incomplete n → nom.alt r q ≡ incomplete n
  alt_incomplete {n} k =
      ap (λ (r : IResult A). nom.alt r q) h
      ∙ ap (nom.alt (error e)) k
      ∙ nom.alt-error-incomplete e n

  pub alt_failed : {f : ℕ} → q ≡ error f → nom.alt r q ≡ error nom.alt_error
  alt_failed {f} k =
      ap (λ (r : IResult A). nom.alt r q) h ∙ ap (nom.alt (error e)) k ∙ nom.alt-error-error e f

pub Reads-Ends : {A : Type 0} {p : Parser A} {xs : Bytes} {a : A} → Reads p xs a → Ends p xs a
Reads-Ends {p} {xs} h = record { ends = ap p (sym (append-nil xs)) ∙ h.reads [] }

pub Reads-take : ⦃nom : Nom⦄ (n : ℕ) (xs : Bytes) → length xs ≡ n → Reads (nom.take n) xs xs
Reads-take ⦃nom⦄ n xs h = record { reads = λ rest. nom.take-done n xs rest h }

module _ ⦃nom : Nom⦄ ⦃order : Byteorder⦄ where
  pub Reads-u8 : (n : ℕ) → Reads nom.be_u8 (order.write_u8 n) n
  Reads-u8 n = record { reads = λ rest. rw (order.write_u8-bytes n) (nom.be_u8-done n rest) }

  pub Reads-u16 : (n : ℕ) → n < 2 ^ 16 → Reads nom.be_u16 (order.write_u16 n) n
  Reads-u16 n h = record {
    reads = λ rest.
        rw (order.write_u16-bytes n)
          (nom.be_u16-done (big_endian 2 n) rest refl ∙ ap (done rest) (be_value-big_endian_2 n h));
  }

  pub Reads-u32 : (n : ℕ) → n < 2 ^ 32 → Reads nom.be_u32 (order.write_u32 n) n
  Reads-u32 n h = record {
    reads = λ rest.
        rw (order.write_u32-bytes n)
          (nom.be_u32-done (big_endian 4 n) rest refl ∙ ap (done rest) (be_value-big_endian_4 n h));
  }

  pub Reads-u64 : (n : ℕ) → n < 2 ^ 64 → Reads nom.be_u64 (order.write_u64 n) n
  Reads-u64 n h = record {
    reads = λ rest.
        rw (order.write_u64-bytes n)
          (nom.be_u64-done (big_endian 8 n) rest refl ∙ ap (done rest) (be_value-big_endian_8 n h));
  }

  pub Reads-i32 : (z : ℤ) → IsSigned 32 z → Reads nom.be_i32 (order.write_i32 z) z
  Reads-i32 z h = record {
    reads = λ rest.
        let bits = of_bits-to_bits_32 z h in
        rw (order.write_i32-bytes z) (
          nom.be_i32-done (big_endian 4 (to_bits 32 z)) rest refl
          ∙ ap (done rest)
              (ap (of_bits 32) (be_value-big_endian_4 (to_bits 32 z) bits.1) ∙ bits.0));
  }

  pub Reads-i64 : (z : ℤ) → IsSigned 64 z → Reads nom.be_i64 (order.write_i64 z) z
  Reads-i64 z h = record {
    reads = λ rest.
        let bits = of_bits-to_bits_64 z h in
        rw (order.write_i64-bytes z) (
          nom.be_i64-done (big_endian 8 (to_bits 64 z)) rest refl
          ∙ ap (done rest)
              (ap (of_bits 64) (be_value-big_endian_8 (to_bits 64 z) bits.1) ∙ bits.0));
  }
