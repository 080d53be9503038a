-- ===== src/Bencode/Decimal/RoundTrip.antt =====
-- Printed integers are read back, and their text holds a sign and digits only.
use rust_bt.Base.{
  ℕ, zero, suc, ◌+◌, ◌/◌, ◌%◌, ◌^◌, ◌≤◌, ◌<◌, ◌≡◌, refl, ◌∙◌, [], ◌∷◌, some, Bytes, ◌==◌,
  Bool-cases, inl, inr, arith,
}
use rust_bt.Base.Int.{ℤ, pos, negsuc}
use rust_bt.Bencode.Value.{IsI64}
use rust_bt.Bencode.Decimal.{
  digits, nat_to_string, to_string, is_digit, from_digits, magnitude, positive, negative,
  from_str_radix,
}

from_digits-digits :
    (fuel n : ℕ) (rest : Bytes) → n < fuel → from_digits 0 (digits fuel n rest) ≡ from_digits n rest
unfolding digits from_digits is_digit
from_digits-digits zero n rest h = absurd (omega arith)
from_digits-digits (suc fuel) n rest h =
    ground (arith, from_digits-digits fuel (n / 10) ((b'0' + n % 10) ∷ rest))

-- What the digits of a number look like: a first one that is zero only for the number zero, and
-- digits behind it.
abbrev pub AllDigits : Bytes → Type 0
AllDigits [] = Unit {0}
AllDigits (c ∷ cs) = (b'0' ≤ c) × (c ≤ b'9') × AllDigits cs

pub record Printed (n : ℕ) (text : Bytes) : Type 0 where
  pub first : ℕ
  pub others : Bytes
  pub spells : text ≡ first ∷ others
  pub all_digits : AllDigits (first ∷ others)
  pub nonzero : 0 < n → b'0' < first
  pub alone : n ≡ 0 → others ≡ []

digits-Printed :
    (fuel n : ℕ) (rest : Bytes)
    → n < fuel
    → AllDigits rest
    → (n ≡ 0 → rest ≡ [])
    → Printed n (digits fuel n rest)
unfolding digits
digits-Printed zero n rest h all empty = absurd (omega arith)
digits-Printed (suc fuel) n rest h all empty = elim (Bool-cases (n / 10 == 0)) [
  | inl e ↦ rw e (record {
    first = b'0' + n % 10;
    others = rest;
    spells = refl;
    all_digits = (omega arith, omega arith, all);
    nonzero = λ up. ground arith;
    alone = empty;
  })
  | inr e ↦
      let more : 0 < n / 10 = ground arith in
      let p =
        digits-Printed fuel (n / 10) ((b'0' + n % 10) ∷ rest) (omega arith)
          (omega arith, omega arith, all) (λ z. absurd (omega arith)) in
      rw e (record {
        first = p.first;
        others = p.others;
        spells = p.spells;
        all_digits = p.all_digits;
        nonzero = λ _. p.nonzero more;
        alone = λ z. absurd (omega arith);
      })
]

pub nat_to_string-Printed : (n : ℕ) → Printed n (nat_to_string n)
unfolding nat_to_string
nat_to_string-Printed n = digits-Printed (suc n) n [] (omega arith) tt (λ _. refl)

from_digits-nat_to_string : (n : ℕ) → from_digits 0 (nat_to_string n) ≡ some n
unfolding nat_to_string from_digits
from_digits-nat_to_string n = from_digits-digits (suc n) n [] (omega arith)

magnitude_text : (c : ℕ) (cs : Bytes) → magnitude (c ∷ cs) ≡ from_digits 0 (c ∷ cs)
unfolding magnitude
magnitude_text c cs = refl

pub magnitude-nat_to_string : (n : ℕ) → magnitude (nat_to_string n) ≡ some n
magnitude-nat_to_string n =
    let p = nat_to_string-Printed n in
    rw (p.spells, magnitude_text, ← p.spells) (from_digits-nat_to_string n)

unsigned :
    (n c : ℕ) (cs : Bytes)
    → n < 2 ^ 63
    → b'0' ≤ c
    → magnitude (c ∷ cs) ≡ some n
    → from_str_radix (c ∷ cs) ≡ some (pos n)
unfolding from_str_radix positive
unsigned n c cs h low m = ground arith

signed : (n : ℕ) → n < 2 ^ 63 → negative (nat_to_string (suc n)) ≡ some (negsuc n)
unfolding negative
signed n h = rw (magnitude-nat_to_string (suc n)) (ground arith)

minus_first : (cs : Bytes) → from_str_radix (b'-' ∷ cs) ≡ negative cs
unfolding from_str_radix
minus_first cs = refl

-- Every `i64` is read back from its decimal text.
pub from_str_radix-to_string : (n : ℤ) → IsI64 n → from_str_radix (to_string n) ≡ some n
unfolding to_string
from_str_radix-to_string (pos n) h =
    let p = nat_to_string-Printed n in
    rw p.spells
      (unsigned n p.first p.others h p.all_digits.0 (rw (← p.spells) (magnitude-nat_to_string n)))
from_str_radix-to_string (negsuc n) h = minus_first (nat_to_string (suc n)) ∙ signed n h
