-- ===== src/Bencode/Decimal.antt =====
-- Decimal numbers: `to_string` of an integer, and `i64::from_str_radix(_, 10)`, of Rust's standard
-- library, as bip_bencode/src/mutable/encode.rs and reference/decode.rs use them.
pub mod RoundTrip
use rust_bt.Base.{
  ℕ, zero, suc, ◌+◌, ◌-◌, ◌*◌, ◌/◌, ◌%◌, ◌^◌, List, [], ◌∷◌, Bool, true, false, ◌&&◌, Option, none,
  some, Bytes, ltb, leb, ◌==◌, if◌then◌else◌, ◌>>=◌,
}
use rust_bt.Base.Int.{ℤ, pos, negsuc, neg_ℕ}

-- The digits of `n` before `rest`, the last one first.
unfoldable pub digits : ℕ → ℕ → Bytes → Bytes
digits zero n rest = rest
digits (suc fuel) n rest =
    let more = digits fuel (n / 10) ((b'0' + n % 10) ∷ rest) in
    if n / 10 == 0 then (b'0' + n % 10) ∷ rest else more

unfoldable pub nat_to_string : ℕ → Bytes
nat_to_string n = digits (suc n) n []

unfoldable pub to_string : ℤ → Bytes
to_string (pos n) = nat_to_string n
to_string (negsuc n) = b'-' ∷ nat_to_string (suc n)

unfoldable pub is_digit : ℕ → Bool
is_digit c = leb b'0' c && leb c b'9'

-- The number that digits spell behind `n`.
unfoldable pub from_digits : ℕ → Bytes → Option ℕ
from_digits n [] = some n
from_digits n (c ∷ cs) = if is_digit c then from_digits (n * 10 + (c - b'0')) cs else none

unfoldable pub magnitude : Bytes → Option ℕ
magnitude [] = none
magnitude (c ∷ cs) = from_digits 0 (c ∷ cs)

abbrev pub in_range : ℕ → ℕ → ℤ → Option ℤ
in_range bound n z = if ltb n bound then some z else none

unfoldable pub positive : Bytes → Option ℤ
positive cs = magnitude cs >>= λ n. in_range (2 ^ 63) n (pos n)

unfoldable pub negative : Bytes → Option ℤ
negative cs = magnitude cs >>= λ n. in_range (2 ^ 63 + 1) n (neg_ℕ n)

-- An optional sign and one digit or more, whose value is an `i64`; `none` is the error.
unfoldable pub from_str_radix : Bytes → Option ℤ
from_str_radix [] = none
from_str_radix (c ∷ cs) =
    if c == b'+' then positive cs else if c == b'-' then negative cs else positive (c ∷ cs)
