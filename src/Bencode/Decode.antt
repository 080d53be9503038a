-- ===== src/Bencode/Decode.antt =====
-- bip_bencode/src/reference/decode.rs, decode_opt.rs and `BencodeRef::decode`: the decoder.
pub mod Read
pub mod Map
pub mod Steps
pub mod Annotate
pub mod RoundTrip
pub mod Ensures
pub mod Sound
use Prim.Native.Nat.{min}
use rust_bt.Base.{
  ℕ, zero, suc, ◌+◌, ◌-◌, ◌*◌, List, [], ◌∷◌, ◌++◌, Bool, true, false, ◌&&◌, not, Option, none,
  some, Bytes, bytes_eq, bytes_lt, length, get_elem?, get_or, take, drop, ltb, leb, ◌==◌,
  if◌then◌else◌,
}
use rust_bt.Base.Int.{ℤ, pos, negsuc}
use rust_bt.Bencode.Value.{
  Bencode, Items, Entries, int, bytes, list, dict, nil, cons, end, entry, BencodeRef,
}
use rust_bt.Bencode.Decimal.{is_digit, from_str_radix}
use rust_bt.Bencode.Encode.{
  ben_end, dict_start, list_start, int_start, byte_len_low, byte_len_high, byte_len_end,
}

pub record BDecodeOpt : Type 0 where
  pub max_recursion : ℕ
  pub check_key_sort : Bool
  pub enforce_full_decode : Bool

abbrev pub default_opts : BDecodeOpt
default_opts = record { max_recursion = 50; check_key_sort = false; enforce_full_decode = true }

pub data BencodeParseErrorKind : Type 0 where
  bytes_empty invalid_byte : ℕ → BencodeParseErrorKind
  invalid_int_no_delimiter invalid_int_negative_zero : ℕ → BencodeParseErrorKind
  invalid_int_zero_padding invalid_int_parse_error : ℕ → BencodeParseErrorKind
  invalid_key_ordering invalid_key_duplicates : ℕ → Bytes → BencodeParseErrorKind
  invalid_length_negative invalid_length_overflow : ℕ → BencodeParseErrorKind
  invalid_recursion_exceeded : ℕ → ℕ → BencodeParseErrorKind

-- `out_of_fuel` has no counterpart in the program.
pub data Result (A : Type 0) : Type 0 where
  ok : A → Result A
  err : BencodeParseErrorKind → Result A
  out_of_fuel : Result A

infixl 5 ◌>>=◌
abbrev pub ◌>>=◌ : {A B : Type 0} → Result A → (A → Result B) → Result B
ok a >>= f = f a
err e >>= f = err e
out_of_fuel >>= f = out_of_fuel

unfoldable pub peek_byte : Bytes → ℕ → Result ℕ
peek_byte input at = elim (get_elem? input at) [ none ↦ err (bytes_empty at) | some b ↦ ok b ]

-- `&bytes[from..to]`
unfoldable pub slice : Bytes → ℕ → ℕ → Bytes
slice input from to = take (to - from) (drop from input)

-- `iter().position(|n| *n == delim)`
unfoldable pub position : ℕ → Bytes → Option ℕ
position delim [] = none
position delim (b ∷ bs) =
    if b == delim then some 0 else elim (position delim bs) [ none ↦ none | some i ↦ some (suc i) ]

abbrev minus : ℕ
minus = b'-'

-- The two checks made of a text of two bytes or more.
unfoldable pub check_int : ℕ → Bytes → Result (Unit {0})
check_int at text =
    if ltb 1 (length text)
    then (if get_or text 0 0 == b'-' && get_or text 1 0 == b'0'
        then err (invalid_int_negative_zero at)
        else if get_or text 0 0 == b'0'
        then err (invalid_int_zero_padding at)
        else ok tt)
    else ok tt

-- A text that is no UTF-8 holds a byte that is no digit, and gives the same error.
unfoldable pub convert_int : ℕ → Bytes → Result ℤ
convert_int at text = elim (from_str_radix text) [
  | none ↦ err (invalid_int_parse_error at)
  | some n ↦ ok n
]

unfoldable pub decode_int : Bytes → ℕ → ℕ → Result (ℤ × ℕ)
decode_int input at delim = elim (position delim (drop at input)) [
  | none ↦ err (invalid_int_no_delimiter at)
  | some relative_end_pos ↦
      let text = take relative_end_pos (drop at input) in
      check_int at text >>= λ _. convert_int at text >>= λ n. ok (n, at + relative_end_pos + 1)
]

unfoldable pub take_bytes : Bytes → ℕ → ℤ → ℕ → Result (Bytes × ℕ)
take_bytes input at (negsuc n) start_pos = err (invalid_length_negative at)
take_bytes input at (pos num_bytes) start_pos =
    if ltb (length (drop start_pos input)) num_bytes
    then err (invalid_length_overflow at)
    else ok (slice input start_pos (start_pos + num_bytes), start_pos + num_bytes)

unfoldable pub decode_bytes : Bytes → ℕ → Result (Bytes × ℕ)
decode_bytes input at = decode_int input at byte_len_end >>= λ (num_bytes, start_pos).
    take_bytes input at num_bytes start_pos

-- `BTreeMap`: the greatest key, whether a key is there, and the insertion of a new one.
module _ {B : Type 0} where
  unfoldable pub last_key : Entries B → Option Bytes
  last_key end = none
  last_key (entry k v es) = elim (last_key es) [ none ↦ some k | some k' ↦ some k' ]

  unfoldable pub contains : Bytes → Entries B → Bool
  contains k end = false
  contains k (entry k' v es) = if bytes_eq k' k then true else contains k es

  unfoldable pub insert : Bytes → Bencode B → Entries B → Entries B
  insert k v end = entry k v end
  insert k v (entry k' v' es) =
      if bytes_lt k k' then entry k v (entry k' v' es) else entry k' v' (insert k v es)

unfoldable pub check_order : BDecodeOpt → ℕ → Bytes → Option Bytes → Result (Unit {0})
check_order opts at key none = ok tt
check_order opts at key (some last) =
    if opts.check_key_sort && bytes_lt key last then err (invalid_key_ordering at key) else ok tt

unfoldable pub insert_vacant : ℕ → Bytes → BencodeRef → Entries Bytes → Result (Entries Bytes)
insert_vacant at key value es =
    if contains key es then err (invalid_key_duplicates at key) else ok (insert key value es)

unfoldable mutual
  pub decode : ℕ → Bytes → ℕ → BDecodeOpt → ℕ → Result (BencodeRef × ℕ)
  decode zero input at opts depth = out_of_fuel
  decode (suc fuel) input at opts depth =
      let as_int =
        decode_int input (at + 1) ben_end >>= λ (n, next). ok (int n (slice input at next), next) in
      let as_list = decode_list fuel input (at + 1) opts depth >>= λ (xs, next).
      ok (list xs (slice input at next), next) in
      let as_dict = decode_dict fuel input (at + 1) opts depth end >>= λ (es, next).
      ok (dict es (slice input at next), next) in
      let as_bytes =
        decode_bytes input at >>= λ (s, next). ok (bytes s (slice input at next), next) in
      if leb opts.max_recursion depth
      then err (invalid_recursion_exceeded at depth)
      else (peek_byte input at >>= λ curr_byte.
          if curr_byte == int_start
          then as_int
          else if curr_byte == list_start
          then as_list
          else if curr_byte == dict_start
          then as_dict
          else if leb byte_len_low curr_byte && leb curr_byte byte_len_high
          then as_bytes
          else err (invalid_byte at))

  -- The loop of `decode_list`; what it pushes comes before what its later rounds push.
  pub decode_list : ℕ → Bytes → ℕ → BDecodeOpt → ℕ → Result (Items Bytes × ℕ)
  decode_list zero input at opts depth = out_of_fuel
  decode_list (suc fuel) input at opts depth =
      let round = decode fuel input at opts (depth + 1) >>= λ (x, next).
      decode_list fuel input next opts depth >>= λ (xs, last). ok (cons x xs, last) in
      peek_byte input at >>= λ curr_byte. if curr_byte == ben_end then ok (nil, at + 1) else round

  -- The loop of `decode_dict` over the map `es`.
  pub decode_dict : ℕ → Bytes → ℕ → BDecodeOpt → ℕ → Entries Bytes → Result (Entries Bytes × ℕ)
  decode_dict zero input at opts depth es = out_of_fuel
  decode_dict (suc fuel) input at opts depth es =
      let round = decode_bytes input at >>= λ (key, key_end).
      check_order opts at key (last_key es) >>= λ _.
      decode fuel input key_end opts (depth + 1) >>= λ (value, next).
      insert_vacant key_end key value es >>= λ es'. decode_dict fuel input next opts depth es' in
      peek_byte input at >>= λ curr_byte. if curr_byte == ben_end then ok (es, at + 1) else round

abbrev pub enough_fuel : Bytes → ℕ
enough_fuel input = 2 * length input + 2

unfoldable pub check_end : Bytes → BDecodeOpt → BencodeRef × ℕ → Result BencodeRef
check_end input opts (value, end_pos) =
    if not (end_pos == length input) && opts.enforce_full_decode
    then err (bytes_empty end_pos)
    else ok value

-- `BencodeRef::decode`
unfoldable pub decode_ref : Bytes → BDecodeOpt → Result BencodeRef
decode_ref input opts = decode (enough_fuel input) input 0 opts 0 >>= check_end input opts
