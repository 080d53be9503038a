-- ===== src/Tests/Bencode.antt =====
-- bip_bencode: a dictionary with a list, integers and byte strings.
use rust_bt.Base.{◌+◌, ◌≡◌, refl, ap, [], ◌∷◌, ◌++◌, Bytes, bytes_eq, bytes_lt, length, arith}
use rust_bt.Base.Int.{pos, negsuc}
use rust_bt.Bencode.Value.{int, bytes, list, dict, nil, cons, end, entry, BencodeMut, height, IsWf}
use rust_bt.Bencode.Decimal.{
  digits, nat_to_string, to_string, from_str_radix, positive, negative, magnitude, from_digits,
  is_digit,
}
use rust_bt.Bencode.Encode.{encode, encode_int, encode_bytes, sort_pairs, concat_pairs}
use rust_bt.Bencode.Decode.{
  default_opts, ok, err, bytes_empty, decode, decode_ref, decode_list, decode_dict, check_end,
  peek_byte, decode_bytes, decode_int, position, check_int, convert_int, take_bytes, slice,
  check_order, last_key, insert_vacant, contains, insert,
}
use rust_bt.Bencode.Decode.Annotate.{annotate}
use rust_bt.Bencode.Decode.RoundTrip.{decode-encode, decode_ref-encode}
use rust_bt.Bencode.Decode.Ensures.{Ensures}
use rust_bt.Bencode.Decode.Sound.{IsWithin, decode_ref-Ensures}

-- {"a": [1, -2], "b": "xy"}
abbrev value : BencodeMut
value =
    dict
      (entry (b'a' ∷ []) (list (cons (int (pos 1) tt) (cons (int (negsuc 1) tt) nil)) tt)
        (entry (b'b' ∷ []) (bytes (b'x' ∷ b'y' ∷ []) tt) end))
      tt

abbrev text : Bytes
text =
    b'd' ∷ b'1' ∷ b':' ∷ b'a' ∷ b'l' ∷ b'i' ∷ b'1' ∷ b'e' ∷ b'i' ∷ b'-' ∷ b'2' ∷ b'e' ∷ b'e' ∷ b'1'
    ∷ b':' ∷ b'b' ∷ b'2' ∷ b':' ∷ b'x' ∷ b'y' ∷ b'e' ∷ []

encode-value : encode value ≡ text
unfolding encode concat_pairs sort_pairs bytes_lt encode_bytes nat_to_string digits encode_int
    to_string
encode-value = refl

value-IsWf : IsWf value
unfolding IsWf bytes_lt
value-IsWf =
    (omega arith, (omega arith, (omega arith, tt)), (refl, tt), (omega arith, omega arith, tt, tt))

value-height : height value ≡ 3
unfolding height
value-height = refl

decode_ref-encode_example : decode_ref (encode value) default_opts ≡ ok (annotate value)
decode_ref-encode_example =
    decode_ref-encode value default_opts value-IsWf (omega (arith, value-height))

-- the value stands behind one byte and before two
decode-encode_example :
    decode 60 (b'x' ∷ (encode value ++ b'y' ∷ b'z' ∷ [])) 1 default_opts 47
    ≡ ok (annotate value, 1 + length (encode value))
decode-encode_example =
    decode-encode value (b'x' ∷ []) (b'y' ∷ b'z' ∷ []) default_opts 47 60 value-IsWf
      (omega (arith, value-height)) (omega (arith, ap length encode-value))

decode_ref-Ensures_example :
    Ensures (IsWithin (b'l' ∷ text) default_opts) (decode_ref (b'l' ∷ text) default_opts)
decode_ref-Ensures_example = decode_ref-Ensures (b'l' ∷ text) default_opts

-- the list is not closed
unclosed : decode_ref (b'l' ∷ text) default_opts ≡ err (bytes_empty 22)
unfolding decode_ref decode decode_list decode_dict check_end peek_byte decode_bytes decode_int
    position check_int convert_int take_bytes slice check_order last_key insert_vacant contains
    insert from_str_radix positive negative magnitude from_digits is_digit bytes_eq
unclosed = refl
