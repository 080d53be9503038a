-- ===== src/Bencode/Decode/Steps.antt =====
-- One call of the decoder of bip_bencode/src/reference/decode.rs on each kind of value, and one round
-- of each of its loops.
use rust_bt.Base.{
  ℕ, suc, ◌+◌, ◌≤◌, ◌<◌, ◌≡◌, ◌≢◌, refl, ◌∷◌, true, false, ◌&&◌, Bytes, drop, leb, ◌==◌, arith,
}
use rust_bt.Bencode.Value.{Entries, int, bytes, list, dict, nil, cons, end}
use rust_bt.Bencode.Encode.{ben_end, dict_start, list_start, int_start, byte_len_low, byte_len_high}
use rust_bt.Bencode.Decode.{
  BDecodeOpt, ok, ◌>>=◌, slice, decode_int, decode_bytes, last_key, check_order, insert_vacant,
  decode, decode_list, decode_dict,
}
use rust_bt.Bencode.Decode.Read.{peek_byte-drop}

module _ (fuel : ℕ) (input : Bytes) (at : ℕ) (opts : BDecodeOpt) (depth : ℕ) where
  module _ (low : depth < opts.max_recursion) (rest : Bytes) where
    shallow : leb opts.max_recursion depth ≡ false
    shallow = ground arith

    pub decode_step-int :
        drop at input ≡ int_start ∷ rest
        → decode (suc fuel) input at opts depth ≡ (
            decode_int input (at + 1) ben_end >>= λ (n, next).
            ok (int n (slice input at next), next))
    unfolding decode
    decode_step-int h = rw (shallow, peek_byte-drop at input rest int_start h) refl

    pub decode_step-list :
        drop at input ≡ list_start ∷ rest
        → decode (suc fuel) input at opts depth ≡ (
            decode_list fuel input (at + 1) opts depth >>= λ (xs, next).
            ok (list xs (slice input at next), next))
    unfolding decode
    decode_step-list h = rw (shallow, peek_byte-drop at input rest list_start h) refl

    pub decode_step-dict :
        drop at input ≡ dict_start ∷ rest
        → decode (suc fuel) input at opts depth ≡ (
            decode_dict fuel input (at + 1) opts depth end >>= λ (es, next).
            ok (dict es (slice input at next), next))
    unfolding decode
    decode_step-dict h = rw (shallow, peek_byte-drop at input rest dict_start h) refl

    pub decode_step-bytes :
        (c : ℕ)
        → byte_len_low ≤ c
        → c ≤ byte_len_high
        → drop at input ≡ c ∷ rest
        → decode (suc fuel) input at opts depth
          ≡ (decode_bytes input at >>= λ (s, next). ok (bytes s (slice input at next), next))
    unfolding decode
    decode_step-bytes c l u h =
        let i : (c == int_start) ≡ false = ground arith in
        let j : (c == list_start) ≡ false = ground arith in
        let k : (c == dict_start) ≡ false = ground arith in
        let d : (leb byte_len_low c && leb c byte_len_high) ≡ true = ground arith in
        rw (shallow, peek_byte-drop at input rest c h) (rw (i, j, k, d) refl)

  pub decode_list_step-end :
      (rest : Bytes)
      → drop at input ≡ ben_end ∷ rest
      → decode_list (suc fuel) input at opts depth ≡ ok (nil, at + 1)
  unfolding decode_list
  decode_list_step-end rest h = rw (peek_byte-drop at input rest ben_end h) refl

  pub decode_list_step-cons :
      (c : ℕ) (rest : Bytes)
      → c ≢ ben_end
      → drop at input ≡ c ∷ rest
      → decode_list (suc fuel) input at opts depth ≡ (
          decode fuel input at opts (depth + 1) >>= λ (x, next).
          decode_list fuel input next opts depth >>= λ (xs, last). ok (cons x xs, last))
  unfolding decode_list
  decode_list_step-cons c rest ne h =
      let e : (c == ben_end) ≡ false = ground arith in
      rw (peek_byte-drop at input rest c h) (rw e refl)

  pub decode_dict_step-end :
      (rest : Bytes) (es : Entries Bytes)
      → drop at input ≡ ben_end ∷ rest
      → decode_dict (suc fuel) input at opts depth es ≡ ok (es, at + 1)
  unfolding decode_dict
  decode_dict_step-end rest es h = rw (peek_byte-drop at input rest ben_end h) refl

  pub decode_dict_step-entry :
      (c : ℕ) (rest : Bytes) (es : Entries Bytes)
      → c ≢ ben_end
      → drop at input ≡ c ∷ rest
      → decode_dict (suc fuel) input at opts depth es ≡ (
          decode_bytes input at >>= λ (key, key_end). check_order opts at key (last_key es) >>= λ _.
          decode fuel input key_end opts (depth + 1) >>= λ (value, next).
          insert_vacant key_end key value es >>= λ es'. decode_dict fuel input next opts depth es')
  unfolding decode_dict
  decode_dict_step-entry c rest es ne h =
      let e : (c == ben_end) ≡ false = ground arith in
      rw (peek_byte-drop at input rest c h) (rw e refl)
