-- ===== src/Bencode/Decode/Annotate.antt =====
-- What bip_bencode/src/reference/decode.rs is to return for what mutable/encode.rs wrote, and how a
-- written value begins and ends.
use rust_bt.Base.{
  ℕ, ◌+◌, ◌≤◌, ◌<◌, ◌≡◌, ◌≢◌, refl, ap, ◌∙◌, [], ◌∷◌, ◌++◌, append_assoc, Bytes, length, drop,
  length-append, arith,
}
use rust_bt.Bencode.Value.{
  Bencode, Items, Entries, int, bytes, list, dict, nil, cons, end, entry, BencodeRef, buffer,
}
use rust_bt.Bencode.Decimal.RoundTrip.{nat_to_string-Printed}
use rust_bt.Bencode.Encode.{
  ben_end, dict_start, list_start, int_start, byte_len_low, byte_len_high, byte_len_end, encode,
  encode_int, encode_bytes,
}
use rust_bt.Bencode.Decode.{Result, ok, slice}
use rust_bt.Bencode.Decode.Read.{slice-drop}

module _ {B : Type 0} where
  -- The value with each part carrying its own encoding.
  unfoldable mutual
    pub annotate : Bencode B → BencodeRef
    annotate (int n b) = int n (encode (int n b))
    annotate (bytes s b) = bytes s (encode (bytes s b))
    annotate (list xs b) = list (annotate_items xs) (encode (list xs b))
    annotate (dict es b) = dict (annotate_entries es) (encode (dict es b))

    pub annotate_items : Items B → Items Bytes
    annotate_items nil = nil
    annotate_items (cons x xs) = cons (annotate x) (annotate_items xs)

    pub annotate_entries : Entries B → Entries Bytes
    annotate_entries end = end
    annotate_entries (entry k v es) = entry k (annotate v) (annotate_entries es)

  pub buffer-annotate : (v : Bencode B) → buffer (annotate v) ≡ encode v
  unfolding buffer annotate
  buffer-annotate (int n b) = refl
  buffer-annotate (bytes s b) = refl
  buffer-annotate (list xs b) = refl
  buffer-annotate (dict es b) = refl

-- The first byte of a text, which is not the end mark.
pub record Opens (text : Bytes) : Type 0 where
  pub first : ℕ
  pub others : Bytes
  pub spells : text ≡ first ∷ others
  pub other : first ≢ ben_end

pub encode_bytes-digit :
    (s : Bytes)
    → (c : ℕ) × (cs : Bytes) × (encode_bytes s ≡ c ∷ cs) × (byte_len_low ≤ c) × (c ≤ byte_len_high)
unfolding encode_bytes
encode_bytes-digit s =
    let p = nat_to_string-Printed (length s) in
    (p.first, p.others ++ byte_len_end ∷ s, rw p.spells refl, p.all_digits.0, p.all_digits.1)

pub encode_bytes-Opens : (s : Bytes) → Opens (encode_bytes s)
encode_bytes-Opens s =
    let (c, cs, e, low, high) = encode_bytes-digit s in
    record { first = c; others = cs; spells = e; other = omega arith }

pub encode-Opens : {B : Type 0} (v : Bencode B) → Opens (encode v)
unfolding encode encode_int
encode-Opens (int n b) = record {
  first = int_start;
  others = _;
  spells = refl;
  other = omega arith;
}
encode-Opens (bytes s b) = encode_bytes-Opens s
encode-Opens (list xs b) = record {
  first = list_start;
  others = _;
  spells = refl;
  other = omega arith;
}
encode-Opens (dict es b) = record {
  first = dict_start;
  others = _;
  spells = refl;
  other = omega arith;
}

pub length-Opens : (text : Bytes) → Opens text → 0 < length text
length-Opens text o = omega (arith, ap length o.spells)

pub opened :
    (input text rest : Bytes) (at : ℕ) (o : Opens text)
    → drop at input ≡ text ++ rest
    → drop at input ≡ o.first ∷ (o.others ++ rest)
opened input text rest at o h = h ∙ ap (λ (t : Bytes). t ++ rest) o.spells

-- The text between marks, and what follows it.
pub between :
    (c d : ℕ) (text rest : Bytes) → (c ∷ (text ++ d ∷ [])) ++ rest ≡ c ∷ (text ++ d ∷ rest)
between c d text rest = ap (λ (t : Bytes). c ∷ t) (append_assoc text (d ∷ []) rest)

pub length-between :
    (c d : ℕ) (text : Bytes) (at : ℕ)
    → at + 1 + length text + 1 ≡ at + length (c ∷ (text ++ d ∷ []))
length-between c d text at = omega (arith, length-append text (d ∷ []))

abbrev read_as : BencodeRef → ℕ → Result (BencodeRef × ℕ)
read_as v next = ok (v, next)

pub finish :
    (input text rest : Bytes) (at next : ℕ) (mk : Bytes → BencodeRef)
    → next ≡ at + length text
    → drop at input ≡ text ++ rest
    → read_as (mk (slice input at next)) next ≡ read_as (mk text) (at + length text)
finish input text rest at next mk e h =
    ap (λ (n : ℕ). read_as (mk (slice input at n)) n) e
    ∙ ap (λ (t : Bytes). read_as (mk t) (at + length text)) (slice-drop at input text rest h)
