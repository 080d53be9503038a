-- ===== src/Bencode/Encode.antt =====
-- bip_bencode/src/mutable/encode.rs: the encoder.
use rust_bt.Base.{ℕ, List, [], ◌∷◌, ◌++◌, Bytes, bytes_lt, length, if◌then◌else◌}
use rust_bt.Base.Int.{ℤ}
use rust_bt.Bencode.Value.{Bencode, Items, Entries, int, bytes, list, dict, nil, cons, end, entry}
use rust_bt.Bencode.Decimal.{nat_to_string, to_string}

abbrev pub ben_end : ℕ
ben_end = b'e'

abbrev pub dict_start : ℕ
dict_start = b'd'

abbrev pub list_start : ℕ
list_start = b'l'

abbrev pub int_start : ℕ
int_start = b'i'

abbrev pub byte_len_low : ℕ
byte_len_low = b'0'

abbrev pub byte_len_high : ℕ
byte_len_high = b'9'

abbrev pub byte_len_end : ℕ
byte_len_end = b':'

unfoldable pub encode_int : ℤ → Bytes
encode_int n = int_start ∷ (to_string n ++ ben_end ∷ [])

unfoldable pub encode_bytes : Bytes → Bytes
encode_bytes s = nat_to_string (length s) ++ byte_len_end ∷ s

-- `sort_by` on the keys: a stable sort, here by insertion. A pair holds a key and its encoded entry.
unfoldable pub insert_pair : Bytes × Bytes → List (Bytes × Bytes) → List (Bytes × Bytes)
insert_pair p [] = p ∷ []
insert_pair p (q ∷ ps) = if bytes_lt q.0 p.0 then q ∷ insert_pair p ps else p ∷ q ∷ ps

unfoldable pub sort_pairs : List (Bytes × Bytes) → List (Bytes × Bytes)
unfolding insert_pair
sort_pairs [] = []
sort_pairs (p ∷ ps) = insert_pair p (sort_pairs ps)

unfoldable pub concat_pairs : List (Bytes × Bytes) → Bytes
concat_pairs [] = []
concat_pairs (p ∷ ps) = p.1 ++ concat_pairs ps

-- The entries are encoded before they are sorted, which leaves the bytes the same.
module _ {B : Type 0} where
  unfoldable mutual
    pub encode : Bencode B → Bytes
    encode (int n b) = encode_int n
    encode (bytes s b) = encode_bytes s
    encode (list xs b) = list_start ∷ (encode_list xs ++ ben_end ∷ [])
    encode (dict es b) = dict_start ∷ (concat_pairs (sort_pairs (encode_pairs es)) ++ ben_end ∷ [])

    pub encode_list : Items B → Bytes
    encode_list nil = []
    encode_list (cons x xs) = encode x ++ encode_list xs

    pub encode_pairs : Entries B → List (Bytes × Bytes)
    encode_pairs end = []
    encode_pairs (entry k v es) = (k, encode_bytes k ++ encode v) ∷ encode_pairs es
