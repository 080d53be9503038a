-- ===== src/Bencode/Decode/Map.antt =====
-- The entries of a dictionary in the order of their keys: bip_bencode/src/mutable/encode.rs sorts what
-- is sorted, and reference/decode.rs inserts each key behind the others.
use rust_bt.Base.{
  ℕ, ◌≡◌, refl, ap, subst, ◌∙◌, List, [], ◌∷◌, ◌++◌, append_assoc, true, false, some, Bytes,
  bytes_lt, inl, inr, Option-cases, arith,
}
use rust_bt.Base.{bytes_lt_asymm, bytes_lt-eq}
use rust_bt.Bencode.Value.{Bencode, Entries, end, entry, AllAbove, AllBelow, AreWfEntries}
use rust_bt.Bencode.Encode.{
  insert_pair, sort_pairs, concat_pairs, encode, encode_bytes, encode_pairs,
}
use rust_bt.Bencode.Decode.{BDecodeOpt, ok, last_key, contains, insert, check_order, insert_vacant}

abbrev IsLeast : Bytes → List (Bytes × Bytes) → Type 0
IsLeast k [] = Unit {0}
IsLeast k (p ∷ ps) = bytes_lt k p.0 ≡ true

module _ {B : Type 0} where
  -- The encoded entries in the order of the map.
  unfoldable pub encode_entries : Entries B → Bytes
  encode_entries end = []
  encode_entries (entry k v es) = encode_bytes k ++ (encode v ++ encode_entries es)

  pairs-IsLeast : (k : Bytes) (es : Entries B) → AllAbove k es → IsLeast k (encode_pairs es)
  unfolding encode_pairs
  pairs-IsLeast k end a = tt
  pairs-IsLeast k (entry k' v es) a = a.0

insert_pair-least :
    (p : Bytes × Bytes) (ps : List (Bytes × Bytes)) → IsLeast p.0 ps → insert_pair p ps ≡ p ∷ ps
unfolding insert_pair
insert_pair-least p [] l = refl
insert_pair-least p (q ∷ ps) l = rw (bytes_lt_asymm p.0 q.0 l) refl

module _ {B : Type 0} where
  sort-encode_pairs :
      (es : Entries B) → AreWfEntries es → sort_pairs (encode_pairs es) ≡ encode_pairs es
  unfolding sort_pairs encode_pairs AreWfEntries
  sort-encode_pairs end w = refl
  sort-encode_pairs (entry k v es) (_, _, least, w) =
      rw (sort-encode_pairs es w) (insert_pair-least _ (encode_pairs es) (pairs-IsLeast k es least))

  concat-encode_pairs : (es : Entries B) → concat_pairs (encode_pairs es) ≡ encode_entries es
  unfolding concat_pairs encode_pairs encode_entries
  concat-encode_pairs end = refl
  concat-encode_pairs (entry k v es) =
      rw (concat-encode_pairs es) (append_assoc (encode_bytes k) (encode v) (encode_entries es))

  -- The entries of a map are written in its order.
  pub concat-sort_pairs :
      (es : Entries B)
      → AreWfEntries es
      → concat_pairs (sort_pairs (encode_pairs es)) ≡ encode_entries es
  concat-sort_pairs es w = rw (sort-encode_pairs es w) (concat-encode_pairs es)

  abbrev pub append_entries : Entries B → Entries B → Entries B
  append_entries end fs = fs
  append_entries (entry k v es) fs = entry k v (append_entries es fs)

  pub append_entries_assoc :
      (es : Entries B) (k : Bytes) (v : Bencode B) (fs : Entries B)
      → append_entries (append_entries es (entry k v end)) fs ≡ append_entries es (entry k v fs)
  append_entries_assoc end k v fs = refl
  append_entries_assoc (entry j w es) k v fs =
      ap (λ (t : Entries B). entry j w t) (append_entries_assoc es k v fs)

  pub append_entries-end : (es : Entries B) → append_entries es end ≡ es
  append_entries-end end = refl
  append_entries-end (entry k v es) = ap (λ (t : Entries B). entry k v t) (append_entries-end es)

  pub append-AllBelow :
      (j k : Bytes) (v : Bencode B) (es : Entries B)
      → AllBelow j es
      → bytes_lt k j ≡ true
      → AllBelow j (append_entries es (entry k v end))
  append-AllBelow j k v end b h = (h, tt)
  append-AllBelow j k v (entry i w es) b h = (b.0, append-AllBelow j k v es b.1 h)

  -- A key above all others goes behind them.
  pub insert-AllBelow :
      (k : Bytes) (v : Bencode B) (es : Entries B)
      → AllBelow k es
      → insert k v es ≡ append_entries es (entry k v end)
  unfolding insert
  insert-AllBelow k v end b = refl
  insert-AllBelow k v (entry j w es) b =
      rw (bytes_lt_asymm j k b.0, insert-AllBelow k v es b.1) refl

  pub contains-AllBelow : (k : Bytes) (es : Entries B) → AllBelow k es → contains k es ≡ false
  unfolding contains
  contains-AllBelow k end b = refl
  contains-AllBelow k (entry j w es) b = rw (bytes_lt-eq j k b.0) (contains-AllBelow k es b.1)

  last_key-AllBelow :
      (k j : Bytes) (es : Entries B) → AllBelow k es → last_key es ≡ some j → bytes_lt j k ≡ true
  unfolding last_key
  last_key-AllBelow k j end b h = cc
  last_key-AllBelow k j (entry i w es) b h = elim (Option-cases (last_key es)) [
    | inl e ↦
        let same : some i ≡ some j = rw (e, last_key) at h in
        let eq : i ≡ j = cc same in subst (λ x. bytes_lt x k ≡ true) eq b.0
    | inr (m, e) ↦
        let same : some m ≡ some j = rw (e, last_key) at h in
        last_key-AllBelow k j es b.1 (e ∙ same)
  ]

-- A key above all others passes the check on the order, and is inserted.
pub check_order-AllBelow :
    (opts : BDecodeOpt) (at : ℕ) (key : Bytes) (es : Entries Bytes)
    → AllBelow key es
    → check_order opts at key (last_key es) ≡ ok tt
check_order-AllBelow opts at key es b = elim (Option-cases (last_key es)) [
  | inl e ↦ rw e (unfold check_order in refl)
  | inr (j, e) ↦
      let below = bytes_lt_asymm j key (last_key-AllBelow key j es b e) in
      rw e (unfold check_order in ground arith)
]

pub insert_vacant-AllBelow :
    (at : ℕ) (key : Bytes) (value : Bencode Bytes) (es : Entries Bytes)
    → AllBelow key es
    → insert_vacant at key value es ≡ ok (append_entries es (entry key value end))
unfolding insert_vacant
insert_vacant-AllBelow at key value es b =
    rw (contains-AllBelow key es b, insert-AllBelow key value es b) refl
