-- ===== src/Bencode/Decode/RoundTrip.antt =====
-- What bip_bencode/src/mutable/encode.rs writes, reference/decode.rs reads back, with each part of the
-- value carrying the bytes that it was written as.
use rust_bt.Base.{
  ℕ, zero, suc, ◌+◌, ◌*◌, ◌≤◌, ◌<◌, ◌≡◌, refl, sym, ap, ◌∙◌, [], ◌∷◌, ◌++◌, append_assoc,
  append-nil, true, Bytes, length, drop, ◌==◌, length-append, drop-append, arith,
}
use rust_bt.Base.Int.{ℤ}
use rust_bt.Bencode.Value.{
  Bencode, Items, Entries, int, bytes, list, dict, nil, cons, end, entry, BencodeRef, height,
  height_items, height_entries, AllAbove, AllBelow, IsWf, AreWf, AreWfEntries,
}
use rust_bt.Bencode.Decimal.{to_string}
use rust_bt.Bencode.Encode.{
  ben_end, dict_start, list_start, int_start, encode, encode_int, encode_bytes, encode_list,
  encode_pairs, sort_pairs, concat_pairs,
}
use rust_bt.Bencode.Decode.{
  BDecodeOpt, ok, decode, decode_list, decode_dict, enough_fuel, check_end, decode_ref,
}
use rust_bt.Bencode.Decode.Read.{drop-past, decode_int-to_string, decode_bytes-encode_bytes}
use rust_bt.Bencode.Decode.Map.{
  encode_entries, concat-sort_pairs, append_entries, append_entries_assoc, append_entries-end,
  append-AllBelow, check_order-AllBelow, insert_vacant-AllBelow,
}
use rust_bt.Bencode.Decode.Steps.{
  decode_step-int, decode_step-list, decode_step-dict, decode_step-bytes, decode_list_step-end,
  decode_list_step-cons, decode_dict_step-end, decode_dict_step-entry,
}
use rust_bt.Bencode.Decode.Annotate.{
  annotate, annotate_items, annotate_entries, encode_bytes-digit, encode_bytes-Opens, encode-Opens,
  length-Opens, opened, between, length-between, finish,
}

module _ {B : Type 0} (input : Bytes) (opts : BDecodeOpt) where
  -- With enough fuel and levels, the value that stands at a position of the input is read from there.
  abbrev DecodesAt : Bencode B → ℕ → ℕ → Type 0
  DecodesAt v fuel depth =
      (at : ℕ) (rest : Bytes)
      → drop at input ≡ encode v ++ rest
      → decode fuel input at opts depth ≡ ok (annotate v, at + length (encode v))

  abbrev DecodesItemsAt : Items B → ℕ → ℕ → Type 0
  DecodesItemsAt xs fuel depth =
      (at : ℕ) (rest : Bytes)
      → drop at input ≡ encode_list xs ++ ben_end ∷ rest
      → decode_list fuel input at opts depth
        ≡ ok (annotate_items xs, at + length (encode_list xs) + 1)

  -- Every key of the second map is above those of the first.
  abbrev AreAbove : Entries B → Entries Bytes → Type 0
  AreAbove end acc = Unit {0}
  AreAbove (entry k v es) acc = AllBelow k acc × AreAbove es acc

  abbrev DecodesEntriesAt : Entries B → ℕ → ℕ → Type 0
  DecodesEntriesAt es fuel depth =
      (at : ℕ) (rest : Bytes) (acc : Entries Bytes)
      → AreAbove es acc
      → drop at input ≡ encode_entries es ++ ben_end ∷ rest
      → decode_dict fuel input at opts depth acc
        ≡ ok (append_entries acc (annotate_entries es), at + length (encode_entries es) + 1)

  above-end : (es : Entries B) → AreAbove es end
  above-end end = tt
  above-end (entry k v es) = (tt, above-end es)

  above-snoc :
      (k : Bytes) (v : BencodeRef) (es : Entries B) (acc : Entries Bytes)
      → AllAbove k es
      → AreAbove es acc
      → AreAbove es (append_entries acc (entry k v end))
  above-snoc k v end acc a b = tt
  above-snoc k v (entry j w es) acc a b =
      (append-AllBelow j k v acc b.0 a.0, above-snoc k v es acc a.1 b.1)

  decodes-int :
      (n : ℤ) (b : B) (fuel depth : ℕ)
      → IsWf (int n b)
      → depth < opts.max_recursion
      → DecodesAt (int n b) (suc fuel) depth
  unfolding annotate encode encode_int IsWf
  decodes-int n b fuel depth w low at rest h =
      let text = int_start ∷ (to_string n ++ ben_end ∷ []) in
      let h' = h ∙ between int_start ben_end (to_string n) rest in
      let read =
        decode_int-to_string input rest (at + 1) ben_end n w (omega arith)
          (drop-past at input (int_start ∷ []) _ h') in
      rw (decode_step-int fuel input at opts depth low _ h', read)
        (finish input text rest at _ (λ t. int n t)
          (length-between int_start ben_end (to_string n) at) h)

  decodes-bytes :
      (s : Bytes) (b : B) (fuel depth : ℕ)
      → IsWf (bytes s b)
      → depth < opts.max_recursion
      → DecodesAt (bytes s b) (suc fuel) depth
  unfolding annotate encode IsWf
  decodes-bytes s b fuel depth w low at rest h =
      let (c, cs, e, up, down) = encode_bytes-digit s in
      let h' : drop at input ≡ c ∷ (cs ++ rest) = h ∙ ap (λ (t : Bytes). t ++ rest) e in
      let read = decode_bytes-encode_bytes input rest s at w h in
      rw (decode_step-bytes fuel input at opts depth low _ c up down h', read)
        (finish input (encode_bytes s) rest at _ (λ t. bytes s t) refl h)

  decodes-list :
      (xs : Items B) (b : B) (fuel depth : ℕ)
      → depth < opts.max_recursion
      → DecodesItemsAt xs fuel depth
      → DecodesAt (list xs b) (suc fuel) depth
  unfolding annotate encode
  decodes-list xs b fuel depth low items at rest h =
      let text = encode_list xs in
      let h' = h ∙ between list_start ben_end text rest in
      let read = items (at + 1) rest (drop-past at input (list_start ∷ []) _ h') in
      rw (decode_step-list fuel input at opts depth low _ h', read)
        (finish input (list_start ∷ (text ++ ben_end ∷ [])) rest at _
          (λ t. list (annotate_items xs) t) (length-between list_start ben_end text at) h)

  decodes-dict :
      (es : Entries B) (b : B) (fuel depth : ℕ)
      → AreWfEntries es
      → depth < opts.max_recursion
      → DecodesEntriesAt es fuel depth
      → DecodesAt (dict es b) (suc fuel) depth
  unfolding annotate encode
  decodes-dict es b fuel depth w low entries at rest h =
      let text = concat_pairs (sort_pairs (encode_pairs es)) in
      let e = concat-sort_pairs es w in
      let h' = h ∙ between dict_start ben_end text rest in
      let h'' : drop (at + 1) input ≡ encode_entries es ++ ben_end ∷ rest =
        drop-past at input (dict_start ∷ []) _ h' ∙ ap (λ (t : Bytes). t ++ ben_end ∷ rest) e in
      let read = entries (at + 1) rest end (above-end es) h'' in
      rw (decode_step-dict fuel input at opts depth low _ h', read)
        (finish input (dict_start ∷ (text ++ ben_end ∷ [])) rest at _
          (λ t. dict (annotate_entries es) t)
          (omega (arith, ap length e, length-between dict_start ben_end text at)) h)

  decodes-cons :
      (x : Bencode B) (xs : Items B) (fuel depth : ℕ)
      → DecodesAt x fuel (depth + 1)
      → DecodesItemsAt xs fuel depth
      → DecodesItemsAt (cons x xs) (suc fuel) depth
  unfolding encode_list annotate_items
  decodes-cons x xs fuel depth one more at rest h =
      let h' = h ∙ append_assoc (encode x) (encode_list xs) (ben_end ∷ rest) in
      let o = encode-Opens x in
      let read = one at (encode_list xs ++ ben_end ∷ rest) h' in
      let read' = more (at + length (encode x)) rest (drop-past at input (encode x) _ h') in
      let size = length-append (encode x) (encode_list xs) in
      let e : at + length (encode x) + length (encode_list xs) + 1
          ≡ at + length (encode x ++ encode_list xs) + 1 =
        omega arith in
      rw
        (
          decode_list_step-cons fuel input at opts depth o.first _ o.other
              (opened input (encode x) _ at o h'),
          read,
          read',
        )
        (rw e refl)

  decodes-entry :
      (k : Bytes) (v : Bencode B) (es : Entries B) (fuel depth : ℕ)
      → AreWfEntries (entry k v es)
      → DecodesAt v fuel (depth + 1)
      → DecodesEntriesAt es fuel depth
      → DecodesEntriesAt (entry k v es) (suc fuel) depth
  unfolding encode_entries annotate_entries AreWfEntries
  decodes-entry k v es fuel depth w one more at rest acc above h =
      let tail = encode v ++ encode_entries es in
      let h₁ = h ∙ append_assoc (encode_bytes k) tail (ben_end ∷ rest) in
      let o = encode_bytes-Opens k in
      let key = decode_bytes-encode_bytes input (tail ++ ben_end ∷ rest) k at w.0 h₁ in
      let at₂ = at + length (encode_bytes k) in
      let h₂ =
        drop-past at input (encode_bytes k) _ h₁
        ∙ append_assoc (encode v) (encode_entries es) (ben_end ∷ rest) in
      let value = one at₂ (encode_entries es ++ ben_end ∷ rest) h₂ in
      let at₃ = at₂ + length (encode v) in
      let acc' = append_entries acc (entry k (annotate v) end) in
      let above' = above-snoc k (annotate v) es acc w.2 above.1 in
      let others = more at₃ rest acc' above' (drop-past at₂ input (encode v) _ h₂) in
      let size = length-append (encode_bytes k) tail in
      let size' = length-append (encode v) (encode_entries es) in
      let e : at₃ + length (encode_entries es) + 1 ≡ at + length (encode_bytes k ++ tail) + 1 =
        omega arith in
      let all = append_entries_assoc acc k (annotate v) (annotate_entries es) in
      let order = check_order-AllBelow opts at k acc above.0 in
      let put = insert_vacant-AllBelow at₂ k (annotate v) acc above.0 in
      let step =
        decode_dict_step-entry fuel input at opts depth o.first _ acc o.other
          (opened input (encode_bytes k) _ at o h₁) in
      rw (step, key) (rw order (rw value (rw put (rw (others, all, e) refl))))

  mutual
    unfolding encode encode_list encode_entries IsWf AreWf AreWfEntries height annotate

    decodes-value :
        (v : Bencode B) (fuel depth : ℕ)
        → IsWf v
        → depth + height v ≤ opts.max_recursion
        → 2 * length (encode v) < fuel
        → DecodesAt v fuel depth
    decodes-value v zero depth w low enough = absurd (omega arith)
    decodes-value (int n b) (suc fuel) depth w low enough =
        decodes-int n b fuel depth w (omega arith)
    decodes-value (bytes s b) (suc fuel) depth w low enough =
        decodes-bytes s b fuel depth w (omega arith)
    decodes-value (list xs b) (suc fuel) depth w low enough =
        let size = length-append (encode_list xs) (ben_end ∷ []) in
        decodes-list xs b fuel depth (omega arith)
          (decodes-items xs fuel depth w (omega arith) (omega arith))
    decodes-value (dict es b) (suc fuel) depth w low enough =
        let size = length-append (concat_pairs (sort_pairs (encode_pairs es))) (ben_end ∷ []) in
        let e = ap length (concat-sort_pairs es w) in
        decodes-dict es b fuel depth w (omega arith)
          (decodes-entries es fuel depth w (omega arith) (omega arith))

    decodes-items :
        (xs : Items B) (fuel depth : ℕ)
        → AreWf xs
        → depth + 1 + height_items xs ≤ opts.max_recursion
        → 2 * length (encode_list xs) + 1 < fuel
        → DecodesItemsAt xs fuel depth
    decodes-items xs zero depth w low enough = absurd (omega arith)
    decodes-items nil (suc fuel) depth w low enough = λ at rest h.
        let e : at + 0 + 1 ≡ at + 1 = omega arith in
        rw (decode_list_step-end fuel input at opts depth rest h, e) refl
    decodes-items (cons x xs) (suc fuel) depth w low enough =
        let size = length-append (encode x) (encode_list xs) in
        let some = length-Opens (encode x) (encode-Opens x) in
        decodes-cons x xs fuel depth
          (decodes-value x fuel (depth + 1) w.0 (omega arith) (omega arith))
          (decodes-items xs fuel depth w.1 (omega arith) (omega arith))

    decodes-entries :
        (es : Entries B) (fuel depth : ℕ)
        → AreWfEntries es
        → depth + 1 + height_entries es ≤ opts.max_recursion
        → 2 * length (encode_entries es) + 1 < fuel
        → DecodesEntriesAt es fuel depth
    decodes-entries es zero depth w low enough = absurd (omega arith)
    decodes-entries end (suc fuel) depth w low enough = λ at rest acc above h.
        let e : at + 0 + 1 ≡ at + 1 = omega arith in
        rw (decode_dict_step-end fuel input at opts depth rest acc h, append_entries-end acc, e)
          refl
    decodes-entries (entry k v es) (suc fuel) depth w low enough =
        let size = length-append (encode_bytes k) (encode v ++ encode_entries es) in
        let size' = length-append (encode v) (encode_entries es) in
        let some = length-Opens (encode v) (encode-Opens v) in
        decodes-entry k v es fuel depth w
          (decodes-value v fuel (depth + 1) w.1 (omega arith) (omega arith))
          (decodes-entries es fuel depth w.3 (omega arith) (omega arith))

-- Whatever stands around it, an encoded value that is well formed and not too deep is decoded where it
-- stands, each part with the bytes that it was written as, and the position behind it is returned.
pub decode-encode :
    {B : Type 0} (v : Bencode B) (pre rest : Bytes) (opts : BDecodeOpt) (depth fuel : ℕ)
    → IsWf v
    → depth + height v ≤ opts.max_recursion
    → 2 * length (encode v) < fuel
    → decode fuel (pre ++ (encode v ++ rest)) (length pre) opts depth
      ≡ ok (annotate v, length pre + length (encode v))
decode-encode v pre rest opts depth fuel w low enough =
    decodes-value (pre ++ (encode v ++ rest)) opts v fuel depth w low enough (length pre) rest
      (drop-append pre (encode v ++ rest))

-- Encoding a well-formed value and decoding the result gives the value back, each part with the bytes
-- that it was written as, with any options that allow its depth.
pub decode_ref-encode :
    {B : Type 0} (v : Bencode B) (opts : BDecodeOpt)
    → IsWf v
    → height v ≤ opts.max_recursion
    → decode_ref (encode v) opts ≡ ok (annotate v)
unfolding decode_ref check_end
decode_ref-encode v opts w low =
    let whole = append-nil (encode v) in
    let fuel = enough_fuel (encode v) in
    let read : decode fuel (encode v) 0 opts 0 ≡ ok (annotate v, 0 + length (encode v)) =
      decodes-value (encode v) opts v fuel 0 w (omega arith) (omega arith) 0 [] (sym whole) in
    let full : (0 + length (encode v) == length (encode v)) ≡ true = ground arith in
    rw read (rw full refl)
