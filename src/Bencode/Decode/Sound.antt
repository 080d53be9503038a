-- ===== src/Bencode/Decode/Sound.antt =====
-- What the decoder of bip_bencode/src/reference/decode.rs returns on any input: it ends, stays within
-- the input and the recursion limit, and hands out the bytes that it has read.
use Prim.Native.Nat.{max}
use rust_bt.Base.{
  ℕ, zero, suc, ◌+◌, ◌-◌, ◌*◌, ◌≤◌, ◌<◌, ◌≡◌, ◌⊎◌, refl, false, ◌&&◌, not, Bytes, length, leb, ◌==◌,
  Bool-cases, inl, inr, arith,
}
use rust_bt.Bencode.Value.{
  Items, Entries, end, BencodeRef, buffer, height, height_items, height_entries,
}
use rust_bt.Bencode.Decode.{
  BDecodeOpt, slice, decode_int, decode_bytes, last_key, check_order, insert_vacant, decode,
  decode_list, decode_dict, enough_fuel, check_end, decode_ref,
}
use rust_bt.Bencode.Decode.Ensures.{
  Ensures, Ensures-bind, Ensures-mono, Ensures-if, Ensures-peek, Advances, decode_int-Ensures,
  decode_bytes-Ensures, check_order-Ensures, insert_vacant-Ensures,
}

module _ (input : Bytes) (opts : BDecodeOpt) where
  -- What `decode` says of a value read at a position.
  abbrev Reads : ℕ → ℕ → BencodeRef × ℕ → Type 0
  Reads at depth (v, next) =
      (at < next)
      × (next ≤ length input)
      × (depth + height v ≤ opts.max_recursion)
      × (buffer v ≡ slice input at next)

  abbrev ReadsItems : ℕ → ℕ → Items Bytes × ℕ → Type 0
  ReadsItems at depth (xs, next) =
      (at < next) × (next ≤ length input) × (depth + 1 + height_items xs ≤ opts.max_recursion)

  abbrev ReadsEntries : ℕ → ℕ → Entries Bytes × ℕ → Type 0
  ReadsEntries at depth (es, next) =
      (at < next) × (next ≤ length input) × (depth + 1 + height_entries es ≤ opts.max_recursion)

  mutual
    unfolding decode decode_list decode_dict height height_items height_entries buffer

    decode-Ensures :
        (fuel at depth : ℕ)
        → 2 * (length input - at) < fuel
        → Ensures (Reads at depth) (decode fuel input at opts depth)
    decode-Ensures zero at depth enough = absurd (omega arith)
    decode-Ensures (suc fuel) at depth enough =
        let Q = Reads at depth in
        Ensures-if Q (leb opts.max_recursion depth) _ _ (λ _. tt)
          (λ d.
            let low : depth < opts.max_recursion = ground arith in
            Ensures-peek Q input at _ (λ l c.
              Ensures-if Q (c == b'i') _ _
                (λ _.
                  Ensures-bind (Advances input (at + 1)) Q (decode_int input (at + 1) b'e') _
                    (decode_int-Ensures input (at + 1) b'e')
                    (λ (n, next) (l', u). (omega arith, u, omega arith, refl)))
                (λ _.
                  Ensures-if Q (c == b'l') _ _
                    (λ _.
                      Ensures-bind (ReadsItems (at + 1) depth) Q
                        (decode_list fuel input (at + 1) opts depth) _
                        (decode_list-Ensures fuel (at + 1) depth low (omega arith))
                        (λ (xs, next) (l', u, h). (omega arith, u, omega arith, refl)))
                    (λ _.
                      Ensures-if Q (c == b'd') _ _
                        (λ _.
                          Ensures-bind (ReadsEntries (at + 1) depth) Q
                            (decode_dict fuel input (at + 1) opts depth end) _
                            (decode_dict-Ensures fuel (at + 1) depth end (omega arith)
                              (omega arith))
                            (λ (es, next) (l', u, h). (omega arith, u, omega arith, refl)))
                        (λ _.
                          Ensures-if Q (leb b'0' c && leb c b'9') _ _
                            (λ _.
                              Ensures-bind (Advances input at) Q (decode_bytes input at) _
                                (decode_bytes-Ensures input at)
                                (λ (s, next) (l', u). (l', u, omega arith, refl)))
                            (λ _. tt))))))

    decode_list-Ensures :
        (fuel at depth : ℕ)
        → depth < opts.max_recursion
        → 2 * (length input - at) + 1 < fuel
        → Ensures (ReadsItems at depth) (decode_list fuel input at opts depth)
    decode_list-Ensures zero at depth low enough = absurd (omega arith)
    decode_list-Ensures (suc fuel) at depth low enough =
        let Q = ReadsItems at depth in
        Ensures-peek Q input at _ (λ l c.
          Ensures-if Q (c == b'e') _ _ (λ _. (omega arith, omega arith, omega arith))
            (λ _.
              Ensures-bind (Reads at (depth + 1)) Q (decode fuel input at opts (depth + 1)) _
                (decode-Ensures fuel at (depth + 1) (omega arith))
                (λ (x, next) (l', u, h, _).
                  Ensures-bind (ReadsItems next depth) Q (decode_list fuel input next opts depth) _
                    (decode_list-Ensures fuel next depth low (omega arith))
                    (λ (xs, last) (l'', u', h'). (omega arith, u', omega arith)))))

    decode_dict-Ensures :
        (fuel at depth : ℕ) (es : Entries Bytes)
        → depth + 1 + height_entries es ≤ opts.max_recursion
        → 2 * (length input - at) + 1 < fuel
        → Ensures (ReadsEntries at depth) (decode_dict fuel input at opts depth es)
    decode_dict-Ensures zero at depth es low enough = absurd (omega arith)
    decode_dict-Ensures (suc fuel) at depth es low enough =
        let Q = ReadsEntries at depth in
        Ensures-peek Q input at _ (λ l c.
          Ensures-if Q (c == b'e') _ _ (λ _. (omega arith, omega arith, low))
            (λ _.
              Ensures-bind (Advances input at) Q (decode_bytes input at) _
                (decode_bytes-Ensures input at)
                (λ (key, key_end) (l₁, u₁).
                  Ensures-bind (λ _. Unit {0}) Q (check_order opts at key (last_key es)) _
                    (check_order-Ensures opts at key (last_key es))
                    (λ _ _.
                      Ensures-bind (Reads key_end (depth + 1)) Q
                        (decode fuel input key_end opts (depth + 1)) _
                        (decode-Ensures fuel key_end (depth + 1) (omega arith))
                        (λ (value, next) (l₂, u₂, h₂, _).
                          Ensures-bind
                            (λ es'. height_entries es' ≡ max (height value) (height_entries es)) Q
                            (insert_vacant key_end key value es) _
                            (insert_vacant-Ensures key_end key value es)
                            (λ es' h₃.
                              Ensures-mono (ReadsEntries next depth) Q
                                (decode_dict fuel input next opts depth es')
                                (decode_dict-Ensures fuel next depth es' (omega arith)
                                  (omega arith))
                                (λ (es'', last) (l₄, u₄, h₄). (omega arith, u₄, h₄))))))))

-- The value is no deeper than the options allow and carries the bytes from the start of the input to
-- an end within it, which is the end of the input unless the options do without a full decode.
abbrev pub IsWithin : Bytes → BDecodeOpt → BencodeRef → Type 0
IsWithin input opts v =
    (height v ≤ opts.max_recursion)
    × (next : ℕ) × (next ≤ length input)
    × (buffer v ≡ slice input 0 next)
    × ((next ≡ length input) ⊎ (opts.enforce_full_decode ≡ false))

-- On any input the decoder ends without running out of fuel, with an error or with a value that is no
-- deeper than the options allow and carries the bytes from the start of the input to an end within
-- it, which is the end of the input unless the options do without a full decode.
pub decode_ref-Ensures :
    (input : Bytes) (opts : BDecodeOpt) → Ensures (IsWithin input opts) (decode_ref input opts)
unfolding decode_ref check_end
decode_ref-Ensures input opts =
    let ends : (v : BencodeRef) (next : ℕ)
        → (not (next == length input) && opts.enforce_full_decode) ≡ false
        → (next ≡ length input) ⊎ (opts.enforce_full_decode ≡ false) =
      λ v next e. elim (Bool-cases (next == length input)) [
        | inl h ↦ inl (ground arith)
        | inr h ↦ inr (ground arith)
      ] in
    Ensures-bind (Reads input opts 0 0) _ (decode (enough_fuel input) input 0 opts 0)
      (check_end input opts) (decode-Ensures input opts (enough_fuel input) 0 0 (omega arith))
      (λ (v, next) (l, u, h, b).
        Ensures-if _ (not (next == length input) && opts.enforce_full_decode) _ _ (λ _. tt)
          (λ e. (omega arith, next, u, b, ends v next e)))
