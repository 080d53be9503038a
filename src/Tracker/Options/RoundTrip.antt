-- ===== src/Tracker/Options/RoundTrip.antt =====
-- The options that bip_utracker/src/option.rs writes are read back, and its loop ends.
use rust_bt.Base.{
  ℕ, zero, suc, ◌≤◌, ◌<◌, ◌≡◌, ◌≢◌, refl, sym, ap, ◌∙◌, [], ◌∷◌, ◌++◌, append_assoc, append-nil,
  false, Bytes, length, take, drop, ◌==◌, ==_iff, length-append, take-append-drop, length-drop,
  Bool-cases, inl, inr, subst, arith,
}
use rust_bt.Wire.{done, Nom, Byteorder}
use rust_bt.Wire.Reads.{Reads, after_done}
use rust_bt.Tracker.Options.{
  RawOptions, AnnounceOptions, extend_entry, parse_options, options_from_bytes, write_chunks,
  write_raw, write_options,
}
use rust_bt.Tracker.Options.Rounds.{option-end, option-user}

abbrev Lacks : ℕ → RawOptions → Type 0
Lacks key [] = Unit {0}
Lacks key ((k, content) ∷ options) = (k ≢ key) × Lacks key options

-- None of the options has its byte among those of the map.
abbrev AllLack : RawOptions → RawOptions → Type 0
AllLack [] m = Unit {0}
AllLack ((key, content) ∷ options) m = Lacks key m × AllLack options m

-- Each option has a byte that is neither that of the end nor that of no operation, and a content that
-- is not empty; no two have the same byte.
abbrev pub AreWritable : RawOptions → Type 0
AreWritable [] = Unit {0}
AreWritable ((key, content) ∷ options) =
    (1 < key) × (0 < length content) × Lacks key options × AreWritable options

Lacks-append :
    (k key : ℕ) (content : Bytes) (m : RawOptions)
    → Lacks k m
    → k ≢ key
    → Lacks k (m ++ (key, content) ∷ [])
Lacks-append k key content [] l ne = (λ e. ne (sym e), tt)
Lacks-append k key content ((j, c) ∷ m) l ne = (l.0, Lacks-append k key content m l.1 ne)

AllLack-append :
    (key : ℕ) (content : Bytes) (options m : RawOptions)
    → Lacks key options
    → AllLack options m
    → AllLack options (m ++ (key, content) ∷ [])
AllLack-append key content [] m lacks l = tt
AllLack-append key content ((k, c) ∷ options) m lacks l =
    (Lacks-append k key content m l.0 lacks.0, AllLack-append key content options m lacks.1 l.1)

AllLack-nil : (options : RawOptions) → AllLack options []
AllLack-nil [] = tt
AllLack-nil ((k, c) ∷ options) = (tt, AllLack-nil options)

extend-fresh :
    (key : ℕ) (content : Bytes) (m : RawOptions)
    → Lacks key m
    → extend_entry key content m ≡ m ++ (key, content) ∷ []
unfolding extend_entry
extend-fresh key content [] l = refl
extend-fresh key content ((k, c) ∷ m) l =
    let e : (k == key) ≡ false = ground (arith, l.0) in rw (e, extend-fresh key content m l.1) refl

extend-twice :
    (key : ℕ) (c d : Bytes) (m : RawOptions)
    → extend_entry key d (extend_entry key c m) ≡ extend_entry key (c ++ d) m
unfolding extend_entry
extend-twice key c d [] = rw ((==_iff key key).1 refl) refl
extend-twice key c d ((k, old) ∷ m) = elim (Bool-cases (k == key)) [
  | inl e ↦ rw e (rw e (rw (append_assoc old c d) refl))
  | inr e ↦ rw e (rw (e, extend-twice key c d m) refl)
]

module _ ⦃nom : Nom⦄ where
  -- With more rounds than bytes, the loop ends with the map and what is left.
  abbrev Finishes : RawOptions → Bytes → Bytes → RawOptions → Type 0
  Finishes m bytes rest result =
      (rounds : ℕ) → length bytes < rounds → parse_options rounds m bytes ≡ done rest result

  Finishes-end : (m : RawOptions) (rest : Bytes) → Finishes m (0 ∷ rest) rest m
  unfolding parse_options
  Finishes-end m rest zero h = absurd (omega arith)
  Finishes-end m rest (suc rounds) h = after_done _ (option-end m rest)

  Finishes-user :
      (m : RawOptions) (key : ℕ) (chunk bytes rest : Bytes) (result : RawOptions)
      → 1 < key
      → Finishes (extend_entry key chunk m) bytes rest result
      → Finishes m (key ∷ length chunk ∷ chunk ++ bytes) rest result
  unfolding parse_options
  Finishes-user m key chunk bytes rest result high next zero h = absurd (omega arith)
  Finishes-user m key chunk bytes rest result high next (suc rounds) h =
      after_done _ (option-user m key (omega arith) (omega arith) (length chunk) chunk bytes refl)
      ∙ next rounds (omega (arith, length-append chunk bytes))

  module _ ⦃order : Byteorder⦄ where
    written :
        (key n : ℕ) (chunk others tail : Bytes)
        → (order.write_u8 key ++ (order.write_u8 n ++ (chunk ++ others))) ++ tail
          ≡ key ∷ n ∷ chunk ++ (others ++ tail)
    written key n chunk others tail =
        rw (order.write_u8-bytes key, order.write_u8-bytes n, append_assoc chunk others tail) refl

    module _ (key : ℕ) (high : 1 < key) (tail rest : Bytes) (result : RawOptions) where
      abbrev Chunks : ℕ → RawOptions → Bytes → Type 0
      Chunks n m content =
          Finishes (extend_entry key content m) tail rest result
          → Finishes m (write_chunks n key content ++ tail) rest result

      Chunks-behind :
          (n : ℕ) (m : RawOptions) (chunk behind : Bytes)
          → ((m' : RawOptions) (d : ℕ) (ds : Bytes) → length ds < n → Chunks n m' (d ∷ ds))
          → length behind ≤ n
          → Finishes (extend_entry key (chunk ++ behind) m) tail rest result
          → Finishes (extend_entry key chunk m) (write_chunks n key behind ++ tail) rest result
      unfolding write_chunks
      Chunks-behind n m chunk [] more size next = rw (append-nil chunk) at next
      Chunks-behind n m chunk (d ∷ ds) more size next =
          more (extend_entry key chunk m) d ds (omega arith)
            (rw (extend-twice key chunk (d ∷ ds) m) next)

      -- The chunks of a content are put together again.
      chunks :
          (n : ℕ) (m : RawOptions) (c : ℕ) (content : Bytes)
          → length content < n
          → Chunks n m (c ∷ content)
      unfolding write_chunks
      chunks zero m c content size next = absurd (omega arith)
      chunks (suc n) m c content size next =
          let chunk : Bytes = c ∷ take 254 content in
          let behind = drop 254 content in
          let whole : chunk ++ behind ≡ c ∷ content =
            ap (λ (l : Bytes). c ∷ l) (take-append-drop 254 content) in
          let others =
            Chunks-behind n m chunk behind (chunks n) (omega (arith, length-drop 254 content))
              (rw whole next) in
          subst (λ (bytes : Bytes). Finishes m bytes rest result)
            (sym (written key (length chunk) chunk (write_chunks n key behind) tail))
            (Finishes-user m key chunk (write_chunks n key behind ++ tail) rest result high others)

    raw :
        (options m : RawOptions) (tail rest : Bytes) (result : RawOptions)
        → AreWritable options
        → AllLack options m
        → Finishes (m ++ options) tail rest result
        → Finishes m (write_raw options ++ tail) rest result
    unfolding write_raw
    raw [] m tail rest result w l next = rw (append-nil m) at next
    raw ((key, []) ∷ options) m tail rest result w l next = absurd (omega (arith, w.1))
    raw ((key, c ∷ content) ∷ options) m tail rest result w l next =
        let entry : RawOptions = (key, c ∷ content) ∷ [] in
        let others =
          raw options (m ++ entry) tail rest result w.3
            (AllLack-append key (c ∷ content) options m w.2 l.1)
            (rw (append_assoc m entry options) next) in
        let behind = write_raw options ++ tail in
        rw
          (append_assoc (write_chunks (suc (length content)) key (c ∷ content)) (write_raw options)
            tail)
          (chunks key w.0 behind rest result (suc (length content)) m c content (omega arith)
            (rw (extend-fresh key (c ∷ content) m l.0) others))

  -- Options with distinct bytes, none of them that of the end or of no operation, and with contents
  -- that are not empty are read back from what is written, whatever follows it.
  pub options_from_bytes-write_options :
      ⦃order : Byteorder⦄ (options : AnnounceOptions)
      → AreWritable options.raw_options
      → Reads options_from_bytes (write_options options) options
  unfolding options_from_bytes write_options
  options_from_bytes-write_options ⦃order⦄ options w = record {
    reads = λ rest.
        let raws = options.raw_options in
        let tail : Bytes = 0 ∷ rest in
        let bytes = write_raw raws ++ tail in
        let finishes =
          raw raws [] tail rest raws w (AllLack-nil raws) (Finishes-end raws rest)
            (suc (length bytes)) (omega arith) in
        rw (order.write_u8-bytes 0, append_assoc (write_raw raws) (0 ∷ []) rest)
          (after_done _ finishes);
  }
