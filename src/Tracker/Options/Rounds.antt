-- ===== src/Tracker/Options/Rounds.antt =====
-- One round of the loop over options in bip_utracker/src/option.rs, on every input.
use rust_bt.Base.{ℕ, ◌<◌, ◌≡◌, ◌≢◌, refl, ◌∙◌, [], ◌∷◌, ◌++◌, true, false, Bytes, length, arith}
use rust_bt.Wire.{done, error, incomplete, size, Nom}
use rust_bt.Wire.Reads.{
  after_done, after_error, after_incomplete, alt_first, alt_second, alt_incomplete, alt_failed,
}
use rust_bt.Tracker.Options.{
  RawOptions, extend_entry, parse_end_option, parse_no_option, option_contents, parse_user_option,
  parse_option,
}

cons-eq_head : (b t : ℕ) → ◌≡◌ {A = Bytes} (b ∷ []) (t ∷ []) → b ≡ t
cons-eq_head b t e = cc

module _ ⦃nom : Nom⦄ where
  other : (t b : ℕ) (rest : Bytes) → b ≢ t → nom.tag (t ∷ []) (b ∷ rest) ≡ error nom.tag_error
  other t b rest h = nom.tag-other (t ∷ []) (b ∷ []) rest refl (λ e. h (cons-eq_head b t e))

  end-nil : parse_end_option [] ≡ done [] true
  unfolding parse_end_option
  end-nil = after_done _ (alt_first _ nom.eof-done)

  end-zero : (rest : Bytes) → parse_end_option (0 ∷ rest) ≡ done rest true
  unfolding parse_end_option
  end-zero rest = after_done _ (alt_second (nom.eof-more 0 rest) (nom.tag-done (0 ∷ []) rest))

  end-other : (b : ℕ) (rest : Bytes) → b ≢ 0 → parse_end_option (b ∷ rest) ≡ error nom.alt_error
  unfolding parse_end_option
  end-other b rest h = after_error _ (alt_failed (nom.eof-more b rest) (other 0 b rest h))

  no-one : (rest : Bytes) → parse_no_option (1 ∷ rest) ≡ done rest false
  unfolding parse_no_option
  no-one rest = after_done _ (nom.tag-done (1 ∷ []) rest)

  no-other : (b : ℕ) (rest : Bytes) → b ≢ 1 → parse_no_option (b ∷ rest) ≡ error nom.tag_error
  unfolding parse_no_option
  no-other b rest h = after_error _ (other 1 b rest h)

  module _ (m : RawOptions) where
    -- At the end of the input, or at the byte that ends the options, the map is final.
    pub option-nil : parse_option m [] ≡ done [] (true, m)
    unfolding parse_option
    option-nil = alt_first _ (after_done _ end-nil)

    pub option-end : (rest : Bytes) → parse_option m (0 ∷ rest) ≡ done rest (true, m)
    unfolding parse_option
    option-end rest = alt_first _ (after_done _ (end-zero rest))

    pub option-no : (rest : Bytes) → parse_option m (1 ∷ rest) ≡ done rest (false, m)
    unfolding parse_option
    option-no rest =
        alt_second (after_error _ (end-other 1 rest (omega arith)))
          (alt_first _ (after_done _ (no-one rest)))

    module _ (b : ℕ) (not_end : b ≢ 0) (not_no : b ≢ 1) where
      -- Any other byte, with a length and so many bytes behind it, extends the map.
      pub option-user :
          (n : ℕ) (contents rest : Bytes)
          → length contents ≡ n
          → parse_option m (b ∷ n ∷ contents ++ rest) ≡ done rest (false, extend_entry b contents m)
      unfolding parse_option parse_user_option option_contents
      option-user n contents rest h =
          alt_second (after_error _ (end-other b (n ∷ contents ++ rest) not_end)) (
            alt_second (after_error _ (no-other b (n ∷ contents ++ rest) not_no)) (
              after_done _ (nom.be_u8-done b (n ∷ contents ++ rest))
              ∙ after_done _ (
                  after_done _ (nom.be_u8-done n (contents ++ rest))
                  ∙ nom.take-done n contents rest h)))

      pub option-short : parse_option m (b ∷ []) ≡ incomplete (size 1)
      unfolding parse_option parse_user_option option_contents
      option-short = alt_incomplete (after_error _ (end-other b [] not_end)) (
          alt_incomplete (after_error _ (no-other b [] not_no)) (
            after_done _ (nom.be_u8-done b [])
            ∙ after_incomplete _ (after_incomplete _ nom.be_u8-short)))

      pub option-cut :
          (n : ℕ) (xs : Bytes) → length xs < n → parse_option m (b ∷ n ∷ xs) ≡ incomplete (size n)
      unfolding parse_option parse_user_option option_contents
      option-cut n xs h = alt_incomplete (after_error _ (end-other b (n ∷ xs) not_end)) (
          alt_incomplete (after_error _ (no-other b (n ∷ xs) not_no)) (
            after_done _ (nom.be_u8-done b (n ∷ xs))
            ∙ after_incomplete _ (after_done _ (nom.be_u8-done n xs) ∙ nom.take-short n xs h)))
