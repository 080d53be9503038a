-- ===== src/Tracker/Options/Ends.antt =====
-- The loop over options in bip_utracker/src/option.rs ends on every input.
use rust_bt.Base.{
  ℕ, zero, suc, ◌<◌, ◌≡◌, sym, ap, ◌∙◌, [], ◌∷◌, Bytes, length, take, drop, ltb, take-append-drop,
  length-take, length-drop, Bool-cases, inl, inr, arith, true, false,
}
use rust_bt.Wire.{Needed, IResult, done, error, incomplete, Nom}
use rust_bt.Wire.Reads.{after_done, after_incomplete}
use rust_bt.Tracker.Options.{RawOptions, extend_entry, parse_option, parse_options}
use rust_bt.Tracker.Options.Rounds.{
  option-nil, option-end, option-no, option-user, option-short, option-cut,
}

abbrev pub IsAnswer : {A : Type 0} → IResult A → Type 0
IsAnswer (done rest a) = Unit {0}
IsAnswer (error e) = ⊥
IsAnswer (incomplete n) = Unit {0}

module _ ⦃nom : Nom⦄ where
  -- The loop ends with an answer, which any larger number of rounds gives as well.
  pub record Answered (m : RawOptions) (bytes : Bytes) : Type 0 where
    pub answer : IResult RawOptions
    pub is_answer : IsAnswer answer
    pub rounds : (r : ℕ) → length bytes < r → parse_options r m bytes ≡ answer

  from_suc :
      (m : RawOptions) (bytes : Bytes) (answer : IResult RawOptions)
      → ((r : ℕ) → length bytes < suc r → parse_options (suc r) m bytes ≡ answer)
      → (r : ℕ) → length bytes < r
      → parse_options r m bytes ≡ answer
  from_suc m bytes answer h zero k = absurd (omega arith)
  from_suc m bytes answer h (suc r) k = h r k

  parse_options-short :
      (m : RawOptions) (bytes : Bytes) (n : Needed)
      → parse_option m bytes ≡ incomplete n
      → Answered m bytes
  unfolding parse_options
  parse_options-short m bytes n h = record {
    answer = incomplete n;
    is_answer = tt;
    rounds = from_suc m bytes (incomplete n) (λ r k. after_incomplete _ h);
  }

  parse_options-end :
      (m : RawOptions) (bytes rest : Bytes)
      → parse_option m bytes ≡ done rest (true, m)
      → Answered m bytes
  unfolding parse_options
  parse_options-end m bytes rest h = record {
    answer = done rest m;
    is_answer = tt;
    rounds = from_suc m bytes (done rest m) (λ r k. after_done _ h);
  }

  parse_options-next :
      (m : RawOptions) (bytes : Bytes) (m' : RawOptions) (rest : Bytes)
      → parse_option m bytes ≡ done rest (false, m')
      → length rest < length bytes
      → Answered m' rest
      → Answered m bytes
  unfolding parse_options
  parse_options-next m bytes m' rest h l next = record {
    answer = next.answer;
    is_answer = next.is_answer;
    rounds = from_suc m bytes next.answer (λ r k. after_done _ h ∙ next.rounds r (omega arith));
  }

  answered : (fuel : ℕ) (m : RawOptions) (bytes : Bytes) → length bytes < fuel → Answered m bytes
  answered zero m bytes h = absurd (omega arith)
  answered (suc fuel) m [] h = parse_options-end m [] _ (option-nil m)
  answered (suc fuel) m (zero ∷ bytes) h = parse_options-end m _ _ (option-end m bytes)
  answered (suc fuel) m (suc zero ∷ bytes) h =
      parse_options-next m _ m bytes (option-no m bytes) (omega arith)
        (answered fuel m bytes (omega arith))
  answered (suc fuel) m (suc (suc b) ∷ []) h =
      parse_options-short m _ _ (option-short m (suc (suc b)) (omega arith) (omega arith))
  answered (suc fuel) m (suc (suc b) ∷ n ∷ bytes) h =
      let byte = suc (suc b) in
      elim (Bool-cases (ltb (length bytes) n)) [
        | inl less ↦
            parse_options-short m _ _
              (option-cut m byte (omega arith) (omega arith) n bytes (ground arith))
        | inr enough ↦
            let contents = take n bytes in
            let rest = drop n bytes in
            let size : length contents ≡ n = ground (arith, length-take n bytes) in
            let whole = ap (λ (l : Bytes). byte ∷ n ∷ l) (sym (take-append-drop n bytes)) in
            let user =
              ap (parse_option m) whole
              ∙ option-user m byte (omega arith) (omega arith) n contents rest size in
            let shorter = length-drop n bytes in
            parse_options-next m _ (extend_entry byte contents m) rest user (omega arith)
              (answered fuel (extend_entry byte contents m) rest (omega arith))
      ]

  -- On any input the loop ends, with the options or because the input is cut off, never with an error,
  -- and any number of rounds larger than that of the bytes gives the same answer.
  pub parse_options_total :
      (m : RawOptions) (bytes : Bytes)
      → (answer : IResult RawOptions) × IsAnswer answer
        × ((r : ℕ) → length bytes < r → parse_options r m bytes ≡ answer)
  parse_options_total m bytes =
      let a = answered (suc (length bytes)) m bytes (omega arith) in
      (a.answer, a.is_answer, a.rounds)
