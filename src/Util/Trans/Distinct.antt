-- ===== src/Util/Trans/Distinct.antt =====
-- A block of identifiers of bip_util/src/trans/locally_shuffled.rs has no identifier twice, however
-- small the type is.
use rust_bt.Base.{
  ℕ, zero, suc, ◌+◌, ◌-◌, ◌%◌, ◌^◌, ◌≤◌, ◌<◌, ◌≡◌, ◌⊎◌, inl, inr, refl, List, [], ◌∷◌, Bool, true,
  false, ◌&&◌, ◌||◌, Bool-cases, ◌==◌, if◌then◌else◌, arith,
}
use native.Mathlib.Nat.{mod-eq_of_lt, mod_self}
use rust_bt.Util.Shuffle.Permutes.{count, count-fisher_shuffle}
use rust_bt.Util.Trans.{
  transaction_id_prealloc_len, SequentialIds, LocallyShuffledIds, next_sequential, refill_from,
  refill_stored_ids,
}

module _ (w : ℕ) where
  abbrev from : ℕ → SequentialIds
  from n = record { next_id = n }

  abbrev pushed : ℕ → Bool → Bool → ℕ → List ℕ
  pushed rounds lo hi n = (refill_from w rounds lo hi (from n)).0

  next-below : (n : ℕ) → n + 1 < 2 ^ w → (n + 1) % 2 ^ w ≡ n + 1
  next-below n h = mod-eq_of_lt h

  next-wraps : (n : ℕ) → n + 1 ≡ 2 ^ w → (n + 1) % 2 ^ w ≡ 0
  next-wraps n h = rw h (mod_self (2 ^ w))

  pushed-stop : (rounds n : ℕ) → pushed rounds true true n ≡ []
  unfolding refill_from
  pushed-stop zero n = refl
  pushed-stop (suc rounds) n = refl

  pushed-round :
      (rounds n : ℕ) (lo hi : Bool)
      → (lo && hi) ≡ false
      → pushed (suc rounds) lo hi n
        ≡ n ∷ pushed rounds (lo || n == 0) (hi || n == 2 ^ w - 1) ((n + 1) % 2 ^ w)
  unfolding refill_from next_sequential
  pushed-round rounds n false hi e = refl
  pushed-round rounds n true false e = refl
  pushed-round rounds n true true e = cc

  pushed-zero : (n : ℕ) (lo hi : Bool) → pushed zero lo hi n ≡ []
  unfolding refill_from
  pushed-zero n lo hi = refl

  -- The minimum was there: the block runs on to the maximum.
  count-min :
      (x rounds n : ℕ)
      → n < 2 ^ w
      → (count x (pushed rounds true false n) ≡ 0)
        ⊎ ((count x (pushed rounds true false n) ≡ 1) × (n ≤ x))
  count-min x zero n h = inl (rw (pushed-zero n true false) refl)
  count-min x (suc rounds) n h = elim (Bool-cases (n == 2 ^ w - 1)) [
    | inl top ↦
        let stop = pushed-stop rounds ((n + 1) % 2 ^ w) in
        rw (pushed-round rounds n true false refl) (rw top (rw stop (ground arith)))
    | inr low ↦
        let inside : n + 1 < 2 ^ w = ground arith in
        let rest = count-min x rounds (n + 1) inside in
        rw (pushed-round rounds n true false refl) (rw (low, next-below n inside) (ground arith))
  ]

  -- The maximum was there and not the minimum: that comes next, and last.
  count-max : (x rounds : ℕ) → count x (pushed rounds false true 0) ≤ (if x == 0 then 1 else 0)
  count-max x zero = rw (pushed-zero 0 false true) (omega arith)
  count-max x (suc rounds) =
      let stop = pushed-stop rounds ((0 + 1) % 2 ^ w) in
      rw (pushed-round rounds 0 false true refl) (rw stop (ground arith))

  -- Neither was there: the block runs on to the maximum, and then takes the minimum.
  count-none :
      (x rounds n : ℕ)
      → 0 < n
      → n < 2 ^ w
      → (count x (pushed rounds false false n) ≡ 0)
        ⊎ ((count x (pushed rounds false false n) ≡ 1) × ((n ≤ x) ⊎ (x ≡ 0)))
  count-none x zero n p h = inl (rw (pushed-zero n false false) refl)
  count-none x (suc rounds) n p h =
      let inner : (n == 0) ≡ false = ground arith in
      elim (Bool-cases (n == 2 ^ w - 1)) [
        | inl top ↦
            let last = count-max x rounds in
            let wrap : (n + 1) % 2 ^ w ≡ 0 = next-wraps n (ground arith) in
            rw (pushed-round rounds n false false refl) (rw (inner, top, wrap) (ground arith))
        | inr low ↦
            let inside : n + 1 < 2 ^ w = ground arith in
            let rest = count-none x rounds (n + 1) (omega arith) inside in
            rw (pushed-round rounds n false false refl)
              (rw (inner, low, next-below n inside) (ground arith))
      ]

  count-pushed :
      (x rounds n : ℕ) → 1 < 2 ^ w → n < 2 ^ w → count x (pushed rounds false false n) ≤ 1
  count-pushed x rounds (suc n) two h =
      let c = count-none x rounds (suc n) (omega arith) h in omega arith
  count-pushed x zero zero two h = rw (pushed-zero 0 false false) (omega arith)
  count-pushed x (suc rounds) zero two h =
      let top : (0 == 2 ^ w - 1) ≡ false = ground arith in
      let next : (0 + 1) % 2 ^ w ≡ 1 = next-below 0 (omega arith) in
      let rest = count-min x rounds 1 two in
      rw (pushed-round rounds 0 false false refl) (rw (top, next) (ground arith))

-- For a type of one bit or more, wherever the sequential identifiers stand and whatever numbers the
-- shuffle draws, no identifier stands twice in the block that is stored.
refill_stored_ids_distinct :
    (w x : ℕ) (random : ℕ → ℕ) (generator : LocallyShuffledIds)
    → 1 < 2 ^ w
    → generator.sequential.next_id < 2 ^ w
    → count x (refill_stored_ids w random generator).stored_ids ≤ 1
unfolding refill_stored_ids
refill_stored_ids_distinct w x random generator two h =
    let ids = (refill_from w transaction_id_prealloc_len false false generator.sequential).0 in
    let same = count-fisher_shuffle x 0 random ids in
    let once = count-pushed w x transaction_id_prealloc_len generator.sequential.next_id two h in
    omega arith
