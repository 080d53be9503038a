-- ===== src/Dht/Transaction/Blocks.antt =====
-- The identifiers that a generator of bip_dht/src/transaction.rs hands out between two refills.
use Prim.Native.Nat.{bit_or}
use rust_bt.Base.{
  ℕ, zero, suc, ◌+◌, ◌≤◌, ◌<◌, ◌≡◌, refl, sym, ap, ◌∙◌, List, [], ◌∷◌, map, Bool, ◌&&◌, Option,
  none, some, length, get_elem?, get_or, take, drop, get_elem?-get_or, ltb, leb, ◌==◌,
  if◌then◌else◌, ◌>>=◌, arith,
}
use rust_bt.Util.Shuffle.{fisher_shuffle}
use rust_bt.Util.Shuffle.Permutes.{count, count-fisher_shuffle, length-fisher_shuffle}
use rust_bt.Dht.Transaction.{
  TransactionId, MidGenerator, max_message_id, new, range, generate_mids, generate,
}

pub length-range : (start n : ℕ) → length (range start n) ≡ n
unfolding range
length-range start zero = refl
length-range start (suc n) = ap suc (length-range (suc start) n)

-- Is `x` one of the `n` numbers from `start` on?
abbrev pub is_within : ℕ → ℕ → ℕ → Bool
is_within start n x = leb start x && ltb x (start + n)

pub count-range : (x start n : ℕ) → count x (range start n) ≡ (if is_within start n x then 1 else 0)
unfolding range
count-range x start zero = ground arith
count-range x start (suc n) = let rest = count-range x (suc start) n in ground arith

drop-get_or :
    (ids : List ℕ) (i : ℕ) → i < length ids → drop i ids ≡ get_or ids i 0 ∷ drop (suc i) ids
drop-get_or [] i h = absurd (omega arith)
drop-get_or (x ∷ ids) zero h = refl
drop-get_or (x ∷ ids) (suc i) h = drop-get_or ids i (omega arith)

take_all : (n : ℕ) (ids : List ℕ) → length ids ≡ n → take n ids ≡ ids
take_all zero [] h = refl
take_all zero (x ∷ ids) h = absurd (omega arith)
take_all (suc n) [] h = refl
take_all (suc n) (x ∷ ids) h = ap (λ (t : List ℕ). x ∷ t) (take_all n ids (omega arith))

get_elem?-length : (ids : List ℕ) (i : ℕ) → length ids ≤ i → get_elem? ids i ≡ none
get_elem?-length [] i h = refl
get_elem?-length (x ∷ ids) zero h = absurd (omega arith)
get_elem?-length (x ∷ ids) (suc i) h = get_elem?-length ids i (omega arith)

module _ (len : ℕ) where
  -- `n` identifiers in turn, and the generator after them; `random` has the numbers for each call.
  unfoldable pub take_ids :
      ℕ → (ℕ → ℕ → ℕ) → MidGenerator → Option (List TransactionId × MidGenerator)
  take_ids zero random g = some ([], g)
  take_ids (suc n) random g = generate len 2 (random n) g >>= λ (id, g').
      take_ids n random g' >>= λ (ids, last). some (id ∷ ids, last)

  abbrev pub joined : MidGenerator → ℕ → TransactionId
  joined g m = new (bit_or g.action_id m)

  abbrev at : MidGenerator → ℕ → MidGenerator
  at g i = record g { curr_index = i }

  generate-stored_id :
      (random : ℕ → ℕ) (g : MidGenerator) (i : ℕ)
      → i < length g.message_ids
      → generate len 2 random (at g i) ≡ some (joined g (get_or g.message_ids i 0), at g (i + 1))
  unfolding generate
  generate-stored_id random g i h = rw (get_elem?-get_or g.message_ids i 0 h, generate) refl

  take_ids-stored :
      (n i : ℕ) (random : ℕ → ℕ → ℕ) (g : MidGenerator)
      → i + n ≤ length g.message_ids
      → take_ids n random (at g i)
        ≡ some (map (joined g) (take n (drop i g.message_ids)), at g (i + n))
  unfolding take_ids
  take_ids-stored zero i random g h = let e : i + 0 ≡ i = omega arith in rw e refl
  take_ids-stored (suc n) i random g h =
      let first = generate-stored_id (random n) g i (omega arith) in
      let rest = take_ids-stored n (i + 1) random g (omega arith) in
      let e : i + 1 + n ≡ i + suc n = omega arith in
      let e' : i + 1 ≡ suc i = omega arith in
      let cut = drop-get_or g.message_ids i (omega arith) in
      rw first (rw (rest, cut, e) (rw e' refl))

  -- The generator with a new block.
  abbrev pub refilled : (ℕ → ℕ) → MidGenerator → MidGenerator
  refilled random g = record g {
    next_alloc = (generate_mids len g.next_alloc).0;
    curr_index = 0;
    message_ids = fisher_shuffle 0 random (generate_mids len g.next_alloc).1;
  }

  generate-refill :
      (random : ℕ → ℕ) (g : MidGenerator) (id : ℕ)
      → get_elem? g.message_ids g.curr_index ≡ none
      → get_elem? (refilled random g).message_ids 0 ≡ some id
      → generate len 2 random g ≡ some (joined g id, at (refilled random g) 1)
  unfolding generate
  generate-refill random g id e e' = rw (e, e', generate) refl

  take_ids-refill :
      (n : ℕ) (random : ℕ → ℕ → ℕ) (g : MidGenerator)
      → get_elem? g.message_ids g.curr_index ≡ none
      → length (refilled (random n) g).message_ids ≡ suc n
      → take_ids (suc n) random g
        ≡ some
            (map (joined g) (refilled (random n) g).message_ids, at (refilled (random n) g) (suc n))
  unfolding take_ids
  take_ids-refill n random g e size =
      let r = refilled (random n) g in
      let ids = r.message_ids in
      let at_0 = get_elem?-get_or ids 0 0 (omega arith) in
      let first = generate-refill (random n) g (get_or ids 0 0) e at_0 in
      let rest = take_ids-stored n 1 random r (omega arith) in
      let e₁ : 1 + n ≡ suc n = omega arith in
      let whole : get_or ids 0 0 ∷ take n (drop 1 ids) ≡ ids =
        ap (take (suc n)) (sym (drop-get_or ids 0 (omega arith))) ∙ take_all (suc n) ids size in
      rw first (rw (rest, e₁) (ap (λ (t : List ℕ). some (map (joined g) t, at r (suc n))) whole))

-- Where the next block starts: behind the last one, or at zero again behind the greatest message.
abbrev pub block_start : MidGenerator → ℕ
block_start g = if g.next_alloc == max_message_id then 0 else g.next_alloc

-- A generator that has used its block up hands out a whole new one in as many calls as the block is
-- long, which do not fail: each message of the block once, in some order, joined to the action. Then
-- it has used that block up and stands behind it, with the same action.
pub take_ids-block :
    (len : ℕ) (random : ℕ → ℕ → ℕ) (g : MidGenerator)
    → 0 < len
    → get_elem? g.message_ids g.curr_index ≡ none
    → (messages : List ℕ) × (g' : MidGenerator) × (take_ids len len random g
        ≡ some (map (joined len g) messages, g'))
      × ((m : ℕ) → count m messages ≡ (if is_within (block_start g) len m then 1 else 0))
      × (get_elem? g'.message_ids g'.curr_index ≡ none)
      × (g'.action_id ≡ g.action_id)
      × (g'.next_alloc ≡ block_start g + len)
unfolding generate_mids
take_ids-block zero random g h e = absurd (omega arith)
take_ids-block (suc n) random g h e =
    let r = refilled (suc n) (random n) g in
    let ids = range (block_start g) (suc n) in
    let size : length r.message_ids ≡ suc n =
      length-fisher_shuffle 0 (random n) ids ∙ length-range (block_start g) (suc n) in
    (
      r.message_ids,
      record r { curr_index = suc n },
      take_ids-refill (suc n) n random g e size,
      λ m. count-fisher_shuffle m 0 (random n) ids ∙ count-range m (block_start g) (suc n),
      get_elem?-length r.message_ids (suc n) (omega arith),
      refl,
      refl,
    )
