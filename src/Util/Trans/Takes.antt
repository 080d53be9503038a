-- ===== src/Util/Trans/Takes.antt =====
-- One identifier handed out by bip_util/src/trans/locally_shuffled.rs.
use rust_bt.Base.{ℕ, zero, suc, ◌+◌, ◌<◌, ◌≡◌, refl, List, [], ◌∷◌, some, false, length, arith}
use rust_bt.Util.Shuffle.Permutes.{one_if, count, length-fisher_shuffle}
use rust_bt.Util.Trans.{
  transaction_id_prealloc_len, SequentialIds, LocallyShuffledIds, pop, refill_from,
  refill_stored_ids, generate,
}

-- The last element is taken out of a list that has one.
record Pops (xs : List ℕ) : Type 0 where
  rest : List ℕ
  id : ℕ
  returns : pop xs ≡ some (rest, id)
  counts : (x : ℕ) → count x rest + one_if x id ≡ count x xs

pop-Pops : (y : ℕ) (ys : List ℕ) → Pops (y ∷ ys)
unfolding pop
pop-Pops y [] = record { rest = []; id = y; returns = refl; counts = λ x. omega arith }
pop-Pops y (z ∷ zs) =
    let p = pop-Pops z zs in
    record {
      rest = y ∷ p.rest;
      id = p.id;
      returns = rw p.returns refl;
      counts = λ x. omega (arith, p.counts x);
    }

Pops-nonempty : (xs : List ℕ) → 0 < length xs → Pops xs
Pops-nonempty [] h = absurd (omega arith)
Pops-nonempty (x ∷ xs) h = pop-Pops x xs

module _ (w : ℕ) (random : ℕ → ℕ) where
  length-refill_from :
      (rounds : ℕ) (ids : SequentialIds)
      → 0 < rounds
      → 0 < length (refill_from w rounds false false ids).0
  unfolding refill_from
  length-refill_from zero ids h = absurd (omega arith)
  length-refill_from (suc rounds) ids h = omega arith

  refill_nonempty : (g : LocallyShuffledIds) → 0 < length (refill_stored_ids w random g).stored_ids
  unfolding refill_stored_ids
  refill_nonempty g = omega (
    arith,
    length-fisher_shuffle 0 random
        (refill_from w transaction_id_prealloc_len false false g.sequential).0,
    length-refill_from transaction_id_prealloc_len g.sequential (omega arith),
  )

  -- The block that the next identifier is taken from.
  abbrev pub block : LocallyShuffledIds → List ℕ
  block g = elim g.stored_ids [ [] ↦ (refill_stored_ids w random g).stored_ids | x ∷ xs ↦ x ∷ xs ]

  abbrev Hands : LocallyShuffledIds → Type 0
  Hands g =
      (id : ℕ) × (g' : LocallyShuffledIds) × (generate w 2 random g ≡ some (id, g'))
      × ((x : ℕ) → count x g'.stored_ids + one_if x id ≡ count x (block g))

  generate-stored :
      (s : SequentialIds) (ids rest : List ℕ) (id : ℕ)
      → pop ids ≡ some (rest, id)
      → generate w 2 random (record { sequential = s; stored_ids = ids })
        ≡ some (id, record { sequential = s; stored_ids = rest })
  unfolding generate
  generate-stored s ids rest id e = rw (e, generate) refl

  generate-refilled :
      (s : SequentialIds) (rest : List ℕ) (id : ℕ)
      → pop (refill_stored_ids w random (record { sequential = s; stored_ids = [] })).stored_ids
        ≡ some (rest, id)
      → generate w 2 random (record { sequential = s; stored_ids = [] })
        ≡ some (
          id,
          record (refill_stored_ids w random (record { sequential = s; stored_ids = [] })) {
            stored_ids = rest;
          },
        )
  unfolding generate pop
  generate-refilled s rest id e = rw (e, generate) refl

  Hands-stored :
      (s : SequentialIds) (ids : List ℕ) → Hands (record { sequential = s; stored_ids = ids })
  Hands-stored s [] =
      let g : LocallyShuffledIds = record { sequential = s; stored_ids = [] } in
      let r = refill_stored_ids w random g in
      let p = Pops-nonempty r.stored_ids (refill_nonempty g) in
      (p.id, record r { stored_ids = p.rest }, generate-refilled s p.rest p.id p.returns, p.counts)
  Hands-stored s (y ∷ ys) =
      let p = pop-Pops y ys in
      (
        p.id,
        record { sequential = s; stored_ids = p.rest },
        generate-stored s (y ∷ ys) p.rest p.id p.returns,
        p.counts,
      )

  -- The generator hands an identifier out, in two steps at most: it takes one of the stored ones, or
  -- one of a new block if none is left, and keeps the others.
  pub generate-block :
      (g : LocallyShuffledIds)
      → (id : ℕ) × (g' : LocallyShuffledIds) × (generate w 2 random g ≡ some (id, g'))
        × ((x : ℕ) → count x g'.stored_ids + one_if x id ≡ count x (block g))
  generate-block g = Hands-stored g.sequential g.stored_ids
