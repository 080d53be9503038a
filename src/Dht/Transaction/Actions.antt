-- ===== src/Dht/Transaction/Actions.antt =====
-- The actions that `AIDGenerator` of bip_dht/src/transaction.rs hands out.
use rust_bt.Base.{
  ℕ, ◌+◌, ◌*◌, ◌%◌, ◌^◌, ◌<◌, ◌≡◌, ◌⊎◌, inl, inr, refl, ◌∙◌, List, [], ◌∷◌, true, none, some,
  get_elem?, get_or, get_elem?-get_or, ◌==◌, if◌then◌else◌, Bool-cases, Option-cases, arith,
}
use rust_bt.Util.Shuffle.{fisher_shuffle}
use rust_bt.Util.Shuffle.Permutes.{count, count-fisher_shuffle, length-fisher_shuffle}
use rust_bt.Dht.Transaction.{
  AidGenerator, max_action_id, message_id_shift, range, generate_aids, new_mid_generator,
  generate_action,
}
use rust_bt.Dht.Transaction.Blocks.{is_within, length-range, count-range}

-- Where the next block starts: behind the last one, or at zero again behind the greatest action.
abbrev pub action_start : AidGenerator → ℕ
action_start g = if g.next_alloc == max_action_id then 0 else g.next_alloc

count-first : (ids : List ℕ) (id : ℕ) → get_elem? ids 0 ≡ some id → 0 < count id ids
count-first [] id h = cc
count-first (x ∷ ids) id h = ground arith

module _ (len : ℕ) (random : ℕ → ℕ) (g : AidGenerator) where
  abbrev pub new_actions : List ℕ
  new_actions = fisher_shuffle 0 random (range (action_start g) len)

  generate_action-stored :
      (id : ℕ)
      → get_elem? g.action_ids g.curr_index ≡ some id
      → generate_action len 2 random g
        ≡ some (
          new_mid_generator len ((id * 2 ^ message_id_shift) % 2 ^ 64),
          record g { curr_index = g.curr_index + 1 },
        )
  unfolding generate_action
  generate_action-stored id e = rw (e, generate_action) refl

  generate_action-refill :
      (id : ℕ)
      → get_elem? g.action_ids g.curr_index ≡ none
      → get_elem? new_actions 0 ≡ some id
      → generate_action len 2 random g
        ≡ some (
          new_mid_generator len ((id * 2 ^ message_id_shift) % 2 ^ 64),
          record {
            next_alloc = action_start g + len;
            curr_index = 0 + 1;
            action_ids = new_actions;
          },
        )
  unfolding generate_action generate_aids
  generate_action-refill id e e' = rw (e, e', generate_action) refl

  new_actions-within :
      (id : ℕ) → get_elem? new_actions 0 ≡ some id → is_within (action_start g) len id ≡ true
  new_actions-within id h =
      let some_there = count-first new_actions id h in
      let same = count-fisher_shuffle id 0 random (range (action_start g) len) in
      let there = count-range id (action_start g) len in
      elim (Bool-cases (is_within (action_start g) len id)) [
        | inl e ↦ e
        | inr e ↦ let none_there = rw e at there in absurd (omega arith)
      ]

  -- The generator hands out an action, in two steps at most: the next one of its block, or, if that
  -- is used up, one of the next block, whose actions are `len` numbers from where the block starts.
  -- The action is shifted to make room for its messages.
  pub generate_action_lem :
      0 < len
      → (id : ℕ) × (g' : AidGenerator) × (generate_action len 2 random g
          ≡ some (new_mid_generator len ((id * 2 ^ message_id_shift) % 2 ^ 64), g'))
        × ((get_elem? g.action_ids g.curr_index ≡ some id)
            ⊎ ((get_elem? g.action_ids g.curr_index ≡ none)
                × (is_within (action_start g) len id ≡ true)
                × (g'.next_alloc ≡ action_start g + len)))
  generate_action_lem h = elim (Option-cases (get_elem? g.action_ids g.curr_index)) [
    | inr (id, e) ↦
        (id, record g { curr_index = g.curr_index + 1 }, generate_action-stored id e, inl e)
    | inl e ↦
        let size =
          length-fisher_shuffle 0 random (range (action_start g) len)
          ∙ length-range (action_start g) len in
        let first = get_elem?-get_or new_actions 0 0 (omega arith) in
        let id = get_or new_actions 0 0 in
        (
          id,
          record {
            next_alloc = action_start g + len;
            curr_index = 0 + 1;
            action_ids = new_actions;
          },
          generate_action-refill id e first,
          inr (e, new_actions-within id first, refl),
        )
  ]
