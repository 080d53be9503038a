-- ===== src/Tests/Identifiers.antt =====
-- bip_util/src/trans and bip_dht/src/transaction.rs: identifiers from small blocks.
use rust_bt.Base.{
  ℕ, ◌+◌, ◌*◌, ◌^◌, ◌≡◌, refl, List, [], ◌∷◌, map, none, some, get_elem?, if◌then◌else◌, arith,
}
use rust_bt.Util.Shuffle.{fisher_shuffle, shuffle_from, swap}
use rust_bt.Util.Shuffle.Permutes.{one_if, count}
use rust_bt.Util.Trans
use rust_bt.Util.Trans.{LocallyShuffledIds, refill_stored_ids}
use rust_bt.Util.Trans.Takes.{block, generate-block}
use rust_bt.Dht.Transaction.{MidGenerator, AidGenerator}
use rust_bt.Dht.Transaction.Blocks.{take_ids, joined, is_within, block_start, take_ids-block}

abbrev draw : ℕ → ℕ
draw i = 5 * i + 4

shuffled : fisher_shuffle {A = ℕ} 0 draw (7 ∷ 8 ∷ 9 ∷ []) ≡ 8 ∷ 9 ∷ 7 ∷ []
unfolding fisher_shuffle shuffle_from swap
shuffled = refl

-- near the end of the identifiers of eight bits
abbrev bytes_left : LocallyShuffledIds
bytes_left = record { sequential = record { next_id = 250 }; stored_ids = [] }

generate-block_example :
    (id : ℕ) × (g' : LocallyShuffledIds) × (Trans.generate 8 2 draw bytes_left ≡ some (id, g'))
    × ((x : ℕ) → count x g'.stored_ids + one_if x id ≡ count x (block 8 draw bytes_left))
generate-block_example = generate-block 8 draw bytes_left

-- a generator of messages whose block of sixteen is used up
abbrev messages_left : MidGenerator
messages_left = record {
  action_id = 77 * 2 ^ 24;
  next_alloc = 32;
  curr_index = 2;
  message_ids = 16 ∷ 17 ∷ [];
}

take_ids-block_example :
    (messages : List ℕ) × (g' : MidGenerator) × (take_ids 16 16 (λ _. draw) messages_left
      ≡ some (map (joined 16 messages_left) messages, g'))
    × ((m : ℕ) → count m messages ≡ (if is_within (block_start messages_left) 16 m then 1 else 0))
    × (get_elem? g'.message_ids g'.curr_index ≡ none)
    × (g'.action_id ≡ messages_left.action_id)
    × (g'.next_alloc ≡ block_start messages_left + 16)
take_ids-block_example = take_ids-block 16 (λ _. draw) messages_left (omega arith) refl

abbrev actions_left : AidGenerator
actions_left = record { next_alloc = 32; curr_index = 1; action_ids = 16 ∷ 17 ∷ [] }
