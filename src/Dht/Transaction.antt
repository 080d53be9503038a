-- ===== src/Dht/Transaction.antt =====
-- bip_dht/src/transaction.rs: identifiers of transactions, made of an action's and a message's. The
-- length of a block of identifiers (2048, and 16 in the program's tests) is a parameter, and the
-- numbers drawn by the shuffle are arguments.
pub mod Fields
pub mod Blocks
pub mod Actions
use Prim.Native.Nat.{bit_or, bit_and}
use rust_bt.Base.{
  ℕ, zero, suc, ◌+◌, ◌-◌, ◌*◌, ◌/◌, ◌%◌, ◌^◌, List, [], ◌∷◌, Option, none, some, Bytes, length,
  get_elem?, replicate, ◌==◌, if◌then◌else◌,
}
use rust_bt.Util.Convert.{eight_bytes_to_array}
use rust_bt.Util.Shuffle.{fisher_shuffle}

abbrev pub action_id_bytes : ℕ
action_id_bytes = 5

abbrev pub message_id_bytes : ℕ
message_id_bytes = 3

abbrev pub transaction_id_bytes : ℕ
transaction_id_bytes = action_id_bytes + message_id_bytes

abbrev pub max_action_id : ℕ
max_action_id = 2 ^ (action_id_bytes * 8)

abbrev pub message_id_shift : ℕ
message_id_shift = message_id_bytes * 8

abbrev pub max_message_id : ℕ
max_message_id = 2 ^ message_id_shift

pub record TransactionId : Type 0 where
  pub trans_id : ℕ
  pub trans_id_bytes : Bytes

unfoldable pub new : ℕ → TransactionId
new trans_id = record { trans_id = trans_id; trans_id_bytes = eight_bytes_to_array trans_id }

-- The loop of `from_bytes` on a `u64`.
unfoldable pub push_bytes : ℕ → Bytes → ℕ
push_bytes trans_id [] = trans_id
push_bytes trans_id (byte ∷ bytes) = push_bytes (bit_or ((trans_id * 2 ^ 8) % 2 ^ 64) byte) bytes

unfoldable pub from_bytes : Bytes → Option TransactionId
from_bytes bytes =
    if length bytes == transaction_id_bytes then some (new (push_bytes 0 bytes)) else none

unfoldable pub action_id : TransactionId → ℕ
action_id id = id.trans_id / 2 ^ message_id_shift

unfoldable pub message_id : TransactionId → ℕ
message_id id = bit_and id.trans_id (max_message_id - 1)

-- `start..start + count`
unfoldable pub range : ℕ → ℕ → List ℕ
range start zero = []
range start (suc count) = start ∷ range (suc start) count

-- The action's identifier is shifted already.
pub record MidGenerator : Type 0 where
  pub action_id : ℕ
  pub next_alloc : ℕ
  pub curr_index : ℕ
  pub message_ids : List ℕ

pub record AidGenerator : Type 0 where
  pub next_alloc : ℕ
  pub curr_index : ℕ
  pub action_ids : List ℕ

module _ (prealloc_len : ℕ) where
  unfoldable pub generate_aids : ℕ → ℕ × List ℕ
  generate_aids next_alloc =
      let start = if next_alloc == max_action_id then 0 else next_alloc in
      (start + prealloc_len, range start prealloc_len)

  unfoldable pub new_aid_generator : (ℕ → ℕ) → AidGenerator
  new_aid_generator random =
      let (next_alloc, action_ids) = generate_aids 0 in
      record {
        next_alloc = next_alloc;
        curr_index = 0;
        action_ids = fisher_shuffle 0 random action_ids;
      }

  -- The first block is generated lazily.
  unfoldable pub new_mid_generator : ℕ → MidGenerator
  new_mid_generator action_id = record {
    action_id = action_id;
    next_alloc = 0;
    curr_index = prealloc_len;
    message_ids = replicate prealloc_len 0;
  }

  -- `none` is the end of the fuel.
  unfoldable pub generate_action : ℕ → (ℕ → ℕ) → AidGenerator → Option (MidGenerator × AidGenerator)
  generate_action zero random generator = none
  generate_action (suc fuel) random generator =
      elim (get_elem? generator.action_ids generator.curr_index) [
        | some action_id ↦ some (
          new_mid_generator ((action_id * 2 ^ message_id_shift) % 2 ^ 64),
          record generator { curr_index = generator.curr_index + 1 },
        )
        | none ↦
            let (next_alloc, action_ids) = generate_aids generator.next_alloc in
            generate_action fuel random (record {
              next_alloc = next_alloc;
              curr_index = 0;
              action_ids = fisher_shuffle 0 random action_ids;
            })
      ]

  unfoldable pub generate_mids : ℕ → ℕ × List ℕ
  generate_mids next_alloc =
      let start = if next_alloc == max_message_id then 0 else next_alloc in
      (start + prealloc_len, range start prealloc_len)

  unfoldable pub generate : ℕ → (ℕ → ℕ) → MidGenerator → Option (TransactionId × MidGenerator)
  generate zero random generator = none
  generate (suc fuel) random generator =
      elim (get_elem? generator.message_ids generator.curr_index) [
        | some message_id ↦ some (
          new (bit_or generator.action_id message_id),
          record generator { curr_index = generator.curr_index + 1 },
        )
        | none ↦
            let (next_alloc, message_ids) = generate_mids generator.next_alloc in
            generate fuel random (record generator {
              next_alloc = next_alloc;
              curr_index = 0;
              message_ids = fisher_shuffle 0 random message_ids;
            })
      ]
