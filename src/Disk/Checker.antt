-- ===== src/Disk/Checker.antt =====
-- bip_disk/src/disk/tasks/helpers/piece_checker.rs: which pieces of a torrent are whole, and which of
-- those are good.
pub mod Run
pub mod Bounds
pub mod Merge
pub mod Whole
pub mod Diff
pub mod Verdicts
pub mod Fill
use Prim.Native.Nat.{max}
use rust_bt.Base.{
  ℕ, zero, suc, ◌+◌, ◌-◌, ◌*◌, ◌/◌, ◌%◌, ◌^◌, List, [], ◌∷◌, ◌++◌, Bool, true, false, ◌&&◌, ◌||◌,
  not, Option, none, some, Bytes, bytes_eq, length, get_elem?, take, drop, replicate, ltb, leb,
  ◌==◌, if◌then◌else◌,
}
use mathlib.Core.List.{reverse, Perm}
use rust_bt.Metainfo.{FilePath, File, Info}
use rust_bt.Disk.Block.{BlockMetadata, with_default_hash}
use rust_bt.Disk.FileSystem.{
  IoResult, ok, err, panic, existing_file_size_check, Io, pure, ◌>>=◌, ◌>>◌, try_then, FileSystem,
}
use rust_bt.Disk.Accessor.{build_path, read_piece}

pub data PieceState : Type 0 where
  good : ℕ → PieceState
  bad : ℕ → PieceState

abbrev pub Entries : Type 0
Entries = List (ℕ × List BlockMetadata)

-- The order in which a hash map yields its entries, of which it promises nothing.
pub record EntryOrder : Type 0 where
  pub arrange : Entries → Entries
  pub arrange-Perm : (entries : Entries) → Perm (arrange entries) entries

-- `pending_blocks` is the list of the map's entries, in the order in which the map yields them;
-- `old_states` is the set's elements.
pub record PieceCheckerState : Type 0 where
  pub new_states : List PieceState
  pub old_states : List PieceState
  pub pending_blocks : Entries
  pub total_blocks : ℕ
  pub last_block_size : ℕ

unfoldable pub new : ℕ → ℕ → PieceCheckerState
new total_blocks last_block_size = record {
  new_states = [];
  old_states = [];
  pending_blocks = [];
  total_blocks = total_blocks;
  last_block_size = last_block_size;
}

-- `entry(index).or_insert(Vec::new()).push(msg)`, but for the order of the entries.
unfoldable pub push_entry : ℕ → BlockMetadata → Entries → Entries
push_entry index msg [] = (index, msg ∷ []) ∷ []
push_entry index msg ((key, messages) ∷ entries) =
    if key == index
    then (key, messages ++ msg ∷ []) ∷ entries
    else (key, messages) ∷ push_entry index msg entries

unfoldable pub add_pending_block :
    ⦃order : EntryOrder⦄ → BlockMetadata → PieceCheckerState → PieceCheckerState
unfolding push_entry
add_pending_block ⦃order⦄ msg state = record state {
  pending_blocks = order.arrange (push_entry msg.piece_index msg state.pending_blocks);
}

unfoldable pub state_eq : PieceState → PieceState → Bool
state_eq (good i) (good j) = i == j
state_eq (good i) (bad j) = false
state_eq (bad i) (good j) = false
state_eq (bad i) (bad j) = i == j

-- `HashSet::contains` and `HashSet::insert`
unfoldable pub contains : List PieceState → PieceState → Bool
unfolding state_eq
contains [] s = false
contains (t ∷ states) s = state_eq t s || contains states s

unfoldable pub insert : PieceState → List PieceState → List PieceState
unfolding contains
insert s states = if contains states s then states else s ∷ states

-- The callback's state is threaded through its calls.
module _ {S : Type 0} (callback : PieceState → S → S) where
  unfoldable pub drain_states : List PieceState → List PieceState → S → List PieceState × S
  unfolding insert
  drain_states [] old_states s = (old_states, s)
  drain_states (piece_state ∷ states) old_states s =
      drain_states states (insert piece_state old_states) (callback piece_state s)

  unfoldable pub run_with_diff : PieceCheckerState → S → PieceCheckerState × S
  unfolding drain_states
  run_with_diff state s =
      let (old, s') = drain_states state.new_states state.old_states s in
      (record state { new_states = []; old_states = old }, s')

-- The ends are sums of 64 bits; the lengths are not negative where they are taken.
unfoldable pub merge_piece_messages : BlockMetadata → BlockMetadata → Option BlockMetadata
merge_piece_messages a b =
    let start_a = a.block_offset in
    let end_a = (start_a + a.block_length) % 2 ^ 64 in
    let start_b = b.block_offset in
    let end_b = (start_b + b.block_length) % 2 ^ 64 in
    if not (bytes_eq a.info_hash b.info_hash) || not (a.piece_index == b.piece_index)
    then none
    else if leb start_a start_b && leb start_b end_a
    then some (record a { block_offset = start_a; block_length = max end_a end_b - start_a })
    else if leb start_b start_a && leb start_a end_b
    then some (record a { block_offset = start_b; block_length = max end_a end_b - start_b })
    else none

-- The stable `sort_by` on the offsets.
unfoldable pub insert_by_offset : BlockMetadata → List BlockMetadata → List BlockMetadata
insert_by_offset m [] = m ∷ []
insert_by_offset m (n ∷ ns) =
    if leb m.block_offset n.block_offset then m ∷ n ∷ ns else n ∷ insert_by_offset m ns

unfoldable pub sort_by_offset : List BlockMetadata → List BlockMetadata
unfolding insert_by_offset
sort_by_offset [] = []
sort_by_offset (m ∷ ms) = insert_by_offset m (sort_by_offset ms)

-- The loop of `merge_pieces`, on the messages from the last to the first: the last message, and those
-- before it.
unfoldable pub merge_last : BlockMetadata → List BlockMetadata → List BlockMetadata
unfolding merge_piece_messages
merge_last actual_last [] = actual_last ∷ []
merge_last actual_last (second_last ∷ messages) =
    elim (merge_piece_messages second_last actual_last) [
      | some merged ↦ merge_last merged messages
      | none ↦ actual_last ∷ second_last ∷ messages
    ]

unfoldable pub merge_reversed : List BlockMetadata → List BlockMetadata
unfolding merge_last
merge_reversed [] = []
merge_reversed (actual_last ∷ messages) = merge_last actual_last messages

unfoldable pub merge_messages : List BlockMetadata → List BlockMetadata
unfolding sort_by_offset merge_reversed
merge_messages messages = reverse (merge_reversed (reverse (sort_by_offset messages)))

unfoldable pub merge_entries : Entries → Entries
unfolding merge_messages
merge_entries [] = []
merge_entries ((key, messages) ∷ entries) = (key, merge_messages messages) ∷ merge_entries entries

unfoldable pub merge_pieces : PieceCheckerState → PieceCheckerState
unfolding merge_entries
merge_pieces state = record state { pending_blocks = merge_entries state.pending_blocks }

-- `messages.get(0)` exists when there is a single message; `total_blocks - 1` is on 64 bits.
unfoldable pub piece_is_complete : ℕ → ℕ → ℕ → List BlockMetadata → Bool
piece_is_complete total_blocks last_block_size piece_length [] = false
piece_is_complete total_blocks last_block_size piece_length (message ∷ messages) =
    let is_single_message = suc (length messages) == 1 in
    let is_piece_length = message.block_length == piece_length in
    let is_last_block = message.piece_index == (total_blocks + 2 ^ 64 - 1) % 2 ^ 64 in
    let is_last_block_length = message.block_length == last_block_size in
    is_single_message && (is_piece_length || is_last_block && is_last_block_length)
