-- ===== src/Disk/Manager.antt =====
-- bip_disk/src/disk/manager.rs: the sink that takes messages while there is capacity, and the stream
-- that gives the answers and the capacity back. The sinks, the tasks and the stream run at once; what
-- they share is atomic, so each of their accesses is one step.
pub mod Capacity
use rust_bt.Base.{
  ℕ, ◌+◌, ◌-◌, List, [], ◌∷◌, ◌++◌, Bool, true, false, Option, none, some, ltb, if◌then◌else◌,
}
use rust_bt.Disk.Tasks.{
  IDiskMessage, ODiskMessage, torrent_added, torrent_removed, torrent_synced, block_loaded,
  block_processed, found_good_piece, found_bad_piece, torrent_error, load_block_error,
  process_block_error,
}

-- What the sinks and the stream share: the counter, the messages handed to the pool, the channel of
-- answers, and how many tasks wait to be woken. `undoing` counts the sinks that stand between the two
-- accesses of a failed `try_submit_work`.
pub record DiskManager : Type 0 where
  pub cur_capacity : ℕ
  pub max_capacity : ℕ
  pub pool : List IDiskMessage
  pub recv : List ODiskMessage
  pub task_queue : ℕ
  pub undoing : ℕ

-- `fetch_add`, and its test: a sink that finds room hands its message to the pool.
unfoldable pub try_submit_work : IDiskMessage → DiskManager → DiskManager × Bool
try_submit_work item manager =
    let added = record manager { cur_capacity = manager.cur_capacity + 1 } in
    if ltb manager.cur_capacity manager.max_capacity
    then (record added { pool = manager.pool ++ item ∷ [] }, true)
    else (record added { undoing = manager.undoing + 1 }, false)

-- `fetch_sub` of a sink that found no room.
unfoldable pub give_back : DiskManager → DiskManager
give_back manager = record manager {
  cur_capacity = manager.cur_capacity - 1;
  undoing = manager.undoing - 1;
}

-- A sink that failed once parks its task, and tries again.
unfoldable pub push_task : DiskManager → DiskManager
push_task manager = record manager { task_queue = manager.task_queue + 1 }

unfoldable pub complete_work : DiskManager → DiskManager
complete_work manager = record manager { cur_capacity = manager.cur_capacity - 1 }

-- The messages on which the stream gives capacity back.
unfoldable pub completes : ODiskMessage → Bool
completes (torrent_added _) = true
completes (torrent_removed _) = true
completes (torrent_synced _) = true
completes (found_good_piece _ _) = false
completes (found_bad_piece _ _) = false
completes (block_loaded _) = true
completes (block_processed _) = true
completes (torrent_error _ _) = false
completes (load_block_error _ _) = false
completes (process_block_error _ _) = false

-- The stream's `poll`: after a completing answer all parked tasks are woken.
unfoldable pub poll_from : List ODiskMessage → DiskManager → DiskManager × Option ODiskMessage
unfolding completes complete_work
poll_from [] manager = (manager, none)
poll_from (message ∷ messages) manager =
    let received = record manager { recv = messages } in
    if completes message
    then (record (complete_work received) { task_queue = 0 }, some message)
    else (received, some message)

unfoldable pub poll : DiskManager → DiskManager × Option ODiskMessage
unfolding poll_from
poll manager = poll_from manager.recv manager

-- A task of the pool has run and has sent its messages.
unfoldable pub run_task : List IDiskMessage → List ODiskMessage → DiskManager → DiskManager
run_task others sent manager = record manager { pool = others; recv = manager.recv ++ sent }
