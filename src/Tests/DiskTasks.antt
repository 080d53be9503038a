-- ===== src/Tests/DiskTasks.antt =====
-- bip_disk: the messages to the disk manager, and its capacity.
use rust_bt.Base.{
  ◌+◌, ◌≤◌, ◌≡◌, refl, [], ◌∷◌, ◌++◌, none, some, Bytes, bytes_eq, length, ltb, replicate,
}
use rust_bt.Disk.FileSystem.{ok, info_hash_not_found}
use rust_bt.Disk.Checker.{PieceCheckerState, good, drain_states}
use rust_bt.Disk.Checker.Run.{init_state, is_whole, after_check}
use rust_bt.Disk.Tasks.{
  add_torrent, remove_torrent, ODiskMessage, torrent_added, torrent_error, DiskManagerContext,
  execute_on_pool,
}
use rust_bt.Disk.Tasks.Frame.{execute_on_pool_frame}
use rust_bt.Disk.Tasks.Answers.{execute_add_torrent_new, goods}
use rust_bt.Disk.Manager.{try_submit_work, poll, run_task}
use rust_bt.Disk.Manager.Capacity.{
  World, Reach, here, next, submit, run, receive, start, answers, try_submit_work_iff,
  taken-le-max_capacity,
}
use rust_bt.Tests.Memory.{memory, hash, info, disk, order}

abbrev Contents : Type 0
Contents = memory.Disk

-- a hash that tells the pieces apart
abbrev hash_bytes : Bytes → Bytes
hash_bytes bytes = bytes

abbrev empty : DiskManagerContext Contents
empty = record { torrents = λ h. none; out = []; disk = disk }

abbrev other : Bytes
other = replicate 20 8

execute_on_pool_frame_example :
    (execute_on_pool memory hash_bytes (add_torrent info) empty).torrents other
    ≡ empty.torrents other
unfolding bytes_eq
execute_on_pool_frame_example =
    execute_on_pool_frame memory hash_bytes (add_torrent info) empty other refl

-- all three pieces are good
abbrev initial : PieceCheckerState
initial = record {
  new_states = good 0 ∷ good 1 ∷ good 2 ∷ [];
  old_states = [];
  pending_blocks = (0, []) ∷ (1, []) ∷ (2, []) ∷ [];
  total_blocks = 3;
  last_block_size = 1;
}

init_state-initial : init_state memory hash_bytes info disk ≡ (ok initial, disk)
unfolding init_state bytes_eq is_whole after_check
init_state-initial = refl

execute_add_torrent_new_example :
    ((execute_on_pool memory hash_bytes (add_torrent info) empty).out
      ≡ empty.out ++ goods hash initial.new_states ++ torrent_added hash ∷ [])
    × ((execute_on_pool memory hash_bytes (add_torrent info) empty).torrents hash
        ≡ some (record {
          file = info;
          state = record initial {
            new_states = [];
            old_states = (drain_states (λ _ s. s) initial.new_states initial.old_states (tt {0})).0;
          };
        }))
execute_add_torrent_new_example =
    execute_add_torrent_new memory hash_bytes info empty initial disk init_state-initial refl

-- one message is taken, is answered by an error, and the answer is polled
abbrev gone : ODiskMessage
gone = torrent_error hash (info_hash_not_found hash)

abbrev polled : World
polled = record {
  manager = record {
    cur_capacity = 1;
    max_capacity = 2;
    pool = [];
    recv = [];
    task_queue = 0;
    undoing = 0;
  };
  errors = 1;
}

polled-Reach : Reach (start 2) polled
unfolding try_submit_work poll run_task
polled-Reach =
    next
      (next (next here (submit (remove_torrent hash)))
        (run (remove_torrent hash) [] [] (gone ∷ []) refl refl))
      receive

try_submit_work_iff_example : (try_submit_work (remove_torrent hash) polled.manager).1 ≡ ltb 1 2
try_submit_work_iff_example =
    try_submit_work_iff 2 polled (remove_torrent hash) polled-Reach (refl, refl, refl)

taken-le-max_capacity_example :
    length polled.manager.pool + answers polled.manager.recv + polled.errors
    ≤ polled.manager.max_capacity
taken-le-max_capacity_example = taken-le-max_capacity 2 polled polled-Reach
