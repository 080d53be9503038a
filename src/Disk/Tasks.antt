-- ===== src/Disk/Tasks.antt =====
-- bip_disk/src/disk/tasks/mod.rs and context.rs: what is done for each message to the disk manager.
-- A message is handled from its start to its end, with no other in between. Sending an answer cannot
-- fail here; the code would panic. What a panic leaves behind, a poisoned lock, is left out.
pub mod Frame
pub mod Answers
use rust_bt.Base.{
  ℕ, List, [], ◌∷◌, ◌++◌, Bool, true, false, Option, none, some, Bytes, bytes_eq, ◌==◌,
  if◌then◌else◌, length,
}
use rust_bt.Metainfo.{FilePath, File, Info}
use rust_bt.Disk.Block.{BlockMetadata, Block}
use rust_bt.Disk.FileSystem.{
  IoResult, ok, err, panic, DiskError, existing_info_hash, info_hash_not_found, Io, pure, try_then,
  FileSystem,
}
use rust_bt.Disk.Accessor.{build_path, read_piece, write_piece}
use rust_bt.Disk.Checker.{
  EntryOrder, PieceState, good, bad, PieceCheckerState, add_pending_block, run_with_diff,
}
use rust_bt.Disk.Checker.Run.{calculate_diff, init_state}

pub data IDiskMessage : Type 0 where
  add_torrent : Info → IDiskMessage
  remove_torrent : Bytes → IDiskMessage
  sync_torrent : Bytes → IDiskMessage
  load_block : Block → IDiskMessage
  process_block : Block → IDiskMessage

pub data ODiskMessage : Type 0 where
  torrent_added : Bytes → ODiskMessage
  torrent_removed : Bytes → ODiskMessage
  torrent_synced : Bytes → ODiskMessage
  found_good_piece : Bytes → ℕ → ODiskMessage
  found_bad_piece : Bytes → ℕ → ODiskMessage
  block_loaded : Block → ODiskMessage
  block_processed : Block → ODiskMessage
  torrent_error : Bytes → DiskError → ODiskMessage
  load_block_error : Block → DiskError → ODiskMessage
  process_block_error : Block → DiskError → ODiskMessage

-- Of a metainfo file the tasks read the info dictionary.
pub record MetainfoState : Type 0 where
  pub file : Info
  pub state : PieceCheckerState

-- The map of torrents is a function; `out` lists what was sent, `disk` is behind the file system.
pub record DiskManagerContext (D : Type 0) : Type 0 where
  pub torrents : Bytes → Option MetainfoState
  pub out : List ODiskMessage
  pub disk : D

module _ {D : Type 0} where
  unfoldable pub set_torrent :
      Bytes → Option MetainfoState → DiskManagerContext D → DiskManagerContext D
  set_torrent hash entry context = record context {
    torrents = λ h. if bytes_eq hash h then entry else context.torrents h;
  }

  unfoldable pub insert_torrent :
      Info → PieceCheckerState → DiskManagerContext D → DiskManagerContext D × Bool
  unfolding set_torrent
  insert_torrent file state context = elim (context.torrents file.info_hash) [
    | none ↦
        (set_torrent file.info_hash (some (record { file = file; state = state })) context, true)
    | some _ ↦ (context, false)
  ]

  unfoldable pub delete_torrent : Bytes → DiskManagerContext D → DiskManagerContext D × Bool
  unfolding set_torrent
  delete_torrent hash context = elim (context.torrents hash) [
    | none ↦ (context, false)
    | some _ ↦ (set_torrent hash none context, true)
  ]

  unfoldable pub send : ODiskMessage → DiskManagerContext D → DiskManagerContext D
  send message context = record context { out = context.out ++ message ∷ [] }

  -- The closure that `send_piece_diff` runs on each new state.
  unfoldable pub send_state :
      Bytes → Bool → PieceState → DiskManagerContext D → DiskManagerContext D
  unfolding send
  send_state hash ignore_bad (good index) context = send (found_good_piece hash index) context
  send_state hash false (bad index) context = send (found_bad_piece hash index) context
  send_state hash true (bad index) context = context

  unfoldable pub send_piece_diff :
      PieceCheckerState
      → Bytes
      → Bool
      → DiskManagerContext D
      → PieceCheckerState × DiskManagerContext D
  unfolding run_with_diff send_state
  send_piece_diff checker_state hash ignore_bad =
      run_with_diff (send_state hash ignore_bad) checker_state

abbrev pub is_panic : IoResult (Unit {0}) → Bool
is_panic (ok _) = false
is_panic (err _) = false
is_panic panic = true

module _ ⦃order : EntryOrder⦄ (fs : FileSystem) (hash_bytes : Bytes → Bytes) where
  abbrev pub Context : Type 0
  Context = DiskManagerContext fs.Disk

  abbrev pub Task : Type 0 → Type 0
  Task A = Context → IoResult A × Context

  -- A call of the file system from a task.
  unfoldable pub on_disk : {A : Type 0} → Io fs.Disk A → Task A
  on_disk m context = let (r, disk') = m context.disk in (r, record context { disk = disk' })

  -- What follows the `try!` on the initial state.
  unfoldable pub finish_add : Info → PieceCheckerState → Task (Unit {0})
  unfolding send_piece_diff insert_torrent
  finish_add file state context =
      let (state', sent) = send_piece_diff state file.info_hash true context in
      let (inserted, is_new) = insert_torrent file state' sent in
      if is_new then (ok tt, inserted) else (err (existing_info_hash file.info_hash), inserted)

  unfoldable pub execute_add_torrent : Info → Task (Unit {0})
  unfolding on_disk init_state finish_add
  execute_add_torrent file context =
      try_then (on_disk (init_state fs hash_bytes file) context) (finish_add file)

  unfoldable pub execute_remove_torrent : Bytes → Task (Unit {0})
  unfolding delete_torrent
  execute_remove_torrent hash context =
      let (removed, found) = delete_torrent hash context in
      if found then (ok tt, removed) else (err (info_hash_not_found hash), removed)

  -- Each call overwrites the result of the one before.
  unfoldable pub sync_files :
      Option FilePath → List File → IoResult (Unit {0}) → fs.Disk → IoResult (Unit {0}) × fs.Disk
  unfolding build_path
  sync_files dir [] sync_result disk = (sync_result, disk)
  sync_files dir (file ∷ files) sync_result disk =
      let (r, disk') = fs.sync_file (build_path dir file) disk in sync_files dir files r disk'

  unfoldable pub execute_sync_torrent : Bytes → Task (Unit {0})
  unfolding on_disk sync_files
  execute_sync_torrent hash context = elim (context.torrents hash) [
    | none ↦ (err (info_hash_not_found hash), context)
    | some torrent ↦
        on_disk (sync_files torrent.file.file_directory torrent.file.files (ok tt)) context
  ]

  -- The block is read in place: its bytes are part of the result.
  unfoldable pub execute_load_block : Block → Context → IoResult (Unit {0}) × Block × Context
  unfolding read_piece
  execute_load_block block context = elim (context.torrents block.metadata.info_hash) [
    | none ↦ (err (info_hash_not_found block.metadata.info_hash), block, context)
    | some torrent ↦
        let (r, (bytes, disk')) =
          read_piece fs torrent.file block.metadata (block.block_data, context.disk) in
        (r, record block { block_data = bytes }, record context { disk = disk' })
  ]

  -- The closure's chain: the block is written, noted as pending, and the pieces are checked.
  unfoldable pub write_and_check : Info → Block → Io (PieceCheckerState × fs.Disk) (Unit {0})
  unfolding write_piece calculate_diff add_pending_block
  write_and_check file block (checker_state, disk) =
      let (r, disk') = write_piece fs file block.block_data block.metadata disk in
      try_then (r, (checker_state, disk'))
        λ _ s. calculate_diff fs hash_bytes file (add_pending_block block.metadata s.0, s.1)

  -- What the closure does after the chain, with its result, the checker's state and the disk. The state
  -- was changed in place: after a panic it stays as it is, and no diff is sent.
  unfoldable pub finish_process :
      Block → MetainfoState → IoResult (Unit {0}) × (PieceCheckerState × fs.Disk) → Task (Unit {0})
  unfolding send_piece_diff set_torrent
  finish_process block torrent (r, (checker_state, disk')) context =
      let context' = record context { disk = disk' } in
      let (checker_state', sent) =
        if is_panic r
        then (checker_state, context')
        else send_piece_diff checker_state torrent.file.info_hash false context' in
      let entry = record torrent { state = checker_state' } in
      (r, set_torrent block.metadata.info_hash (some entry) sent)

  unfoldable pub execute_process_block : Block → Task (Unit {0})
  unfolding write_and_check finish_process
  execute_process_block block context = elim (context.torrents block.metadata.info_hash) [
    | none ↦ (err (info_hash_not_found block.metadata.info_hash), context)
    | some torrent ↦
        finish_process block torrent
          (write_and_check torrent.file block (torrent.state, context.disk)) context
  ]

  -- The answer to a message; a panic ends the task with none.
  unfoldable pub answer :
      IoResult (Unit {0}) → ODiskMessage → (DiskError → ODiskMessage) → Context → Context
  unfolding send
  answer (ok _) success failure context = send success context
  answer (err e) success failure context = send (failure e) context
  answer panic success failure context = context

  unfoldable pub execute_on_pool : IDiskMessage → Context → Context
  unfolding answer execute_add_torrent execute_remove_torrent execute_sync_torrent
      execute_load_block execute_process_block
  execute_on_pool (add_torrent file) context =
      let (r, context') = execute_add_torrent file context in
      answer r (torrent_added file.info_hash) (torrent_error file.info_hash) context'
  execute_on_pool (remove_torrent hash) context =
      let (r, context') = execute_remove_torrent hash context in
      answer r (torrent_removed hash) (torrent_error hash) context'
  execute_on_pool (sync_torrent hash) context =
      let (r, context') = execute_sync_torrent hash context in
      answer r (torrent_synced hash) (torrent_error hash) context'
  execute_on_pool (load_block block) context =
      let (r, block', context') = execute_load_block block context in
      answer r (block_loaded block') (load_block_error block') context'
  execute_on_pool (process_block block) context =
      let (r, context') = execute_process_block block context in
      answer r (block_processed block) (process_block_error block) context'
