-- ===== src/Disk/Tasks/Frame.antt =====
-- Which torrents the tasks of bip_disk/src/disk/tasks/mod.rs leave alone.
use rust_bt.Base.{
  ◌≡◌, inl, inr, refl, sym, ap, ◌∙◌, List, [], ◌∷◌, Bool, true, false, Option, none, Bytes,
  bytes_eq, bytes_eq→eq, if◌then◌else◌, Bool-cases, Option-cases,
}
use rust_bt.Metainfo.{Info}
use rust_bt.Disk.Block.{Block}
use rust_bt.Disk.FileSystem.{IoResult, ok, err, panic, DiskError, try_then, FileSystem}
use rust_bt.Disk.Checker.{
  EntryOrder, PieceState, good, bad, PieceCheckerState, insert, drain_states, run_with_diff,
}
use rust_bt.Disk.Checker.Run.{init_state}
use rust_bt.Disk.Tasks.{
  IDiskMessage, ODiskMessage, MetainfoState, DiskManagerContext, set_torrent, insert_torrent,
  delete_torrent, send, send_state, send_piece_diff, on_disk, finish_add, finish_process, is_panic,
  execute_add_torrent, execute_remove_torrent, execute_sync_torrent, execute_load_block,
  execute_process_block, answer, write_and_check, execute_on_pool, add_torrent, remove_torrent,
  sync_torrent, load_block, process_block, torrent_error, load_block_error, process_block_error,
  torrent_added, torrent_synced, block_loaded, block_processed, torrent_removed, found_good_piece,
  found_bad_piece,
}

-- The torrent that a message is about.
abbrev pub target : IDiskMessage → Bytes
target (add_torrent file) = file.info_hash
target (remove_torrent hash) = hash
target (sync_torrent hash) = hash
target (load_block block) = block.metadata.info_hash
target (process_block block) = block.metadata.info_hash

abbrev Torrents : Type 0
Torrents = Bytes → Option MetainfoState

module _ {D : Type 0} where
  pub drain-torrents :
      (hash : Bytes) (ignore_bad : Bool) (states old : List PieceState)
      (context : DiskManagerContext D)
      → (drain_states (send_state hash ignore_bad) states old context).1.torrents ≡ context.torrents
  unfolding drain_states send_state
  drain-torrents hash ignore_bad [] old context = refl
  drain-torrents hash ignore_bad (good i ∷ states) old context =
      drain-torrents hash ignore_bad states (insert (good i) old)
        (send (found_good_piece hash i) context)
  drain-torrents hash true (bad i ∷ states) old context =
      drain-torrents hash true states (insert (bad i) old) context
  drain-torrents hash false (bad i ∷ states) old context =
      drain-torrents hash false states (insert (bad i) old) (send (found_bad_piece hash i) context)

  module _ (hash : Bytes) (context : DiskManagerContext D) where
    pub delete-none : context.torrents hash ≡ none → delete_torrent hash context ≡ (context, false)
    unfolding delete_torrent
    delete-none e = rw (e, delete_torrent) refl

    delete_torrents :
        (h : Bytes)
        → (delete_torrent hash context).0.torrents h
          ≡ (if bytes_eq hash h then none else context.torrents h)
    unfolding delete_torrent
    delete_torrents h = elim (Option-cases (context.torrents hash)) [
      | inl e ↦
          rw (e, delete_torrent)
            (elim (Bool-cases (bytes_eq hash h)) [
              | inl same ↦ rw same (ap context.torrents (sym (bytes_eq→eq hash h same)) ∙ e)
              | inr other ↦ rw other refl
            ])
      | inr (torrent, e) ↦ rw (e, delete_torrent) refl
    ]

  insert_other :
      (file : Info) (state : PieceCheckerState) (context : DiskManagerContext D) (h : Bytes)
      → bytes_eq file.info_hash h ≡ false
      → (insert_torrent file state context).0.torrents h ≡ context.torrents h
  unfolding insert_torrent
  insert_other file state context h other = elim (Option-cases (context.torrents file.info_hash)) [
    | inl e ↦ rw (e, insert_torrent) (rw other refl)
    | inr (torrent, e) ↦ rw (e, insert_torrent) refl
  ]

module _ ⦃order : EntryOrder⦄ (fs : FileSystem) (hash_bytes : Bytes → Bytes) where
  abbrev execute : IDiskMessage → DiskManagerContext fs.Disk → DiskManagerContext fs.Disk
  execute = execute_on_pool fs hash_bytes

  module _ (h : Bytes) (context : DiskManagerContext fs.Disk) where
    abbrev Same : DiskManagerContext fs.Disk → Type 0
    Same context' = context'.torrents h ≡ context.torrents h

    add-other :
        (file : Info)
        → bytes_eq file.info_hash h ≡ false
        → (result : IoResult PieceCheckerState × DiskManagerContext fs.Disk) → Same result.1
        → Same (try_then result (finish_add fs hash_bytes file)).1
    unfolding finish_add send_piece_diff run_with_diff
    add-other file other (ok state, before) same =
        let sent =
          drain_states (send_state file.info_hash true) state.new_states state.old_states before in
        let state' = record state { new_states = []; old_states = sent.0 } in
        let kept =
          insert_other file state' sent.1 h other
          ∙ ap (λ (t : Torrents). t h)
              (drain-torrents file.info_hash true state.new_states state.old_states before)
          ∙ same in
        elim (Bool-cases (insert_torrent file state' sent.1).1) [
          | inl new ↦ rw (new, finish_add) kept
          | inr old ↦ rw (old, finish_add) kept
        ]
    add-other file other (err e, before) same = same
    add-other file other (panic, before) same = same

    remove-other :
        (hash : Bytes)
        → bytes_eq hash h ≡ false
        → Same (execute_remove_torrent fs hash_bytes hash context).1
    unfolding execute_remove_torrent
    remove-other hash other =
        let kept = delete_torrents hash context h ∙ rw other refl in
        elim (Bool-cases (delete_torrent hash context).1) [
          | inl found ↦ rw (found, execute_remove_torrent) kept
          | inr absent ↦ rw (absent, execute_remove_torrent) kept
        ]

    sync-other : (hash : Bytes) → Same (execute_sync_torrent fs hash_bytes hash context).1
    unfolding execute_sync_torrent
    sync-other hash = elim (Option-cases (context.torrents hash)) [
      | inl e ↦ rw (e, execute_sync_torrent) refl
      | inr (torrent, e) ↦ rw (e, execute_sync_torrent) refl
    ]

    load-other : (block : Block) → Same (execute_load_block fs hash_bytes block context).2
    unfolding execute_load_block
    load-other block = elim (Option-cases (context.torrents block.metadata.info_hash)) [
      | inl e ↦ rw (e, execute_load_block) refl
      | inr (torrent, e) ↦ rw (e, execute_load_block) refl
    ]

    process-other :
        (block : Block)
        → bytes_eq block.metadata.info_hash h ≡ false
        → Same (execute_process_block fs hash_bytes block context).1
    unfolding execute_process_block finish_process send_piece_diff run_with_diff set_torrent
    process-other block other = elim (Option-cases (context.torrents block.metadata.info_hash)) [
      | inl e ↦ rw (e, execute_process_block) refl
      | inr (torrent, e) ↦
          let run =
            write_and_check fs hash_bytes torrent.file block (torrent.state, context.disk) in
          let kept =
            ap (λ (t : Torrents). t h)
              (drain-torrents torrent.file.info_hash false run.1.0.new_states run.1.0.old_states
                (record context { disk = run.1.1 })) in
          elim (Bool-cases (is_panic run.0)) [
            | inl p ↦ rw (e, execute_process_block) (rw p (rw other refl))
            | inr p ↦ rw (e, execute_process_block) (rw p (rw other kept))
          ]
    ]

    answered :
        (r : IoResult (Unit {0})) (success : ODiskMessage) (failure : DiskError → ODiskMessage)
        (context' : DiskManagerContext fs.Disk)
        → Same context'
        → Same (answer fs hash_bytes r success failure context')
    unfolding answer
    answered (ok _) success failure context' same = same
    answered (err e) success failure context' same = same
    answered panic success failure context' same = same

  -- A message changes nothing of the torrents that it is not about.
  pub execute_on_pool_frame :
      (message : IDiskMessage) (context : DiskManagerContext fs.Disk) (h : Bytes)
      → bytes_eq (target message) h ≡ false
      → (execute message context).torrents h ≡ context.torrents h
  unfolding execute_on_pool
  execute_on_pool_frame (add_torrent file) context h other =
      let r = execute_add_torrent fs hash_bytes file context in
      let start = on_disk fs hash_bytes (init_state fs hash_bytes file) context in
      answered h context r.0 (torrent_added file.info_hash) (torrent_error file.info_hash) r.1
        (add-other h context file other start refl)
  execute_on_pool_frame (remove_torrent hash) context h other =
      let r = execute_remove_torrent fs hash_bytes hash context in
      answered h context r.0 (torrent_removed hash) (torrent_error hash) r.1
        (remove-other h context hash other)
  execute_on_pool_frame (sync_torrent hash) context h other =
      let r = execute_sync_torrent fs hash_bytes hash context in
      answered h context r.0 (torrent_synced hash) (torrent_error hash) r.1
        (sync-other h context hash)
  execute_on_pool_frame (load_block block) context h other =
      let r = execute_load_block fs hash_bytes block context in
      answered h context r.0 (block_loaded r.1) (load_block_error r.1) r.2
        (load-other h context block)
  execute_on_pool_frame (process_block block) context h other =
      let r = execute_process_block fs hash_bytes block context in
      answered h context r.0 (block_processed block) (process_block_error block) r.1
        (process-other h context block other)
