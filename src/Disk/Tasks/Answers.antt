-- ===== src/Disk/Tasks/Answers.antt =====
-- What the tasks of bip_disk/src/disk/tasks/mod.rs answer.
use rust_bt.Base.{
  ◌≡◌, refl, sym, ap, ◌∙◌, List, [], ◌∷◌, ◌++◌, append_assoc, append-nil, true, Option, none, some,
  Bytes, bytes_eq_refl,
}
use rust_bt.Metainfo.{Info}
use rust_bt.Disk.FileSystem.{ok, FileSystem}
use rust_bt.Disk.Checker.{
  EntryOrder, PieceState, good, bad, PieceCheckerState, insert, drain_states, run_with_diff,
}
use rust_bt.Disk.Checker.Run.{init_state}
use rust_bt.Disk.Tasks.{
  IDiskMessage, ODiskMessage, MetainfoState, DiskManagerContext, set_torrent, insert_torrent, send,
  send_state, send_piece_diff, on_disk, finish_add, execute_add_torrent, execute_on_pool,
  add_torrent, torrent_added, found_good_piece,
}
use rust_bt.Disk.Tasks.Frame.{drain-torrents}

-- The messages about the new states of a torrent that is added.
abbrev pub goods : Bytes → List PieceState → List ODiskMessage
goods hash [] = []
goods hash (good i ∷ states) = found_good_piece hash i ∷ goods hash states
goods hash (bad i ∷ states) = goods hash states

module _ {D : Type 0} where
  drain-goods :
      (hash : Bytes) (states old : List PieceState) (context : DiskManagerContext D)
      → (drain_states (send_state hash true) states old context).1.out
        ≡ context.out ++ goods hash states
  unfolding drain_states send_state
  drain-goods hash [] old context = sym (append-nil context.out)
  drain-goods hash (good i ∷ states) old context =
      drain-goods hash states (insert (good i) old) (send (found_good_piece hash i) context)
      ∙ append_assoc context.out (found_good_piece hash i ∷ []) (goods hash states)
  drain-goods hash (bad i ∷ states) old context =
      drain-goods hash states (insert (bad i) old) context

  drain-old :
      (hash : Bytes) (states old : List PieceState) (context : DiskManagerContext D)
      → (drain_states (send_state hash true) states old context).0
        ≡ (drain_states (λ _ s. s) states old (tt {0})).0
  unfolding drain_states
  drain-old hash [] old context = refl
  drain-old hash (s ∷ states) old context =
      drain-old hash states (insert s old) (send_state hash true s context)

module _ ⦃order : EntryOrder⦄ (fs : FileSystem) (hash_bytes : Bytes → Bytes) where
  abbrev execute : IDiskMessage → DiskManagerContext fs.Disk → DiskManagerContext fs.Disk
  execute = execute_on_pool fs hash_bytes

  finish_new :
      (file : Info) (state : PieceCheckerState) (before : DiskManagerContext fs.Disk)
      → before.torrents file.info_hash ≡ none
      → let sent =
          drain_states (send_state file.info_hash true) state.new_states state.old_states before in
        finish_add fs hash_bytes file state before ≡ (
          ok tt,
          set_torrent file.info_hash
              (some (record {
                file = file;
                state = record state { new_states = []; old_states = sent.0 };
              }))
              sent.1,
        )
  unfolding finish_add insert_torrent send_piece_diff run_with_diff
  finish_new file state before absent =
      let kept =
        ap (λ (t : Bytes → Option MetainfoState). t file.info_hash)
          (drain-torrents file.info_hash true state.new_states state.old_states before)
        ∙ absent in
      rw (kept, insert_torrent) refl

  -- Where the initial state of a torrent that is not there yet is found, the torrent is put in with
  -- that state, its new states become known ones, its good pieces are sent in the order in which they
  -- were found, and the answer comes behind them.
  pub execute_add_torrent_new :
      (file : Info) (context : DiskManagerContext fs.Disk) (state : PieceCheckerState)
      (disk : fs.Disk)
      → init_state fs hash_bytes file context.disk ≡ (ok state, disk)
      → context.torrents file.info_hash ≡ none
      → ((execute (add_torrent file) context).out
          ≡ context.out
            ++ goods file.info_hash state.new_states
            ++ torrent_added file.info_hash ∷ [])
        × ((execute (add_torrent file) context).torrents file.info_hash
            ≡ some (record {
              file = file;
              state = record state {
                new_states = [];
                old_states = (drain_states (λ _ s. s) state.new_states state.old_states (tt {0})).0;
              };
            }))
  unfolding execute_on_pool execute_add_torrent on_disk
  execute_add_torrent_new file context state disk found absent =
      let before = record context { disk = disk } in
      let states = state.new_states in
      rw found (
        rw (finish_new file state before absent) (
          rw (drain-goods file.info_hash states state.old_states before) refl,
          rw (bytes_eq_refl file.info_hash)
              (rw (drain-old file.info_hash states state.old_states before) refl),
        ))
