-- ===== src/Disk/Checker/Verdicts.antt =====
-- The verdicts that bip_disk/src/disk/tasks/helpers/piece_checker.rs finds on the pieces of a torrent
-- whose files stand on the disk.
use rust_bt.Base.{
  ℕ, ◌+◌, ◌*◌, ◌≤◌, ◌<◌, ◌^◌, ◌≡◌, refl, sym, ap, ◌∙◌, List, [], ◌∷◌, ◌++◌, append_assoc,
  append-nil, Bool, true, false, ◌&&◌, ◌||◌, not, Option, none, some, Bytes, bytes_eq, length,
  length-append, length-take, length-drop, take, drop, get_elem?, replicate, length-replicate, ltb,
  ◌==◌, if◌then◌else◌, Bool-cases, inl, inr, arith,
}
use rust_bt.Metainfo.{Info}
use rust_bt.Disk.Block.{BlockMetadata}
use rust_bt.Disk.FileSystem.{IoResult, ok, err, panic, Io, FileSystem}
use rust_bt.Disk.Accessor.Read.{concat, AreStored, read_piece-concat}
use rust_bt.Disk.Checker.{
  Entries, EntryOrder, PieceState, good, bad, PieceCheckerState, state_eq, contains, merge_pieces,
  merge_entries, piece_is_complete,
}
use rust_bt.Disk.Checker.Run.{
  Checked, keep_entry, after_check, is_whole, check_entries, run_with_whole_pieces, compare_hash,
  read_into, check_piece, calculate_diff,
}

-- A piece is known to be good.
abbrev pub known_good : List PieceState → ℕ → Bool
known_good [] index = false
known_good (good i ∷ states) index = (i == index) || known_good states index
known_good (bad i ∷ states) index = known_good states index

contains-known_good :
    (states : List PieceState) (index : ℕ) → contains states (good index) ≡ known_good states index
unfolding contains state_eq
contains-known_good [] index = refl
contains-known_good (good i ∷ states) index =
    ap (λ (b : Bool). (i == index) || b) (contains-known_good states index)
contains-known_good (bad i ∷ states) index = contains-known_good states index

-- What a piece's merged blocks have to be for a verdict: a single block of the length of a piece, or of
-- the last piece, of a piece that is not known to be good.
abbrev pub is_due : PieceCheckerState → ℕ → List BlockMetadata → Bool
is_due state piece_length [] = false
is_due state piece_length (m ∷ ms) =
    piece_is_complete state.total_blocks state.last_block_size piece_length (m ∷ ms)
    && not (known_good state.old_states m.piece_index)

module _ {S : Type 0} (callback : BlockMetadata → Io S Bool) (piece_length : ℕ)
    (state : PieceCheckerState) where
  whole-due :
      (m : BlockMetadata) (ms : List BlockMetadata)
      → is_whole callback piece_length state (m ∷ ms) ≡ is_due state piece_length (m ∷ ms)
  unfolding is_whole
  whole-due m ms = rw (contains-known_good state.old_states m.piece_index) refl

-- The verdicts on the pieces that are due, in the order of the entries, and the entries that stay.
module _ (state : PieceCheckerState) (piece_length : ℕ) where
  abbrev pub verdicts : (BlockMetadata → Bool) → Entries → List PieceState
  verdicts verdict [] = []
  verdicts verdict ((key, []) ∷ entries) = verdicts verdict entries
  verdicts verdict ((key, m ∷ ms) ∷ entries) =
      if is_due state piece_length (m ∷ ms)
      then (if verdict m then good m.piece_index else bad m.piece_index) ∷ verdicts verdict entries
      else verdicts verdict entries

  abbrev pub cleared : Entries → Entries
  cleared [] = []
  cleared ((key, messages) ∷ entries) =
      (key, (if is_due state piece_length messages then [] else messages)) ∷ cleared entries

  -- What is due has the property.
  abbrev pub AllDue : (BlockMetadata → Type 0) → Entries → Type 0
  AllDue P [] = Unit {0}
  AllDue P ((key, []) ∷ entries) = AllDue P entries
  AllDue P ((key, m ∷ ms) ∷ entries) =
      (is_due state piece_length (m ∷ ms) ≡ true → P m) × AllDue P entries

-- The callback answers with the verdict on each block with the property, in each state that it keeps
-- up itself.
module _ {S : Type 0} (callback : BlockMetadata → Io S Bool) (piece_length : ℕ)
    (state : PieceCheckerState) (verdict : BlockMetadata → Bool) (P : BlockMetadata → Type 0)
    (Q : S → Type 0)
    (answers : (m : BlockMetadata) (s : S)
      → P m
      → Q s
      → ((callback m s).0 ≡ ok (verdict m)) × Q (callback m s).1) where
  Settles : Entries → List PieceState → Checked S → Type 0
  Settles entries states (r, kept, states', s) =
      (r ≡ ok tt)
      × (kept ≡ cleared state piece_length entries)
      × (states' ≡ states ++ verdicts state piece_length verdict entries)
      × Q s

  Settles-keep :
      (key : ℕ) (m : BlockMetadata) (ms : List BlockMetadata) (entries : Entries)
      (states : List PieceState) (c : Checked S)
      → is_due state piece_length (m ∷ ms) ≡ false
      → Settles entries states c
      → Settles ((key, m ∷ ms) ∷ entries) states (keep_entry (key, m ∷ ms) c)
  unfolding Settles
  Settles-keep key m ms entries states (r, kept, states', s) w h =
      rw w (h.0, ap (λ (es : Entries). (key, m ∷ ms) ∷ es) h.1, h.2, h.3)

  Settles-after :
      (key : ℕ) (m : BlockMetadata) (ms : List BlockMetadata) (entries : Entries)
      (states : List PieceState) (next : List PieceState → S → Checked S)
      → is_due state piece_length (m ∷ ms) ≡ true
      → ((states : List PieceState) (s : S) → Q s → Settles entries states (next states s))
      → (result : IoResult Bool × S) → result.0 ≡ ok (verdict m)
      → Q result.1
      → Settles ((key, m ∷ ms) ∷ entries) states (after_check (key, m) entries states next result)
  unfolding Settles after_check
  Settles-after key m ms entries states next w settles (ok is_good, s) e q =
      let state' = if is_good then good m.piece_index else bad m.piece_index in
      let h = settles (states ++ state' ∷ []) s q in
      let same : is_good ≡ verdict m = cc in
      rw w (
        h.0,
        ap (λ (es : Entries). (key, []) ∷ es) h.1,
        h.2
            ∙ append_assoc states (state' ∷ []) (verdicts state piece_length verdict entries)
            ∙ ap
                (λ (b : Bool).
                  states
                  ++ (if b then good m.piece_index else bad m.piece_index)
                    ∷ verdicts state piece_length verdict entries)
                same,
        h.3,
      )
  Settles-after key m ms entries states next w settles (err x, s) e q = cc
  Settles-after key m ms entries states next w settles (panic, s) e q = cc

  check-verdicts :
      (entries : Entries) (states : List PieceState) (s : S)
      → AllDue state piece_length P entries
      → Q s
      → Settles entries states (check_entries callback piece_length state entries states s)
  unfolding check_entries Settles
  check-verdicts [] states s due q = (refl, refl, sym (append-nil states), q)
  check-verdicts ((key, []) ∷ entries) states s due q =
      let h = check-verdicts entries states s due q in
      (h.0, ap (λ (es : Entries). (key, []) ∷ es) h.1, h.2, h.3)
  check-verdicts ((key, m ∷ ms) ∷ entries) states s due q =
      let next = check_entries callback piece_length state entries in
      let same = whole-due callback piece_length state m ms in
      elim (Bool-cases (is_due state piece_length (m ∷ ms))) [
        | inl w ↦
            let (answer, kept) = answers m s (due.0 w) q in
            rw (same ∙ w, check_entries)
              (Settles-after key m ms entries states next w
                (λ t u. check-verdicts entries t u due.1) (callback m s) answer kept)
        | inr w ↦
            rw (same ∙ w, check_entries)
              (Settles-keep key m ms entries states (next states s) w
                (check-verdicts entries states s due.1 q))
      ]

module _ (fs : FileSystem) (hash_bytes : Bytes → Bytes) (info : Info) (contents : List Bytes) where
  abbrev start : BlockMetadata → ℕ
  start m = m.piece_index * info.piece_len + m.block_offset

  -- The torrent's bytes that stand in the block.
  abbrev pub bytes_of : BlockMetadata → Bytes
  bytes_of m = take m.block_length (drop (start m) (concat contents))

  -- The block lies within the torrent and is no longer than a piece, and its piece has a hash.
  pub record IsWithin (m : BlockMetadata) : Type 0 where
    pub expected : Bytes
    pub listed : get_elem? info.pieces m.piece_index ≡ some expected
    pub short : m.block_length ≤ info.piece_len
    pub narrow : start m < 2 ^ 64
    pub within : start m + m.block_length ≤ length (concat contents)

  abbrev matches : Bytes → Option Bytes → Bool
  matches bytes none = false
  matches bytes (some expected) = bytes_eq (hash_bytes bytes) expected

  -- The hash of the torrent's bytes is that of the block's piece.
  abbrev pub is_match : BlockMetadata → Bool
  is_match m = matches (bytes_of m) (get_elem? info.pieces m.piece_index)

  module _ ⦃order : EntryOrder⦄ (disk : fs.Disk)
      (stored : AreStored fs info.file_directory disk info.files contents) where
    -- The buffer is as long as a piece, and the disk is as it was.
    abbrev IsReady : Bytes × fs.Disk → Type 0
    IsReady (buffer, d) = (length buffer ≡ info.piece_len) × (d ≡ disk)

    answers :
        (m : BlockMetadata) (s : Bytes × fs.Disk)
        → IsWithin m
        → IsReady s
        → ((check_piece fs hash_bytes info m s).0 ≡ ok (is_match m))
          × IsReady (check_piece fs hash_bytes info m s).1
    unfolding check_piece read_into compare_hash
    answers m (buffer, d) w (sized, same) =
        let size = m.block_length in
        let short : ltb (length buffer) size ≡ false = ground (arith, w.short) in
        let fits : length (take size buffer) ≡ size =
          omega (arith, length-take size buffer, w.short) in
        let read =
          read_piece-concat fs info m disk contents (take size buffer) stored fits w.narrow
            w.within in
        let full : length (bytes_of m) ≡ size = omega (
          arith,
          length-take size (drop (start m) (concat contents)),
          length-drop (start m) (concat contents),
          w.within,
        ) in
        let kept : length (bytes_of m ++ drop size buffer) ≡ info.piece_len = omega (
          arith,
          length-append (bytes_of m) (drop size buffer),
          length-drop size buffer,
          w.short,
        ) in
        rw (same, short) (rw read (rw (w.listed) (refl, (kept, refl))))

    -- Where the files of a torrent stand on the disk with their lengths, and each piece that is due after
    -- the merging lies within the torrent, is no longer than a piece and has a hash in the torrent
    -- file, the diff is found without an error or a panic, the disk is not changed, each piece that is
    -- due is noted as good exactly if the hash of its bytes in the files is the torrent file's, and as
    -- bad otherwise, behind the states that were new before, and exactly the blocks of these pieces are
    -- no longer pending. Due is a piece with a single block of a piece's length, or of the last
    -- piece's, that is not known to be good.
    pub calculate_diff-verdicts :
        (state : PieceCheckerState)
        → AllDue state info.piece_len IsWithin (merge_entries state.pending_blocks)
        → calculate_diff fs hash_bytes info (state, disk) ≡ (
          ok tt,
          (
            record state {
              pending_blocks = cleared state info.piece_len (merge_entries state.pending_blocks);
              new_states =
                  state.new_states
                  ++ verdicts state info.piece_len is_match (merge_entries state.pending_blocks);
            },
            disk,
          ),
        )
    unfolding calculate_diff run_with_whole_pieces merge_pieces Settles
    calculate_diff-verdicts state due =
        let merged = merge_pieces state in
        let buffer = replicate info.piece_len 0 in
        let run =
          check_entries (check_piece fs hash_bytes info) info.piece_len merged merged.pending_blocks
            state.new_states (buffer, disk) in
        let h =
          check-verdicts (check_piece fs hash_bytes info) info.piece_len merged is_match IsWithin
            IsReady answers merged.pending_blocks state.new_states (buffer, disk) due
            (length-replicate {A = ℕ} info.piece_len 0, refl) in
        let whole : run ≡ (
          ok tt,
          cleared state info.piece_len merged.pending_blocks,
          state.new_states ++ verdicts state info.piece_len is_match merged.pending_blocks,
          (run.3.0, disk),
        ) =
          cc in
        rw whole refl
