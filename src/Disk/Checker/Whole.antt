-- ===== src/Disk/Checker/Whole.antt =====
-- Which pieces bip_disk/src/disk/tasks/helpers/piece_checker.rs hands to its callback, and what is
-- left pending.
use rust_bt.Base.{
  ℕ, ◌+◌, ◌≡◌, refl, ap, List, [], ◌∷◌, ◌++◌, Bool, true, false, length, length-append,
  if◌then◌else◌, Bool-cases, inl, inr, arith,
}
use rust_bt.Disk.Block.{BlockMetadata}
use rust_bt.Disk.FileSystem.{IoResult, ok, err, panic, Io}
use rust_bt.Disk.Checker.{
  Entries, PieceState, good, bad, PieceCheckerState, merge_pieces, piece_is_complete,
}
use rust_bt.Disk.Checker.Run.{
  Checked, keep_entry, after_check, is_whole, check_entries, run_with_whole_pieces,
}

module _ {S : Type 0} (callback : BlockMetadata → Io S Bool) (piece_length : ℕ)
    (state : PieceCheckerState) where
  abbrev whole : List BlockMetadata → Bool
  whole = is_whole callback piece_length state

  abbrev check : Entries → List PieceState → S → Checked S
  check = check_entries callback piece_length state

  -- How many entries are whole pieces that are not known to be good.
  abbrev pub count_whole : Entries → ℕ
  count_whole [] = 0
  count_whole ((key, messages) ∷ entries) = (if whole messages then 1 else 0) + count_whole entries

  whole_alone :
      (m : BlockMetadata) (ms : List BlockMetadata) → whole (m ∷ ms) ≡ true → whole (m ∷ []) ≡ true
  unfolding is_whole piece_is_complete
  whole_alone m [] h = h
  whole_alone m (n ∷ ns) h = ground arith

  whole_nil : whole [] ≡ false
  unfolding is_whole
  whole_nil = refl

  abbrev Conserves : ℕ → Checked S → Type 0
  Conserves n (r, entries, states, s) = count_whole entries + length states ≡ n

  Conserves-keep :
      (n : ℕ) (key : ℕ) (ms : List BlockMetadata) (c : Checked S)
      → Conserves n c
      → Conserves ((if whole ms then 1 else 0) + n) (keep_entry (key, ms) c)
  Conserves-keep n key ms (r, entries, states, s) h = omega arith

  Conserves-after :
      (key : ℕ) (m : BlockMetadata) (entries : Entries) (states : List PieceState)
      (next : List PieceState → S → Checked S)
      → ((states : List PieceState) (s : S)
          → Conserves (count_whole entries + length states) (next states s))
      → whole (m ∷ []) ≡ true
      → (result : IoResult Bool × S)
      → Conserves
          (1 + count_whole entries + length states)
          (after_check (key, m) entries states next result)
  unfolding after_check
  Conserves-after key m entries states next conserves w (ok is_good, s) =
      let state = if is_good then good m.piece_index else bad m.piece_index in
      rw whole_nil
        (omega (arith, conserves (states ++ state ∷ []) s, length-append states (state ∷ [])))
  Conserves-after key m entries states next conserves w (err e, s) = rw w (omega arith)
  Conserves-after key m entries states next conserves w (panic, s) = rw w (omega arith)

  -- However the callback's calls end, by an error included, each whole piece either gets its verdict
  -- or stays pending.
  check-Conserves :
      (entries : Entries) (states : List PieceState) (s : S)
      → Conserves (count_whole entries + length states) (check entries states s)
  unfolding check_entries
  check-Conserves [] states s = refl
  check-Conserves ((key, []) ∷ entries) states s =
      let (r, kept, states', s') = check entries states s in
      omega (arith, check-Conserves entries states s)
  check-Conserves ((key, m ∷ ms) ∷ entries) states s = elim (Bool-cases (whole (m ∷ ms))) [
    | inl w ↦
        rw (w, check_entries)
          (Conserves-after key m entries states (check entries) (check-Conserves entries)
            (whole_alone m ms w) (callback m s))
    | inr w ↦
        let n = count_whole entries + length states in
        let kept = check entries states s in
        let keep = Conserves-keep n key (m ∷ ms) kept (check-Conserves entries states s) in
        let no_more = ap {B = ℕ} (λ (b : Bool). if b then 1 else 0) w in
        rw (w, check_entries) (omega (arith, keep, no_more))
  ]

module _ {S : Type 0} (callback : BlockMetadata → Io S Bool) (piece_length : ℕ)
    (state : PieceCheckerState) (s : S) where
  abbrev merged : PieceCheckerState
  merged = merge_pieces state

  abbrev after : PieceCheckerState
  after = (run_with_whole_pieces callback piece_length (state, s)).1.0

  -- Whether a call of the callback fails or not, the run drops no whole piece without a verdict: the
  -- whole pieces that are pending after it and the verdicts noted are together as many as after the
  -- merging.
  pub run_with_whole_pieces_conserves :
      count_whole callback piece_length merged after.pending_blocks + length after.new_states
      ≡ count_whole callback piece_length merged merged.pending_blocks + length state.new_states
  unfolding run_with_whole_pieces merge_pieces
  run_with_whole_pieces_conserves =
      check-Conserves callback piece_length merged merged.pending_blocks state.new_states s
