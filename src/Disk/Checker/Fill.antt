-- ===== src/Disk/Checker/Fill.antt =====
-- The blocks that bip_disk/src/disk/tasks/helpers/piece_checker.rs puts up for checking when a torrent
-- is added.
use mathlib.Core.List.{foldr, Perm}
use mathlib.Core.List.Perm as Perm
use native.Mathlib.Nat.{div-add-mod'}
use rust_bt.Base.{
  ℕ, zero, suc, ◌+◌, ◌*◌, ◌/◌, ◌%◌, ◌^◌, ◌≤◌, ◌<◌, ◌≡◌, refl, sym, ap, ◌∙◌, subst, List, [], ◌∷◌,
  ◌++◌, ◌&&◌, Bool, true, ltb, append_assoc, append-nil, false, Bool-cases, inl, inr, if◌then◌else◌,
  ◌==◌, arith,
}
use rust_bt.Metainfo.{File, Info}
use rust_bt.Disk.Block.{BlockMetadata, with_default_hash}
use rust_bt.Disk.FileSystem.{ok}
use rust_bt.Disk.Checker.{Entries, EntryOrder, PieceCheckerState, push_entry, add_pending_block}
use rust_bt.Disk.Checker.Run.{total_bytes, last_piece_size, add_pieces, fill_checker_state}

-- One block for each piece from an index on.
abbrev pub one_each : ℕ → ℕ → ℕ → Entries
one_each size zero i = []
one_each size (suc left) i = (i, with_default_hash i 0 size ∷ []) ∷ one_each size left (suc i)

abbrev is_below : ℕ → ℕ × List BlockMetadata → Bool → Bool
is_below i entry rest = ltb entry.0 i && rest

abbrev keys_below : ℕ → Entries → Bool
keys_below i entries = foldr (is_below i) true entries

keys_below-Perm :
    (i : ℕ) (es fs : Entries) → Perm es fs → keys_below i fs ≡ true → keys_below i es ≡ true
keys_below-Perm i es fs p h =
    let is_set : IsSet Bool = hlevel in
    Perm.foldr-eq is_set (is_below i) (λ a b x. ground arith) p true ∙ h

push_fresh :
    (i : ℕ) (m : BlockMetadata) (entries : Entries)
    → keys_below i entries ≡ true
    → push_entry i m entries ≡ entries ++ (i, m ∷ []) ∷ []
unfolding push_entry
push_fresh i m [] h = refl
push_fresh i m ((key, messages) ∷ entries) h =
    let other : (key == i) ≡ false = ground arith in
    rw (other, push_fresh i m entries (ground arith)) refl

keys_below-push :
    (i : ℕ) (m : BlockMetadata) (entries : Entries)
    → keys_below i entries ≡ true
    → keys_below (suc i) (entries ++ (i, m ∷ []) ∷ []) ≡ true
keys_below-push i m [] h = ground arith
keys_below-push i m ((key, messages) ∷ entries) h = ground (arith, keys_below-push i m entries)

keys_below-one_each :
    (size left i n : ℕ) → i + left ≤ n → keys_below n (one_each size left i) ≡ true
keys_below-one_each size zero i n h = refl
keys_below-one_each size (suc left) i n h = ground (arith, keys_below-one_each size left (suc i) n)

module _ ⦃order : EntryOrder⦄ where
  pushed-Perm :
      (i : ℕ) (m : BlockMetadata) (state : PieceCheckerState)
      → m.piece_index ≡ i
      → keys_below i state.pending_blocks ≡ true
      → Perm (add_pending_block m state).pending_blocks (state.pending_blocks ++ (i, m ∷ []) ∷ [])
  unfolding add_pending_block
  pushed-Perm i m state e h =
      subst (λ (es : Entries). Perm (add_pending_block m state).pending_blocks es)
        (ap (λ (k : ℕ). push_entry k m state.pending_blocks) e
          ∙ push_fresh i m state.pending_blocks h)
        (order.arrange-Perm (push_entry m.piece_index m state.pending_blocks))

  add_pieces-Perm :
      (size left i : ℕ) (state : PieceCheckerState)
      → keys_below i state.pending_blocks ≡ true
      → Perm
          (add_pieces size left i state).pending_blocks
          (state.pending_blocks ++ one_each size left i)
  unfolding add_pieces with_default_hash
  add_pieces-Perm size zero i state h =
      subst (Perm state.pending_blocks) (sym (append-nil state.pending_blocks))
        (Perm.refl state.pending_blocks)
  add_pieces-Perm size (suc left) i state h =
      let m = with_default_hash i 0 size in
      let pushed = pushed-Perm i m state refl h in
      let next = add_pending_block m state in
      let below =
        keys_below-Perm (suc i) next.pending_blocks (state.pending_blocks ++ (i, m ∷ []) ∷ [])
          pushed (keys_below-push i m state.pending_blocks h) in
      Perm.trans (add_pieces-Perm size left (suc i) next below) (
        subst (Perm (next.pending_blocks ++ one_each size left (suc i)))
          (append_assoc state.pending_blocks ((i, m ∷ []) ∷ []) (one_each size left (suc i)))
          (Perm.append_right (one_each size left (suc i)) pushed))

abbrev add_lengths : List BlockMetadata → ℕ → ℕ
add_lengths [] rest = rest
add_lengths (m ∷ ms) rest = m.block_length + add_lengths ms rest

-- The lengths of all the blocks.
abbrev pub sum_lengths : Entries → ℕ
sum_lengths entries = foldr (λ entry rest. add_lengths entry.1 rest) 0 entries

add_lengths-add : (ms : List BlockMetadata) (n : ℕ) → add_lengths ms n ≡ add_lengths ms 0 + n
add_lengths-add [] n = omega arith
add_lengths-add (m ∷ ms) n = omega (arith, add_lengths-add ms n)

sum_lengths-Perm : (es fs : Entries) → Perm es fs → sum_lengths es ≡ sum_lengths fs
sum_lengths-Perm es fs p =
    let is_set : IsSet ℕ = hlevel in
    Perm.foldr-eq is_set (λ entry rest. add_lengths entry.1 rest)
      (λ a b x. omega (
        arith,
        add_lengths-add a.1 (add_lengths b.1 x),
        add_lengths-add b.1 (add_lengths a.1 x),
        add_lengths-add a.1 x,
        add_lengths-add b.1 x,
      ))
      p 0

-- The blocks for the torrent: one for each full piece, and, unless it would be empty, one for what is
-- left behind the last of them.
abbrev pub filled : Info → Entries
filled info =
    let n = total_bytes info.files in
    one_each info.piece_len (n / info.piece_len) 0
    ++ (if n % info.piece_len == 0
        then []
        else one_each (n % info.piece_len) 1 (n / info.piece_len))

sum_lengths-one_each :
    (size left i : ℕ) (entries : Entries)
    → sum_lengths (one_each size left i ++ entries) ≡ left * size + sum_lengths entries
unfolding with_default_hash
sum_lengths-one_each size zero i entries = omega arith
sum_lengths-one_each size (suc left) i entries =
    grind (arith, sum_lengths-one_each size left (suc i) entries)

sum_lengths-filled :
    (info : Info) → 0 < info.piece_len → sum_lengths (filled info) ≡ total_bytes info.files
sum_lengths-filled info some_length =
    let n = total_bytes info.files in
    let full = n / info.piece_len in
    let divided = div-add-mod' n info.piece_len in
    let tail : Entries =
      if n % info.piece_len == 0 then [] else one_each (n % info.piece_len) 1 full in
    let tail_sum : sum_lengths tail ≡ n % info.piece_len =
      elim (Bool-cases (n % info.piece_len == 0)) [
        | inl e ↦ rw e (ground arith)
        | inr e ↦ rw e (unfold with_default_hash in omega arith)
      ] in
    sum_lengths-one_each info.piece_len full 0 tail ∙ omega (arith, tail_sum, divided)

-- The lengths of the files.
abbrev pub file_lengths : List File → ℕ
file_lengths [] = 0
file_lengths (file ∷ files) = file.len + file_lengths files

total_bytes-exact :
    (files : List File) → file_lengths files < 2 ^ 64 → total_bytes files ≡ file_lengths files
unfolding total_bytes
total_bytes-exact [] h = refl
total_bytes-exact (file ∷ files) h =
    let rest = total_bytes-exact files (omega arith) in omega (arith, rest)

module _ ⦃order : EntryOrder⦄ {S : Type 0} (info : Info) (state : PieceCheckerState) (s : S) where
  -- Into a state with no pending block are put, in the order that the map has, one block for each full
  -- piece and, unless it would be empty, one for what is left behind the last of them, where a piece
  -- has a length; together they are as long as the torrent's files, if that fits 64 bits.
  pub fill_checker_state_pending :
      state.pending_blocks ≡ []
      → 0 < info.piece_len
      → file_lengths info.files < 2 ^ 64
      → (state' : PieceCheckerState) × (fill_checker_state info state s ≡ (ok state', s))
        × Perm state'.pending_blocks (filled info)
        × (sum_lengths state'.pending_blocks ≡ file_lengths info.files)
  unfolding fill_checker_state last_piece_size
  fill_checker_state_pending empty some_length fits =
      let n = total_bytes info.files in
      let full = n / info.piece_len in
      let size = n % info.piece_len in
      let nonzero : (info.piece_len == 0) ≡ false = ground arith in
      let pieces = add_pieces info.piece_len full 0 state in
      let start : keys_below 0 state.pending_blocks ≡ true = rw empty refl in
      let added : Perm pieces.pending_blocks (one_each info.piece_len full 0) =
        subst (λ (es : Entries). Perm pieces.pending_blocks (es ++ one_each info.piece_len full 0))
          empty (add_pieces-Perm info.piece_len full 0 state start) in
      let sum = λ (es : Entries) (p : Perm es (filled info)).
        sum_lengths-Perm es (filled info) p
        ∙ sum_lengths-filled info some_length
        ∙ total_bytes-exact info.files fits in
      elim (Bool-cases (size == 0)) [
        | inl e ↦
            let all : Perm pieces.pending_blocks (filled info) = rw e (
              subst (Perm pieces.pending_blocks) (sym (append-nil (one_each info.piece_len full 0)))
                added) in
            (pieces, rw (nonzero, e) refl, all, sum pieces.pending_blocks all)
        | inr e ↦
            let m = with_default_hash full 0 size in
            let last = add_pending_block m pieces in
            let below =
              keys_below-Perm full pieces.pending_blocks (one_each info.piece_len full 0) added
                (keys_below-one_each info.piece_len full 0 full (omega arith)) in
            let pushed = pushed-Perm full m pieces (unfold with_default_hash in refl) below in
            let all : Perm last.pending_blocks (filled info) =
              rw e (Perm.trans pushed (Perm.append_right ((full, m ∷ []) ∷ []) added)) in
            (last, rw (nonzero, e) refl, all, sum last.pending_blocks all)
      ]
