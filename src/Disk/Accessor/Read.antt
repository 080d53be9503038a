-- ===== src/Disk/Accessor/Read.antt =====
-- What bip_disk/src/disk/tasks/helpers/piece_accessor.rs reads into a block's buffer.
use Prim.Native.Nat.{min}
use rust_bt.Base.{
  ℕ, ◌+◌, ◌-◌, ◌*◌, ◌%◌, ◌^◌, ◌≤◌, ◌<◌, ◌≡◌, inl, inr, refl, sym, ap, ◌∙◌, List, [], ◌∷◌, ◌++◌,
  append_assoc, append-nil, ◌&&◌, Option, Bytes, length, take, drop, ltb, Bool-cases, ==_iff,
  take-append, drop-append, drop-drop, drop_all, take_min, take-append_more, drop-append_more,
  length-take, length-drop, length-append, leb, true, drop_nil, take_nil, arith,
}
use rust_bt.Metainfo.{FilePath, File, Info}
use rust_bt.Disk.Block.{BlockMetadata}
use rust_bt.Disk.FileSystem.{IoResult, ok, FileSystem}
use rust_bt.Disk.Accessor.{
  build_path, access_region, access_file, access_files, run_with_file_regions, lift, copy_to,
  read_region, read_piece, check_slice,
}

abbrev pub concat : List Bytes → Bytes
concat [] = []
concat (c ∷ cs) = c ++ concat cs

module _ (fs : FileSystem) (directory : Option FilePath) (disk : fs.Disk) where
  open fs use {Disk, Handle, open_file, read_file}

  -- A file stands on the disk with its content: it can be opened, and a read at an offset returns
  -- what stands there, up to the end of the file. Neither changes the disk.
  pub record IsStored (file : File) (content : Bytes) : Type 0 where
    pub handle : Handle
    pub opens : open_file (build_path directory file) disk ≡ (ok handle, disk)
    pub reads :
        (offset size : ℕ)
        → read_file handle offset size disk ≡ (ok (take size (drop offset content)), disk)
    pub fits : length content ≡ file.len

  abbrev pub AreStored : List File → List Bytes → Type 0
  AreStored [] [] = Unit {0}
  AreStored [] (c ∷ cs) = ⊥
  AreStored (f ∷ fs) [] = ⊥
  AreStored (f ∷ fs) (c ∷ cs) = IsStored f c × AreStored fs cs

-- Bytes are put at the end of what is done.
copy_to_end :
    (done piece rest : Bytes)
    → copy_to (length done) piece (done ++ rest) ≡ done ++ (piece ++ drop (length piece) rest)
unfolding copy_to
copy_to_end done piece rest =
    let behind : drop (length done + length piece) (done ++ rest) ≡ drop (length piece) rest =
      sym (drop-drop (length done) (length piece) (done ++ rest))
      ∙ ap (drop (length piece)) (drop-append done rest) in
    rw (take-append done rest, behind) (append_assoc done piece (drop (length piece) rest))

length-zero : (xs : Bytes) → length xs ≡ 0 → xs ≡ []
length-zero [] h = refl
length-zero (x ∷ xs) h = absurd (omega arith)

module _ (fs : FileSystem) (directory : Option FilePath) (disk : fs.Disk) (done rest : Bytes)
    (k : ℕ) (file : File) (content : Bytes) (stored : IsStored fs directory disk file content) where
  open fs use {Handle, open_file, read_file}

  abbrev total : ℕ
  total = length done + length rest

  abbrev piece : Bytes
  piece = take (length rest) (drop k content)

  size : length piece ≡ min (length rest) (length content - k)
  size = length-take (length rest) (drop k content) ∙ ap (min (length rest)) (length-drop k content)

  region :
      (offset begin n end : ℕ) (buffer : Bytes)
      → end - begin ≡ n
      → begin ≤ end
      → end ≤ length buffer
      → length (take n (drop offset content)) ≡ n
      → ◌≡◌ {A = IoResult (Unit {0}) × (Bytes × fs.Disk)}
          (read_region fs stored.handle offset begin end (buffer, disk))
          (ok tt, (copy_to begin (take n (drop offset content)) buffer, disk))
  unfolding read_region check_slice
  region offset begin n end buffer e low high full =
      let inside : (leb begin end && leb end (length buffer)) ≡ true = ground arith in
      rw inside (rw (e, stored.reads offset n) (rw (full, (==_iff n n).1 refl) refl))

  -- Nothing is left to read of this file, or for this block.
  piece_nil : length piece ≡ 0 → piece ≡ []
  piece_nil h = length-zero piece h

  abbrev reached : IoResult ℕ × (Bytes × fs.Disk)
  reached = (ok (length done + length piece), (done ++ (piece ++ drop (length piece) rest), disk))

  access_more :
      0 < file.len - min k file.len
      → 0 < length rest
      → access_region
          (λ p. lift (open_file p))
          (read_region fs)
          directory
          total
          file
          (file.len - min k file.len)
          (length done)
          (done ++ rest, disk)
        ≡ reached
  unfolding access_region lift
  access_more h l =
      let m = min (total - length done) (file.len - min k file.len) in
      let n : length piece ≡ m = omega (arith, size, stored.fits) in
      let off : file.len - (file.len - min k file.len) ≡ k = omega arith in
      let same : take m (drop k content) ≡ piece =
        ap (λ (x : ℕ). take x (drop k content)) (sym n ∙ length-take (length rest) (drop k content))
        ∙ sym (take_min (length rest) (drop k content)) in
      let full : length (take m (drop k content)) ≡ m = ap length same ∙ n in
      let end = length done + m in
      let inside : end ≤ length (done ++ rest) =
        omega (arith, length-append done rest, length-take (length rest) (drop k content)) in
      let read =
        region k (length done) m end (done ++ rest) (omega arith) (omega arith) inside full in
      rw stored.opens (rw (off, read) (rw (same, copy_to_end done piece rest) (rw (← n) refl)))

  access :
      access_file
        (λ p. lift (open_file p))
        (read_region fs)
        directory
        total
        file
        (file.len - min k file.len)
        (length done)
        (done ++ rest, disk)
      ≡ reached
  unfolding access_file
  access = elim (Bool-cases (ltb 0 (file.len - min k file.len) && ltb (length done) total)) [
    | inl more ↦ rw more (access_more (ground arith) (ground arith))
    | inr none_left ↦
        let e : length piece ≡ 0 = ground (arith, size, stored.fits) in
        let z : length done + 0 ≡ length done = omega arith in
        rw none_left (rw (piece_nil e) (rw z refl))
  ]

-- What a block of n bytes gets of a file and those behind it, from the k-th byte on.
take_split :
    (n k : ℕ) (content others : Bytes)
    → take n (drop k (content ++ others))
      ≡ take n (drop k content)
        ++ take (n - length (take n (drop k content))) (drop (k - min k (length content)) others)
take_split n k content others =
    let left : n - length (take n (drop k content)) ≡ n - length (drop k content) =
      omega (arith, length-take n (drop k content)) in
    let skip : k - min k (length content) ≡ k - length content = omega arith in
    rw (drop-append_more k content others, left, skip)
      (take-append_more n (drop k content) (drop (k - length content) others))

-- The buffer after a part of it, and then the part behind, were overwritten.
regroup :
    (done piece more rest : Bytes)
    → (done ++ piece) ++ (more ++ drop (length more) (drop (length piece) rest))
      ≡ done ++ ((piece ++ more) ++ drop (length (piece ++ more)) rest)
regroup done piece more rest =
    let behind : drop (length more) (drop (length piece) rest)
        ≡ drop (length (piece ++ more)) rest =
      drop-drop (length piece) (length more) rest
      ∙ ap (λ (x : ℕ). drop x rest) (sym (length-append piece more)) in
    rw (behind, append_assoc done piece (more ++ drop (length (piece ++ more)) rest))
      (rw (append_assoc piece more (drop (length (piece ++ more)) rest)) refl)

module _ (fs : FileSystem) (directory : Option FilePath) (disk : fs.Disk) where
  open fs use {open_file}

  abbrev slice_of : ℕ → Bytes → List Bytes → Bytes
  slice_of k rest contents = take (length rest) (drop k (concat contents))

  access_all :
      (files : List File) (contents : List Bytes)
      → AreStored fs directory disk files contents
      → (k sum : ℕ) (done rest : Bytes) → sum ≡ length done + length rest
      → ◌≡◌ {A = IoResult (Unit {0}) × (Bytes × fs.Disk)}
          (access_files
            (λ p. lift (open_file p))
            (read_region fs)
            directory
            sum
            files
            k
            (length done)
            (done ++ rest, disk))
          (
            ok tt,
            (
              done ++ (slice_of k rest contents ++ drop (length (slice_of k rest contents)) rest),
              disk,
            ),
          )
  unfolding access_files
  access_all [] [] a k sum done rest e =
      rw (drop_nil {A = ℕ} k) (rw (take_nil {A = ℕ} (length rest)) refl)
  access_all [] (c ∷ cs) a k sum done rest e = absurd a
  access_all (file ∷ files) [] a k sum done rest e = absurd a
  access_all (file ∷ files) (c ∷ cs) a k sum done rest e =
      let piece = take (length rest) (drop k c) in
      let first = access fs directory disk done rest k file c a.0 in
      let rest' = drop (length piece) rest in
      let left : length rest' ≡ length rest - length piece = length-drop (length piece) rest in
      let at : length (done ++ piece) ≡ length done + length piece = length-append done piece in
      let shorter : length piece ≤ length rest =
        omega (arith, length-take (length rest) (drop k c)) in
      let next =
        access_all files cs a.1 (k - min k file.len) sum (done ++ piece) rest' (omega arith) in
      let more = slice_of (k - min k file.len) rest' cs in
      let split : piece ++ more ≡ slice_of k rest (c ∷ cs) =
        rw (left, ← a.0.fits) (sym (take_split (length rest) k c (concat cs))) in
      rw (e, first)
        (rw (← at, ← append_assoc done piece rest')
          (rw next (rw (regroup done piece more rest) (rw split refl))))

-- A block that lies within the torrent is read as the slice of the torrent's bytes, all files one
-- after the other, that starts at its piece and offset; the disk is not changed. It takes that the
-- files stand on the disk with their lengths, that the buffer has the block's length, and that the
-- first byte's place fits 64 bits.
pub read_piece-concat :
    (fs : FileSystem) (info : Info) (message : BlockMetadata) (disk : fs.Disk)
    (contents : List Bytes) (buffer : Bytes)
    → AreStored fs info.file_directory disk info.files contents
    → length buffer ≡ message.block_length
    → message.piece_index * info.piece_len + message.block_offset < 2 ^ 64
    → message.piece_index * info.piece_len + message.block_offset + message.block_length
      ≤ length (concat contents)
    → read_piece fs info message (buffer, disk) ≡ (
      ok tt,
      (
        take message.block_length
            (drop (message.piece_index * info.piece_len + message.block_offset) (concat contents)),
        disk,
      ),
    )
unfolding read_piece run_with_file_regions
read_piece-concat fs info message disk contents buffer stored fits small within =
    let start = message.piece_index * info.piece_len + message.block_offset in
    let piece_start = message.piece_index * info.piece_len in
    let wide : (piece_start % 2 ^ 64 + message.block_offset) % 2 ^ 64 ≡ start = omega arith in
    let got = slice_of fs info.file_directory disk start buffer contents in
    let full : length got ≡ length buffer = omega (
      arith,
      length-take (length buffer) (drop start (concat contents)),
      length-drop start (concat contents),
    ) in
    let nothing : drop (length got) buffer ≡ [] = drop_all (length got) buffer (omega arith) in
    let read =
      access_all fs info.file_directory disk info.files contents stored start message.block_length
        [] buffer (omega arith) in
    rw (wide, read) (rw (nothing, append-nil) (rw fits refl))
