-- ===== src/Tracker/Scrape/RoundTrip.antt =====
-- The iterators of bip_utracker/src/scrape.rs over the hashes and statistics that were put in.
use rust_bt.Base.{
  ℕ, zero, suc, ◌+◌, ◌-◌, ◌≡◌, refl, sym, ◌∙◌, List, [], ◌∷◌, ◌++◌, append_assoc, append-nil, false,
  some, Bytes, length, ltb, ◌==◌, ==_iff, length-append, take-append, drop-append, arith,
}
use rust_bt.Util.Sha.{from_hash}
use rust_bt.Tracker.Scrape.{
  ScrapeRequest, new_request, insert_hash, ScrapeRequestIter, iter_request, Next, ended, item,
  panic, unwrap, slice_next, next_hash,
}

-- The bytes that stand behind others, with more behind them, are the slice.
pub slice_next-middle :
    {A : Type 0} (n : ℕ) (before cut behind : Bytes) (f : Bytes → Next A)
    → length cut ≡ n
    → slice_next (before ++ (cut ++ behind)) (length before) (length before + n) f ≡ f cut
unfolding slice_next
slice_next-middle n before cut behind f h =
    let fits : ltb (length (before ++ (cut ++ behind))) (length before + n) ≡ false =
      ground (arith, length-append before (cut ++ behind), length-append cut behind) in
    let width : length before + n - length before ≡ length cut = omega arith in
    rw (fits, width) (rw (drop-append before (cut ++ behind)) (rw (take-append cut behind) refl))

-- What an iterator yields until it ends, in at most so many calls; a panic is no result.
abbrev pub yield_item : {A I : Type 0} → Next A × I → (I → Next (List A)) → Next (List A)
yield_item (ended, iter) rest = item []
yield_item (panic, iter) rest = panic
yield_item (item a, iter) rest = elim (rest iter) [
  | item others ↦ item (a ∷ others)
  | ended ↦ panic
  | panic ↦ panic
]

abbrev pub collect_hashes : ℕ → ScrapeRequestIter → Next (List Bytes)
collect_hashes zero iter = panic
collect_hashes (suc calls) iter = yield_item (next_hash iter) (collect_hashes calls)

abbrev pub AllHashes : List Bytes → Type 0
AllHashes [] = Unit {0}
AllHashes (h ∷ hs) = (length h ≡ 20) × AllHashes hs

abbrev pub insert_all_hashes : List Bytes → ScrapeRequest → ScrapeRequest
insert_all_hashes [] request = request
insert_all_hashes (h ∷ hs) request = insert_all_hashes hs (insert_hash h request)

concat : List Bytes → Bytes
concat [] = []
concat (h ∷ hs) = h ++ concat hs

insert_all-concat :
    (hs : List Bytes) (request : ScrapeRequest)
    → (insert_all_hashes hs request).hashes ≡ request.hashes ++ concat hs
unfolding concat insert_hash
insert_all-concat [] request = sym (append-nil request.hashes)
insert_all-concat (h ∷ hs) request =
    insert_all-concat hs (insert_hash h request) ∙ append_assoc request.hashes h (concat hs)

next_hash-middle :
    (before h behind : Bytes)
    → length h ≡ 20
    → next_hash (record { hashes = before ++ (h ++ behind); offset = length before })
      ≡ (item h, record { hashes = (before ++ h) ++ behind; offset = length (before ++ h) })
unfolding next_hash
next_hash-middle before h behind size =
    let more : (length before == length (before ++ (h ++ behind))) ≡ false =
      ground (arith, length-append before (h ++ behind), length-append h behind) in
    let at : length (before ++ h) ≡ length before + 20 = length-append before h ∙ omega arith in
    let whole : from_hash h ≡ some h = hash_whole h size in
    rw (more, slice_next-middle 20 before h behind (λ hash. unwrap (from_hash hash)) size, at)
      (rw (whole, append_assoc before h behind) (unfold unwrap in refl))
  where
    hash_whole : (h : Bytes) → length h ≡ 20 → from_hash h ≡ some h
    hash_whole h size = unfold from_hash in rw size refl

next_hash-end :
    (before : Bytes)
    → next_hash (record { hashes = before; offset = length before })
      ≡ (ended, record { hashes = before; offset = length before })
unfolding next_hash
next_hash-end before = rw ((==_iff (length before) (length before)).1 refl) refl

collect-concat :
    (hs : List Bytes) (before : Bytes)
    → AllHashes hs
    → collect_hashes
        (suc (length hs))
        (record { hashes = before ++ concat hs; offset = length before })
      ≡ item hs
unfolding concat
collect-concat [] before all =
    rw (append-nil before) (rw (next_hash-end before, collect_hashes) refl)
collect-concat (h ∷ hs) before all =
    rw (next_hash-middle before h (concat hs) all.0, collect_hashes)
      (rw (collect-concat hs (before ++ h) all.1, yield_item) refl)

-- The iterator yields the hashes that were put into an empty request, in their order, and ends; it
-- does not panic.
collect-insert_hashes :
    (hs : List Bytes)
    → AllHashes hs
    → collect_hashes (suc (length hs)) (iter_request (insert_all_hashes hs new_request)) ≡ item hs
unfolding iter_request new_request
collect-insert_hashes hs all = rw (insert_all-concat hs new_request) (collect-concat hs [] all)
