-- ===== src/Tracker/Scrape/Stats.antt =====
-- The iterator of bip_utracker/src/scrape.rs over the statistics that were put in.
use rust_bt.Base.{
  ℕ, zero, suc, ◌+◌, ◌≡◌, refl, sym, ap, ◌∙◌, List, [], ◌∷◌, ◌++◌, append_assoc, append-nil, false,
  Bytes, length, ◌==◌, ==_iff, length-append, arith,
}
use rust_bt.Base.Int.{ℤ}
use rust_bt.Util.Convert.{four_bytes_to_array, eight_bytes_to_array}
use rust_bt.Util.Convert.RoundTrip.{be_value-four_bytes}
use rust_bt.Wire.{done, Nom}
use rust_bt.Wire.Numbers.{IsSigned, to_bits, of_bits, of_bits-to_bits_32}
use rust_bt.Wire.Reads.{Reads, Reads-then, Reads-map, Reads-Ends}
use rust_bt.Tracker.Scrape.{
  ScrapeStats, ScrapeResponse, new_response, insert_stats, ScrapeResponseIter, iter_response, Next,
  ended, item, panic, parse_stats, stats_of, next_stats,
}
use rust_bt.Tracker.Scrape.RoundTrip.{slice_next-middle, yield_item}

abbrev pub IsStats : ScrapeStats → Type 0
IsStats s = IsSigned 32 s.seeders × IsSigned 32 s.downloaded × IsSigned 32 s.leechers

abbrev pub AllStats : List ScrapeStats → Type 0
AllStats [] = Unit {0}
AllStats (s ∷ ss) = IsStats s × AllStats ss

abbrev pub insert_all_stats : List ScrapeStats → ScrapeResponse → ScrapeResponse
insert_all_stats [] response = response
insert_all_stats (s ∷ ss) response = insert_all_stats ss (insert_stats s response)

encoded : ScrapeStats → Bytes
encoded s =
    four_bytes_to_array (to_bits 32 s.seeders)
    ++ (four_bytes_to_array (to_bits 32 s.downloaded)
        ++ four_bytes_to_array (to_bits 32 s.leechers))

length-encoded : (s : ScrapeStats) → length (encoded s) ≡ 12
unfolding encoded four_bytes_to_array eight_bytes_to_array
length-encoded s = refl

length-four_bytes : (n : ℕ) → length (four_bytes_to_array n) ≡ 4
unfolding four_bytes_to_array
length-four_bytes n = refl

all_encoded : List ScrapeStats → Bytes
all_encoded [] = []
all_encoded (s ∷ ss) = encoded s ++ all_encoded ss

insert_all-encoded :
    (ss : List ScrapeStats) (response : ScrapeResponse)
    → (insert_all_stats ss response).stats ≡ response.stats ++ all_encoded ss
unfolding all_encoded insert_stats encoded
insert_all-encoded [] response = sym (append-nil response.stats)
insert_all-encoded (s ∷ ss) response =
    insert_all-encoded ss (insert_stats s response)
    ∙ append_assoc response.stats (encoded s) (all_encoded ss)

module _ ⦃nom : Nom⦄ where
  abbrev pub collect_stats : ℕ → ScrapeResponseIter → Next (List ScrapeStats)
  collect_stats zero iter = panic
  collect_stats (suc calls) iter = yield_item (next_stats iter) (collect_stats calls)

  Reads-four_bytes :
      (z : ℤ) → IsSigned 32 z → Reads nom.be_i32 (four_bytes_to_array (to_bits 32 z)) z
  Reads-four_bytes z h =
      let bits = of_bits-to_bits_32 z h in
      let bytes = four_bytes_to_array (to_bits 32 z) in
      record {
        reads = λ rest.
            nom.be_i32-done bytes rest (length-four_bytes (to_bits 32 z))
            ∙ ap (done rest) (ap (of_bits 32) (be_value-four_bytes (to_bits 32 z) bits.1) ∙ bits.0);
      }

  Reads-stats : (s : ScrapeStats) → IsStats s → Reads parse_stats (encoded s) s
  unfolding parse_stats encoded
  Reads-stats s h =
      Reads-then (Reads-four_bytes s.seeders h.0) (
        Reads-then (Reads-four_bytes s.downloaded h.1)
          (Reads-map (Reads-four_bytes s.leechers h.2)))

  next_stats-middle :
      (before behind : Bytes) (s : ScrapeStats)
      → IsStats s
      → next_stats (record { stats = before ++ (encoded s ++ behind); offset = length before }) ≡ (
        item s,
        record { stats = (before ++ encoded s) ++ behind; offset = length (before ++ encoded s) },
      )
  unfolding next_stats stats_of
  next_stats-middle before behind s valid =
      let bytes = encoded s in
      let size = length-encoded s in
      let more : (length before == length (before ++ (bytes ++ behind))) ≡ false =
        ground (arith, length-append before (bytes ++ behind), length-append bytes behind) in
      let at : length (before ++ bytes) ≡ length before + 12 =
        length-append before bytes ∙ omega arith in
      let read = (Reads-Ends (Reads-stats s valid)).ends in
      let cut = slice_next-middle 12 before bytes behind (λ cut. stats_of (parse_stats cut)) size in
      rw (more, cut, at) (rw (read, append_assoc before bytes behind) refl)

  next_stats-end :
      (before : Bytes)
      → next_stats (record { stats = before; offset = length before })
        ≡ (ended, record { stats = before; offset = length before })
  unfolding next_stats
  next_stats-end before = rw ((==_iff (length before) (length before)).1 refl) refl

  collect-encoded :
      (ss : List ScrapeStats) (before : Bytes)
      → AllStats ss
      → collect_stats
          (suc (length ss))
          (record { stats = before ++ all_encoded ss; offset = length before })
        ≡ item ss
  unfolding all_encoded
  collect-encoded [] before all =
      rw (append-nil before) (rw (next_stats-end before, collect_stats) refl)
  collect-encoded (s ∷ ss) before all =
      rw (next_stats-middle before (all_encoded ss) s all.0, collect_stats)
        (rw (collect-encoded ss (before ++ encoded s) all.1, yield_item) refl)

  -- The iterator yields the statistics that were put into an empty response, in their order, if their
  -- numbers fit 32 bits, and ends; it does not panic.
  pub collect-insert_stats :
      (ss : List ScrapeStats)
      → AllStats ss
      → collect_stats (suc (length ss)) (iter_response (insert_all_stats ss new_response)) ≡ item ss
  unfolding iter_response new_response
  collect-insert_stats ss all = rw (insert_all-encoded ss new_response) (collect-encoded ss [] all)
