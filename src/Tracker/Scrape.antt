-- ===== src/Tracker/Scrape.antt =====
-- bip_utracker/src/scrape.rs: the scrape request, a sequence of hashes, and its response, a sequence of
-- statistics.
pub mod RoundTrip
pub mod Stats
use rust_bt.Base.{
  ℕ, ◌+◌, ◌-◌, ◌/◌, ◌%◌, List, [], ◌∷◌, ◌++◌, Bytes, length, take, drop, ltb, ◌==◌, if◌then◌else◌,
  Option, none, some,
}
use rust_bt.Base.Int.{ℤ}
use rust_bt.Util.Convert.{four_bytes_to_array}
use rust_bt.Util.Sha.{from_hash}
use rust_bt.Wire.{Needed, size, IResult, done, error, incomplete, Parser, Nom, ◌>>=◌, value}
use rust_bt.Wire.Numbers.{to_bits}
use rust_bt.Tracker.Announce.{info_hash_len}

abbrev pub scrape_stats_bytes : ℕ
scrape_stats_bytes = 12

pub record ScrapeStats : Type 0 where
  pub seeders : ℤ
  pub downloaded : ℤ
  pub leechers : ℤ

pub record ScrapeRequest : Type 0 where
  pub hashes : Bytes

pub record ScrapeResponse : Type 0 where
  pub stats : Bytes

unfoldable pub new_request : ScrapeRequest
new_request = record { hashes = [] }

unfoldable pub new_response : ScrapeResponse
new_response = record { stats = [] }

-- `write_bytes` of the two.
unfoldable pub write_request : ScrapeRequest → Bytes
write_request request = request.hashes

unfoldable pub write_response : ScrapeResponse → Bytes
write_response response = response.stats

unfoldable pub insert_hash : Bytes → ScrapeRequest → ScrapeRequest
insert_hash hash request = record request { hashes = request.hashes ++ hash }

-- `as u32` keeps the 32 bits.
unfoldable pub insert_stats : ScrapeStats → ScrapeResponse → ScrapeResponse
insert_stats stats response = record response {
  stats =
      response.stats
      ++ (four_bytes_to_array (to_bits 32 stats.seeders)
          ++ (four_bytes_to_array (to_bits 32 stats.downloaded)
              ++ four_bytes_to_array (to_bits 32 stats.leechers)));
}

unfoldable pub parse_request : Parser ScrapeRequest
parse_request bytes =
    let remainder_bytes = length bytes % info_hash_len in
    if remainder_bytes == 0
    then done (drop (length bytes) bytes) (record { hashes = bytes })
    else incomplete (size (info_hash_len - remainder_bytes))

unfoldable pub parse_response : Parser ScrapeResponse
parse_response bytes =
    let remainder_bytes = length bytes % scrape_stats_bytes in
    if remainder_bytes == 0
    then done (drop (length bytes) bytes) (record { stats = bytes })
    else incomplete (size (scrape_stats_bytes - remainder_bytes))

pub record ScrapeRequestIter : Type 0 where
  pub hashes : Bytes
  pub offset : ℕ

pub record ScrapeResponseIter : Type 0 where
  pub stats : Bytes
  pub offset : ℕ

unfoldable pub iter_request : ScrapeRequest → ScrapeRequestIter
iter_request request = record { hashes = request.hashes; offset = 0 }

unfoldable pub iter_response : ScrapeResponse → ScrapeResponseIter
iter_response response = record { stats = response.stats; offset = 0 }

-- What a call of `next` returns, or that it panics.
pub data Next (A : Type 0) : Type 0 where
  ended : Next A
  item : A → Next A
  panic : Next A

unfoldable pub unwrap : {A : Type 0} → Option A → Next A
unwrap none = panic
unwrap (some a) = item a

-- A slice past the end panics.
unfoldable pub slice_next : {A : Type 0} → Bytes → ℕ → ℕ → (Bytes → Next A) → Next A
slice_next bytes start end f =
    if ltb (length bytes) end then panic else f (take (end - start) (drop start bytes))

unfoldable pub next_hash : ScrapeRequestIter → Next Bytes × ScrapeRequestIter
next_hash iter = if iter.offset == length iter.hashes then (ended, iter) else (
  slice_next iter.hashes iter.offset (iter.offset + info_hash_len)
      (λ hash. unwrap (from_hash hash)),
  record iter { offset = iter.offset + info_hash_len },
)

-- `len` of the exact-size iterators.
unfoldable pub len_request : ScrapeRequestIter → ℕ
len_request iter = length iter.hashes / info_hash_len

unfoldable pub len_response : ScrapeResponseIter → ℕ
len_response iter = length iter.stats / scrape_stats_bytes

module _ ⦃nom : Nom⦄ where
  unfoldable pub parse_stats : Parser ScrapeStats
  parse_stats = do
    seeders ← nom.be_i32
    downloaded ← nom.be_i32
    leechers ← nom.be_i32
    value (record { seeders = seeders; downloaded = downloaded; leechers = leechers })

  unfoldable pub stats_of : IResult ScrapeStats → Next ScrapeStats
  stats_of (done _ stats) = item stats
  stats_of (error _) = panic
  stats_of (incomplete _) = panic

  unfoldable pub next_stats : ScrapeResponseIter → Next ScrapeStats × ScrapeResponseIter
  next_stats iter = if iter.offset == length iter.stats then (ended, iter) else (
    slice_next iter.stats iter.offset (iter.offset + scrape_stats_bytes)
        (λ bytes. stats_of (parse_stats bytes)),
    record iter { offset = iter.offset + scrape_stats_bytes },
  )
