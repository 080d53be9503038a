-- ===== src/Dht/Token.antt =====
-- bip_dht/src/token.rs: the tokens handed out to other nodes and checked when they come back.
-- SHA-1 is the parameter `sha1`; a random secret is an argument; the clock stands still within one
-- operation, whose time is `now`.
pub mod Calls
pub mod Lifetime
use rust_bt.Base.{
  ◌%◌, ◌^◌, ℕ, ◌+◌, ◌-◌, ◌*◌, ◌/◌, ◌<◌, List, ◌++◌, Bool, true, false, ◌||◌, Option, none, some,
  Bytes, bytes_eq, length, ltb, leb, ◌==◌, if◌then◌else◌,
}
use rust_bt.Base.Int.{ℤ, pos, negsuc, neg_ℕ}
use rust_bt.Util.Convert.{four_bytes_to_array, ipv6_to_bytes_be}
use rust_bt.Util.Sha.{sha_hash_len}
use rust_bt.Dht.Routing.Node.{Time, minutes}

abbrev pub refresh_interval_mins : ℕ
refresh_interval_mins = 10

-- The octets of a V4 address, or the eight segments of a V6 address.
pub data IpAddr : Type 0 where
  v4 : Bytes → IpAddr
  v6 : List ℕ → IpAddr

-- `Token::new`: `none` is the length error.
unfoldable pub new_token : Bytes → Option Bytes
new_token bytes = if length bytes == sha_hash_len then some bytes else none

-- The secrets are of 32 bits.
pub record TokenStore : Type 0 where
  pub curr_secret : ℕ
  pub last_secret : ℕ
  pub last_refresh : Time

-- `rand::random::<u32>()`: what is drawn is 32 bits of the argument.
unfoldable pub random_u32 : ℕ → ℕ
random_u32 r = r % 2 ^ 32

-- The two secrets are drawn, in this order.
unfoldable pub new : ℕ → ℕ → Time → TokenStore
unfolding random_u32
new curr_secret last_secret now = record {
  curr_secret = random_u32 curr_secret;
  last_secret = random_u32 last_secret;
  last_refresh = now;
}

-- Whole minutes of a signed difference of times, towards zero, and of those whole intervals.
unfoldable pub intervals_passed : Time → Time → ℤ
intervals_passed last_refresh curr_time =
    if leb last_refresh curr_time
    then pos ((curr_time - last_refresh) / minutes 1 / refresh_interval_mins)
    else neg_ℕ ((last_refresh - curr_time) / minutes 1 / refresh_interval_mins)

-- The secrets that are drawn: the first goes where the code draws first.
unfoldable pub renew : ℤ → ℕ → ℕ → Time → TokenStore → TokenStore
unfolding random_u32
renew (pos n) r r' now store =
    if n == 0
    then store
    else if n == 1
    then record { curr_secret = random_u32 r; last_secret = store.curr_secret; last_refresh = now }
    else record { curr_secret = random_u32 r'; last_secret = random_u32 r; last_refresh = now }
renew (negsuc n) r r' now store = record {
  curr_secret = random_u32 r';
  last_secret = random_u32 r;
  last_refresh = now;
}

unfoldable pub refresh_check : ℕ → ℕ → Time → TokenStore → TokenStore
refresh_check r r' now store = renew (intervals_passed store.last_refresh now) r r' now store

-- The buffer of eight or twenty bytes that is hashed.
unfoldable pub token_buffer : IpAddr → ℕ → Bytes
token_buffer (v4 octets) secret = octets ++ four_bytes_to_array secret
token_buffer (v6 segments) secret = ipv6_to_bytes_be segments ++ four_bytes_to_array secret

module _ (sha1 : Bytes → Bytes) where
  unfoldable pub generate_token_from_addr : IpAddr → ℕ → Bytes
  generate_token_from_addr addr secret = sha1 (token_buffer addr secret)

  unfoldable pub validate_token_from_addr : IpAddr → Bytes → ℕ → ℕ → Bool
  validate_token_from_addr addr token secret_one secret_two =
      bytes_eq (generate_token_from_addr addr secret_one) token
      || bytes_eq (generate_token_from_addr addr secret_two) token

  unfoldable pub checkout : ℕ → ℕ → Time → IpAddr → TokenStore → TokenStore × Bytes
  checkout r r' now addr store =
      let store' = refresh_check r r' now store in
      (store', generate_token_from_addr addr store'.curr_secret)

  unfoldable pub checkin : ℕ → ℕ → Time → IpAddr → Bytes → TokenStore → TokenStore × Bool
  checkin r r' now addr token store =
      let store' = refresh_check r r' now store in
      (store', validate_token_from_addr addr token store'.curr_secret store'.last_secret)
