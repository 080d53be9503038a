-- ===== src/Tracker/Announce.antt =====
-- bip_utracker/src/announce.rs: the announce request and its response.
pub mod RoundTrip
pub mod Response
use rust_bt.Base.{
  ℕ, ◌+◌, List, [], ◌∷◌, ◌++◌, Bool, true, false, not, Bytes, length, replicate, ◌==◌,
  if◌then◌else◌,
}
use rust_bt.Base.Int.{ℤ, pos, negsuc}
use rust_bt.Util.Convert.{ipv6_to_bytes_be, bytes_be_to_ipv6, ipv4_to_bytes_be, bytes_be_to_ipv4}
use rust_bt.Wire.{IResult, done, error, incomplete, Parser, Nom, Byteorder, ◌>>=◌, value}
use rust_bt.Tracker.Contact.{CompactPeers, peers_from_bytes_v4, peers_from_bytes_v6, write_peers}
use rust_bt.Tracker.Options.{AnnounceOptions, options_from_bytes, write_options}

-- `bt::INFO_HASH_LEN` and `bt::PEER_ID_LEN`
abbrev pub info_hash_len : ℕ
info_hash_len = 20

abbrev pub peer_id_len : ℕ
peer_id_len = 20

abbrev pub implied_ipv4_id : Bytes
implied_ipv4_id = replicate 4 0

abbrev pub implied_ipv6_id : Bytes
implied_ipv6_id = replicate 16 0

abbrev pub default_num_want : ℤ
default_num_want = negsuc 0

pub data AnnounceEvent : Type 0 where
  none : AnnounceEvent
  completed : AnnounceEvent
  started : AnnounceEvent
  stopped : AnnounceEvent

unfoldable pub as_id : AnnounceEvent → ℤ
as_id AnnounceEvent.none = pos 0
as_id completed = pos 1
as_id started = pos 2
as_id stopped = pos 3

pub record ClientState : Type 0 where
  pub downloaded : ℤ
  pub left : ℤ
  pub uploaded : ℤ
  pub event : AnnounceEvent

-- A V4 address is its octets, a V6 address its segments.
pub data SourceIp : Type 0 where
  implied_v4 : SourceIp
  explicit_v4 : Bytes → SourceIp
  implied_v6 : SourceIp
  explicit_v6 : List ℕ → SourceIp

unfoldable pub is_ipv6 : SourceIp → Bool
is_ipv6 implied_v6 = true
is_ipv6 (explicit_v6 _) = true
is_ipv6 implied_v4 = false
is_ipv6 (explicit_v4 _) = false

unfoldable pub is_ipv4 : SourceIp → Bool
unfolding is_ipv6
is_ipv4 ip = not (is_ipv6 ip)

pub data DesiredPeers : Type 0 where
  default : DesiredPeers
  specified : ℤ → DesiredPeers

pub record AnnounceRequest : Type 0 where
  pub info_hash : Bytes
  pub peer_id : Bytes
  pub state : ClientState
  pub ip : SourceIp
  pub key : ℕ
  pub num_want : DesiredPeers
  pub port : ℕ
  pub options : AnnounceOptions

pub record AnnounceResponse : Type 0 where
  pub interval : ℤ
  pub leechers : ℤ
  pub seeders : ℤ
  pub peers : CompactPeers

unfoldable pub write_source_ip : SourceIp → Bytes
write_source_ip implied_v4 = implied_ipv4_id
write_source_ip implied_v6 = implied_ipv6_id
write_source_ip (explicit_v4 addr) = ipv4_to_bytes_be addr
write_source_ip (explicit_v6 addr) = ipv6_to_bytes_be addr

unfoldable pub desired_value : DesiredPeers → ℤ
desired_value default = default_num_want
desired_value (specified count) = count

-- The arms of the `switch!` on the count.
unfoldable pub desired_of : ℤ → DesiredPeers
desired_of (pos n) = specified (pos n)
desired_of (negsuc n) = if n == 0 then default else specified (negsuc n)

module _ ⦃order : Byteorder⦄ where
  open order use {write_u16, write_u32, write_i32, write_i64}

  unfoldable pub write_event : AnnounceEvent → Bytes
  unfolding as_id
  write_event event = write_i32 (as_id event)

  unfoldable pub write_state : ClientState → Bytes
  write_state state =
      write_i64 state.downloaded
      ++ (write_i64 state.left ++ (write_i64 state.uploaded ++ write_event state.event))

  unfoldable pub write_desired : DesiredPeers → Bytes
  unfolding desired_value
  write_desired num_want = write_i32 (desired_value num_want)

  unfoldable pub write_request : AnnounceRequest → Bytes
  write_request request =
      request.info_hash
      ++ (request.peer_id
          ++ (write_state request.state
              ++ (write_source_ip request.ip
                  ++ (write_u32 request.key
                      ++ (write_desired request.num_want
                          ++ (write_u16 request.port ++ write_options request.options))))))

  unfoldable pub write_response : AnnounceResponse → Bytes
  write_response response =
      write_i32 response.interval
      ++ (write_i32 response.leechers ++ (write_i32 response.seeders ++ write_peers response.peers))

module _ ⦃nom : Nom⦄ where
  -- The arms of the `switch!` on the id.
  unfoldable pub event_of : ℤ → Parser AnnounceEvent
  event_of (pos n) =
      if n == 0
      then value AnnounceEvent.none
      else if n == 1
      then value completed
      else if n == 2
      then value started
      else if n == 3
      then value stopped
      else λ _. error nom.switch_error
  event_of (negsuc n) = λ _. error nom.switch_error

  unfoldable pub parse_event : Parser AnnounceEvent
  parse_event = do id ← nom.be_i32; event_of id

  unfoldable pub parse_state : Parser ClientState
  parse_state = do
    downloaded ← nom.be_i64
    left ← nom.be_i64
    uploaded ← nom.be_i64
    event ← parse_event
    value (record { downloaded = downloaded; left = left; uploaded = uploaded; event = event })

  unfoldable pub parse_ipv4 : Parser Bytes
  parse_ipv4 = do b ← nom.count_bytes 4; value (bytes_be_to_ipv4 b)

  unfoldable pub parse_ipv6 : Parser (List ℕ)
  parse_ipv6 = do b ← nom.count_bytes 16; value (bytes_be_to_ipv6 b)

  unfoldable pub parse_preference_v4 : Parser SourceIp
  parse_preference_v4 bytes =
      nom.alt (nom.and_then (nom.tag implied_ipv4_id bytes) λ rest _. done rest implied_v4)
        (nom.and_then (parse_ipv4 bytes) λ rest ipv4. done rest (explicit_v4 ipv4))

  unfoldable pub parse_preference_v6 : Parser SourceIp
  parse_preference_v6 bytes =
      nom.alt (nom.and_then (nom.tag implied_ipv6_id bytes) λ rest _. done rest implied_v6)
        (nom.and_then (parse_ipv6 bytes) λ rest ipv6. done rest (explicit_v6 ipv6))

  unfoldable pub parse_desired : Parser DesiredPeers
  parse_desired = do count ← nom.be_i32; value (desired_of count)

  unfoldable pub parse_request : Parser SourceIp → Parser AnnounceRequest
  parse_request ip_type = do
    info_hash ← nom.take info_hash_len
    peer_id ← nom.take peer_id_len
    state ← parse_state
    ip ← ip_type
    key ← nom.be_u32
    num_want ← parse_desired
    port ← nom.be_u16
    options ← options_from_bytes
    value (record {
      info_hash = info_hash;
      peer_id = peer_id;
      state = state;
      ip = ip;
      key = key;
      num_want = num_want;
      port = port;
      options = options;
    })

  unfoldable pub request_from_bytes_v4 : Parser AnnounceRequest
  request_from_bytes_v4 = parse_request parse_preference_v4

  unfoldable pub request_from_bytes_v6 : Parser AnnounceRequest
  request_from_bytes_v6 = parse_request parse_preference_v6

  unfoldable pub parse_response : Parser CompactPeers → Parser AnnounceResponse
  parse_response peers_type = do
    interval ← nom.be_i32
    leechers ← nom.be_i32
    seeders ← nom.be_i32
    peers ← peers_type
    value (record { interval = interval; leechers = leechers; seeders = seeders; peers = peers })

  unfoldable pub response_from_bytes_v4 : Parser AnnounceResponse
  response_from_bytes_v4 = parse_response peers_from_bytes_v4

  unfoldable pub response_from_bytes_v6 : Parser AnnounceResponse
  response_from_bytes_v6 = parse_response peers_from_bytes_v6
