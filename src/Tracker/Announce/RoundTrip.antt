-- ===== src/Tracker/Announce/RoundTrip.antt =====
-- The announce messages that bip_utracker/src/announce.rs writes are read back.
use rust_bt.Base.{
  ℕ, zero, suc, ◌^◌, ◌<◌, ◌≡◌, ◌≢◌, refl, ap, ◌∙◌, List, [], ◌∷◌, Bytes, length, arith,
}
use rust_bt.Base.Int.{pos, negsuc}
use rust_bt.Util.Convert.{
  ipv6_to_bytes_be, bytes_be_to_ipv6, ipv4_to_bytes_be, bytes_be_to_ipv4, ipv6_bytes_from,
}
use rust_bt.Util.Convert.RoundTrip.{bytes_be_to_ipv6_lem}
use rust_bt.Wire.{done, Parser, Nom, Byteorder}
use rust_bt.Wire.Numbers.{IsSigned}
use rust_bt.Wire.Reads.{
  Reads, Reads-take, Reads-then, Reads-map, Reads-u16, Reads-u32, Reads-i32, Reads-i64, after_done,
  after_error, alt_first, alt_second,
}
use rust_bt.Tracker.Contact.RoundTripV6.{AreSegments}
use rust_bt.Tracker.Options.RoundTrip.{AreWritable, options_from_bytes-write_options}
use rust_bt.Tracker.Announce.{
  AnnounceEvent, completed, started, stopped, as_id, ClientState, SourceIp, implied_v4, explicit_v4,
  implied_v6, explicit_v6, DesiredPeers, default, specified, AnnounceRequest, implied_ipv4_id,
  implied_ipv6_id, write_source_ip, desired_value, write_event, write_state, write_desired,
  write_request, event_of, parse_event, parse_state, parse_ipv4, parse_ipv6, parse_preference_v4,
  parse_preference_v6, desired_of, parse_desired, parse_request, request_from_bytes_v4,
  request_from_bytes_v6,
}

-- The fields of a client's state fit 64 bits.
abbrev pub IsState : ClientState → Type 0
IsState s = IsSigned 64 s.downloaded × IsSigned 64 s.left × IsSigned 64 s.uploaded

-- A V4 source that is implied, or an address other than 0.0.0.0.
abbrev pub IsSourceV4 : SourceIp → Type 0
IsSourceV4 implied_v4 = Unit {0}
IsSourceV4 (explicit_v4 octets) = (length octets ≡ 4) × (octets ≢ implied_ipv4_id)
IsSourceV4 implied_v6 = ⊥
IsSourceV4 (explicit_v6 segments) = ⊥

-- A V6 source that is implied, or an address other than ::.
abbrev pub IsSourceV6 : SourceIp → Type 0
IsSourceV6 implied_v4 = ⊥
IsSourceV6 (explicit_v4 octets) = ⊥
IsSourceV6 implied_v6 = Unit {0}
IsSourceV6 (explicit_v6 segments) =
    (length segments ≡ 8) × AreSegments segments × (ipv6_to_bytes_be segments ≢ implied_ipv6_id)

-- A number of peers of 32 bits, other than the one that stands for the default.
abbrev pub IsDesired : DesiredPeers → Type 0
IsDesired default = Unit {0}
IsDesired (specified count) = IsSigned 32 count × (count ≢ negsuc 0)

pub record IsRequest (IsSource : SourceIp → Type 0) (request : AnnounceRequest) : Type 0 where
  pub hash : length request.info_hash ≡ 20
  pub peer : length request.peer_id ≡ 20
  pub state : IsState request.state
  pub source : IsSource request.ip
  pub key : request.key < 2 ^ 32
  pub desired : IsDesired request.num_want
  pub port : request.port < 2 ^ 16
  pub options : AreWritable request.options.raw_options

as_id-IsSigned : (event : AnnounceEvent) → IsSigned 32 (as_id event)
unfolding as_id
as_id-IsSigned AnnounceEvent.none = omega arith
as_id-IsSigned completed = omega arith
as_id-IsSigned started = omega arith
as_id-IsSigned stopped = omega arith

desired_value-IsSigned :
    (num_want : DesiredPeers)
    → IsDesired num_want
    → IsSigned 32 (desired_value num_want) × (desired_of (desired_value num_want) ≡ num_want)
unfolding desired_value desired_of
desired_value-IsSigned default h = (omega arith, refl)
desired_value-IsSigned (specified (pos n)) h = (h.0, refl)
desired_value-IsSigned (specified (negsuc zero)) h = absurd (h.1 refl)
desired_value-IsSigned (specified (negsuc (suc n))) h = (h.0, ground arith)

bytes_be_to_ipv4_lem : (octets : Bytes) → length octets ≡ 4 → bytes_be_to_ipv4 octets ≡ octets
unfolding bytes_be_to_ipv4
bytes_be_to_ipv4_lem (a ∷ b ∷ c ∷ d ∷ []) h = refl
bytes_be_to_ipv4_lem octets h = absurd (omega (arith, h))

ipv6_back :
    (segments : List ℕ)
    → (length segments ≡ 8) × AreSegments segments
    → bytes_be_to_ipv6 (ipv6_to_bytes_be segments) ≡ segments
ipv6_back (a ∷ b ∷ c ∷ d ∷ e ∷ f ∷ g ∷ h ∷ []) v =
    let s = v.1 in
    bytes_be_to_ipv6_lem a b c d e f g h (s.0, s.1.0, s.1.1.0, s.1.1.1.0)
      (s.1.1.1.1.0, s.1.1.1.1.1.0, s.1.1.1.1.1.1.0, s.1.1.1.1.1.1.1.0)
ipv6_back segments v = absurd (omega (arith, v.0))

length-ipv6 : (segments : List ℕ) → length (ipv6_to_bytes_be segments) ≡ 16
unfolding ipv6_to_bytes_be ipv6_bytes_from
length-ipv6 segments = refl

module _ ⦃nom : Nom⦄ where
  event_of-as_id :
      (event : AnnounceEvent) (rest : Bytes) → event_of (as_id event) rest ≡ done rest event
  unfolding event_of as_id
  event_of-as_id AnnounceEvent.none rest = refl
  event_of-as_id completed rest = refl
  event_of-as_id started rest = refl
  event_of-as_id stopped rest = refl

  Reads-source_v4 :
      (ip : SourceIp) → IsSourceV4 ip → Reads parse_preference_v4 (write_source_ip ip) ip
  unfolding parse_preference_v4 write_source_ip parse_ipv4 ipv4_to_bytes_be
  Reads-source_v4 implied_v4 h = record {
    reads = λ rest. alt_first _ (after_done _ (nom.tag-done implied_ipv4_id rest));
  }
  Reads-source_v4 (explicit_v4 octets) h = record {
    reads = λ rest. alt_second (after_error _ (nom.tag-other implied_ipv4_id octets rest h.0 h.1)) (
        after_done _ (after_done _ (nom.count_bytes-done 4 octets rest h.0))
        ∙ ap (λ (b : Bytes). done rest (explicit_v4 b)) (bytes_be_to_ipv4_lem octets h.0));
  }
  Reads-source_v4 implied_v6 h = absurd h
  Reads-source_v4 (explicit_v6 segments) h = absurd h

  Reads-source_v6 :
      (ip : SourceIp) → IsSourceV6 ip → Reads parse_preference_v6 (write_source_ip ip) ip
  unfolding parse_preference_v6 write_source_ip parse_ipv6
  Reads-source_v6 implied_v6 h = record {
    reads = λ rest. alt_first _ (after_done _ (nom.tag-done implied_ipv6_id rest));
  }
  Reads-source_v6 (explicit_v6 segments) h = record {
    reads = λ rest.
        let bytes = ipv6_to_bytes_be segments in
        let size = length-ipv6 segments in
        alt_second (after_error _ (nom.tag-other implied_ipv6_id bytes rest size h.2)) (
          after_done _ (after_done _ (nom.count_bytes-done 16 bytes rest size))
          ∙ ap (λ (b : List ℕ). done rest (explicit_v6 b)) (ipv6_back segments (h.0, h.1)));
  }
  Reads-source_v6 implied_v4 h = absurd h
  Reads-source_v6 (explicit_v4 octets) h = absurd h

module _ ⦃nom : Nom⦄ ⦃order : Byteorder⦄ where
  Reads-event : (event : AnnounceEvent) → Reads parse_event (write_event event) event
  unfolding parse_event write_event
  Reads-event event = record {
    reads = λ rest.
        after_done _ ((Reads-i32 (as_id event) (as_id-IsSigned event)).reads rest)
        ∙ event_of-as_id event rest;
  }

  -- The state of a client, whose numbers fit 64 bits, is read back.
  pub Reads-state :
      (state : ClientState) → IsState state → Reads parse_state (write_state state) state
  unfolding parse_state write_state
  Reads-state state h = Reads-then (Reads-i64 state.downloaded h.0) (
      Reads-then (Reads-i64 state.left h.1)
        (Reads-then (Reads-i64 state.uploaded h.2) (Reads-map (Reads-event state.event))))

  Reads-desired :
      (num_want : DesiredPeers)
      → IsDesired num_want
      → Reads parse_desired (write_desired num_want) num_want
  unfolding parse_desired write_desired
  Reads-desired num_want h = record {
    reads = λ rest.
        let v = desired_value-IsSigned num_want h in
        after_done _ ((Reads-i32 (desired_value num_want) v.0).reads rest) ∙ ap (done rest) v.1;
  }

  Reads-request :
      (IsSource : SourceIp → Type 0) (ip_type : Parser SourceIp) (request : AnnounceRequest)
      → ((ip : SourceIp) → IsSource ip → Reads ip_type (write_source_ip ip) ip)
      → IsRequest IsSource request
      → Reads (parse_request ip_type) (write_request request) request
  unfolding parse_request write_request
  Reads-request IsSource ip_type request source h =
      Reads-then (Reads-take 20 request.info_hash h.hash) (
        Reads-then (Reads-take 20 request.peer_id h.peer) (
          Reads-then (Reads-state request.state h.state) (
            Reads-then (source request.ip h.source) (
              Reads-then (Reads-u32 request.key h.key) (
                Reads-then (Reads-desired request.num_want h.desired) (
                  Reads-then (Reads-u16 request.port h.port)
                    (Reads-map (options_from_bytes-write_options request.options h.options))))))))

  -- An announce request over IPv4 is read back, whatever follows it, if its hash and its id have 20
  -- bytes, its numbers fit their widths, its source is implied or an address other than 0.0.0.0, the
  -- number of peers is not -1, and its options have distinct bytes above 1 and contents.
  pub request_from_bytes_v4-write_request :
      (request : AnnounceRequest)
      → IsRequest IsSourceV4 request
      → Reads request_from_bytes_v4 (write_request request) request
  unfolding request_from_bytes_v4
  request_from_bytes_v4-write_request request h =
      Reads-request IsSourceV4 parse_preference_v4 request Reads-source_v4 h

  -- The same over IPv6, with a source that is implied or an address other than ::.
  pub request_from_bytes_v6-write_request :
      (request : AnnounceRequest)
      → IsRequest IsSourceV6 request
      → Reads request_from_bytes_v6 (write_request request) request
  unfolding request_from_bytes_v6
  request_from_bytes_v6-write_request request h =
      Reads-request IsSourceV6 parse_preference_v6 request Reads-source_v6 h
