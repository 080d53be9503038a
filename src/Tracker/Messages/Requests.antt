-- ===== src/Tracker/Messages/Requests.antt =====
-- The requests that bip_utracker/src/request.rs writes are read back.
use rust_bt.Base.{
  ℕ, ◌%◌, ◌^◌, ◌<◌, ◌≡◌, ◌⊎◌, inl, inr, refl, [], ◌++◌, append-nil, Bool, true, false, Bytes,
  length, ◌==◌, ◌&&◌, drop_all, arith,
}
use rust_bt.Wire.{Nom, Byteorder}
use rust_bt.Wire.Reads.{Ends, Ends-then, Ends-map, Reads-u32, Reads-u64, Reads-Ends}
use rust_bt.Tracker.Announce
use rust_bt.Tracker.Announce.{
  AnnounceRequest, SourceIp, implied_v4, explicit_v4, implied_v6, explicit_v6, is_ipv6, is_ipv4,
}
use rust_bt.Tracker.Announce.RoundTrip.{
  IsRequest, IsSourceV4, IsSourceV6, request_from_bytes_v4-write_request,
  request_from_bytes_v6-write_request,
}
use rust_bt.Tracker.Scrape
use rust_bt.Tracker.Scrape.{ScrapeRequest}
use rust_bt.Tracker.Messages.{
  RequestType, TrackerRequest, connect_id_protocol_id, write_request_type, write_request,
  request_of, parse_request,
}

-- Only the known id asks for a connection; an announce request is one of IPv4 or of IPv6; a scrape
-- request holds whole hashes.
abbrev pub IsRequestType : ℕ → RequestType → Type 0
IsRequestType cid RequestType.connect = cid ≡ connect_id_protocol_id
IsRequestType cid (RequestType.announce req) = IsRequest IsSourceV4 req ⊎ IsRequest IsSourceV6 req
IsRequestType cid (RequestType.scrape req) = length req.hashes % 20 ≡ 0

is_ipv4-IsSourceV4 : (ip : SourceIp) → IsSourceV4 ip → is_ipv4 ip ≡ true
unfolding is_ipv4
is_ipv4-IsSourceV4 implied_v4 h = refl
is_ipv4-IsSourceV4 (explicit_v4 octets) h = refl
is_ipv4-IsSourceV4 implied_v6 h = absurd h
is_ipv4-IsSourceV4 (explicit_v6 segments) h = absurd h

is_ipv4-IsSourceV6 : (ip : SourceIp) → IsSourceV6 ip → is_ipv4 ip ≡ false
unfolding is_ipv4
is_ipv4-IsSourceV6 implied_v6 h = refl
is_ipv4-IsSourceV6 (explicit_v6 segments) h = refl
is_ipv4-IsSourceV6 implied_v4 h = absurd h
is_ipv4-IsSourceV6 (explicit_v4 octets) h = absurd h

Ends-scrape :
    (req : ScrapeRequest)
    → length req.hashes % 20 ≡ 0
    → Ends Scrape.parse_request (Scrape.write_request req) req
unfolding Scrape.parse_request Scrape.write_request
Ends-scrape req h =
    let all = drop_all (length req.hashes) req.hashes (omega arith) in
    let whole : (length req.hashes % 20 == 0) ≡ true = ground arith in
    record { ends = rw whole (rw all refl) }

module _ ⦃nom : Nom⦄ ⦃order : Byteorder⦄ (cid tid : ℕ) (fits_cid : cid < 2 ^ 64)
    (fits_tid : tid < 2 ^ 32) where
  abbrev Written : RequestType → Type 0
  Written t =
      Ends parse_request (order.write_u64 cid ++ write_request_type tid t)
        (record { connection_id = cid; transaction_id = tid; request_type = t })

  -- The ids are read, and the arm for the action reads what stands behind them.
  header :
      (action : ℕ) (others : Bytes) (request : TrackerRequest)
      → action < 2 ^ 32
      → Ends (request_of cid action tid) others request
      → Ends parse_request
          (order.write_u64 cid ++ (order.write_u32 action ++ (order.write_u32 tid ++ others)))
          request
  unfolding parse_request
  header action others request fits h =
      Ends-then (Reads-u64 cid fits_cid)
        (Ends-then (Reads-u32 action fits) (Ends-then (Reads-u32 tid fits_tid) h))

  and_false : (b : Bool) → (b && false) ≡ false
  and_false true = refl
  and_false false = refl

  read_v4 : (req : AnnounceRequest) → IsRequest IsSourceV4 req → Written (RequestType.announce req)
  unfolding write_request_type request_of
  read_v4 req h = rw (is_ipv4-IsSourceV4 req.ip h.source) (
      header 1 (Announce.write_request req) _ (omega arith) (
        rw (and_false (cid == connect_id_protocol_id))
          (Ends-map (Reads-Ends (request_from_bytes_v4-write_request req h)))))

  read_v6 : (req : AnnounceRequest) → IsRequest IsSourceV6 req → Written (RequestType.announce req)
  unfolding write_request_type request_of
  read_v6 req h = rw (is_ipv4-IsSourceV6 req.ip h.source) (
      header 4 (Announce.write_request req) _ (omega arith) (
        rw (and_false (cid == connect_id_protocol_id))
          (Ends-map (Reads-Ends (request_from_bytes_v6-write_request req h)))))

  read_connect : cid ≡ connect_id_protocol_id → Written RequestType.connect
  unfolding write_request_type request_of
  read_connect h =
      let known : (cid == connect_id_protocol_id) ≡ true = ground arith in
      rw (← append-nil (order.write_u32 tid))
        (header 0 [] _ (omega arith) (record { ends = rw known refl }))

  read_scrape :
      (req : ScrapeRequest) → length req.hashes % 20 ≡ 0 → Written (RequestType.scrape req)
  unfolding write_request_type request_of
  read_scrape req h =
      header 2 (Scrape.write_request req) _ (omega arith)
        (rw (and_false (cid == connect_id_protocol_id)) (Ends-map (Ends-scrape req h)))

  read_type : (t : RequestType) → IsRequestType cid t → Written t
  read_type RequestType.connect h = read_connect h
  read_type (RequestType.announce req) (inl h) = read_v4 req h
  read_type (RequestType.announce req) (inr h) = read_v6 req h
  read_type (RequestType.scrape req) h = read_scrape req h

-- A request whose ids fit 64 and 32 bits is read back from what is written: a connect request with
-- the known connection id, an announce request over IPv4 or IPv6 that is read back by itself, or a
-- scrape request of whole hashes.
pub parse_request-write_request :
    ⦃nom : Nom⦄ ⦃order : Byteorder⦄ (request : TrackerRequest)
    → request.connection_id < 2 ^ 64
    → request.transaction_id < 2 ^ 32
    → IsRequestType request.connection_id request.request_type
    → Ends parse_request (write_request request) request
unfolding write_request
parse_request-write_request request cid tid h =
    read_type request.connection_id request.transaction_id cid tid request.request_type h
