-- ===== src/Tracker/Messages.antt =====
-- bip_utracker/src/request.rs, response.rs and error.rs: the messages of the tracker protocol.
pub mod Requests
pub mod Responses
use rust_bt.Base.{ℕ, [], ◌∷◌, ◌++◌, Bool, true, false, Bytes, length, ◌==◌, ◌&&◌, if◌then◌else◌}
use rust_bt.Wire.{IResult, done, Parser, Nom, Byteorder, ◌>>=◌, value}
use rust_bt.Tracker.Contact.{CompactPeers}
use rust_bt.Tracker.Announce
use rust_bt.Tracker.Announce.{
  AnnounceRequest, AnnounceResponse, is_ipv4, request_from_bytes_v4, request_from_bytes_v6,
  response_from_bytes_v4, response_from_bytes_v6,
}
use rust_bt.Tracker.Scrape
use rust_bt.Tracker.Scrape.{ScrapeRequest, ScrapeResponse}

abbrev pub connect_action_id : ℕ
connect_action_id = 0

abbrev pub announce_ipv4_action_id : ℕ
announce_ipv4_action_id = 1

abbrev pub scrape_action_id : ℕ
scrape_action_id = 2

abbrev pub error_action_id : ℕ
error_action_id = 3

abbrev pub announce_ipv6_action_id : ℕ
announce_ipv6_action_id = 4

abbrev pub connect_id_protocol_id : ℕ
connect_id_protocol_id = 0x41727101980

pub data RequestType : Type 0 where
  connect : RequestType
  announce : AnnounceRequest → RequestType
  scrape : ScrapeRequest → RequestType

pub record TrackerRequest : Type 0 where
  pub connection_id : ℕ
  pub transaction_id : ℕ
  pub request_type : RequestType

-- A text is its bytes.
pub record ErrorResponse : Type 0 where
  pub message : Bytes

pub data ResponseType : Type 0 where
  connect : ℕ → ResponseType
  announce : AnnounceResponse → ResponseType
  scrape : ScrapeResponse → ResponseType
  error : ErrorResponse → ResponseType

pub record TrackerResponse : Type 0 where
  pub transaction_id : ℕ
  pub response_type : ResponseType

unfoldable pub write_error : ErrorResponse → Bytes
write_error response = response.message

unfoldable pub peers_action_id : CompactPeers → ℕ
peers_action_id (CompactPeers.v4 _) = announce_ipv4_action_id
peers_action_id (CompactPeers.v6 _) = announce_ipv6_action_id

module _ ⦃order : Byteorder⦄ where
  open order use {write_u32, write_u64}

  -- What stands behind the connection id.
  unfoldable pub write_request_type : ℕ → RequestType → Bytes
  write_request_type transaction_id RequestType.connect =
      write_u32 connect_action_id ++ write_u32 transaction_id
  write_request_type transaction_id (RequestType.announce req) =
      let action_id = if is_ipv4 req.ip then announce_ipv4_action_id else announce_ipv6_action_id in
      write_u32 action_id ++ (write_u32 transaction_id ++ Announce.write_request req)
  write_request_type transaction_id (RequestType.scrape req) =
      write_u32 scrape_action_id ++ (write_u32 transaction_id ++ Scrape.write_request req)

  unfoldable pub write_request : TrackerRequest → Bytes
  write_request request =
      write_u64 request.connection_id
      ++ write_request_type request.transaction_id request.request_type

  unfoldable pub write_response_type : ℕ → ResponseType → Bytes
  write_response_type transaction_id (ResponseType.connect id) =
      write_u32 connect_action_id ++ (write_u32 transaction_id ++ write_u64 id)
  write_response_type transaction_id (ResponseType.announce req) =
      write_u32 (peers_action_id req.peers)
      ++ (write_u32 transaction_id ++ Announce.write_response req)
  write_response_type transaction_id (ResponseType.scrape req) =
      write_u32 scrape_action_id ++ (write_u32 transaction_id ++ Scrape.write_response req)
  write_response_type transaction_id (ResponseType.error err) =
      write_u32 error_action_id ++ (write_u32 transaction_id ++ write_error err)

  unfoldable pub write_response : TrackerResponse → Bytes
  write_response response = write_response_type response.transaction_id response.response_type

module _ ⦃nom : Nom⦄ where
  unfoldable pub error_from_bytes : Parser ErrorResponse
  error_from_bytes bytes =
      nom.and_then (nom.take_str (length bytes) bytes) λ rest m. done rest (record { message = m })

  -- The arms of the `switch!`, in their order.
  unfoldable pub request_of : ℕ → ℕ → ℕ → Parser TrackerRequest
  request_of cid action tid =
      let with_type : RequestType → TrackerRequest = λ (t : RequestType). record {
        connection_id = cid;
        transaction_id = tid;
        request_type = t;
      } in
      if cid == connect_id_protocol_id && action == connect_action_id
      then value (with_type RequestType.connect)
      else if action == announce_ipv4_action_id
      then (request_from_bytes_v4 >>= λ req. value (with_type (RequestType.announce req)))
      else if action == scrape_action_id
      then (Scrape.parse_request >>= λ req. value (with_type (RequestType.scrape req)))
      else if action == announce_ipv6_action_id
      then (request_from_bytes_v6 >>= λ req. value (with_type (RequestType.announce req)))
      else λ _. IResult.error nom.switch_error

  unfoldable pub parse_request : Parser TrackerRequest
  parse_request = do
    cid ← nom.be_u64
    action ← nom.be_u32
    tid ← nom.be_u32
    request_of cid action tid

  unfoldable pub response_of : ℕ → ℕ → Parser TrackerResponse
  response_of action tid =
      let with_type : ResponseType → TrackerResponse =
        λ (t : ResponseType). record { transaction_id = tid; response_type = t } in
      if action == connect_action_id
      then (nom.be_u64 >>= λ cid. value (with_type (ResponseType.connect cid)))
      else if action == announce_ipv4_action_id
      then (response_from_bytes_v4 >>= λ res. value (with_type (ResponseType.announce res)))
      else if action == scrape_action_id
      then (Scrape.parse_response >>= λ res. value (with_type (ResponseType.scrape res)))
      else if action == error_action_id
      then (error_from_bytes >>= λ res. value (with_type (ResponseType.error res)))
      else if action == announce_ipv6_action_id
      then (response_from_bytes_v6 >>= λ res. value (with_type (ResponseType.announce res)))
      else λ _. IResult.error nom.switch_error

  unfoldable pub parse_response : Parser TrackerResponse
  parse_response = do action ← nom.be_u32; tid ← nom.be_u32; response_of action tid
