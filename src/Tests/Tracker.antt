-- ===== src/Tests/Tracker.antt =====
-- bip_utracker: the messages, their parts and the iterators.
use rust_bt.Base.{ℕ, ◌<◌, ◌≡◌, refl, [], ◌∷◌, List, Bytes, replicate, inl, arith}
use rust_bt.Base.Int.{pos, negsuc}
use rust_bt.Wire.{IResult}
use rust_bt.Wire.Reads.{Reads, Ends}
use rust_bt.Tracker.Contact.{SocketAddrV4, CompactPeers}
use rust_bt.Tracker.Options.{
  AnnounceOptions, RawOptions, write_options, write_raw, write_chunks, options_from_bytes,
  parse_options,
}
use rust_bt.Tracker.Options.RoundTrip.{options_from_bytes-write_options}
use rust_bt.Tracker.Options.Ends.{parse_options_total, IsAnswer}
use rust_bt.Tracker.Announce.{started, ClientState, explicit_v4, specified, AnnounceRequest}
use rust_bt.Tracker.Announce.RoundTrip.{IsRequest, IsSourceV4}
use rust_bt.Tracker.Scrape.{ScrapeStats, new_response, iter_response, item}
use rust_bt.Tracker.Scrape.Stats.{collect-insert_stats, collect_stats, insert_all_stats}
use rust_bt.Tracker.Messages.{
  RequestType, TrackerRequest, ResponseType, TrackerResponse, parse_request, write_request,
  parse_response, write_response,
}
use rust_bt.Tracker.Messages.Requests.{parse_request-write_request}
use rust_bt.Tracker.Messages.Responses.{parse_response-write_response}
use rust_bt.Tests.Wire.{nom, order}

abbrev socks_v4 : List SocketAddrV4
socks_v4 = (127 ∷ 0 ∷ 0 ∷ 1 ∷ [], 6881) ∷ (10 ∷ 0 ∷ 0 ∷ 2 ∷ [], 80) ∷ []

-- the path of a URL, and an option of the client's own
abbrev options : AnnounceOptions
options = record { raw_options = (2, b'/' ∷ b'a' ∷ []) ∷ (9, 5 ∷ []) ∷ [] }

abbrev written_options : Bytes
written_options = 2 ∷ 2 ∷ b'/' ∷ b'a' ∷ 9 ∷ 1 ∷ 5 ∷ 0 ∷ []

write_options-options : write_options options ≡ written_options
unfolding write_options write_raw write_chunks
write_options-options = refl

options_from_bytes-write_options_example : Reads options_from_bytes (write_options options) options
options_from_bytes-write_options_example =
    options_from_bytes-write_options options
      (omega arith, omega arith, ((λ e. omega arith), tt), (omega arith, omega arith, tt, tt))

-- the last option is cut off
parse_options_total_example :
    (answer : IResult RawOptions) × IsAnswer answer
    × ((r : ℕ) → 4 < r → parse_options r [] (1 ∷ 9 ∷ 3 ∷ 5 ∷ []) ≡ answer)
parse_options_total_example = parse_options_total [] (1 ∷ 9 ∷ 3 ∷ 5 ∷ [])

abbrev state : ClientState
state = record { downloaded = pos 10; left = pos 90; uploaded = pos 5; event = started }

abbrev request : AnnounceRequest
request = record {
  info_hash = replicate 20 7;
  peer_id = replicate 20 8;
  state = state;
  ip = explicit_v4 (10 ∷ 0 ∷ 0 ∷ 1 ∷ []);
  key = 77;
  num_want = specified (pos 50);
  port = 6881;
  options = options;
}

request-IsRequest : IsRequest IsSourceV4 request
request-IsRequest = record {
  hash = refl;
  peer = refl;
  state = (omega arith, omega arith, omega arith);
  source = (refl, λ e. ground arith);
  key = omega arith;
  desired = (omega arith, λ e. cc);
  port = omega arith;
  options =
      (omega arith, omega arith, ((λ e. omega arith), tt), (omega arith, omega arith, tt, tt));
}

abbrev announce : TrackerRequest
announce = record {
  connection_id = 12345;
  transaction_id = 99;
  request_type = RequestType.announce request;
}

parse_request-write_request_example : Ends parse_request (write_request announce) announce
parse_request-write_request_example =
    parse_request-write_request announce (omega arith) (omega arith) (inl request-IsRequest)

abbrev answer : TrackerResponse
answer = record {
  transaction_id = 99;
  response_type = ResponseType.announce (record {
    interval = pos 1800;
    leechers = pos 3;
    seeders = pos 4;
    peers = CompactPeers.v4 (record { peers = 127 ∷ 0 ∷ 0 ∷ 1 ∷ 26 ∷ 225 ∷ [] });
  });
}

parse_response-write_response_example : Ends parse_response (write_response answer) answer
parse_response-write_response_example =
    parse_response-write_response answer (omega arith)
      ((omega arith, omega arith, omega arith), refl)

abbrev hashes : List Bytes
hashes = replicate 20 1 ∷ replicate 20 2 ∷ []

abbrev stats : List ScrapeStats
stats =
    record { seeders = pos 3; downloaded = pos 100; leechers = negsuc 0 }
    ∷ record { seeders = pos 0; downloaded = pos 0; leechers = pos 1 }
    ∷ []

collect-insert_stats_example :
    collect_stats 3 (iter_response (insert_all_stats stats new_response)) ≡ item stats
collect-insert_stats_example =
    collect-insert_stats stats
      ((omega arith, omega arith, omega arith), ((omega arith, omega arith, omega arith), tt))
