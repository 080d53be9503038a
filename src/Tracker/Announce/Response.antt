-- ===== src/Tracker/Announce/Response.antt =====
-- The announce responses that bip_utracker/src/announce.rs writes are read back.
use rust_bt.Base.{◌%◌, ◌≡◌, refl, true, length, drop_all, ◌==◌, arith}
use rust_bt.Wire.{Parser, Nom, Byteorder}
use rust_bt.Wire.Numbers.{IsSigned}
use rust_bt.Wire.Reads.{Ends, Ends-then, Ends-map, Reads-i32}
use rust_bt.Tracker.Contact.{CompactPeers, write_peers, peers_from_bytes_v4, peers_from_bytes_v6}
use rust_bt.Tracker.Announce.{
  AnnounceResponse, write_response, parse_response, response_from_bytes_v4, response_from_bytes_v6,
}

-- The bytes hold whole addresses.
abbrev pub ArePeers : CompactPeers → Type 0
ArePeers (CompactPeers.v4 peers) = length peers.peers % 6 ≡ 0
ArePeers (CompactPeers.v6 peers) = length peers.peers % 18 ≡ 0

abbrev pub peers_type_of : CompactPeers → Parser CompactPeers
peers_type_of (CompactPeers.v4 peers) = peers_from_bytes_v4
peers_type_of (CompactPeers.v6 peers) = peers_from_bytes_v6

Ends-peers :
    (peers : CompactPeers) → ArePeers peers → Ends (peers_type_of peers) (write_peers peers) peers
unfolding peers_from_bytes_v4 peers_from_bytes_v6 write_peers
Ends-peers (CompactPeers.v4 peers) h =
    let all = drop_all (length peers.peers) peers.peers (omega arith) in
    let whole : (length peers.peers % 6 == 0) ≡ true = ground arith in
    record { ends = rw whole (rw all refl) }
Ends-peers (CompactPeers.v6 peers) h =
    let all = drop_all (length peers.peers) peers.peers (omega arith) in
    let whole : (length peers.peers % 18 == 0) ≡ true = ground arith in
    record { ends = rw whole (rw all refl) }

module _ ⦃nom : Nom⦄ where
  -- The parser for the version of the peers.
  abbrev pub response_parser : CompactPeers → Parser AnnounceResponse
  response_parser (CompactPeers.v4 peers) = response_from_bytes_v4
  response_parser (CompactPeers.v6 peers) = response_from_bytes_v6

  module _ ⦃order : Byteorder⦄ (response : AnnounceResponse) where
    abbrev pub FitsInts : Type 0
    FitsInts =
        IsSigned 32 response.interval × IsSigned 32 response.leechers × IsSigned 32 response.seeders

    Ends-response :
        (peers_type : Parser CompactPeers)
        → FitsInts
        → Ends peers_type (write_peers response.peers) response.peers
        → Ends (parse_response peers_type) (write_response response) response
    unfolding parse_response write_response
    Ends-response peers_type ints h = Ends-then (Reads-i32 response.interval ints.0) (
        Ends-then (Reads-i32 response.leechers ints.1)
          (Ends-then (Reads-i32 response.seeders ints.2) (Ends-map h)))

    parser_of :
        (peers : CompactPeers)
        → Ends (parse_response (peers_type_of peers)) (write_response response) response
        → Ends (response_parser peers) (write_response response) response
    unfolding response_from_bytes_v4 response_from_bytes_v6
    parser_of (CompactPeers.v4 peers) h = h
    parser_of (CompactPeers.v6 peers) h = h

    -- An announce response whose numbers fit 32 bits and whose peers are whole addresses is read back
    -- by the parser for the version of its peers.
    pub response_from_bytes-write_response :
        FitsInts
        → ArePeers response.peers
        → Ends (response_parser response.peers) (write_response response) response
    response_from_bytes-write_response ints whole =
        parser_of response.peers
          (Ends-response (peers_type_of response.peers) ints (Ends-peers response.peers whole))
