-- ===== src/Tracker/Messages/Responses.antt =====
-- The responses that bip_utracker/src/response.rs writes are read back.
use rust_bt.Base.{
  ℕ, ◌%◌, ◌^◌, ◌<◌, ◌≡◌, refl, sym, ap, ◌∙◌, [], ◌++◌, append-nil, true, Bytes, length, ◌==◌,
  drop_all, arith,
}
use rust_bt.Wire.{done, Nom, Byteorder}
use rust_bt.Wire.Reads.{Ends, Ends-then, Ends-map, Reads-u32, Reads-u64, Reads-Ends, after_done}
use rust_bt.Tracker.Contact.{CompactPeers}
use rust_bt.Tracker.Announce
use rust_bt.Tracker.Announce.{AnnounceResponse}
use rust_bt.Tracker.Announce.Response.{
  FitsInts, ArePeers, response_parser, response_from_bytes-write_response,
}
use rust_bt.Tracker.Scrape
use rust_bt.Tracker.Scrape.{ScrapeResponse}
use rust_bt.Tracker.Messages.{
  ResponseType, ErrorResponse, TrackerResponse, write_error, peers_action_id, write_response_type,
  write_response, error_from_bytes, response_of, parse_response,
}

module _ ⦃nom : Nom⦄ ⦃order : Byteorder⦄ where
  -- An id of 64 bits; an announce response that is read back by itself; whole statistics; a text.
  abbrev pub IsResponseType : ResponseType → Type 0
  IsResponseType (ResponseType.connect id) = id < 2 ^ 64
  IsResponseType (ResponseType.announce res) = FitsInts res × ArePeers res.peers
  IsResponseType (ResponseType.scrape res) = length res.stats % 12 ≡ 0
  IsResponseType (ResponseType.error err) = nom.IsUtf8 err.message

  Ends-scrape :
      (res : ScrapeResponse)
      → length res.stats % 12 ≡ 0
      → Ends Scrape.parse_response (Scrape.write_response res) res
  unfolding Scrape.parse_response Scrape.write_response
  Ends-scrape res h =
      let all = drop_all (length res.stats) res.stats (omega arith) in
      let whole : (length res.stats % 12 == 0) ≡ true = ground arith in
      record { ends = rw whole (rw all refl) }

  Ends-error :
      (err : ErrorResponse) → nom.IsUtf8 err.message → Ends error_from_bytes (write_error err) err
  unfolding error_from_bytes write_error
  Ends-error err h =
      let text = err.message in
      let e : nom.take_str (length text) text ≡ done [] text =
        ap (nom.take_str (length text)) (sym (append-nil text))
        ∙ nom.take_str-done (length text) text [] refl h in
      record { ends = after_done _ e }

  module _ (tid : ℕ) (fits : tid < 2 ^ 32) where
    abbrev Written : ResponseType → Type 0
    Written t =
        Ends parse_response (write_response_type tid t)
          (record { transaction_id = tid; response_type = t })

    header :
        (action : ℕ) (others : Bytes) (response : TrackerResponse)
        → action < 2 ^ 32
        → Ends (response_of action tid) others response
        → Ends parse_response (order.write_u32 action ++ (order.write_u32 tid ++ others)) response
    unfolding parse_response
    header action others response small h =
        Ends-then (Reads-u32 action small) (Ends-then (Reads-u32 tid fits) h)

    read_announce :
        (res : AnnounceResponse) (peers : CompactPeers)
        → Ends (response_parser peers) (Announce.write_response res) res
        → Ends parse_response
            (order.write_u32 (peers_action_id peers)
              ++ (order.write_u32 tid ++ Announce.write_response res))
            (record { transaction_id = tid; response_type = ResponseType.announce res })
    unfolding peers_action_id response_of
    read_announce res (CompactPeers.v4 _) h =
        header 1 (Announce.write_response res) _ (omega arith) (Ends-map h)
    read_announce res (CompactPeers.v6 _) h =
        header 4 (Announce.write_response res) _ (omega arith) (Ends-map h)

    read_type : (t : ResponseType) → IsResponseType t → Written t
    unfolding write_response_type response_of
    read_type (ResponseType.connect id) h =
        header 0 (order.write_u64 id) _ (omega arith) (Ends-map (Reads-Ends (Reads-u64 id h)))
    read_type (ResponseType.announce res) h =
        read_announce res res.peers (response_from_bytes-write_response res h.0 h.1)
    read_type (ResponseType.scrape res) h =
        header 2 (Scrape.write_response res) _ (omega arith) (Ends-map (Ends-scrape res h))
    read_type (ResponseType.error err) h =
        header 3 (write_error err) _ (omega arith) (Ends-map (Ends-error err h))

  -- A response whose transaction id fits 32 bits is read back from what is written: one with a
  -- connection id of 64 bits, an announce response whose numbers fit 32 bits and whose peers are whole
  -- addresses, whole scrape statistics, or an error whose message is UTF-8.
  pub parse_response-write_response :
      (response : TrackerResponse)
      → response.transaction_id < 2 ^ 32
      → IsResponseType response.response_type
      → Ends parse_response (write_response response) response
  unfolding write_response
  parse_response-write_response response tid h =
      read_type response.transaction_id tid response.response_type h
