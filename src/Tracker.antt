-- ===== src/Tracker.antt =====
-- bip_utracker: the messages of the UDP tracker protocol. The peers of a response (Contact), the
-- options of a request (Options), the announce messages (Announce), the scrape messages (Scrape), and
-- the requests and responses that hold them (Messages). A writer is a buffer in memory, which takes
-- everything that is written; owned and borrowed bytes are not told apart.
pub mod Contact
pub mod Options
pub mod Announce
pub mod Scrape
pub mod Messages
