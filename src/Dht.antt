-- ===== src/Dht.antt =====
-- bip_dht: the routing table (Routing), the tokens (Token), the announced peers (Storage), the transaction identifiers (Transaction).
pub mod Routing
pub mod Token
pub mod Storage
pub mod Transaction
