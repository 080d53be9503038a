-- ===== src/Dht/Routing.antt =====
-- bip_dht/src/routing: nodes, buckets and the table of buckets.
pub mod Node
pub mod Bucket
pub mod Table
