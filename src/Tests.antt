-- ===== src/Tests.antt =====
-- The theorems applied to concrete inputs, a file for each part of the program.
mod Bencode
mod Disk
mod DiskTasks
mod Handshake
mod Identifiers
mod Memory
mod Peer
mod Routing
mod Storage
mod Token
mod Tracker
mod Wire
