-- ===== src/Handshake.antt =====
-- bip_handshake: the handshake message, and how it is read from a socket.
pub mod Message
pub mod Framed
