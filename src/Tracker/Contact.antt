-- ===== src/Tracker/Contact.antt =====
-- bip_utracker/src/contact.rs: the peers that a tracker sends, as packed addresses.
pub mod RoundTrip
pub mod RoundTripV6
use rust_bt.Base.{
  ℕ, ◌+◌, ◌-◌, ◌%◌, List, [], ◌∷◌, ◌++◌, Option, none, some, Bytes, length, take, drop, replicate,
  ◌==◌, if◌then◌else◌,
}
use rust_bt.Util.Convert.{
  sock_v4_to_bytes_be, sock_v6_to_bytes_be, bytes_be_to_sock_v4, bytes_be_to_sock_v6,
}
use rust_bt.Wire.{Needed, size, IResult, done, error, incomplete}

abbrev pub socket_addr_v4_bytes : ℕ
socket_addr_v4_bytes = 6

abbrev pub socket_addr_v6_bytes : ℕ
socket_addr_v6_bytes = 18

-- The octets of a V4 address, or the segments of a V6 address, and the port.
abbrev pub SocketAddrV4 : Type 0
SocketAddrV4 = Bytes × ℕ

abbrev pub SocketAddrV6 : Type 0
SocketAddrV6 = List ℕ × ℕ

pub data SocketAddr : Type 0 where
  v4 : SocketAddrV4 → SocketAddr
  v6 : SocketAddrV6 → SocketAddr

pub record CompactPeersV4 : Type 0 where
  pub peers : Bytes

pub record CompactPeersV6 : Type 0 where
  pub peers : Bytes

pub data CompactPeers : Type 0 where
  v4 : CompactPeersV4 → CompactPeers
  v6 : CompactPeersV6 → CompactPeers

unfoldable pub new_v4 : CompactPeersV4
new_v4 = record { peers = [] }

unfoldable pub new_v6 : CompactPeersV6
new_v6 = record { peers = [] }

unfoldable pub parse_peers_v4 : Bytes → IResult CompactPeersV4
parse_peers_v4 bytes =
    let remainder_bytes = length bytes % socket_addr_v4_bytes in
    if remainder_bytes == 0
    then done (drop (length bytes) bytes) (record { peers = bytes })
    else incomplete (size (socket_addr_v4_bytes - remainder_bytes))

unfoldable pub parse_peers_v6 : Bytes → IResult CompactPeersV6
parse_peers_v6 bytes =
    let remainder_bytes = length bytes % socket_addr_v6_bytes in
    if remainder_bytes == 0
    then done (drop (length bytes) bytes) (record { peers = bytes })
    else incomplete (size (socket_addr_v6_bytes - remainder_bytes))

unfoldable pub wrap_v4 : IResult CompactPeersV4 → IResult CompactPeers
wrap_v4 (done i peers) = done i (CompactPeers.v4 peers)
wrap_v4 (error err) = error err
wrap_v4 (incomplete need) = incomplete need

unfoldable pub wrap_v6 : IResult CompactPeersV6 → IResult CompactPeers
wrap_v6 (done i peers) = done i (CompactPeers.v6 peers)
wrap_v6 (error err) = error err
wrap_v6 (incomplete need) = incomplete need

unfoldable pub peers_from_bytes_v4 : Bytes → IResult CompactPeers
unfolding wrap_v4 parse_peers_v4
peers_from_bytes_v4 bytes = wrap_v4 (parse_peers_v4 bytes)

unfoldable pub peers_from_bytes_v6 : Bytes → IResult CompactPeers
unfolding wrap_v6 parse_peers_v6
peers_from_bytes_v6 bytes = wrap_v6 (parse_peers_v6 bytes)

unfoldable pub write_peers : CompactPeers → Bytes
write_peers (CompactPeers.v4 peers) = peers.peers
write_peers (CompactPeers.v6 peers) = peers.peers

unfoldable pub insert_v4 : SocketAddrV4 → CompactPeersV4 → CompactPeersV4
insert_v4 (octets, port) peers = record peers {
  peers = peers.peers ++ sock_v4_to_bytes_be octets port;
}

unfoldable pub insert_v6 : SocketAddrV6 → CompactPeersV6 → CompactPeersV6
insert_v6 (segments, port) peers = record peers {
  peers = peers.peers ++ sock_v6_to_bytes_be segments port;
}

-- The array of zeroes into which the bytes that are there are copied.
unfoldable pub copy_bytes : ℕ → Bytes → Bytes
copy_bytes n bytes = take n bytes ++ replicate (n - length (take n bytes)) 0

pub record CompactPeersV4Iter : Type 0 where
  pub peers : Bytes
  pub offset : ℕ

pub record CompactPeersV6Iter : Type 0 where
  pub peers : Bytes
  pub offset : ℕ

unfoldable pub iter_v4 : CompactPeersV4 → CompactPeersV4Iter
iter_v4 peers = record { peers = peers.peers; offset = 0 }

unfoldable pub iter_v6 : CompactPeersV6 → CompactPeersV6Iter
iter_v6 peers = record { peers = peers.peers; offset = 0 }

unfoldable pub next_v4 : CompactPeersV4Iter → Option SocketAddrV4 × CompactPeersV4Iter
next_v4 iter = if iter.offset == length iter.peers then (none, iter) else (
  some (bytes_be_to_sock_v4 (copy_bytes socket_addr_v4_bytes (drop iter.offset iter.peers))),
  record iter { offset = iter.offset + socket_addr_v4_bytes },
)

unfoldable pub next_v6 : CompactPeersV6Iter → Option SocketAddrV6 × CompactPeersV6Iter
next_v6 iter = if iter.offset == length iter.peers then (none, iter) else (
  some (bytes_be_to_sock_v6 (copy_bytes socket_addr_v6_bytes (drop iter.offset iter.peers))),
  record iter { offset = iter.offset + socket_addr_v6_bytes },
)

pub data CompactPeersIter : Type 0 where
  v4 : CompactPeersV4Iter → CompactPeersIter
  v6 : CompactPeersV6Iter → CompactPeersIter

unfoldable pub iter_peers : CompactPeers → CompactPeersIter
unfolding iter_v4 iter_v6
iter_peers (CompactPeers.v4 peers) = CompactPeersIter.v4 (iter_v4 peers)
iter_peers (CompactPeers.v6 peers) = CompactPeersIter.v6 (iter_v6 peers)

abbrev map_some : {A B : Type 0} → (A → B) → Option A → Option B
map_some f none = none
map_some f (some a) = some (f a)

unfoldable pub next_peer : CompactPeersIter → Option SocketAddr × CompactPeersIter
unfolding next_v4 next_v6
next_peer (CompactPeersIter.v4 iter) =
    let (a, iter') = next_v4 iter in (map_some SocketAddr.v4 a, CompactPeersIter.v4 iter')
next_peer (CompactPeersIter.v6 iter) =
    let (a, iter') = next_v6 iter in (map_some SocketAddr.v6 a, CompactPeersIter.v6 iter')
