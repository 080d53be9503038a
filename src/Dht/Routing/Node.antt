-- ===== src/Dht/Routing/Node.antt =====
-- bip_dht/src/routing/node.rs: a node of the DHT and its status. A time is a number of nanoseconds
-- since the epoch, and `UTC::now()` is the argument `now` of what reads it.
pub mod Status
pub mod Equality
use rust_bt.Base.{
  ℕ, ◌+◌, ◌-◌, ◌*◌, ◌/◌, ◌%◌, List, [], ◌∷◌, ◌++◌, Bool, true, false, ◌&&◌, Option, none, some,
  Bytes, bytes_eq, ltb, ◌==◌, if◌then◌else◌,
}

abbrev pub Time : Type 0
Time = ℕ

abbrev pub minutes : ℕ → Time
minutes n = n * 60_000_000_000

abbrev pub max_last_seen_mins : ℕ
max_last_seen_mins = 15

abbrev pub max_refresh_requests : ℕ
max_refresh_requests = 2

pub data NodeStatus : Type 0 where
  bad questionable good : NodeStatus

-- The derived order of the enumeration.
abbrev pub rank : NodeStatus → ℕ
rank bad = 0
rank questionable = 1
rank good = 2

-- `std::net::SocketAddr`: the octets of the address, the port, and what V6 has besides.
pub data SocketAddr : Type 0 where
  v4 : Bytes → ℕ → SocketAddr
  v6 : Bytes → ℕ → ℕ → ℕ → SocketAddr

unfoldable pub addr_eq : SocketAddr → SocketAddr → Bool
addr_eq (v4 ip port) (v4 ip' port') = bytes_eq ip ip' && port == port'
addr_eq (v6 ip port flow scope) (v6 ip' port' flow' scope') =
    bytes_eq ip ip' && (port == port' && (flow == flow' && scope == scope'))
addr_eq _ _ = false

pub record Node : Type 0 where
  pub id : Bytes
  pub addr : SocketAddr
  pub last_request : Option Time
  pub last_response : Option Time
  pub refresh_requests : ℕ

unfoldable pub node_eq : Node → Node → Bool
node_eq m n = bytes_eq m.id n.id && addr_eq m.addr n.addr

unfoldable pub as_good : Time → Bytes → SocketAddr → Node
as_good now id addr = record {
  id = id;
  addr = addr;
  last_request = none;
  last_response = some now;
  refresh_requests = 0;
}

-- `travel_into_past` takes the whole wait off the present time.
unfoldable pub as_questionable : Time → Bytes → SocketAddr → Node
as_questionable now id addr = record {
  id = id;
  addr = addr;
  last_request = none;
  last_response = some (now - minutes max_last_seen_mins);
  refresh_requests = 0;
}

unfoldable pub as_bad : Bytes → SocketAddr → Node
as_bad id addr = record {
  id = id;
  addr = addr;
  last_request = none;
  last_response = none;
  refresh_requests = 0;
}

-- `curr_time - response_time < max` on signed durations, with the subtraction moved across.
unfoldable pub recently_responded : Node → Time → NodeStatus
recently_responded node curr_time = elim node.last_response [
  | none ↦ bad
  | some response_time ↦
      if ltb curr_time (response_time + minutes max_last_seen_mins) then good else questionable
]

unfoldable pub by_requests : Node → NodeStatus
by_requests node = if ltb node.refresh_requests max_refresh_requests then questionable else bad

unfoldable pub recently_requested : Node → Time → NodeStatus
unfolding by_requests
recently_requested node curr_time = elim node.last_request [
  | none ↦ by_requests node
  | some request_time ↦
      if ltb curr_time (request_time + minutes max_last_seen_mins) then good else by_requests node
]

unfoldable pub status : Time → Node → NodeStatus
unfolding recently_responded recently_requested
status now node = elim (recently_responded node now) [
  | good ↦ good
  | bad ↦ bad
  | questionable ↦ recently_requested node now
]

unfoldable pub local_request : Time → Node → Node
unfolding status
local_request now node = elim (status now node) [
  | good ↦ node
  | _ ↦ record node { refresh_requests = node.refresh_requests + 1 }
]

unfoldable pub remote_request : Time → Node → Node
remote_request now node = record node { last_request = some now }

unfoldable pub remote_response : Time → Node → Node
remote_response now node = record node { last_response = some now; refresh_requests = 0 }

-- `none` is the panic at a V6 address.
unfoldable pub encode : Node → Option Bytes
encode node = elim node.addr [
  | v4 ip port ↦ some (node.id ++ (ip ++ (port / 256) % 256 ∷ port % 256 ∷ []))
  | v6 ip port flow scope ↦ none
]
