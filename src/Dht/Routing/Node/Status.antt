-- ===== src/Dht/Routing/Node/Status.antt =====
-- What the status of a node of bip_dht/src/routing/node.rs says, and how events and time change it.
use rust_bt.Base.{◌+◌, ◌<◌, ◌≤◌, ◌≡◌, ◌≢◌, ◌⊎◌, ◌↔◌, Option, none, some, Bytes, arith}
use rust_bt.Dht.Routing.Node.{
  Time, minutes, max_last_seen_mins, max_refresh_requests, bad, questionable, good, rank,
  SocketAddr, Node, as_good, as_questionable, as_bad, status, local_request, remote_request,
  remote_response,
}

-- The time `at` is recorded and lies less than the longest wait before `now`.
abbrev pub IsRecent : Time → Option Time → Type 0
IsRecent now at = (t : Time) × (at ≡ some t) × (now < t + minutes max_last_seen_mins)

-- A node is good exactly when it has responded at some time, and its last response or its last
-- request is less than fifteen minutes old.
pub status-good_iff :
    (now : Time) (n : Node)
    → (status now n ≡ good)
      ↔ ((n.last_response ≢ none) × (IsRecent now n.last_response ⊎ IsRecent now n.last_request))
unfolding status
status-good_iff now n = ground arith

-- The status of a node that has never responded is bad, and every other bad node was asked twice
-- in vain: it has responded and requested, if at all, too long ago.
pub status-bad_iff :
    (now : Time) (n : Node)
    → (status now n ≡ bad) ↔ (
        (n.last_response ≡ none)
        ⊎ ((status now n ≢ good) × (max_refresh_requests ≤ n.refresh_requests)))
unfolding status
status-bad_iff now n = ground arith

-- With no event in between a node's status only falls.
pub status_antitone : (t t' : Time) (n : Node) → t ≤ t' → rank (status t' n) ≤ rank (status t n)
unfolding status
status_antitone t t' n h = ground arith

-- A response makes a node good, whatever it was, and the count of vain requests starts again.
pub status-remote_response :
    (now : Time) (n : Node)
    → (status now (remote_response now n) ≡ good) × ((remote_response now n).refresh_requests ≡ 0)
unfolding status remote_response
status-remote_response now n = ground arith

-- A request makes a node good exactly if it has ever responded.
pub status-remote_request :
    (now : Time) (n : Node) → (status now (remote_request now n) ≡ good) ↔ (n.last_response ≢ none)
unfolding status remote_request
status-remote_request now n = ground arith

-- Two requests of ours with no answer make a node bad that is no longer good.
pub status-local_request_twice :
    (t t' now : Time) (n : Node)
    → status t n ≢ good
    → t ≤ t'
    → t' ≤ now
    → status now (local_request t' (local_request t n)) ≡ bad
unfolding status local_request
status-local_request_twice t t' now n h p q = ground arith

-- The three ways to make a node give the statuses that they are named for.
pub status-as :
    (now : Time) (id : Bytes) (addr : SocketAddr)
    → minutes max_last_seen_mins ≤ now
    → (status now (as_good now id addr) ≡ good)
      × (status now (as_questionable now id addr) ≡ questionable)
      × (status now (as_bad id addr) ≡ bad)
unfolding status as_good as_questionable as_bad
status-as now id addr h = ground arith
