-- ===== src/Tracker/Contact/RoundTrip.antt =====
-- The iterators of bip_utracker/src/contact.rs over the peers that were put in.
use rust_bt.Base.{
  ℕ, zero, suc, ◌+◌, ◌-◌, ◌/◌, ◌%◌, ◌^◌, ◌<◌, ◌≡◌, refl, sym, ap, ◌∙◌, List, [], ◌∷◌, ◌++◌,
  append_assoc, append-nil, Option, none, some, Bytes, length, drop, ◌==◌, length-append,
  take-append, drop-append, true, false, ==_iff, arith,
}
use rust_bt.Util.Convert.{port_to_bytes_be, sock_v4_to_bytes_be}
use rust_bt.Util.Convert.RoundTrip.{bytes_be_to_sock_v4_lem}
use rust_bt.Tracker.Contact.{
  SocketAddrV4, CompactPeersV4, insert_v4, copy_bytes, CompactPeersV4Iter, iter_v4, new_v4, next_v4,
}

-- The bytes that stand behind others, with more behind them, are copied.
pub copy_bytes-middle :
    (n : ℕ) (before cut behind : Bytes)
    → length cut ≡ n
    → copy_bytes n (drop (length before) (before ++ (cut ++ behind))) ≡ cut
unfolding copy_bytes
copy_bytes-middle n before cut behind h =
    let e : n - length cut ≡ 0 = omega arith in
    rw (← h, drop-append before (cut ++ behind))
      (rw (take-append cut behind)
        (let z : length cut - length cut ≡ 0 = omega arith in rw z (append-nil cut)))

-- An address of four octets, and a port of 16 bits.
abbrev pub IsSockV4 : SocketAddrV4 → Type 0
IsSockV4 (octets, port) = (length octets ≡ 4) × (port < 2 ^ 16)

abbrev pub AllV4 : List SocketAddrV4 → Type 0
AllV4 [] = Unit {0}
AllV4 (s ∷ ss) = IsSockV4 s × AllV4 ss

abbrev pub insert_all_v4 : List SocketAddrV4 → CompactPeersV4 → CompactPeersV4
insert_all_v4 [] peers = peers
insert_all_v4 (s ∷ ss) peers = insert_all_v4 ss (insert_v4 s peers)

-- The rest is asked for only after an element.
abbrev pub yield_next : {A I : Type 0} → Option A × I → (I → List A) → List A
yield_next (none, iter) rest = []
yield_next (some a, iter) rest = a ∷ rest iter

-- What the iterator yields until it ends, in at most so many calls.
abbrev pub collect_v4 : ℕ → CompactPeersV4Iter → List SocketAddrV4
collect_v4 zero iter = []
collect_v4 (suc calls) iter = yield_next (next_v4 iter) (collect_v4 calls)

encoded_v4 : List SocketAddrV4 → Bytes
encoded_v4 [] = []
encoded_v4 ((octets, port) ∷ ss) = sock_v4_to_bytes_be octets port ++ encoded_v4 ss

insert_all-encoded_v4 :
    (ss : List SocketAddrV4) (peers : CompactPeersV4)
    → (insert_all_v4 ss peers).peers ≡ peers.peers ++ encoded_v4 ss
unfolding encoded_v4 insert_v4
insert_all-encoded_v4 [] peers = sym (append-nil peers.peers)
insert_all-encoded_v4 ((octets, port) ∷ ss) peers =
    insert_all-encoded_v4 ss (insert_v4 (octets, port) peers)
    ∙ append_assoc peers.peers (sock_v4_to_bytes_be octets port) (encoded_v4 ss)

length-sock_v4 : (s : SocketAddrV4) → IsSockV4 s → length (sock_v4_to_bytes_be s.0 s.1) ≡ 6
unfolding sock_v4_to_bytes_be port_to_bytes_be
length-sock_v4 (octets, port) h =
    length-append octets (port / 2 ^ 8 % 256 ∷ port % 256 ∷ []) ∙ omega (arith, h.0)

module _ (before behind : Bytes) (s : SocketAddrV4) (valid : IsSockV4 s) where
  abbrev iter_at_v4 : CompactPeersV4Iter
  iter_at_v4 = record {
    peers = before ++ (sock_v4_to_bytes_be s.0 s.1 ++ behind);
    offset = length before;
  }

  next_v4-sock : next_v4 iter_at_v4 ≡ (
    some s,
    record {
      peers = (before ++ sock_v4_to_bytes_be s.0 s.1) ++ behind;
      offset = length (before ++ sock_v4_to_bytes_be s.0 s.1);
    },
  )
  unfolding next_v4
  next_v4-sock =
      let bytes = sock_v4_to_bytes_be s.0 s.1 in
      let size = length-sock_v4 s valid in
      let more : (length before == length (before ++ (bytes ++ behind))) ≡ false =
        ground (arith, length-append before (bytes ++ behind), length-append bytes behind, size) in
      let at : length (before ++ bytes) ≡ length before + 6 =
        length-append before bytes ∙ omega (arith, size) in
      rw (more, copy_bytes-middle 6 before bytes behind size, at)
        (rw (bytes_be_to_sock_v4_lem s.0 s.1 valid.0 valid.1, append_assoc before bytes behind)
          refl)

next_v4-end :
    (before : Bytes)
    → next_v4 (record { peers = before; offset = length before })
      ≡ (none, record { peers = before; offset = length before })
unfolding next_v4
next_v4-end before =
    let e : (length before == length before) ≡ true =
      (==_iff (length before) (length before)).1 refl in
    rw e refl

collect_v4-encoded :
    (ss : List SocketAddrV4) (before : Bytes)
    → AllV4 ss
    → collect_v4
        (suc (length ss))
        (record { peers = before ++ encoded_v4 ss; offset = length before })
      ≡ ss
unfolding encoded_v4
collect_v4-encoded [] before all = rw (append-nil before) (rw (next_v4-end before, collect_v4) refl)
collect_v4-encoded (s ∷ ss) before all =
    let bytes = sock_v4_to_bytes_be s.0 s.1 in
    rw (next_v4-sock before (encoded_v4 ss) s all.0, collect_v4)
      (ap (λ (l : List SocketAddrV4). s ∷ l) (collect_v4-encoded ss (before ++ bytes) all.1))

-- The iterator yields the peers that were put into an empty container, in their order, and ends.
collect-insert_v4 :
    (ss : List SocketAddrV4)
    → AllV4 ss
    → collect_v4 (suc (length ss)) (iter_v4 (insert_all_v4 ss new_v4)) ≡ ss
unfolding iter_v4 new_v4
collect-insert_v4 ss all = rw (insert_all-encoded_v4 ss new_v4) (collect_v4-encoded ss [] all)
