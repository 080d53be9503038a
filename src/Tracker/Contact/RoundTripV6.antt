-- ===== src/Tracker/Contact/RoundTripV6.antt =====
-- The iterator of bip_utracker/src/contact.rs over the V6 peers that were put in.
use rust_bt.Base.{
  ℕ, zero, suc, ◌+◌, ◌^◌, ◌<◌, ◌≡◌, refl, sym, ap, ◌∙◌, List, [], ◌∷◌, ◌++◌, append_assoc,
  append-nil, none, some, Bytes, length, take, drop, ◌==◌, length-append, take-append, drop-append,
  true, false, ==_iff, take_all, arith,
}
use rust_bt.Util.Convert.{
  ipv6_bytes_from, ipv6_to_bytes_be, port_to_bytes_be, sock_v6_to_bytes_be, bytes_be_to_sock_v6,
}
use rust_bt.Util.Convert.RoundTrip.{bytes_be_to_ipv6_lem, bytes_be_to_port_lem}
use rust_bt.Tracker.Contact.{
  SocketAddrV6, CompactPeersV6, insert_v6, CompactPeersV6Iter, iter_v6, new_v6, next_v6,
}
use rust_bt.Tracker.Contact.RoundTrip.{copy_bytes-middle, yield_next}

abbrev pub AreSegments : List ℕ → Type 0
AreSegments [] = Unit {0}
AreSegments (s ∷ ss) = (s < 2 ^ 16) × AreSegments ss

-- An address of eight segments of 16 bits, and a port of 16 bits.
abbrev pub IsSockV6 : SocketAddrV6 → Type 0
IsSockV6 (segments, port) = (length segments ≡ 8) × AreSegments segments × (port < 2 ^ 16)

abbrev pub AllV6 : List SocketAddrV6 → Type 0
AllV6 [] = Unit {0}
AllV6 (s ∷ ss) = IsSockV6 s × AllV6 ss

abbrev pub insert_all_v6 : List SocketAddrV6 → CompactPeersV6 → CompactPeersV6
insert_all_v6 [] peers = peers
insert_all_v6 (s ∷ ss) peers = insert_all_v6 ss (insert_v6 s peers)

-- What the iterator yields until it ends, in at most so many calls.
abbrev pub collect_v6 : ℕ → CompactPeersV6Iter → List SocketAddrV6
collect_v6 zero iter = []
collect_v6 (suc calls) iter = yield_next (next_v6 iter) (collect_v6 calls)

encoded_v6 : List SocketAddrV6 → Bytes
encoded_v6 [] = []
encoded_v6 ((segments, port) ∷ ss) = sock_v6_to_bytes_be segments port ++ encoded_v6 ss

insert_all-encoded_v6 :
    (ss : List SocketAddrV6) (peers : CompactPeersV6)
    → (insert_all_v6 ss peers).peers ≡ peers.peers ++ encoded_v6 ss
unfolding encoded_v6 insert_v6
insert_all-encoded_v6 [] peers = sym (append-nil peers.peers)
insert_all-encoded_v6 ((segments, port) ∷ ss) peers =
    insert_all-encoded_v6 ss (insert_v6 (segments, port) peers)
    ∙ append_assoc peers.peers (sock_v6_to_bytes_be segments port) (encoded_v6 ss)

length-sock_v6 : (s : SocketAddrV6) → IsSockV6 s → length (sock_v6_to_bytes_be s.0 s.1) ≡ 18
unfolding sock_v6_to_bytes_be port_to_bytes_be ipv6_to_bytes_be ipv6_bytes_from
length-sock_v6 s h = refl

length-ipv6 : (segments : List ℕ) → length (ipv6_to_bytes_be segments) ≡ 16
unfolding ipv6_to_bytes_be ipv6_bytes_from
length-ipv6 segments = refl

length-port : (port : ℕ) → length (port_to_bytes_be port) ≡ 2
unfolding port_to_bytes_be
length-port port = refl

bytes_be_to_sock_v6_lem :
    (s : SocketAddrV6) → IsSockV6 s → bytes_be_to_sock_v6 (sock_v6_to_bytes_be s.0 s.1) ≡ s
unfolding bytes_be_to_sock_v6 sock_v6_to_bytes_be
bytes_be_to_sock_v6_lem (a ∷ b ∷ c ∷ d ∷ e ∷ f ∷ g ∷ h ∷ [], port) v =
    let segments = v.1 in
    let back =
      bytes_be_to_ipv6_lem a b c d e f g h
        (segments.0, segments.1.0, segments.1.1.0, segments.1.1.1.0)
        (
          segments.1.1.1.1.0, segments.1.1.1.1.1.0, segments.1.1.1.1.1.1.0,
          segments.1.1.1.1.1.1.1.0,
        ) in
    let address = ipv6_to_bytes_be (a ∷ b ∷ c ∷ d ∷ e ∷ f ∷ g ∷ h ∷ []) in
    let port_bytes = port_to_bytes_be port in
    let size = length-ipv6 (a ∷ b ∷ c ∷ d ∷ e ∷ f ∷ g ∷ h ∷ []) in
    let first : take 16 (address ++ port_bytes) ≡ address =
      ap (λ (n : ℕ). take n (address ++ port_bytes)) (sym size) ∙ take-append address port_bytes in
    let others : take 2 (drop 16 (address ++ port_bytes)) ≡ port_bytes =
      ap (λ (n : ℕ). take 2 (drop n (address ++ port_bytes))) (sym size)
      ∙ ap (take 2) (drop-append address port_bytes)
      ∙ take_all 2 port_bytes (omega (arith, length-port port)) in
    rw (first, others, back) (rw (bytes_be_to_port_lem port v.2) refl)
bytes_be_to_sock_v6_lem (ss, port) v = absurd (omega (arith, v.0))

module _ (before behind : Bytes) (s : SocketAddrV6) (valid : IsSockV6 s) where
  abbrev iter_at_v6 : CompactPeersV6Iter
  iter_at_v6 = record {
    peers = before ++ (sock_v6_to_bytes_be s.0 s.1 ++ behind);
    offset = length before;
  }

  next_v6-sock : next_v6 iter_at_v6 ≡ (
    some s,
    record {
      peers = (before ++ sock_v6_to_bytes_be s.0 s.1) ++ behind;
      offset = length (before ++ sock_v6_to_bytes_be s.0 s.1);
    },
  )
  unfolding next_v6
  next_v6-sock =
      let bytes = sock_v6_to_bytes_be s.0 s.1 in
      let size = length-sock_v6 s valid in
      let more : (length before == length (before ++ (bytes ++ behind))) ≡ false =
        ground (arith, length-append before (bytes ++ behind), length-append bytes behind, size) in
      let at : length (before ++ bytes) ≡ length before + 18 =
        length-append before bytes ∙ omega (arith, size) in
      rw (more, copy_bytes-middle 18 before bytes behind size, at)
        (rw (bytes_be_to_sock_v6_lem s valid, append_assoc before bytes behind) refl)

next_v6-end :
    (before : Bytes)
    → next_v6 (record { peers = before; offset = length before })
      ≡ (none, record { peers = before; offset = length before })
unfolding next_v6
next_v6-end before =
    let e : (length before == length before) ≡ true =
      (==_iff (length before) (length before)).1 refl in
    rw e refl

collect_v6-encoded :
    (ss : List SocketAddrV6) (before : Bytes)
    → AllV6 ss
    → collect_v6
        (suc (length ss))
        (record { peers = before ++ encoded_v6 ss; offset = length before })
      ≡ ss
unfolding encoded_v6
collect_v6-encoded [] before all = rw (append-nil before) (rw (next_v6-end before, collect_v6) refl)
collect_v6-encoded (s ∷ ss) before all =
    let bytes = sock_v6_to_bytes_be s.0 s.1 in
    rw (next_v6-sock before (encoded_v6 ss) s all.0, collect_v6)
      (ap (λ (l : List SocketAddrV6). s ∷ l) (collect_v6-encoded ss (before ++ bytes) all.1))

-- The iterator yields the peers that were put into an empty container, in their order, and ends.
collect-insert_v6 :
    (ss : List SocketAddrV6)
    → AllV6 ss
    → collect_v6 (suc (length ss)) (iter_v6 (insert_all_v6 ss new_v6)) ≡ ss
unfolding iter_v6 new_v6
collect-insert_v6 ss all = rw (insert_all-encoded_v6 ss new_v6) (collect_v6-encoded ss [] all)
