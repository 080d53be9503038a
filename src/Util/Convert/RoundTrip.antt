-- ===== src/Util/Convert/RoundTrip.antt =====
-- What bip_util/src/convert.rs writes is read back.
use Prim.Native.Nat.{bit_or}
use rust_bt.Base.{ℕ, ◌*◌, ◌/◌, ◌%◌, ◌^◌, ◌<◌, ◌≡◌, [], ◌∷◌, Bytes, length, arith}
use rust_bt.Base.Bits.{zero-bit_or, bit_or-disjoint}
use rust_bt.Wire.Numbers.{be_value}
use rust_bt.Util.Convert.{
  eight_bytes_to_array, four_bytes_to_array, ipv6_byte, ipv6_bytes_from, ipv6_to_bytes_be,
  port_to_bytes_be, sock_v4_to_bytes_be, or_segment, or_segments, bytes_be_to_ipv6,
  bytes_be_to_port, bytes_be_to_sock_v4,
}

-- A 32-bit number is spelled by its four bytes, the most significant first.
pub be_value-four_bytes : (n : ℕ) → n < 2 ^ 32 → be_value 0 (four_bytes_to_array n) ≡ n
unfolding four_bytes_to_array eight_bytes_to_array
be_value-four_bytes n h = omega arith

-- A 64-bit number is spelled by its eight bytes, the most significant first.
pub be_value-eight_bytes : (n : ℕ) → n < 2 ^ 64 → be_value 0 (eight_bytes_to_array n) ≡ n
unfolding eight_bytes_to_array
be_value-eight_bytes n h = omega arith

-- the two bytes of a 16-bit number, shifted and joined
join_bytes : (n : ℕ) → n < 2 ^ 16 → bit_or ((n / 2 ^ 8 % 256 * 2 ^ 8) % 2 ^ 16) (n % 256) ≡ n
join_bytes n h =
    let e : (n / 2 ^ 8 % 256 * 2 ^ 8) % 2 ^ 16 ≡ n / 256 * 2 ^ 8 = omega arith in
    rw e (omega (arith, bit_or-disjoint 8 (n / 256) (n % 256) (omega arith)))

-- A port is read back from its two bytes.
pub bytes_be_to_port_lem :
    (port : ℕ) → port < 2 ^ 16 → bytes_be_to_port (port_to_bytes_be port) ≡ port
unfolding bytes_be_to_port port_to_bytes_be
bytes_be_to_port_lem port h = join_bytes port h

-- A V4 socket is read back from its six bytes.
pub bytes_be_to_sock_v4_lem :
    (octets : Bytes) (port : ℕ)
    → length octets ≡ 4
    → port < 2 ^ 16
    → bytes_be_to_sock_v4 (sock_v4_to_bytes_be octets port) ≡ (octets, port)
unfolding bytes_be_to_sock_v4 sock_v4_to_bytes_be port_to_bytes_be
bytes_be_to_sock_v4_lem (a ∷ b ∷ c ∷ d ∷ []) port l h =
    λ i. (a ∷ b ∷ c ∷ d ∷ [], bytes_be_to_port_lem' i)
  where
    bytes_be_to_port_lem' : bytes_be_to_port (port / 2 ^ 8 % 256 ∷ port % 256 ∷ []) ≡ port
    bytes_be_to_port_lem' = unfold bytes_be_to_port in join_bytes port h
bytes_be_to_sock_v4_lem [] port l h = absurd (omega arith)
bytes_be_to_sock_v4_lem (a ∷ []) port l h = absurd (omega arith)
bytes_be_to_sock_v4_lem (a ∷ b ∷ []) port l h = absurd (omega arith)
bytes_be_to_sock_v4_lem (a ∷ b ∷ c ∷ []) port l h = absurd (omega arith)
bytes_be_to_sock_v4_lem (a ∷ b ∷ c ∷ d ∷ e ∷ os) port l h = absurd (omega arith)

-- one segment of a V6 address, from its two bytes
join_segment :
    (n : ℕ)
    → n < 2 ^ 16
    → bit_or (bit_or 0 ((n / 2 ^ 8 % 256 * 2 ^ 8) % 2 ^ 16)) (n / 2 ^ 0 % 256) ≡ n
join_segment n h = let e : n / 2 ^ 0 ≡ n = omega arith in rw (zero-bit_or, e) (join_bytes n h)

-- The eight segments of a V6 address are read back from its sixteen bytes.
pub bytes_be_to_ipv6_lem :
    (a b c d e f g h : ℕ)
    → (a < 2 ^ 16) × (b < 2 ^ 16) × (c < 2 ^ 16) × (d < 2 ^ 16)
    → (e < 2 ^ 16) × (f < 2 ^ 16) × (g < 2 ^ 16) × (h < 2 ^ 16)
    → bytes_be_to_ipv6 (ipv6_to_bytes_be (a ∷ b ∷ c ∷ d ∷ e ∷ f ∷ g ∷ h ∷ []))
      ≡ a ∷ b ∷ c ∷ d ∷ e ∷ f ∷ g ∷ h ∷ []
unfolding bytes_be_to_ipv6 or_segments or_segment ipv6_to_bytes_be ipv6_bytes_from ipv6_byte
bytes_be_to_ipv6_lem a b c d e f g h l r = λ i.
    join_segment a l.0 i
    ∷ join_segment b l.1 i
    ∷ join_segment c l.2 i
    ∷ join_segment d l.3 i
    ∷ join_segment e r.0 i
    ∷ join_segment f r.1 i
    ∷ join_segment g r.2 i
    ∷ join_segment h r.3 i
    ∷ []
