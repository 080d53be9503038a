-- ===== src/Util/Convert.antt =====
-- bip_util/src/convert.rs: numbers and addresses as big-endian bytes.
pub mod RoundTrip
use rust_bt.Base.{
  ℕ, zero, suc, ◌+◌, ◌-◌, ◌*◌, ◌/◌, ◌%◌, ◌^◌, List, [], ◌∷◌, ◌++◌, Bytes, get_or, set, replicate,
  take, drop, ◌==◌, if◌then◌else◌,
}
use Prim.Native.Nat.{bit_or}

-- `x as u8`
abbrev as_u8 : ℕ → ℕ
as_u8 x = x % 256

unfoldable pub eight_bytes_to_array : ℕ → Bytes
eight_bytes_to_array bytes =
    as_u8 (bytes / 2 ^ 56)
    ∷ as_u8 (bytes / 2 ^ 48)
    ∷ as_u8 (bytes / 2 ^ 40)
    ∷ as_u8 (bytes / 2 ^ 32)
    ∷ as_u8 (bytes / 2 ^ 24)
    ∷ as_u8 (bytes / 2 ^ 16)
    ∷ as_u8 (bytes / 2 ^ 8)
    ∷ as_u8 bytes
    ∷ []

unfoldable pub four_bytes_to_array : ℕ → Bytes
four_bytes_to_array bytes =
    let eight_bytes = eight_bytes_to_array bytes in
    get_or eight_bytes 4 0
    ∷ get_or eight_bytes 5 0
    ∷ get_or eight_bytes 6 0
    ∷ get_or eight_bytes 7 0
    ∷ []

-- An `Ipv4Addr` is its four octets.
unfoldable pub ipv4_to_bytes_be : Bytes → Bytes
ipv4_to_bytes_be octets = octets

unfoldable pub bytes_be_to_ipv4 : Bytes → Bytes
bytes_be_to_ipv4 bytes =
    get_or bytes 0 0 ∷ get_or bytes 1 0 ∷ get_or bytes 2 0 ∷ get_or bytes 3 0 ∷ []

-- An `Ipv6Addr` is its eight segments; the loop runs over the sixteen indices of the bytes.
unfoldable pub ipv6_byte : List ℕ → ℕ → ℕ
ipv6_byte segments index =
    let segment_index = index / 2 in
    let segment_byte_index = index % 2 in
    let byte_shift_bits = 8 - segment_byte_index * 8 in
    as_u8 (get_or segments segment_index 0 / 2 ^ byte_shift_bits)

unfoldable pub ipv6_bytes_from : ℕ → ℕ → List ℕ → Bytes
ipv6_bytes_from zero index segments = []
ipv6_bytes_from (suc rounds) index segments =
    ipv6_byte segments index ∷ ipv6_bytes_from rounds (suc index) segments

unfoldable pub ipv6_to_bytes_be : List ℕ → Bytes
ipv6_to_bytes_be = ipv6_bytes_from 16 0

unfoldable pub port_to_bytes_be : ℕ → Bytes
port_to_bytes_be port = as_u8 (port / 2 ^ 8) ∷ as_u8 port ∷ []

-- A V4 socket is the octets of its address and its port.
unfoldable pub sock_v4_to_bytes_be : Bytes → ℕ → Bytes
sock_v4_to_bytes_be octets port = octets ++ port_to_bytes_be port

unfoldable pub sock_v6_to_bytes_be : List ℕ → ℕ → Bytes
sock_v6_to_bytes_be segments port = ipv6_to_bytes_be segments ++ port_to_bytes_be port

-- One round of the loop: the byte is put into its half of its segment.
unfoldable pub or_segment : ℕ → ℕ → List ℕ → List ℕ
or_segment index value combined =
    let combined_index = index / 2 in
    let adjusted_value = if index % 2 == 0 then (value * 2 ^ 8) % 2 ^ 16 else value in
    set combined combined_index (bit_or (get_or combined combined_index 0) adjusted_value)

unfoldable pub or_segments : ℕ → Bytes → List ℕ → List ℕ
or_segments index [] combined = combined
or_segments index (value ∷ bytes) combined =
    or_segments (suc index) bytes (or_segment index value combined)

unfoldable pub bytes_be_to_ipv6 : Bytes → List ℕ
bytes_be_to_ipv6 bytes = or_segments 0 bytes (replicate 8 0)

unfoldable pub bytes_be_to_port : Bytes → ℕ
bytes_be_to_port bytes = bit_or ((get_or bytes 0 0 * 2 ^ 8) % 2 ^ 16) (get_or bytes 1 0)

-- The octets of the address and the port.
unfoldable pub bytes_be_to_sock_v4 : Bytes → Bytes × ℕ
bytes_be_to_sock_v4 bytes = (
  get_or bytes 0 0 ∷ get_or bytes 1 0 ∷ get_or bytes 2 0 ∷ get_or bytes 3 0 ∷ [],
  bytes_be_to_port (get_or bytes 4 0 ∷ get_or bytes 5 0 ∷ []),
)

-- The segments of the address and the port.
unfoldable pub bytes_be_to_sock_v6 : Bytes → List ℕ × ℕ
bytes_be_to_sock_v6 bytes =
    (bytes_be_to_ipv6 (take 16 bytes), bytes_be_to_port (take 2 (drop 16 bytes)))
