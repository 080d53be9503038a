-- ===== src/Tests/Token.antt =====
-- bip_dht/src/token.rs: a token of one address, with a stand-in for SHA-1 that returns its input.
use rust_bt.Base.{◌<◌, ◌^◌, ◌≡◌, ◌≢◌, ℕ, refl, [], ◌∷◌, true, Bytes, bytes_eq, arith}
use rust_bt.Dht.Routing.Node.{minutes}
use rust_bt.Dht.Token.{
  random_u32, IpAddr, v4, TokenStore, refresh_check, intervals_passed, renew,
  generate_token_from_addr, validate_token_from_addr, checkout, checkin,
}
use rust_bt.Dht.Token.Calls.{out, run}
use rust_bt.Dht.Token.Lifetime.{checkin-checkout, checkin_expired, checkin_late}

abbrev sha1 : Bytes → Bytes
sha1 bytes = bytes

abbrev addr : IpAddr
addr = v4 (10 ∷ 0 ∷ 0 ∷ 1 ∷ [])

abbrev other : IpAddr
other = v4 (10 ∷ 0 ∷ 0 ∷ 2 ∷ [])

abbrev store : TokenStore
store = record { curr_secret = 1; last_secret = 2; last_refresh = minutes 100 }

-- a call in between moves the secret on
checkin-checkout_example :
    (checkin sha1 7 8 (minutes 114) addr (checkout sha1 3 4 (minutes 105) addr store).1 (
      run sha1 (out 5 6 (minutes 112) other ∷ []) (checkout sha1 3 4 (minutes 105) addr store).0)).1
    ≡ true
checkin-checkout_example =
    checkin-checkout sha1 3 4 7 8 (minutes 105) (minutes 114) addr
      (out 5 6 (minutes 112) other ∷ []) store (omega arith) (omega arith)
      ((omega arith, omega arith), tt)

checkin_late_example :
    (checkin sha1 7 8
      (minutes 128)
      addr
      (checkout sha1 3 4 (minutes 101) addr store).1
      (checkout sha1 5 6 (minutes 119) other (checkout sha1 3 4 (minutes 101) addr store).0).0).1
    ≡ true
checkin_late_example =
    checkin_late sha1 3 4 5 6 7 8 (minutes 101) (minutes 119) (minutes 128) addr other store
      (omega arith) (omega arith) (omega arith) (omega arith) (omega arith) (omega arith)

-- All tokens are the same one: then an old token is accepted, and another secret does give it.
abbrev constant : Bytes → Bytes
constant bytes = []

kept_secret : (refresh_check 3 4 (minutes 105) store).curr_secret ≡ 1
unfolding refresh_check renew intervals_passed
kept_secret = refl

accepted :
    (checkin constant 7 8
      (minutes 140)
      addr
      (checkout constant 3 4 (minutes 105) addr store).1
      (run constant [] (checkout constant 3 4 (minutes 105) addr store).0)).1
    ≡ true
unfolding checkin checkout generate_token_from_addr validate_token_from_addr bytes_eq
accepted = refl

drawn : (random_u32 7 ≡ 7) × (random_u32 8 ≡ 8)
unfolding random_u32
drawn = (refl, refl)

checkin_expired_example :
    (x : ℕ) × (x < 2 ^ 32)
    × (x ≢ (refresh_check 3 4 (minutes 105) store).curr_secret)
    × (generate_token_from_addr constant addr x
        ≡ (checkout constant 3 4 (minutes 105) addr store).1)
checkin_expired_example =
    checkin_expired constant 3 4 7 8 (minutes 105) (minutes 140) addr [] store
      (omega arith, omega arith) (omega arith) (omega arith) tt
      (λ h. omega (arith, kept_secret, drawn.0, h)) (λ h. omega (arith, kept_secret, drawn.1, h))
      accepted
