-- ===== src/Dht/Token/Calls.antt =====
-- Calls of the store of bip_dht/src/token.rs and what one refresh does.
use rust_bt.Base.{ℕ, ◌+◌, ◌≤◌, ◌<◌, ◌≡◌, ◌≢◌, ◌⊎◌, List, [], ◌∷◌, Bytes, arith}
use rust_bt.Dht.Routing.Node.{Time, minutes}
use rust_bt.Dht.Token.{
  random_u32, IpAddr, TokenStore, intervals_passed, renew, refresh_check, checkout, checkin,
}

-- A call of the store between checking a token out and in, with the secrets it may draw.
pub data Call : Type 0 where
  out : (r r' : ℕ) (now : Time) → IpAddr → Call
  into : (r r' : ℕ) (now : Time) → IpAddr → Bytes → Call

abbrev pub time : Call → Time
time (out r r' now addr) = now
time (into r r' now addr token) = now

-- The secrets that a call may draw.
abbrev pub Avoids : ℕ → Call → Type 0
Avoids secret (out r r' now addr) = (random_u32 r ≢ secret) × (random_u32 r' ≢ secret)
Avoids secret (into r r' now addr token) = (random_u32 r ≢ secret) × (random_u32 r' ≢ secret)

-- A refresh leaves a store less than ten minutes old alone, moves the secret on in one that is less
-- than twenty minutes old, and draws both secrets anew otherwise.
pub refresh_check-cases :
    (r r' : ℕ) (now : Time) (s : TokenStore)
    → ((refresh_check r r' now s ≡ s)
        × (now < s.last_refresh + minutes 10)
        × (s.last_refresh < now + minutes 10))
      ⊎ (((refresh_check r r' now s ≡ record {
        curr_secret = random_u32 r;
        last_secret = s.curr_secret;
        last_refresh = now;
      })
            × (s.last_refresh + minutes 10 ≤ now)
            × (now < s.last_refresh + minutes 20))
          ⊎ ((refresh_check r r' now s ≡ record {
            curr_secret = random_u32 r';
            last_secret = random_u32 r;
            last_refresh = now;
          })
              × ((s.last_refresh + minutes 20 ≤ now) ⊎ (now + minutes 10 ≤ s.last_refresh))))
unfolding refresh_check renew intervals_passed
refresh_check-cases r r' now s = ground arith

-- The secret of a token checked out at `t` is one of the two: it has been the current one since
-- `t` or before, or it became the last one at `t` or later.
abbrev pub IsKept : ℕ → Time → TokenStore → Type 0
IsKept secret t s =
    ((s.curr_secret ≡ secret)
      × (s.last_refresh < t + minutes 10)
      × (t < s.last_refresh + minutes 10))
    ⊎ ((s.last_secret ≡ secret) × (t ≤ s.last_refresh) × (s.last_refresh < t + minutes 10))

abbrev pub IsBetween : Time → Time → Call → Type 0
IsBetween t u c = (t ≤ time c) × (time c < u)

abbrev pub All : (Call → Type 0) → List Call → Type 0
All P [] = Unit
All P (c ∷ cs) = P c × All P cs

module _ (sha1 : Bytes → Bytes) where
  unfoldable pub step : Call → TokenStore → TokenStore
  step (out r r' now addr) s = (checkout sha1 r r' now addr s).0
  step (into r r' now addr token) s = (checkin sha1 r r' now addr token s).0

  unfoldable pub run : List Call → TokenStore → TokenStore
  unfolding step
  run [] s = s
  run (c ∷ cs) s = run cs (step c s)
