-- ===== src/Dht/Token/Lifetime.antt =====
-- How long a token of bip_dht/src/token.rs is accepted, whatever calls come in between.
use rust_bt.Base.{
  ◌^◌, ℕ, ◌+◌, ◌≤◌, ◌<◌, ◌≡◌, ◌≢◌, ◌⊎◌, ◌↔◌, inl, inr, ap, List, [], ◌∷◌, true, Bytes,
  bytes_eq_refl, bytes_eq→eq, arith,
}
use rust_bt.Dht.Routing.Node.{Time, minutes}
use rust_bt.Dht.Token.{
  random_u32, IpAddr, TokenStore, refresh_check, generate_token_from_addr, validate_token_from_addr,
  checkout, checkin,
}
use rust_bt.Dht.Token.Calls.{
  Call, out, into, Avoids, refresh_check-cases, step, run, IsKept, IsBetween, All,
}

module _ (sha1 : Bytes → Bytes) where
  refresh-IsKept :
      (secret r r' : ℕ) (t now : Time) (s : TokenStore)
      → t ≤ now
      → now < t + minutes 10
      → IsKept secret t s
      → IsKept secret t (refresh_check r r' now s)
  refresh-IsKept secret r r' t now s le lt h = ground (arith, refresh_check-cases r r' now s)

  step-IsKept :
      (secret : ℕ) (t : Time) (c : Call) (s : TokenStore)
      → IsBetween t (t + minutes 10) c
      → IsKept secret t s
      → IsKept secret t (step sha1 c s)
  unfolding step checkout checkin
  step-IsKept secret t (out r r' now addr) s b h = refresh-IsKept secret r r' t now s b.0 b.1 h
  step-IsKept secret t (into r r' now addr token) s b h =
      refresh-IsKept secret r r' t now s b.0 b.1 h

  run-IsKept :
      (secret : ℕ) (t : Time) (cs : List Call) (s : TokenStore)
      → All (IsBetween t (t + minutes 10)) cs
      → IsKept secret t s
      → IsKept secret t (run sha1 cs s)
  unfolding run
  run-IsKept secret t [] s b h = h
  run-IsKept secret t (c ∷ cs) s (b, bs) h =
      run-IsKept secret t cs _ bs (step-IsKept secret t c s b h)

  checkout-IsKept :
      (r r' : ℕ) (t : Time) (s : TokenStore)
      → IsKept (refresh_check r r' t s).curr_secret t (refresh_check r r' t s)
  checkout-IsKept r r' t s = ground (arith, refresh_check-cases r r' t s)

  -- A token is accepted exactly if one of the two secrets gives it for the address.
  pub validate_iff :
      (addr : IpAddr) (token : Bytes) (one two : ℕ)
      → (validate_token_from_addr sha1 addr token one two ≡ true) ↔ (
          (generate_token_from_addr sha1 addr one ≡ token)
          ⊎ (generate_token_from_addr sha1 addr two ≡ token))
  unfolding validate_token_from_addr
  validate_iff addr token one two =
      let g = generate_token_from_addr sha1 addr in
      (
        λ h. ground (arith, bytes_eq→eq (g one) token, bytes_eq→eq (g two) token),
        λ h. ground (arith, bytes_eq_refl token),
      )

  kept-accepted :
      (secret : ℕ) (t : Time) (addr : IpAddr) (s : TokenStore)
      → IsKept secret t s
      → validate_token_from_addr sha1 addr
          (generate_token_from_addr sha1 addr secret)
          s.curr_secret
          s.last_secret
        ≡ true
  kept-accepted secret t addr s h =
      let token = generate_token_from_addr sha1 addr secret in
      (validate_iff addr token s.curr_secret s.last_secret).1 (elim h [
        | inl (e, _, _) ↦ inl (ap (generate_token_from_addr sha1 addr) e)
        | inr (e, _, _) ↦ inr (ap (generate_token_from_addr sha1 addr) e)
      ])

  -- A token that was checked out is accepted from its address for ten minutes, whatever calls come
  -- in between, not before it nor after these minutes, and whatever secrets they draw.
  pub checkin-checkout :
      (r r' q q' : ℕ) (t now : Time) (addr : IpAddr) (cs : List Call) (s : TokenStore)
      → t ≤ now
      → now < t + minutes 10
      → All (IsBetween t (t + minutes 10)) cs
      → (checkin sha1 q q' now addr
          (checkout sha1 r r' t addr s).1
          (run sha1 cs (checkout sha1 r r' t addr s).0)).1
        ≡ true
  unfolding checkout checkin
  checkin-checkout r r' q q' t now addr cs s le lt b =
      let s' = refresh_check r r' t s in
      let kept = run-IsKept s'.curr_secret t cs s' b (checkout-IsKept r r' t s) in
      kept-accepted s'.curr_secret t addr _
        (refresh-IsKept s'.curr_secret q q' t now (run sha1 cs s') le lt kept)

module _ (sha1 : Bytes → Bytes) where
  -- Where the secret of a token checked out at `t` may still be: current only in a store refreshed
  -- by then, and last only in one refreshed within twenty minutes.
  abbrev IsFading : ℕ → Time → TokenStore → Type 0
  IsFading secret t s =
      (s.curr_secret ≡ secret → s.last_refresh ≤ t)
      × (s.last_secret ≡ secret → s.last_refresh < t + minutes 20)

  refresh-IsFading :
      (secret r r' : ℕ) (t now : Time) (s : TokenStore)
      → random_u32 r ≢ secret
      → random_u32 r' ≢ secret
      → IsFading secret t s
      → IsFading secret t (refresh_check r r' now s)
  refresh-IsFading secret r r' t now s ne ne' h = elim (refresh_check-cases r r' now s) [
    | inl (e, _, _) ↦ rw e h
    | inr (inl (e, _, lt)) ↦ rw e (λ p. absurd (ne p), λ p. let le = h.0 p in omega arith)
    | inr (inr (e, _)) ↦ rw e (λ p. absurd (ne' p), λ p. absurd (ne p))
  ]

  refresh-late :
      (secret r r' : ℕ) (t now : Time) (s : TokenStore)
      → random_u32 r ≢ secret
      → random_u32 r' ≢ secret
      → IsFading secret t s
      → t + minutes 30 ≤ now
      → ((refresh_check r r' now s).curr_secret ≢ secret)
        × ((refresh_check r r' now s).last_secret ≢ secret)
  refresh-late secret r r' t now s ne ne' h late = elim (refresh_check-cases r r' now s) [
    | inl (e, young, _) ↦
        rw e
          (λ p. let le = h.0 p in absurd (omega arith), λ p. let le = h.1 p in absurd (omega arith))
    | inr (inl (e, _, lt)) ↦ rw e (ne, λ p. let le = h.0 p in absurd (omega arith))
    | inr (inr (e, _)) ↦ rw e (ne', ne)
  ]

  run-IsFading :
      (secret : ℕ) (t : Time) (cs : List Call) (s : TokenStore)
      → All (Avoids secret) cs
      → IsFading secret t s
      → IsFading secret t (run sha1 cs s)
  unfolding run checkout checkin
  run-IsFading secret t [] s a h = h
  run-IsFading secret t (out r r' now addr ∷ cs) s (a, as') h =
      run-IsFading secret t cs _ as' (refresh-IsFading secret r r' t now s a.0 a.1 h)
  run-IsFading secret t (into r r' now addr token ∷ cs) s (a, as') h =
      run-IsFading secret t cs _ as' (refresh-IsFading secret r r' t now s a.0 a.1 h)

  checkout-IsFading :
      (r r' : ℕ) (t : Time) (s : TokenStore)
      → s.last_refresh ≤ t
      → IsFading (refresh_check r r' t s).curr_secret t (refresh_check r r' t s)
  checkout-IsFading r r' t s h = elim (refresh_check-cases r r' t s) [
    | inl (e, _, _) ↦ rw e (λ _. h, λ _. omega arith)
    | inr (inl (e, _, _)) ↦ rw e (λ _. omega arith, λ _. omega arith)
    | inr (inr (e, _)) ↦ rw e (λ _. omega arith, λ _. omega arith)
  ]

  -- The fields are of 32 bits.
  abbrev pub AreU32 : TokenStore → Type 0
  AreU32 s = (s.curr_secret < 2 ^ 32) × (s.last_secret < 2 ^ 32)

  random_u32_lt : (r : ℕ) → random_u32 r < 2 ^ 32
  unfolding random_u32
  random_u32_lt r = omega arith

  refresh-AreU32 :
      (r r' : ℕ) (now : Time) (s : TokenStore) → AreU32 s → AreU32 (refresh_check r r' now s)
  refresh-AreU32 r r' now s h = elim (refresh_check-cases r r' now s) [
    | inl (e, _, _) ↦ rw e h
    | inr (inl (e, _, lt)) ↦ rw e (random_u32_lt r, h.0)
    | inr (inr (e, _)) ↦ rw e (random_u32_lt r', random_u32_lt r)
  ]

  run-AreU32 : (cs : List Call) (s : TokenStore) → AreU32 s → AreU32 (run sha1 cs s)
  unfolding run step checkout checkin
  run-AreU32 [] s h = h
  run-AreU32 (out r r' now addr ∷ cs) s h = run-AreU32 cs _ (refresh-AreU32 r r' now s h)
  run-AreU32 (into r r' now addr token ∷ cs) s h = run-AreU32 cs _ (refresh-AreU32 r r' now s h)

  -- Thirty minutes after it was checked out a token is accepted only if another secret of 32 bits
  -- gives the same token, provided that no call in between draws its secret again and the store had
  -- not been refreshed after the time of the checkout.
  pub checkin_expired :
      (r r' q q' : ℕ) (t now : Time) (addr : IpAddr) (cs : List Call) (s : TokenStore)
      → AreU32 s
      → s.last_refresh ≤ t
      → t + minutes 30 ≤ now
      → All (Avoids (refresh_check r r' t s).curr_secret) cs
      → random_u32 q ≢ (refresh_check r r' t s).curr_secret
      → random_u32 q' ≢ (refresh_check r r' t s).curr_secret
      → (checkin sha1 q q' now addr
          (checkout sha1 r r' t addr s).1
          (run sha1 cs (checkout sha1 r r' t addr s).0)).1
        ≡ true
      → (x : ℕ) × (x < 2 ^ 32)
        × (x ≢ (refresh_check r r' t s).curr_secret)
        × (generate_token_from_addr sha1 addr x ≡ (checkout sha1 r r' t addr s).1)
  unfolding checkout checkin
  checkin_expired r r' q q' t now addr cs s words old late a ne ne' accepted =
      let s' = refresh_check r r' t s in
      let fading = run-IsFading s'.curr_secret t cs s' a (checkout-IsFading r r' t s old) in
      let s'' = run sha1 cs s' in
      let words' = refresh-AreU32 q q' now s'' (run-AreU32 cs s' (refresh-AreU32 r r' t s words)) in
      let gone = refresh-late s'.curr_secret q q' t now s'' ne ne' fading late in
      elim ((validate_iff sha1 addr _ _ _).0 accepted) [
        | inl e ↦ ((refresh_check q q' now s'').curr_secret, words'.0, gone.0, e)
        | inr e ↦ ((refresh_check q q' now s'').last_secret, words'.1, gone.1, e)
      ]

  -- A token may be accepted for longer than twenty minutes: it is, nearly thirty minutes after it
  -- was checked out, if the next call comes ten to twenty minutes after the store's last refresh.
  pub checkin_late :
      (r r' q q' p p' : ℕ) (t u now : Time) (addr other : IpAddr) (s : TokenStore)
      → s.last_refresh ≤ t
      → t < s.last_refresh + minutes 10
      → s.last_refresh + minutes 10 ≤ u
      → u < s.last_refresh + minutes 20
      → u ≤ now
      → now < u + minutes 10
      → (checkin sha1 p p' now addr
          (checkout sha1 r r' t addr s).1
          (checkout sha1 q q' u other (checkout sha1 r r' t addr s).0).0).1
        ≡ true
  unfolding checkout checkin
  checkin_late r r' q q' p p' t u now addr other s a b c d e f =
      let s₁ = refresh_check r r' t s in
      let s₂ = refresh_check q q' u s₁ in
      let s₃ = refresh_check p p' now s₂ in
      let first : s₁ ≡ s = ground (arith, refresh_check-cases r r' t s) in
      let moved : (s₂.last_secret ≡ s.curr_secret) × (s₂.last_refresh ≡ u) =
        ground (arith, refresh_check-cases q q' u s₁) in
      let kept : s₃ ≡ s₂ = ground (arith, refresh_check-cases p p' now s₂) in
      (validate_iff sha1 addr _ _ _).1 (
        inr (
          ap (generate_token_from_addr sha1 addr) (
            cc (
              ap (λ (x : TokenStore). x.last_secret) kept,
              ap (λ (x : TokenStore). x.curr_secret) first,
            ))))
