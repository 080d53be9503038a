-- ===== src/Dht/Transaction/Fields.antt =====
-- The fields and the bytes of an identifier of bip_dht/src/transaction.rs.
use Prim.Native.Nat.{bit_or}
use rust_bt.Base.{ℕ, ◌+◌, ◌*◌, ◌/◌, ◌%◌, ◌^◌, ◌<◌, ◌≡◌, ap, ◌∙◌, [], ◌∷◌, Bytes, some, arith}
use rust_bt.Base.Bits.{bit_or-disjoint, bit_and-mask}
use rust_bt.Util.Convert.{eight_bytes_to_array}
use rust_bt.Dht.Transaction.{message_id_shift, new, push_bytes, from_bytes, action_id, message_id}

-- An identifier made of an action's and a message's has the two as its fields.
pub new-fields :
    (action message : ℕ)
    → action < 2 ^ 40
    → message < 2 ^ 24
    → (action_id (new (bit_or ((action * 2 ^ message_id_shift) % 2 ^ 64) message)) ≡ action)
      × (message_id (new (bit_or ((action * 2 ^ message_id_shift) % 2 ^ 64) message)) ≡ message)
unfolding action_id message_id new
new-fields action message a m =
    let whole : (action * 2 ^ 24) % 2 ^ 64 ≡ action * 2 ^ 24 = omega arith in
    let joined = bit_or-disjoint 24 action message m in
    let low = bit_and-mask 24 action message m in
    (rw (whole, joined) (omega arith), rw (whole, joined) low)

push_byte : (n b : ℕ) → n < 2 ^ 56 → b < 256 → bit_or ((n * 2 ^ 8) % 2 ^ 64) b ≡ n * 256 + b
push_byte n b h k =
    let e : (n * 2 ^ 8) % 2 ^ 64 ≡ n * 2 ^ 8 = omega arith in rw e (bit_or-disjoint 8 n b k)

push_bytes-step :
    (n b : ℕ) (bs : Bytes)
    → n < 2 ^ 56
    → b < 256
    → push_bytes n (b ∷ bs) ≡ push_bytes (n * 256 + b) bs
unfolding push_bytes
push_bytes-step n b bs h k = ap (λ (t : ℕ). push_bytes t bs) (push_byte n b h k)

push_bytes-eight :
    (a b c d e f g h : ℕ)
    → (a < 256) × (b < 256) × (c < 256) × (d < 256)
    → (e < 256) × (f < 256) × (g < 256) × (h < 256)
    → push_bytes 0 (a ∷ b ∷ c ∷ d ∷ e ∷ f ∷ g ∷ h ∷ [])
      ≡ push_bytes
          (((((((0 * 256 + a) * 256 + b) * 256 + c) * 256 + d) * 256 + e) * 256 + f) * 256 + g)
          (h ∷ [])
push_bytes-eight a b c d e f g h l r =
    push_bytes-step 0 a _ (omega arith) l.0
    ∙ push_bytes-step (0 * 256 + a) b _ (omega arith) l.1
    ∙ push_bytes-step ((0 * 256 + a) * 256 + b) c _ (omega arith) l.2
    ∙ push_bytes-step (((0 * 256 + a) * 256 + b) * 256 + c) d _ (omega arith) l.3
    ∙ push_bytes-step ((((0 * 256 + a) * 256 + b) * 256 + c) * 256 + d) e _ (omega arith) r.0
    ∙ push_bytes-step (((((0 * 256 + a) * 256 + b) * 256 + c) * 256 + d) * 256 + e) f _
        (omega arith) r.1
    ∙ push_bytes-step ((((((0 * 256 + a) * 256 + b) * 256 + c) * 256 + d) * 256 + e) * 256 + f) g _
        (omega arith) r.2

push_bytes-eight_bytes : (n : ℕ) → n < 2 ^ 64 → push_bytes 0 (eight_bytes_to_array n) ≡ n
unfolding eight_bytes_to_array push_bytes
push_bytes-eight_bytes n h =
    push_bytes-eight (n / 2 ^ 56 % 256) (n / 2 ^ 48 % 256) (n / 2 ^ 40 % 256) (n / 2 ^ 32 % 256)
      (n / 2 ^ 24 % 256) (n / 2 ^ 16 % 256) (n / 2 ^ 8 % 256) (n % 256)
      (omega arith, omega arith, omega arith, omega arith)
      (omega arith, omega arith, omega arith, omega arith)
    ∙ (let e : (((((0 * 256 + n / 2 ^ 56 % 256) * 256 + n / 2 ^ 48 % 256) * 256 + n / 2 ^ 40 % 256)
                        * 256
                      + n / 2 ^ 32 % 256)
                    * 256
                  + n / 2 ^ 24 % 256)
                * 256
              + n / 2 ^ 16 % 256
            ≡ n / 2 ^ 16 =
          omega arith in
        rw e (
          push_byte (n / 2 ^ 16 * 256 + n / 2 ^ 8 % 256) (n % 256) (omega arith) (omega arith)
          ∙ omega arith))

-- An identifier is read back from its bytes.
pub from_bytes-new : (n : ℕ) → n < 2 ^ 64 → from_bytes (new n).trans_id_bytes ≡ some (new n)
unfolding from_bytes new eight_bytes_to_array
from_bytes-new n h = ap (λ (t : ℕ). some (new t)) (push_bytes-eight_bytes n h)
