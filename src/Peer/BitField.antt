-- ===== src/Peer/BitField.antt =====
-- The iterator of bip_peer/src/message/standard.rs over the pieces that a bit field names.
pub mod Pieces
use rust_bt.Base.{
  ℕ, zero, suc, ◌+◌, ◌*◌, ◌/◌, ◌%◌, ◌^◌, Option, none, some, true, false, Bytes, get_elem?, ◌==◌,
}
use rust_bt.Peer.Message.{HaveMessage, BitFieldMessage}

pub record BitFieldIter : Type 0 where
  pub bytes : Bytes
  pub cur_bit : ℕ

unfoldable pub iter : BitFieldMessage → BitFieldIter
iter message = record { bytes = message.bytes; cur_bit = 0 }

-- A `next` that finds no bit set at its place calls itself, each time one bit further. With as many
-- rounds as there are bits, and one more, the clause for no round is never met.
unfoldable pub next : ℕ → BitFieldIter → Option HaveMessage × BitFieldIter
next zero it = (none, it)
next (suc rounds) it =
    let bit_in_byte = it.cur_bit % 8 in
    elim (get_elem? it.bytes (it.cur_bit / 8)) [
      | none ↦ (none, it)
      | some byte ↦
          let have_message : HaveMessage = record { piece_index = it.cur_bit % 2 ^ 32 } in
          let moved : BitFieldIter = record it { cur_bit = it.cur_bit + 1 } in
          elim (byte * 2 ^ bit_in_byte % 256 / 2 ^ 7 == 1) [
            | true ↦ (some have_message, moved)
            | false ↦ next rounds moved
          ]
    ]
