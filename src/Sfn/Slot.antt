-- ===== src/Sfn/Slot.antt =====
-- Slot words: what sfn_slot_counter, sfn_slot_add and get_slot_delta of src/nfapi_pnf.c compute.
use oai_lte_5g_multi_ue_prox.Base.{
  ℕ, ◌+◌, ◌-◌, ◌*◌, ◌/◌, ◌%◌, ◌^◌, ◌≤◌, ◌<◌, ◌≡◌, sym, true, arith, pos, sub_ℕ, exceeds, negate,
  negate-sub_ℕ, bit_or, bit_or-shift,
}
use oai_lte_5g_multi_ue_prox.Sfn.{
  word16, Counter, get_slot_delta, sfn_slot_add, sfn_slot_counter, advance,
}

abbrev pub slots : ℕ
slots = 20480

-- A word that packs a frame below 1024 and a slot below 20.
pub record IsSlot (w : ℕ) : Type 0 where
  pub frame_in : w / 2 ^ 6 < 1024
  pub slot_in : w % 64 < 20

-- The slots from 0.0 to the packed one.
abbrev pub position : ℕ → ℕ
position w = w / 2 ^ 6 * 20 + w % 64

pack_lem :
    (sfn slot : ℕ) → sfn < 1024 → slot < 20 → word16 (bit_or (sfn * 2 ^ 6) slot) ≡ sfn * 64 + slot
pack_lem sfn slot h k = omega (arith, bit_or-shift 6 sfn slot (omega arith))

advance_twenty :
    (c : Counter)
    → c.sfn < 1024
    → c.sub < 20
    → ((advance 20 c).sfn < 1024)
      × ((advance 20 c).sub < 20)
      × ((advance 20 c).sfn * 20 + (advance 20 c).sub ≡ (c.sfn * 20 + c.sub + 1) % slots)
unfolding advance
advance_twenty c h k = ground arith

-- From a frame below 1024 and a slot below 20, the counter goes to the next slot, round
-- from 1023.19 to 0.0, keeps both bounds, and returns the word that packs the new pair.
pub sfn_slot_counter-advances :
    (c : Counter)
    → c.sfn < 1024
    → c.sub < 20
    → let (c', w) = sfn_slot_counter c in
      (c'.sfn < 1024)
      × (c'.sub < 20)
      × (c'.sfn * 20 + c'.sub ≡ (c.sfn * 20 + c.sub + 1) % slots)
      × (w / 2 ^ 6 ≡ c'.sfn)
      × (w % 64 ≡ c'.sub)
unfolding sfn_slot_counter
sfn_slot_counter-advances c h k =
    let n = advance_twenty c h k in
    omega (arith, n, pack_lem (advance 20 c).sfn (advance 20 c).sub n.0 n.1)

-- Adding to a frame below 1024 and a slot below 20 moves the pair on that many slots round the
-- 20480 of a cycle, and keeps both bounds; no amount of 16 bits is too large.
pub sfn_slot_add-moves :
    (sfn slot add_val : ℕ)
    → sfn < 1024
    → slot < 20
    → add_val < 2 ^ 16
    → let (sfn', slot') = sfn_slot_add sfn slot add_val in
      (sfn' < 1024) × (slot' < 20) × (sfn' * 20 + slot' ≡ (sfn * 20 + slot + add_val) % slots)
unfolding sfn_slot_add
sfn_slot_add-moves sfn slot add_val h k l = omega arith

-- For packed slots the delta is what brings `b` round the cycle to `a`, if `b` does not stand
-- behind `a`; if it does, the delta is 20480 slots too small. Swapping the two negates it.
pub get_slot_delta-distance :
    (a b : ℕ)
    → IsSlot a
    → IsSlot b
    → (get_slot_delta b a ≡ negate (get_slot_delta a b))
      × (position b ≤ position a
          → get_slot_delta a b ≡ pos ((position a + slots - position b) % slots))
      × (position a < position b
          → get_slot_delta a b ≡ sub_ℕ ((position a + slots - position b) % slots) slots)
unfolding get_slot_delta
get_slot_delta-distance a b v w =
    (sym (negate-sub_ℕ (position a) (position b)), λ h. ground arith, λ h. ground arith)

-- A packed slot that comes up to 20079 slots after the packed `tx`, but beyond the end of
-- the cycle, has a delta above 400, as if it were old.
pub early_slot-exceeds :
    (tx m ahead : ℕ)
    → IsSlot tx
    → IsSlot m
    → ahead < 20080
    → position m + slots ≡ position tx + ahead
    → exceeds (get_slot_delta tx m) 400 ≡ true
unfolding get_slot_delta
early_slot-exceeds tx m ahead v w h e = ground arith
