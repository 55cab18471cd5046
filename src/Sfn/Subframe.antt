-- ===== src/Sfn/Subframe.antt =====
-- Subframe words: what sfn_sf_counter, advance, sfn_sf_add and get_sf_delta of src/nfapi_pnf.c
-- compute.
use oai_lte_5g_multi_ue_prox.Base.{
  ℕ, ◌+◌, ◌-◌, ◌*◌, ◌/◌, ◌%◌, ◌^◌, ◌≤◌, ◌<◌, ◌≡◌, sym, true, arith, pos, sub_ℕ, exceeds, negate,
  negate-sub_ℕ, bit_or, bit_or-shift,
}
use oai_lte_5g_multi_ue_prox.Sfn.{
  word16, Counter, get_sf_delta, sfn_sf_add, sfn_sf_counter, advance,
}

abbrev pub subframes : ℕ
subframes = 10240

-- A word that packs a frame below 1024 and a subframe below 10.
pub record IsSubframe (w : ℕ) : Type 0 where
  pub frame_in : w / 2 ^ 4 < 1024
  pub subframe_in : w % 16 < 10

-- The subframes from 0.0 to the packed one.
abbrev pub position : ℕ → ℕ
position w = w / 2 ^ 4 * 10 + w % 16

pack_lem : (sfn sf : ℕ) → sfn < 1024 → sf < 10 → word16 (bit_or (sfn * 2 ^ 4) sf) ≡ sfn * 16 + sf
pack_lem sfn sf h k = omega (arith, bit_or-shift 4 sfn sf (omega arith))

advance_ten :
    (c : Counter)
    → c.sfn < 1024
    → c.sub < 10
    → ((advance 10 c).sfn < 1024)
      × ((advance 10 c).sub < 10)
      × ((advance 10 c).sfn * 10 + (advance 10 c).sub ≡ (c.sfn * 10 + c.sub + 1) % subframes)
unfolding advance
advance_ten c h k = ground arith

-- From a frame below 1024 and a subframe below 10, the counter goes to the next subframe, round
-- from 1023.9 to 0.0, keeps both bounds, and returns the word that packs the new pair.
pub sfn_sf_counter-advances :
    (c : Counter)
    → c.sfn < 1024
    → c.sub < 10
    → let (c', w) = sfn_sf_counter c in
      (c'.sfn < 1024)
      × (c'.sub < 10)
      × (c'.sfn * 10 + c'.sub ≡ (c.sfn * 10 + c.sub + 1) % subframes)
      × (w / 2 ^ 4 ≡ c'.sfn)
      × (w % 16 ≡ c'.sub)
unfolding sfn_sf_counter
sfn_sf_counter-advances c h k =
    let n = advance_ten c h k in
    omega (arith, n, pack_lem (advance 10 c).sfn (advance 10 c).sub n.0 n.1)

-- Adding to a packed subframe, as long as the sum of subframes fits 16 bits, moves it on that many
-- subframes round the 10240 of a cycle, and gives a packed subframe again.
pub sfn_sf_add-moves :
    (a add_val : ℕ)
    → IsSubframe a
    → position a + add_val < 2 ^ 16
    → IsSubframe (sfn_sf_add a add_val)
      × (position (sfn_sf_add a add_val) ≡ (position a + add_val) % subframes)
unfolding sfn_sf_add
sfn_sf_add-moves a add_val v h =
    let t = word16 (position a + add_val) in
    omega (arith, pack_lem (t / 10 % 1024) (t % 10) (omega arith) (omega arith))

-- For packed subframes the delta is what brings `b` round the cycle to `a`, if `b` does not stand
-- behind `a`; if it does, the delta is 10240 subframes too small. Swapping the two negates it.
pub get_sf_delta-distance :
    (a b : ℕ)
    → IsSubframe a
    → IsSubframe b
    → (get_sf_delta b a ≡ negate (get_sf_delta a b))
      × (position b ≤ position a
          → get_sf_delta a b ≡ pos ((position a + subframes - position b) % subframes))
      × (position a < position b
          → get_sf_delta a b ≡ sub_ℕ ((position a + subframes - position b) % subframes) subframes)
unfolding get_sf_delta
get_sf_delta-distance a b v w =
    (sym (negate-sub_ℕ (position a) (position b)), λ h. ground arith, λ h. ground arith)

-- A packed subframe that comes up to 10039 subframes after the packed `tx`, but beyond the end of
-- the cycle, has a delta above 200, as if it were old.
pub early_subframe-exceeds :
    (tx m ahead : ℕ)
    → IsSubframe tx
    → IsSubframe m
    → ahead < 10040
    → position m + subframes ≡ position tx + ahead
    → exceeds (get_sf_delta tx m) 200 ≡ true
unfolding get_sf_delta
early_subframe-exceeds tx m ahead v w h e = ground arith
