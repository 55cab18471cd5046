-- ===== src/Sfn.antt =====
-- System frame number arithmetic of src/nfapi_pnf.c. A 16-bit word packs a frame with a subframe
-- (LTE, four low bits) or a frame with a slot (NR, six low bits); a frame is below 1024 and has
-- ten subframes or twenty slots.
pub mod Subframe
pub mod Slot
pub mod Cycle
mod Examples
use oai_lte_5g_multi_ue_prox.Base.{
  ℕ, ◌+◌, ◌*◌, ◌/◌, ◌%◌, ◌^◌, ℤ, sub_ℕ, bit_or, if◌then◌else◌, ◌==◌,
}

-- The value that an expression keeps in a `uint16_t`.
abbrev pub word16 : ℕ → ℕ
word16 n = n % 2 ^ 16

-- The counters of the two tasks, updated in place.
pub record Counter : Type 0 where
  pub sfn : ℕ
  pub sub : ℕ

unfoldable pub get_sf_delta : ℕ → ℕ → ℤ
get_sf_delta a b =
    let sfn_a = a / 2 ^ 4 in
    let sf_a = a % 16 in
    let sfn_b = b / 2 ^ 4 in let sf_b = b % 16 in sub_ℕ (sfn_a * 10 + sf_a) (sfn_b * 10 + sf_b)

unfoldable pub get_slot_delta : ℕ → ℕ → ℤ
get_slot_delta a b =
    let sfn_a = a / 2 ^ 6 in
    let slot_a = a % 64 in
    let sfn_b = b / 2 ^ 6 in
    let slot_b = b % 64 in sub_ℕ (sfn_a * 20 + slot_a) (sfn_b * 20 + slot_b)

unfoldable pub sfn_sf_add : ℕ → ℕ → ℕ
sfn_sf_add a add_val =
    let sfn_a = a / 2 ^ 4 in
    let sf_a = a % 16 in
    let temp = word16 (sfn_a * 10 + sf_a + add_val) in
    let sf = temp % 10 in let sfn = temp / 10 % 1024 in word16 (bit_or (sfn * 2 ^ 4) sf)

unfoldable pub sfn_slot_add : ℕ → ℕ → ℕ → ℕ × ℕ
sfn_slot_add sfn slot add_val =
    (word16 ((sfn + (slot + add_val) / 20) % 1024), (slot + add_val) % 20)

-- `if (++*sub == limit)`: the start of the next frame, and past frame 1023 frame 0.
unfoldable pub advance : ℕ → Counter → Counter
advance limit c =
    let sub = word16 (c.sub + 1) in
    let sfn = word16 (c.sfn + 1) in
    if sub == limit
    then record { sfn = if sfn == 1024 then 0 else sfn; sub = 0 }
    else record { sfn = c.sfn; sub = sub }

unfoldable pub sfn_sf_counter : Counter → Counter × ℕ
sfn_sf_counter c = let next = advance 10 c in (next, word16 (bit_or (next.sfn * 2 ^ 4) next.sub))

unfoldable pub sfn_slot_counter : Counter → Counter × ℕ
sfn_slot_counter c = let next = advance 20 c in (next, word16 (bit_or (next.sfn * 2 ^ 6) next.sub))
