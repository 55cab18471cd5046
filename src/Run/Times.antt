-- ===== src/Run/Times.antt =====
-- The times that the loops of src/nfapi_pnf.c count through.
use oai_lte_5g_multi_ue_prox.Base.{
  ℕ, zero, suc, ◌+◌, ◌*◌, ◌/◌, ◌%◌, ◌<◌, ◌≡◌, refl, ap, ap₂, ◌∙◌, List, [], ◌∷◌, arith,
}
use oai_lte_5g_multi_ue_prox.Sfn.{Counter, sfn_sf_counter, sfn_slot_counter}
use oai_lte_5g_multi_ue_prox.Sfn.Subframe
use oai_lte_5g_multi_ue_prox.Sfn.Slot

-- What n rounds count through.
abbrev pub times : (Counter → Counter × ℕ) → Counter → ℕ → List ℕ
times next c zero = []
times next c (suc n) = (next c).1 ∷ times next (next c).0 n

-- The n packed times after time number p, with `per_frame` in a frame and `field` the size of the
-- word's lower part; after the last time of frame 1023 comes number 0.
abbrev pub times_after : ℕ → ℕ → ℕ → ℕ → List ℕ
times_after per_frame field p zero = []
times_after per_frame field p (suc n) =
    let q = (p + 1) % (1024 * per_frame) in
    (q / per_frame * field + q % per_frame) ∷ times_after per_frame field q n

pub subframe_times :
    (c : Counter) (n : ℕ)
    → c.sfn < 1024
    → c.sub < 10
    → times sfn_sf_counter c n ≡ times_after 10 16 (c.sfn * 10 + c.sub) n
subframe_times c zero h k = refl
subframe_times c (suc n) h k =
    let (sfn, sub, e, high, low) = Subframe.sfn_sf_counter-advances c h k in
    let (c', w) = sfn_sf_counter c in
    let q = (c.sfn * 10 + c.sub + 1) % (1024 * 10) in
    let word : w ≡ q / 10 * 16 + q % 10 = omega (arith, e, high, low, sub) in
    ap₂ (◌∷◌) word (subframe_times c' n sfn sub ∙ ap (λ p. times_after 10 16 p n) e)

pub slot_times :
    (c : Counter) (n : ℕ)
    → c.sfn < 1024
    → c.sub < 20
    → times sfn_slot_counter c n ≡ times_after 20 64 (c.sfn * 20 + c.sub) n
slot_times c zero h k = refl
slot_times c (suc n) h k =
    let (sfn, sub, e, high, low) = Slot.sfn_slot_counter-advances c h k in
    let (c', w) = sfn_slot_counter c in
    let q = (c.sfn * 20 + c.sub + 1) % (1024 * 20) in
    let word : w ≡ q / 20 * 64 + q % 20 = omega (arith, e, high, low, sub) in
    ap₂ (◌∷◌) word (slot_times c' n sfn sub ∙ ap (λ p. times_after 20 64 p n) e)
