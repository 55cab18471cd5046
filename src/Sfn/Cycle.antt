-- ===== src/Sfn/Cycle.antt =====
-- The deltas of both threads of src/nfapi_pnf.c, at the end of a cycle of frames.
use oai_lte_5g_multi_ue_prox.Base.{ℕ, ◌+◌, ◌<◌, ◌≡◌, true, exceeds}
use oai_lte_5g_multi_ue_prox.Sfn.{get_sf_delta, get_slot_delta}
use oai_lte_5g_multi_ue_prox.Sfn.Subframe
use oai_lte_5g_multi_ue_prox.Sfn.Slot

-- A packed subframe that comes up to 10039 subframes after the packed `tx`, but beyond the end of
-- the cycle, has a delta above 200, as if it were old; and so has a packed slot up to 20079 slots
-- after the packed `nr_tx` a delta above 400.
pub early_times-exceed :
    (tx m ahead nr_tx nr_m nr_ahead : ℕ)
    → Subframe.IsSubframe tx
    → Subframe.IsSubframe m
    → ahead < 10040
    → Subframe.position m + Subframe.subframes ≡ Subframe.position tx + ahead
    → Slot.IsSlot nr_tx
    → Slot.IsSlot nr_m
    → nr_ahead < 20080
    → Slot.position nr_m + Slot.slots ≡ Slot.position nr_tx + nr_ahead
    → (exceeds (get_sf_delta tx m) 200 ≡ true) × (exceeds (get_slot_delta nr_tx nr_m) 400 ≡ true)
early_times-exceed tx m ahead nr_tx nr_m nr_ahead v w h e nv nw nh ne = (
  Subframe.early_subframe-exceeds tx m ahead v w h e,
  Slot.early_slot-exceeds nr_tx nr_m nr_ahead nv nw nh ne,
)
