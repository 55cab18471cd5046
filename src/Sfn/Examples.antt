-- ===== src/Sfn/Examples.antt =====
-- Tests of the frame arithmetic.
use oai_lte_5g_multi_ue_prox.Sfn.Cycle.{early_times-exceed}
use oai_lte_5g_multi_ue_prox.Base.{ℕ, ◌≡◌, true, arith, exceeds}
use oai_lte_5g_multi_ue_prox.Sfn.{get_sf_delta, get_slot_delta}
use oai_lte_5g_multi_ue_prox.Sfn.Subframe.{IsSubframe}
use oai_lte_5g_multi_ue_prox.Sfn.Slot.{IsSlot}

-- The last subframe and the last slot of a cycle, and the first ones.
abbrev last_subframe : ℕ
last_subframe = 16377

abbrev last_slot : ℕ
last_slot = 65491

last_subframe-IsSubframe : IsSubframe last_subframe
last_subframe-IsSubframe = record { frame_in = omega arith; subframe_in = omega arith }

zero-IsSubframe : IsSubframe 0
zero-IsSubframe = record { frame_in = omega arith; subframe_in = omega arith }

last_slot-IsSlot : IsSlot last_slot
last_slot-IsSlot = record { frame_in = omega arith; slot_in = omega arith }

zero-IsSlot : IsSlot 0
zero-IsSlot = record { frame_in = omega arith; slot_in = omega arith }

early_times-exceed_example :
    (exceeds (get_sf_delta last_subframe 0) 200 ≡ true)
    × (exceeds (get_slot_delta last_slot 0) 400 ≡ true)
early_times-exceed_example =
    early_times-exceed last_subframe 0 1 last_slot 0 1 last_subframe-IsSubframe zero-IsSubframe
      (omega arith) (omega arith) last_slot-IsSlot zero-IsSlot (omega arith) (omega arith)
