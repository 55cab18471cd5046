-- ===== src/Barrier/Examples.antt =====
-- Tests of the meeting of the two threads.
use oai_lte_5g_multi_ue_prox.Base.{◌+◌, ◌≤◌, ◌≡◌, ◌≢◌, refl, true, false, arith}
use oai_lte_5g_multi_ue_prox.Barrier.{
  nr_thread, working, waiting, Barrier, both_lte_nr_done, arrive, arrives, Reaches, starts, steps,
  count_slot,
}
use oai_lte_5g_multi_ue_prox.Barrier.Shape.{ShapeOf, Reaches-ShapeOf, Passes, Reaches-Passes}
use oai_lte_5g_multi_ue_prox.Barrier.Drift.{
  Reaches-drift, IsPrompt, starts_promptly, arrives_promptly, IsPrompt-in_step,
}

-- NR has come, and waits.
abbrev nr_came : Barrier
nr_came = record {
  sf_slot_tick = 2;
  lte_place = working;
  nr_place = waiting;
  lte_rounds = 0;
  nr_rounds = 0;
}

nr_came-Reaches : Reaches nr_came
unfolding arrive
nr_came-Reaches = steps starts (arrives nr_thread refl)

nr_came-IsPrompt : IsPrompt nr_came
unfolding arrive
nr_came-IsPrompt = arrives_promptly nr_thread starts_promptly refl (omega arith)

-- The NR thread comes in every second slot.
first_slot : count_slot true 0 ≡ (false, 1)
unfolding count_slot
first_slot = refl

second_slot : count_slot true 1 ≡ (true, 0)
unfolding count_slot
second_slot = refl

Reaches-ShapeOf_example : ShapeOf nr_came
Reaches-ShapeOf_example = Reaches-ShapeOf {b = nr_came} nr_came-Reaches

Reaches-Passes_example : Passes nr_thread nr_came
Reaches-Passes_example = Reaches-Passes {b = nr_came} nr_thread nr_came-Reaches

Reaches-drift_example : (b : Barrier) × Reaches b × (b.lte_rounds ≡ 1000 + 1) × (b.nr_rounds ≡ 0)
Reaches-drift_example = Reaches-drift 1000

IsPrompt-in_step_example :
    (nr_came.sf_slot_tick ≢ both_lte_nr_done → nr_came.lte_rounds ≡ nr_came.nr_rounds)
    × (nr_came.lte_rounds ≤ nr_came.nr_rounds + 1)
    × (nr_came.nr_rounds ≤ nr_came.lte_rounds + 1)
IsPrompt-in_step_example = IsPrompt-in_step nr_came nr_came-IsPrompt
