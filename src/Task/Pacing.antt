-- ===== src/Task/Pacing.antt =====
-- add_sleep_time and add_nr_sleep_time of src/nfapi_pnf.c, and clock_usec of src/nfapiutils.c: the
-- threads' pace. The clock's value is an argument; the trace of the durations is left out.
use oai_lte_5g_multi_ue_prox.Base.{
  ◌⊎◌, Bool, true, false, ℕ, ◌+◌, ◌-◌, ◌*◌, ◌/◌, ◌%◌, ◌^◌, ◌≤◌, ◌<◌, ◌≡◌, Option, none, some, arith,
  if◌then◌else◌, leb,
}

-- Microseconds in a `uint64_t`.
unfoldable pub clock_usec : ℕ → ℕ → ℕ
clock_usec tv_sec tv_nsec = (tv_sec * 1000000 + tv_nsec / 1000) % 2 ^ 64

-- What is left of `budget` microseconds is slept; `none` when the round took longer.
unfoldable pub sleep_for : ℕ → ℕ → ℕ → Option ℕ
sleep_for budget start agg =
    let elapsed_usec = (agg + 2 ^ 64 - start) % 2 ^ 64 in
    if leb elapsed_usec budget then some (budget - elapsed_usec) else none

unfoldable pub add_sleep_time : ℕ → ℕ → ℕ → ℕ → Option ℕ
add_sleep_time start poll send agg = sleep_for 1000 start agg

unfoldable pub add_nr_sleep_time : ℕ → ℕ → ℕ → ℕ → Option ℕ
add_nr_sleep_time start poll send agg = sleep_for 500 start agg

-- `if (are_queues_empty)` around them, with what this round's dequeuing found.
unfoldable pub end_of_subframe : Bool → ℕ → ℕ → ℕ → ℕ → Option ℕ
end_of_subframe are_queues_empty start poll send agg =
    if are_queues_empty then add_sleep_time start poll send agg else none

unfoldable pub end_of_slot : Bool → ℕ → ℕ → ℕ → ℕ → Option ℕ
end_of_slot are_queues_empty start poll send agg =
    if are_queues_empty then add_nr_sleep_time start poll send agg else none

-- With the start and the end of a round read by `clock_usec`, the start not later than the end and
-- both below 2 ^ 64 microseconds: a subframe round that leaves the queues empty and took at most
-- 1000 microseconds sleeps at its end until 1000 have passed since its start, and otherwise it does
-- not sleep there. A slot round never sleeps at its end, since its `usleep(1000)` comes between the
-- two readings of the clock, so that these are at least 1000 microseconds apart.
pub end_of_round-fills :
    (are_queues_empty : Bool) (start_sec start_nsec agg_sec agg_nsec poll send : ℕ)
    → let start = start_sec * 1000000 + start_nsec / 1000 in
      let agg = agg_sec * 1000000 + agg_nsec / 1000 in
      let start_usec = clock_usec start_sec start_nsec in
      let agg_usec = clock_usec agg_sec agg_nsec in
      let slept = end_of_subframe are_queues_empty start_usec poll send agg_usec in
      start ≤ agg
      → agg < 2 ^ 64
      → (are_queues_empty ≡ true
          → agg ≤ start + 1000
          → (usec : ℕ) × (slept ≡ some usec) × (agg + usec ≡ start + 1000))
        × ((are_queues_empty ≡ false) ⊎ (start + 1000 < agg) → slept ≡ none)
        × (start + 1000 ≤ agg → end_of_slot are_queues_empty start_usec poll send agg_usec ≡ none)
unfolding clock_usec sleep_for add_sleep_time add_nr_sleep_time end_of_subframe end_of_slot
end_of_round-fills are_queues_empty start_sec start_nsec agg_sec agg_nsec poll send before fits =
    let start = start_sec * 1000000 + start_nsec / 1000 in
    let agg = agg_sec * 1000000 + agg_nsec / 1000 in
    (
      λ empty short. (start + 1000 - agg, ground (arith, empty), omega arith),
      λ why. ground (arith, why),
      λ paused. ground arith,
    )
