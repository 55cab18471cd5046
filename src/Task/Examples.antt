-- ===== src/Task/Examples.antt =====
-- Tests of a round of the threads.
use oai_lte_5g_multi_ue_prox.Base.{
  ◌⊎◌, ℕ, ◌≡◌, true, List, [], ◌∷◌, ◌++◌, returns, ◌>>=◌, ◌+◌, ◌≤◌, ◌<◌, none, some, arith, length,
  All, refl, exceeds, false,
}
use oai_lte_5g_multi_ue_prox.Sfn.{
  advance, Counter, get_sf_delta, get_slot_delta, sfn_sf_counter, sfn_slot_counter,
}
use oai_lte_5g_multi_ue_prox.Message.{MessageBuffer}
use oai_lte_5g_multi_ue_prox.Message.Examples.{read_word, crc_message, nr_crc_message}
use oai_lte_5g_multi_ue_prox.Uplink.{lte, nr, Dequeued}
use oai_lte_5g_multi_ue_prox.Uplink.Sweep.{Hold, Sweep}
use oai_lte_5g_multi_ue_prox.Uplink.Times.{lte_time, nr_time}
use oai_lte_5g_multi_ue_prox.Uplink.Examples.{
  queue_with, one_message-Hold, crc_message-IsStored, nr_crc_message-IsStored,
}
use oai_lte_5g_multi_ue_prox.Batch.Select.{
  handed_over, length-select-le, freed_batches, send_batches,
}
use oai_lte_5g_multi_ue_prox.Aggregate.Subframe.{oai_subframe_aggregate_message_id}
use oai_lte_5g_multi_ue_prox.Aggregate.Slot.{oai_slot_aggregate_message_id}
use oai_lte_5g_multi_ue_prox.Aggregate.Examples.{lte_library, nr_library}
use oai_lte_5g_multi_ue_prox.Task.{TaskState, subframe_round, slot_round}
use oai_lte_5g_multi_ue_prox.Task.Pacing.{
  clock_usec, end_of_subframe, end_of_slot, end_of_round-fills,
}
use oai_lte_5g_multi_ue_prox.Queue.{Queue}
use mathlib.Core.List.{Perm}
use oai_lte_5g_multi_ue_prox.Batch.Pass.{select}
use oai_lte_5g_multi_ue_prox.Batch.Batches.{id_of_message}
use oai_lte_5g_multi_ue_prox.Message.{get_sfnsf, get_sfnslot, valid_bytes, pulled_id}
use oai_lte_5g_multi_ue_prox.Uplink.Delivered.{IsDueUe}
use oai_lte_5g_multi_ue_prox.Task.Delivered.{all_of, subframe_round-delivers, slot_round-delivers}
use oai_lte_5g_multi_ue_prox.Task.Collected.{batches_of, IsOnce}
use oai_lte_5g_multi_ue_prox.Task.Rounds.{
  subframe_worked, slot_worked, subframe_round-sends_batches, slot_round-sends_batches,
}

abbrev state_with : Counter → MessageBuffer → TaskState
state_with counter msg = record {
  counter = counter;
  queues = queue_with msg ∷ [];
  are_queues_empty = true;
}

-- Subframe 5.3 and slot 5.3 come next.
abbrev lte_state : TaskState
lte_state = state_with (record { sfn = 5; sub = 2 }) crc_message

abbrev nr_state : TaskState
nr_state = state_with (record { sfn = 5; sub = 2 }) nr_crc_message

subframe_round-sends_batches_example :
    (r : Dequeued) × (master : ℕ) × (rests : List (List MessageBuffer)) × Sweep
      (lte read_word)
      (lte_time read_word)
      (sfn_sf_counter lte_state.counter).1
      master
      ((crc_message ∷ []) ∷ [])
      r.queues
      r.collected
      r.freed
      r.are_queues_empty
    × Hold r.queues rests
    × (subframe_round lte_library true lte_state ≡ (
        send_batches
          (oai_subframe_aggregate_message_id lte_library)
          (batches_of read_word r.collected)
        >>= λ sent. returns (subframe_worked lte_library true lte_state r sent)))
    × IsOnce
        ((crc_message ∷ []) ∷ [])
        (r.freed ++ freed_batches (batches_of read_word r.collected))
        rests
subframe_round-sends_batches_example =
    subframe_round-sends_batches lte_library true lte_state ((crc_message ∷ []) ∷ [])
      (one_message-Hold crc_message crc_message-IsStored)

slot_round-sends_batches_example :
    (r : Dequeued) × (master : ℕ) × (rests : List (List MessageBuffer)) × Sweep
      (nr read_word)
      (nr_time read_word)
      (sfn_slot_counter nr_state.counter).1
      master
      ((nr_crc_message ∷ []) ∷ [])
      r.queues
      r.collected
      r.freed
      r.are_queues_empty
    × Hold r.queues rests
    × (slot_round nr_library true nr_state ≡ (
        send_batches (oai_slot_aggregate_message_id nr_library) (batches_of read_word r.collected)
        >>= λ sent. returns (slot_worked nr_library true nr_state r sent)))
    × IsOnce
        ((nr_crc_message ∷ []) ∷ [])
        (r.freed ++ freed_batches (batches_of read_word r.collected))
        rests
slot_round-sends_batches_example =
    slot_round-sends_batches nr_library true nr_state ((nr_crc_message ∷ []) ∷ [])
      (one_message-Hold nr_crc_message nr_crc_message-IsStored)

-- 1.0 s to 1.0003 s.
end_of_round-fills_example :
    let slept = end_of_subframe true (clock_usec 1 0) 0 0 (clock_usec 1 300000) in
    (true ≡ true
      → 1000300 ≤ 1000000 + 1000
      → (usec : ℕ) × (slept ≡ some usec) × (1000300 + usec ≡ 1000000 + 1000))
    × ((true ≡ false) ⊎ (1000000 + 1000 < 1000300) → slept ≡ none)
    × (1000000 + 1000 ≤ 1000300
        → end_of_slot true (clock_usec 1 0) 0 0 (clock_usec 1 300000) ≡ none)
end_of_round-fills_example = end_of_round-fills true 1 0 1 300000 0 0 (omega arith) (omega arith)

few_of :
    (msg : MessageBuffer) (id : ℕ) → length (select (id_of_message read_word) id (msg ∷ [])) ≤ 8
few_of msg id = omega (arith, length-select-le (id_of_message read_word) id (msg ∷ []))

one_due : All (IsDueUe (lte_time read_word) 83) ((crc_message ∷ []) ∷ [])
unfolding get_sfnsf valid_bytes pulled_id
one_due = ((omega arith, ((refl, λ e. omega (arith, e)), tt)), tt)

one_nr_due : All (IsDueUe (nr_time read_word) 323) ((nr_crc_message ∷ []) ∷ [])
unfolding get_sfnslot valid_bytes pulled_id
one_nr_due = ((omega arith, ((refl, λ e. omega (arith, e)), tt)), tt)

now_recent : exceeds (get_sf_delta (sfn_sf_counter lte_state.counter).1 83) 200 ≡ false
unfolding sfn_sf_counter get_sf_delta advance
now_recent = refl

now_nr_recent : exceeds (get_slot_delta (sfn_slot_counter nr_state.counter).1 323) 400 ≡ false
unfolding sfn_slot_counter get_slot_delta advance
now_nr_recent = refl

subframe_round-delivers_example :
    (qs : List (Queue MessageBuffer)) × (subframe_round lte_library true lte_state ≡ (
      send_batches
        (oai_subframe_aggregate_message_id lte_library)
        (batches_of read_word ((crc_message ∷ []) ∷ []))
      >>= λ sent.
          returns (
            subframe_worked lte_library true lte_state (all_of qs ((crc_message ∷ []) ∷ [])) sent)))
    × Perm (handed_over (batches_of read_word ((crc_message ∷ []) ∷ []))) (crc_message ∷ [])
    × Hold qs ([] ∷ [])
subframe_round-delivers_example =
    subframe_round-delivers lte_library true lte_state ((crc_message ∷ []) ∷ []) 83
      (one_message-Hold crc_message crc_message-IsStored) one_due now_recent (few_of crc_message)

slot_round-delivers_example :
    (qs : List (Queue MessageBuffer)) × (slot_round nr_library true nr_state ≡ (
      send_batches
        (oai_slot_aggregate_message_id nr_library)
        (batches_of read_word ((nr_crc_message ∷ []) ∷ []))
      >>= λ sent.
          returns
            (slot_worked nr_library true nr_state (all_of qs ((nr_crc_message ∷ []) ∷ [])) sent)))
    × Perm (handed_over (batches_of read_word ((nr_crc_message ∷ []) ∷ []))) (nr_crc_message ∷ [])
    × Hold qs ([] ∷ [])
slot_round-delivers_example =
    slot_round-delivers nr_library true nr_state ((nr_crc_message ∷ []) ∷ []) 323
      (one_message-Hold nr_crc_message nr_crc_message-IsStored) one_nr_due now_nr_recent
      (few_of nr_crc_message)
