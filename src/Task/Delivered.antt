-- ===== src/Task/Delivered.antt =====
-- A round of oai_subframe_task or oai_slot_task of src/nfapi_pnf.c, when all queued messages are
-- due.
use oai_lte_5g_multi_ue_prox.Base.{
  ◌≤◌, length, arith, ℕ, ◌≡◌, refl, inl, inr, Bool, true, false, Option, some, List, [], ◌∷◌, map,
  returns, ◌>>=◌, exceeds, All, All-append, Outcome-cases,
}
use oai_lte_5g_multi_ue_prox.Sfn.{get_sf_delta, get_slot_delta, sfn_sf_counter, sfn_slot_counter}
use oai_lte_5g_multi_ue_prox.Message.{MessageBuffer}
use oai_lte_5g_multi_ue_prox.Queue.{Queue}
use oai_lte_5g_multi_ue_prox.Uplink.{
  max_msgs, lte, nr, Dequeued, dequeue_ue_msgs, dequeue_ue_slot_msgs,
}
use oai_lte_5g_multi_ue_prox.Uplink.Drained.{IsStored}
use oai_lte_5g_multi_ue_prox.Uplink.Times.{
  lte_time, nr_time, get_sfnsf-lte_time, get_sfnslot-nr_time,
}
use oai_lte_5g_multi_ue_prox.Uplink.Sweep.{Hold, no_ue, one_ue}
use oai_lte_5g_multi_ue_prox.Uplink.Delivered.{IsDue, IsDueUe, dequeue_msgs-collects}
use oai_lte_5g_multi_ue_prox.Batch.Select.{send_batches, handed_over, handed_over-Perm}
use oai_lte_5g_multi_ue_prox.Batch.Pass.{select}
use mathlib.Core.List.{Perm}
use oai_lte_5g_multi_ue_prox.Batch.Batches.{id_of_message}
use oai_lte_5g_multi_ue_prox.Aggregate.Subframe.{LteLibrary, oai_subframe_aggregate_message_id}
use oai_lte_5g_multi_ue_prox.Aggregate.Slot.{NrLibrary, oai_slot_aggregate_message_id}
use oai_lte_5g_multi_ue_prox.Task.{
  TaskState, oai_subframe_aggregate_messages, oai_slot_aggregate_messages, subframe_round,
  slot_round,
}
use oai_lte_5g_multi_ue_prox.Task.Swept.{concat}
use oai_lte_5g_multi_ue_prox.Task.Ids.{lte_time-ident_ne, nr_time-ident_ne}
use oai_lte_5g_multi_ue_prox.Task.Collected.{
  batches_of, concat-IsStored, timed_ids, collected-batches,
}
use oai_lte_5g_multi_ue_prox.Task.Rounds.{subframe_worked, slot_worked}

Hold-IsStored :
    {qs : List (Queue MessageBuffer)} {xss : List (List MessageBuffer)}
    → Hold qs xss
    → All (All IsStored) xss
Hold-IsStored no_ue = tt
Hold-IsStored (one_ue v ok h) = (ok, Hold-IsStored h)

module _ (time : MessageBuffer → Option ℕ) (t : ℕ) where
  each-timed :
      (xs : List MessageBuffer)
      → All (IsDue time t) xs
      → All (λ msg. (at : ℕ) × (time msg ≡ some at)) xs
  each-timed [] due = tt
  each-timed (x ∷ xs) due = ((t, due.0.0), each-timed xs due.1)

  concat-timed :
      (xss : List (List MessageBuffer))
      → All (IsDueUe time t) xss
      → All (λ msg. (at : ℕ) × (time msg ≡ some at)) (concat xss)
  concat-timed [] due = tt
  concat-timed (xs ∷ xss) due =
      All-append (λ msg. (at : ℕ) × (time msg ≡ some at)) xs (concat xss) (each-timed xs due.0.1)
        (concat-timed xss due.1)

-- What is dequeued when all is collected.
abbrev pub all_of : List (Queue MessageBuffer) → List (List MessageBuffer) → Dequeued
all_of qs xss = record { queues = qs; collected = xss; freed = []; are_queues_empty = true }

-- If all queued messages have one time, whose `get_sf_delta` from the next subframe is at most 200,
-- no UE has more than eight and none is a dummy, and over all UEs there are at most eight of each
-- message id, then a round of the LTE thread hands each of them to the aggregation for the eNB
-- once, in one batch for each id, unless a batch's aggregation stops the program. Afterwards all
-- queues are empty.
pub subframe_round-delivers :
    {P : Type 0} (lib : LteLibrary P) (is_configured : Bool) (s : TaskState)
    (xss : List (List MessageBuffer)) (t : ℕ)
    → Hold s.queues xss
    → All (IsDueUe (lte_time lib.pull16) t) xss
    → exceeds (get_sf_delta (sfn_sf_counter s.counter).1 t) 200 ≡ false
    → ((id : ℕ) → length (select (id_of_message lib.pull16) id (concat xss)) ≤ max_msgs)
    → (qs : List (Queue MessageBuffer)) × (subframe_round lib is_configured s ≡ (
        send_batches (oai_subframe_aggregate_message_id lib) (batches_of lib.pull16 xss) >>= λ sent.
        returns (subframe_worked lib is_configured s (all_of qs xss) sent)))
      × Perm (handed_over (batches_of lib.pull16 xss)) (concat xss)
      × Hold qs (map (λ xs. []) xss)
unfolding subframe_round dequeue_ue_msgs oai_subframe_aggregate_messages
subframe_round-delivers lib is_configured s xss t h due recent few =
    let (qs, run, empty) =
      dequeue_msgs-collects (lte lib.pull16) (lte_time lib.pull16) (sfn_sf_counter s.counter).1 t
        recent (get_sfnsf-lte_time lib.pull16) s.queues xss h due in
    let stored = Hold-IsStored h in
    let ids =
      timed_ids (lte_time lib.pull16) (id_of_message lib.pull16) (lte_time-ident_ne lib.pull16)
        (concat xss) (concat-IsStored xss stored) (concat-timed (lte_time lib.pull16) t xss due) in
    let aggregated =
      collected-batches lib.pull16 (oai_subframe_aggregate_message_id lib) xss stored ids in
    (
      qs,
      elim (Outcome-cases
          (send_batches (oai_subframe_aggregate_message_id lib) (batches_of lib.pull16 xss))) [
            | inl e ↦ rw (run, aggregated, e) refl
            | inr (sent, e) ↦ rw (run, aggregated, e) refl
          ],
      handed_over-Perm (id_of_message lib.pull16) (length (concat xss)) (concat xss) (omega arith)
          few,
      empty,
    )

-- If all queued messages have one time, whose `get_slot_delta` from the next slot is at most 400,
-- no UE has more than eight and none is a dummy, and over all UEs there are at most eight of each
-- message id, then a round of the NR thread hands each of them to the aggregation for the gNB once,
-- in one batch for each id, unless a batch's aggregation stops the program. Afterwards all queues
-- are empty.
pub slot_round-delivers :
    {P : Type 0} (lib : NrLibrary P) (is_configured : Bool) (s : TaskState)
    (xss : List (List MessageBuffer)) (t : ℕ)
    → Hold s.queues xss
    → All (IsDueUe (nr_time lib.pull16) t) xss
    → exceeds (get_slot_delta (sfn_slot_counter s.counter).1 t) 400 ≡ false
    → ((id : ℕ) → length (select (id_of_message lib.pull16) id (concat xss)) ≤ max_msgs)
    → (qs : List (Queue MessageBuffer)) × (slot_round lib is_configured s ≡ (
        send_batches (oai_slot_aggregate_message_id lib) (batches_of lib.pull16 xss) >>= λ sent.
        returns (slot_worked lib is_configured s (all_of qs xss) sent)))
      × Perm (handed_over (batches_of lib.pull16 xss)) (concat xss)
      × Hold qs (map (λ xs. []) xss)
unfolding slot_round dequeue_ue_slot_msgs oai_slot_aggregate_messages
slot_round-delivers lib is_configured s xss t h due recent few =
    let (qs, run, empty) =
      dequeue_msgs-collects (nr lib.pull16) (nr_time lib.pull16) (sfn_slot_counter s.counter).1 t
        recent (get_sfnslot-nr_time lib.pull16) s.queues xss h due in
    let stored = Hold-IsStored h in
    let ids =
      timed_ids (nr_time lib.pull16) (id_of_message lib.pull16) (nr_time-ident_ne lib.pull16)
        (concat xss) (concat-IsStored xss stored) (concat-timed (nr_time lib.pull16) t xss due) in
    let aggregated =
      collected-batches lib.pull16 (oai_slot_aggregate_message_id lib) xss stored ids in
    (
      qs,
      elim (Outcome-cases
          (send_batches (oai_slot_aggregate_message_id lib) (batches_of lib.pull16 xss))) [
            | inl e ↦ rw (run, aggregated, e) refl
            | inr (sent, e) ↦ rw (run, aggregated, e) refl
          ],
      handed_over-Perm (id_of_message lib.pull16) (length (concat xss)) (concat xss) (omega arith)
          few,
      empty,
    )
