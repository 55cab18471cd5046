-- ===== src/Task/Rounds.antt =====
-- One round of oai_subframe_task and of oai_slot_task of src/nfapi_pnf.c.
use oai_lte_5g_multi_ue_prox.Base.{
  ℕ, ◌≡◌, inl, inr, refl, Bool, List, ◌∷◌, ◌++◌, map, returns, ◌>>=◌, Outcome-cases,
}
use oai_lte_5g_multi_ue_prox.Sfn.{sfn_sf_counter, sfn_slot_counter}
use oai_lte_5g_multi_ue_prox.Message.{MessageBuffer}
use oai_lte_5g_multi_ue_prox.Uplink.{lte, nr, Dequeued}
use oai_lte_5g_multi_ue_prox.Uplink.Drained.{IsStored}
use oai_lte_5g_multi_ue_prox.Uplink.Sweep.{
  Hold, Sweep, dequeue_ue_msgs-Sweep, dequeue_ue_slot_msgs-Sweep,
}
use oai_lte_5g_multi_ue_prox.Uplink.Times.{lte_time, nr_time}
use oai_lte_5g_multi_ue_prox.Batch.Select.{freed_batches, send_batches}
use oai_lte_5g_multi_ue_prox.Batch.Batches.{id_of_message}
use oai_lte_5g_multi_ue_prox.Aggregate.Subframe.{
  LteLibrary, LteSent, oai_subframe_aggregate_message_id,
}
use oai_lte_5g_multi_ue_prox.Aggregate.Slot.{NrLibrary, NrSent, oai_slot_aggregate_message_id}
use oai_lte_5g_multi_ue_prox.Task.{
  pauses, subframe_pause, ue_time, sends, TaskState, Worked, oai_subframe_ind, oai_slot_ind,
  oai_subframe_aggregate_messages, oai_slot_aggregate_messages, subframe_round, slot_round,
}
use oai_lte_5g_multi_ue_prox.Task.Swept.{concat, swept-Accounted}
use oai_lte_5g_multi_ue_prox.Task.Ids.{lte_time-ident_ne, nr_time-ident_ne}
use oai_lte_5g_multi_ue_prox.Task.Collected.{
  concat-IsStored, batches_of, collected-batches, timed_ids, IsOnce, freed-IsOnce,
}

module _ {P : Type 0} (lib : LteLibrary P) (is_configured : Bool) (s : TaskState) where
  -- The state and the events of a round in which `r` was dequeued and `sent` was sent.
  abbrev pub subframe_worked : Dequeued → List (LteSent P) → Worked (LteSent P)
  subframe_worked r sent =
      let (counter, sfn_sf_tx) = sfn_sf_counter s.counter in
      record {
        state = record {
          counter = counter;
          queues = r.queues;
          are_queues_empty = r.are_queues_empty;
        };
        events =
            ue_time sfn_sf_tx
            ∷ (subframe_pause s.are_queues_empty
                ++ (oai_subframe_ind is_configured counter.sfn counter.sub ++ map sends sent));
        freed = r.freed ++ freed_batches (batches_of lib.pull16 r.collected);
      }

  -- When the queues hold stored messages, a round of the LTE thread sleeps 825 microseconds if the
  -- round before left the queues empty. It takes a sweep at the time that it
  -- announces, and hands the collected messages to the eNB in one batch for each message id, in
  -- the order of the ids' first messages, with at most eight messages each; the new state and the
  -- events are those of the sweep and of what the batches sent. It stops early only where a
  -- batch's aggregation does. Afterwards every message that was queued has been freed exactly
  -- once, or is queued still.
  pub subframe_round-sends_batches :
      (xss : List (List MessageBuffer))
      → Hold s.queues xss
      → (r : Dequeued) × (master : ℕ) × (rests : List (List MessageBuffer)) × Sweep
          (lte lib.pull16)
          (lte_time lib.pull16)
          (sfn_sf_counter s.counter).1
          master
          xss
          r.queues
          r.collected
          r.freed
          r.are_queues_empty
        × Hold r.queues rests
        × (subframe_round lib is_configured s ≡ (
            send_batches (oai_subframe_aggregate_message_id lib) (batches_of lib.pull16 r.collected)
            >>= λ sent. returns (subframe_worked r sent)))
        × IsOnce xss (r.freed ++ freed_batches (batches_of lib.pull16 r.collected)) rests
  unfolding subframe_round oai_subframe_aggregate_messages
  subframe_round-sends_batches xss h =
      let tx = (sfn_sf_counter s.counter).1 in
      let (r, master, run, sw) = dequeue_ue_msgs-Sweep lib.pull16 s.queues xss tx h in
      let a = swept-Accounted IsStored (lte lib.pull16) (lte_time lib.pull16) tx master h sw in
      let ids =
        timed_ids (lte_time lib.pull16) (id_of_message lib.pull16) (lte_time-ident_ne lib.pull16)
          (concat r.collected) (concat-IsStored r.collected a.stored) a.timed in
      let aggregated =
        collected-batches lib.pull16 (oai_subframe_aggregate_message_id lib) r.collected a.stored
          ids in
      (
        r,
        master,
        a.rests,
        sw,
        a.holds,
        elim (Outcome-cases (
            send_batches (oai_subframe_aggregate_message_id lib)
              (batches_of lib.pull16 r.collected))) [
                | inl e ↦ rw (run, aggregated, e) refl
                | inr (sent, e) ↦ rw (run, aggregated, e) refl
              ],
        freed-IsOnce lib.pull16 xss r.collected a.rests r.freed a.once,
      )

module _ {P : Type 0} (lib : NrLibrary P) (is_configured : Bool) (s : TaskState) where
  -- The state and the events of a round in which `r` was dequeued and `sent` was sent.
  abbrev pub slot_worked : Dequeued → List (NrSent P) → Worked (NrSent P)
  slot_worked r sent =
      let (counter, sfn_slot_tx) = sfn_slot_counter s.counter in
      record {
        state = record {
          counter = counter;
          queues = r.queues;
          are_queues_empty = r.are_queues_empty;
        };
        events =
            pauses 1000
            ∷ ue_time sfn_slot_tx
            ∷ (oai_slot_ind is_configured counter.sfn counter.sub ++ map sends sent);
        freed = r.freed ++ freed_batches (batches_of lib.pull16 r.collected);
      }

  -- When the queues hold stored messages, a round of the NR thread sleeps 1000 microseconds. It
  -- takes a sweep at the time that it announces, and hands the collected messages to the gNB in one
  -- batch for each message id, in the order of the ids' first messages, with at most eight messages
  -- each; the new state and the events are those of the sweep and of what the batches sent. It
  -- stops early only where a batch's aggregation does. Afterwards every message that was queued has
  -- been freed exactly once, or is queued still.
  pub slot_round-sends_batches :
      (xss : List (List MessageBuffer))
      → Hold s.queues xss
      → (r : Dequeued) × (master : ℕ) × (rests : List (List MessageBuffer)) × Sweep
          (nr lib.pull16)
          (nr_time lib.pull16)
          (sfn_slot_counter s.counter).1
          master
          xss
          r.queues
          r.collected
          r.freed
          r.are_queues_empty
        × Hold r.queues rests
        × (slot_round lib is_configured s ≡ (
            send_batches (oai_slot_aggregate_message_id lib) (batches_of lib.pull16 r.collected)
            >>= λ sent. returns (slot_worked r sent)))
        × IsOnce xss (r.freed ++ freed_batches (batches_of lib.pull16 r.collected)) rests
  unfolding slot_round oai_slot_aggregate_messages
  slot_round-sends_batches xss h =
      let tx = (sfn_slot_counter s.counter).1 in
      let (r, master, run, sw) = dequeue_ue_slot_msgs-Sweep lib.pull16 s.queues xss tx h in
      let a = swept-Accounted IsStored (nr lib.pull16) (nr_time lib.pull16) tx master h sw in
      let ids =
        timed_ids (nr_time lib.pull16) (id_of_message lib.pull16) (nr_time-ident_ne lib.pull16)
          (concat r.collected) (concat-IsStored r.collected a.stored) a.timed in
      let aggregated =
        collected-batches lib.pull16 (oai_slot_aggregate_message_id lib) r.collected a.stored ids in
      (
        r,
        master,
        a.rests,
        sw,
        a.holds,
        elim (Outcome-cases (
            send_batches (oai_slot_aggregate_message_id lib) (batches_of lib.pull16 r.collected))) [
              | inl e ↦ rw (run, aggregated, e) refl
              | inr (sent, e) ↦ rw (run, aggregated, e) refl
            ],
        freed-IsOnce lib.pull16 xss r.collected a.rests r.freed a.once,
      )
