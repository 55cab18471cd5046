-- ===== src/Task.antt =====
-- The threads oai_subframe_task and oai_slot_task of src/nfapi_pnf.c: one round of each loop,
-- without the meeting of the two threads in NSA mode, which `Barrier` models, and the sleep at the
-- end of a round, which depends on the clock and is in `Pacing`. What a round does to the outside
-- is a list of events.
pub mod Swept
pub mod Ids
pub mod Ends
pub mod Collected
pub mod Rounds
pub mod Delivered
pub mod Returned
pub mod Pacing
mod Examples
use oai_lte_5g_multi_ue_prox.Base.{
  ℕ, ◌*◌, ◌^◌, Bool, true, false, Option, none, some, List, [], ◌∷◌, ◌++◌, map, Outcome, returns,
  ◌>>=◌, bit_or, if◌then◌else◌,
}
use oai_lte_5g_multi_ue_prox.Queue.{Queue}
use oai_lte_5g_multi_ue_prox.Sfn.{Counter, word16, sfn_sf_counter, sfn_slot_counter}
use oai_lte_5g_multi_ue_prox.Message.{MessageBuffer}
use oai_lte_5g_multi_ue_prox.Uplink.{Dequeued, dequeue_ue_msgs, dequeue_ue_slot_msgs}
use oai_lte_5g_multi_ue_prox.Batch.{aggregate_messages}
use oai_lte_5g_multi_ue_prox.Aggregate.Subframe.{
  LteLibrary, LteSent, oai_subframe_aggregate_message_id,
}
use oai_lte_5g_multi_ue_prox.Aggregate.Slot.{NrLibrary, NrSent, oai_slot_aggregate_message_id}

-- The time sent to the UEs, the time indicated to the base station, a `usleep` of so many
-- microseconds, and an indication sent to the base station.
pub data Event (S : Type 0) : Type 0 where
  ue_time : ℕ → Event S
  station_time : ℕ → Event S
  pauses : ℕ → Event S
  sends : S → Event S

-- What a thread keeps from round to round, and the queues that it empties.
pub record TaskState : Type 0 where
  pub counter : Counter
  pub queues : List (Queue MessageBuffer)
  pub are_queues_empty : Bool

-- A round's result: the state, the events in order, and the messages freed in order.
pub record Worked (S : Type 0) : Type 0 where
  pub state : TaskState
  pub events : List (Event S)
  pub freed : List MessageBuffer

-- The entries of the arrays that the dequeuing fills.
abbrev pub entries : List (List MessageBuffer) → List (List (Option MessageBuffer))
entries msgs = map (map some) msgs

-- `is_configured` is `p7_config_g != NULL`.
unfoldable pub oai_subframe_ind : {S : Type 0} → Bool → ℕ → ℕ → List (Event S)
oai_subframe_ind is_configured sfn sf =
    if is_configured then station_time (word16 (bit_or (sfn * 2 ^ 4) sf)) ∷ [] else []

-- The slot indication has the frame and the slot as fields of its own; here they are packed as
-- `sfn_slot_tx` is.
unfoldable pub oai_slot_ind : {S : Type 0} → Bool → ℕ → ℕ → List (Event S)
oai_slot_ind is_configured sfn slot =
    if is_configured then station_time (word16 (bit_or (sfn * 2 ^ 6) slot)) ∷ [] else []

-- `if (are_queues_empty) usleep(825);`, with what the round before left.
unfoldable pub subframe_pause : {S : Type 0} → Bool → List (Event S)
subframe_pause are_queues_empty = if are_queues_empty then pauses 825 ∷ [] else []

module _ {P : Type 0} where
  unfoldable pub oai_subframe_aggregate_messages :
      LteLibrary P
      → List (List (Option MessageBuffer))
      → Outcome (List (LteSent P) × List MessageBuffer)
  oai_subframe_aggregate_messages lib msgs =
      aggregate_messages lib.pull16 (oai_subframe_aggregate_message_id lib) msgs

  unfoldable pub oai_slot_aggregate_messages :
      NrLibrary P
      → List (List (Option MessageBuffer))
      → Outcome (List (NrSent P) × List MessageBuffer)
  oai_slot_aggregate_messages lib msgs =
      aggregate_messages lib.pull16 (oai_slot_aggregate_message_id lib) msgs

  -- One round of the `while (true)` of oai_subframe_task.
  unfoldable pub subframe_round : LteLibrary P → Bool → TaskState → Outcome (Worked (LteSent P))
  subframe_round lib is_configured s =
      let (counter, sfn_sf_tx) = sfn_sf_counter s.counter in
      dequeue_ue_msgs lib.pull16 s.queues sfn_sf_tx >>= λ r.
      oai_subframe_aggregate_messages lib (entries r.collected) >>= λ (sent, freed).
      returns (record {
        state = record {
          counter = counter;
          queues = r.queues;
          are_queues_empty = r.are_queues_empty;
        };
        events =
            ue_time sfn_sf_tx
            ∷ (subframe_pause s.are_queues_empty
                ++ (oai_subframe_ind is_configured counter.sfn counter.sub ++ map sends sent));
        freed = r.freed ++ freed;
      })

  -- One round of the `while (true)` of oai_slot_task.
  unfoldable pub slot_round : NrLibrary P → Bool → TaskState → Outcome (Worked (NrSent P))
  slot_round lib is_configured s =
      let (counter, sfn_slot_tx) = sfn_slot_counter s.counter in
      dequeue_ue_slot_msgs lib.pull16 s.queues sfn_slot_tx >>= λ r.
      oai_slot_aggregate_messages lib (entries r.collected) >>= λ (sent, freed). returns (record {
        state = record {
          counter = counter;
          queues = r.queues;
          are_queues_empty = r.are_queues_empty;
        };
        events =
            pauses 1000
            ∷ ue_time sfn_slot_tx
            ∷ (oai_slot_ind is_configured counter.sfn counter.sub ++ map sends sent);
        freed = r.freed ++ freed;
      })
