-- ===== src/Run.antt =====
-- The loops of oai_subframe_task and oai_slot_task of src/nfapi_pnf.c, together with the threads
-- that put messages into the queues which they empty. A run is a sequence of calls, each of which
-- is taken as a whole: a round of the loop, or the handling of a message from a UE.
pub mod Kept
pub mod Times
pub mod Accounts
pub mod Complete
mod Examples
use oai_lte_5g_multi_ue_prox.Base.{ℕ, Bool, List, [], ◌∷◌, ◌++◌, Outcome, returns, ◌>>=◌}
use oai_lte_5g_multi_ue_prox.Queue.{Queue}
use oai_lte_5g_multi_ue_prox.Message.{MessageBuffer}
use oai_lte_5g_multi_ue_prox.Uplink.{oai_subframe_handle_msg_from_ue, oai_slot_handle_msg_from_ue}
use oai_lte_5g_multi_ue_prox.Aggregate.Subframe.{LteLibrary, LteSent}
use oai_lte_5g_multi_ue_prox.Aggregate.Slot.{NrLibrary, NrSent}
use oai_lte_5g_multi_ue_prox.Task.{Event, TaskState, Worked, subframe_round, slot_round}

-- A message with its NEM id, and a round.
pub data Call : Type 0 where
  receives : List ℕ → ℕ → Call
  works : Call

-- The state after a run is that of the task; `events` and `freed` are those of all rounds.
module _ {S : Type 0}
    (handle : List (Queue MessageBuffer) → List ℕ → ℕ → Outcome (List (Queue MessageBuffer)))
    (round : TaskState → Outcome (Worked S)) where
  unfoldable pub run_calls : TaskState → List Call → Outcome (Worked S)
  run_calls s [] = returns (record { state = s; events = []; freed = [] })
  run_calls s (receives msg nem_id ∷ calls) =
      handle s.queues msg nem_id >>= λ queues. run_calls (record s { queues = queues }) calls
  run_calls s (works ∷ calls) = round s >>= λ w. run_calls w.state calls >>= λ r.
      returns
        (record { state = r.state; events = w.events ++ r.events; freed = w.freed ++ r.freed })

unfoldable pub run_subframes :
    {P : Type 0} → LteLibrary P → Bool → TaskState → List Call → Outcome (Worked (LteSent P))
run_subframes lib is_configured s calls =
    run_calls oai_subframe_handle_msg_from_ue (subframe_round lib is_configured) s calls

unfoldable pub run_slots :
    {P : Type 0} → NrLibrary P → Bool → TaskState → List Call → Outcome (Worked (NrSent P))
run_slots lib is_configured s calls =
    run_calls oai_slot_handle_msg_from_ue (slot_round lib is_configured) s calls
