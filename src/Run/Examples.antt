-- ===== src/Run/Examples.antt =====
-- Tests of the runs of both loops.
use oai_lte_5g_multi_ue_prox.Base.{
  ℕ, Bool, ◌+◌, ◌*◌, ◌≡◌, refl, sym, ap, true, false, Option, none, some, List, [], ◌∷◌, returns,
  arith,
}
use oai_lte_5g_multi_ue_prox.Message.Examples.{message}
use oai_lte_5g_multi_ue_prox.Uplink.{new_buffer, init_queues, oai_subframe_init, oai_slot_init}
use oai_lte_5g_multi_ue_prox.Uplink.Receive.{no_messages, init_queues-Hold}
use oai_lte_5g_multi_ue_prox.Aggregate.{Indication}
use oai_lte_5g_multi_ue_prox.Aggregate.Slot.{NrSent, rx_data_kind}
use oai_lte_5g_multi_ue_prox.Message.Id
use oai_lte_5g_multi_ue_prox.Message.{MessageBuffer, message_id_of}
use oai_lte_5g_multi_ue_prox.Batch.Batches.{id_of_message}
use oai_lte_5g_multi_ue_prox.Aggregate.EndsNr.{IsNrAcceptable}
use oai_lte_5g_multi_ue_prox.Aggregate.Examples.{nr_library}
use oai_lte_5g_multi_ue_prox.Task.{TaskState, Worked}
use oai_lte_5g_multi_ue_prox.Run.{Call, receives, works, run_slots}
use oai_lte_5g_multi_ue_prox.Run.Times.{times_after}
use oai_lte_5g_multi_ue_prox.Run.Accounts.{count_rounds, IsAccounted}
use oai_lte_5g_multi_ue_prox.Run.Complete.{run_slots-IsAccounted}

-- Whether an unpacked indication is refused.
abbrev is_refused :
    {W : Type 0} {P : Type 0} → (Indication W P → Bool) → Option (Indication W P) → Bool
is_refused refuses none = false
is_refused refuses (some ind) = refuses ind

-- RX data of slot 5.3, with one PDU.
abbrev rx_data_message : MessageBuffer
rx_data_message = message Id.nr_rx_data_indication (0 ∷ 5 ∷ 0 ∷ 3 ∷ 7 ∷ [])

rx_data_message_id :
    id_of_message nr_library.pull16 (new_buffer rx_data_message.bytes) ≡ Id.nr_rx_data_indication
unfolding message_id_of
rx_data_message_id = refl

rx_data_message-IsNrAcceptable : IsNrAcceptable nr_library (new_buffer rx_data_message.bytes)
rx_data_message-IsNrAcceptable = record {
  rx_data_counted = λ id ind e. sym (ap (is_refused (λ i. rx_data_kind.refuses i)) e);
  uci_known = λ id. absurd (omega (arith, id, rx_data_message_id));
}

some_queues : oai_subframe_init 64 ≡ some (init_queues 64)
unfolding oai_subframe_init
some_queues = refl

too_many_queues : oai_slot_init 65 ≡ none
unfolding oai_slot_init
too_many_queues = refl

-- A message of the first of two UEs, a dummy, a message of no UE, and three rounds.
abbrev calls_with : List ℕ → List Call
calls_with msg =
    receives msg 2 ∷ works ∷ receives (0 ∷ 0 ∷ 0 ∷ 0 ∷ []) 3 ∷ works ∷ receives msg 9 ∷ works ∷ []

-- The last subframe, and the last slot, come next.
abbrev lte_start : TaskState
lte_start = record {
  counter = record { sfn = 1023; sub = 8 };
  queues = init_queues 2;
  are_queues_empty = true;
}

abbrev nr_start : TaskState
nr_start = record {
  counter = record { sfn = 1023; sub = 18 };
  queues = init_queues 2;
  are_queues_empty = true;
}

lte_times : times_after 10 16 10238 3 ≡ (16377 ∷ 0 ∷ 1 ∷ [])
lte_times = refl

nr_times : times_after 20 64 20478 3 ≡ (65491 ∷ 0 ∷ 1 ∷ [])
nr_times = refl

run_slots-IsAccounted_example :
    (r : Worked (NrSent ℕ)) × (run_slots nr_library true nr_start (calls_with rx_data_message.bytes)
      ≡ returns r)
    × IsAccounted
        (no_messages 2)
        2
        (calls_with rx_data_message.bytes)
        (times_after 20 64 (1023 * 20 + 18) (count_rounds (calls_with rx_data_message.bytes)))
        r
run_slots-IsAccounted_example =
    run_slots-IsAccounted nr_library true nr_start (no_messages 2)
      (calls_with rx_data_message.bytes) (init_queues-Hold 2) (tt, (tt, tt)) (omega arith)
      (omega arith)
      (
        omega arith,
        (λ kept. rx_data_message-IsNrAcceptable),
        (
          omega arith,
          (λ kept. absurd (ground (arith, kept))),
          (omega arith, (λ kept. rx_data_message-IsNrAcceptable), tt),
        ),
      )
