-- ===== src/Uplink/Examples.antt =====
-- Tests of the uplink queues, and the queues that other tests use.
use oai_lte_5g_multi_ue_prox.Base.{
  ℕ, zero, suc, ◌+◌, ◌-◌, ◌%◌, ◌≤◌, ◌<◌, ◌≡◌, ◌≢◌, ◌⊎◌, refl, none, some, List, [], ◌∷◌, returns,
  arith, length, get_elem?,
}
use oai_lte_5g_multi_ue_prox.Queue.{Queue, max_queue_size, update}
use oai_lte_5g_multi_ue_prox.Queue.Ring.{Represents}
use oai_lte_5g_multi_ue_prox.Message.{MessageBuffer, data_max}
use oai_lte_5g_multi_ue_prox.Message.Examples.{read_word, crc_message, nr_crc_message}
use oai_lte_5g_multi_ue_prox.Uplink.{
  lte, nr, Dequeued, dequeue_ue_msgs, dequeue_ue_slot_msgs, min_ue_nem_id, new_buffer,
  oai_subframe_handle_msg_from_ue, oai_slot_handle_msg_from_ue,
}
use oai_lte_5g_multi_ue_prox.Uplink.Drained.{IsStored}
use oai_lte_5g_multi_ue_prox.Uplink.Sweep.{
  Hold, no_ue, one_ue, Sweep, dequeue_ue_msgs-Sweep, dequeue_ue_slot_msgs-Sweep,
}
use oai_lte_5g_multi_ue_prox.Uplink.Times.{lte_time, nr_time}
use oai_lte_5g_multi_ue_prox.Uplink.Receive.{enqueue_at, handle_msg_from_ue-enqueues}

-- A queue with one message.
abbrev pub queue_with : MessageBuffer → Queue MessageBuffer
queue_with msg = record {
  items = update (λ _. none) 0 (some msg);
  read_index = 0;
  write_index = 1;
  num_items = 1;
}

pub queue_with-Represents : (msg : MessageBuffer) → Represents (queue_with msg) (msg ∷ [])
queue_with-Represents msg = record {
  read_in = omega arith;
  fits = omega arith;
  counted = refl;
  written = refl;
  slot = slots;
}
  where
    slots :
        (k : ℕ)
        → k < max_queue_size
        → (queue_with msg).items ((0 + k) % max_queue_size) ≡ get_elem? (msg ∷ []) k
    slots zero h = ground arith
    slots (suc k) h = ground arith

-- One UE with a message in its queue.
pub one_message-Hold :
    (msg : MessageBuffer) → IsStored msg → Hold (queue_with msg ∷ []) ((msg ∷ []) ∷ [])
one_message-Hold msg ok = one_ue (queue_with-Represents msg) (ok, tt) no_ue

pub crc_message-IsStored : IsStored crc_message
crc_message-IsStored = record { marked = refl; fits = omega arith }

pub nr_crc_message-IsStored : IsStored nr_crc_message
nr_crc_message-IsStored = record { marked = refl; fits = omega arith }

dequeue_ue_msgs-Sweep_example :
    (r : Dequeued) × (master : ℕ) × (dequeue_ue_msgs read_word (queue_with crc_message ∷ []) 84
      ≡ returns r)
    × Sweep
        (lte read_word)
        (lte_time read_word)
        84
        master
        ((crc_message ∷ []) ∷ [])
        r.queues
        r.collected
        r.freed
        r.are_queues_empty
dequeue_ue_msgs-Sweep_example =
    dequeue_ue_msgs-Sweep read_word (queue_with crc_message ∷ []) ((crc_message ∷ []) ∷ []) 84
      (one_message-Hold crc_message crc_message-IsStored)

dequeue_ue_slot_msgs-Sweep_example :
    (r : Dequeued) × (master : ℕ) × (dequeue_ue_slot_msgs read_word
        (queue_with nr_crc_message ∷ [])
        324
      ≡ returns r)
    × Sweep
        (nr read_word)
        (nr_time read_word)
        324
        master
        ((nr_crc_message ∷ []) ∷ [])
        r.queues
        r.collected
        r.freed
        r.are_queues_empty
dequeue_ue_slot_msgs-Sweep_example =
    dequeue_ue_slot_msgs-Sweep read_word (queue_with nr_crc_message ∷ [])
      ((nr_crc_message ∷ []) ∷ []) 324 (one_message-Hold nr_crc_message nr_crc_message-IsStored)

abbrev one_queue : List (Queue MessageBuffer)
one_queue = queue_with crc_message ∷ []

abbrev datagram : List ℕ
datagram = nr_crc_message.bytes

handle_msg_from_ue-enqueues_example :
    (length datagram ≢ 4
      → length datagram < data_max
      → min_ue_nem_id ≤ 2
      → 2 - min_ue_nem_id < length one_queue
      → (qs' : List (Queue MessageBuffer)) × (oai_subframe_handle_msg_from_ue one_queue datagram 2
          ≡ returns qs')
        × (oai_slot_handle_msg_from_ue one_queue datagram 2 ≡ returns qs')
        × Hold qs' (enqueue_at ((crc_message ∷ []) ∷ []) (2 - min_ue_nem_id) (new_buffer datagram)))
    × ((length datagram ≡ 4) ⊎ (2 < min_ue_nem_id) ⊎ (length one_queue ≤ 2 - min_ue_nem_id)
        → (oai_subframe_handle_msg_from_ue one_queue datagram 2 ≡ returns one_queue)
          × (oai_slot_handle_msg_from_ue one_queue datagram 2 ≡ returns one_queue))
handle_msg_from_ue-enqueues_example =
    handle_msg_from_ue-enqueues one_queue ((crc_message ∷ []) ∷ []) datagram 2
      (one_message-Hold crc_message crc_message-IsStored)
