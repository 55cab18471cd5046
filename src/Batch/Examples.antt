-- ===== src/Batch/Examples.antt =====
-- Tests of the aggregation loop.
use oai_lte_5g_multi_ue_prox.Base.{
  ℕ, ◌≡◌, ◌≢◌, refl, Option, none, some, List, [], ◌∷◌, Outcome, returns, ◌>>=◌, arith, length,
}
use oai_lte_5g_multi_ue_prox.Message.{MessageBuffer, message_id_of}
use oai_lte_5g_multi_ue_prox.Message.Id
use oai_lte_5g_multi_ue_prox.Message.Examples.{read_word, message, crc_message}
use oai_lte_5g_multi_ue_prox.Uplink.Drained.{IsStored}
use oai_lte_5g_multi_ue_prox.Uplink.Examples.{crc_message-IsStored}
use oai_lte_5g_multi_ue_prox.Batch.{aggregate_messages}
use oai_lte_5g_multi_ue_prox.Batch.Select.{batches, freed_batches, send_batches}
use oai_lte_5g_multi_ue_prox.Batch.Batches.{id_of_message, aggregate_messages-batches}

-- Two UEs: the first one's first message is handled already, and the ids alternate.
abbrev rach_message : MessageBuffer
rach_message = message Id.rach_indication (0 ∷ 83 ∷ [])

abbrev two_ues : List (List (Option MessageBuffer))
two_ues = (none ∷ some crc_message ∷ some rach_message ∷ []) ∷ (some crc_message ∷ []) ∷ []

-- A handler that reports the id and the number of messages.
abbrev count_batch : ℕ → List MessageBuffer → Outcome (List (ℕ × ℕ))
count_batch id msgs = returns ((id, length msgs) ∷ [])

rach_message-IsStored : IsStored rach_message
rach_message-IsStored = record { marked = refl; fits = omega arith }

crc_message-id : id_of_message read_word crc_message ≢ 0
unfolding message_id_of
crc_message-id e = omega (arith, e)

rach_message-id : id_of_message read_word rach_message ≢ 0
unfolding message_id_of
rach_message-id e = omega (arith, e)

aggregate_messages-batches_example : aggregate_messages read_word count_batch two_ues ≡ (
    let ms = crc_message ∷ rach_message ∷ crc_message ∷ [] in
    let bs = batches (id_of_message read_word) 3 ms in
    send_batches count_batch bs >>= λ sent. returns (sent, freed_batches bs))
aggregate_messages-batches_example =
    aggregate_messages-batches read_word count_batch two_ues
      ((tt, (crc_message-IsStored, (rach_message-IsStored, tt))), ((crc_message-IsStored, tt), tt))
      (crc_message-id, (rach_message-id, (crc_message-id, tt)))
