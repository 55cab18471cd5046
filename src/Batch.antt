-- ===== src/Batch.antt =====
-- oai_subframe_aggregate_messages and oai_slot_aggregate_messages of src/nfapi_pnf.c: the messages
-- collected in one subframe or slot are handed over in batches of one message id. The entry of a
-- message that has been handled is NULL, here `none`. The two functions have the same code;
-- `handler` stands for oai_subframe_aggregate_message_id or oai_slot_aggregate_message_id, which
-- `Aggregate` models, and gives the indications that it sends.
pub mod Pass
pub mod Select
pub mod Round
pub mod Batches
mod Examples
use oai_lte_5g_multi_ue_prox.Base.{
  ℕ, zero, suc, ◌+◌, Bool, true, false, not, Option, none, some, List, [], ◌∷◌, ◌++◌, Outcome,
  returns, aborts, ◌>>=◌, if◌then◌else◌, ◌==◌, length,
}
use oai_lte_5g_multi_ue_prox.Message.{MessageBuffer, message_buffer_magic, Pull, get_message_id}
use oai_lte_5g_multi_ue_prox.Uplink.{max_msgs}

-- `msgs_by_id` and `found_msg_id` of one round, and the messages freed so far, oldest first.
pub record Gather : Type 0 where
  pub found_msg_id : ℕ
  pub msgs_by_id : List MessageBuffer
  pub freed : List MessageBuffer

-- The loop that frees a batch asserts that each buffer is still marked.
unfoldable pub free_all : List MessageBuffer → Outcome (List MessageBuffer)
free_all [] = returns []
free_all (msg ∷ msgs) =
    if msg.magic == message_buffer_magic
    then (free_all msgs >>= λ freed. returns (msg ∷ freed))
    else aborts

module _ (pull16 : Pull) where
  -- The body of the two inner loops for one entry: the state, and the entry afterwards.
  unfoldable pub gather_msg : Gather → MessageBuffer → Outcome (Gather × Option MessageBuffer)
  gather_msg g msg =
      if not (msg.magic == message_buffer_magic)
      then aborts
      else get_message_id pull16 msg >>= λ id.
          let found = if g.found_msg_id == 0 then id else g.found_msg_id in
          returns (
            if found == id
            then (if length g.msgs_by_id == max_msgs
                then (record g { found_msg_id = found; freed = g.freed ++ msg ∷ [] }, none)
                else (
                  record g { found_msg_id = found; msgs_by_id = g.msgs_by_id ++ msg ∷ [] },
                  none,
                ))
            else (record g { found_msg_id = found }, some msg))

  unfoldable pub gather_entry :
      Gather → Option MessageBuffer → Outcome (Gather × Option MessageBuffer)
  gather_entry g none = returns (g, none)
  gather_entry g (some msg) = gather_msg g msg

  unfoldable pub gather_ue :
      Gather → List (Option MessageBuffer) → Outcome (Gather × List (Option MessageBuffer))
  gather_ue g [] = returns (g, [])
  gather_ue g (e ∷ es) =
      gather_entry g e >>= λ (g', e'). gather_ue g' es >>= λ (h, es'). returns (h, e' ∷ es')

  unfoldable pub gather_all :
      Gather
      → List (List (Option MessageBuffer))
      → Outcome (Gather × List (List (Option MessageBuffer)))
  gather_all g [] = returns (g, [])
  gather_all g (u ∷ us) =
      gather_ue g u >>= λ (g', u'). gather_all g' us >>= λ (h, us'). returns (h, u' ∷ us')

  module _ {E : Type 0} (handler : ℕ → List MessageBuffer → Outcome (List E)) where
    -- What was sent, and what was freed.
    unfoldable pub aggregate_rounds :
        ℕ
        → List (List (Option MessageBuffer))
        → List MessageBuffer
        → Outcome (List E × List MessageBuffer)
    aggregate_rounds zero msgs freed = aborts
    aggregate_rounds (suc fuel) msgs freed =
        gather_all (record { found_msg_id = 0; msgs_by_id = []; freed = freed }) msgs
        >>= λ (g, msgs'). elim (g.found_msg_id == 0) [
          | true ↦ returns ([], g.freed)
          | false ↦ handler g.found_msg_id g.msgs_by_id >>= λ sent.
              free_all g.msgs_by_id >>= λ released.
              aggregate_rounds fuel msgs' (g.freed ++ released) >>= λ (more, all_freed).
              returns (sent ++ more, all_freed)
        ]

abbrev pub count_entries {ℓ} : {A : Type ℓ} → List (List A) → ℕ
count_entries [] = 0
count_entries (xs ∷ xss) = length xs + count_entries xss

-- Each round but the last clears an entry, so one more round than entries is enough.
unfoldable pub aggregate_messages :
    {E : Type 0}
    → Pull
    → (ℕ → List MessageBuffer → Outcome (List E))
    → List (List (Option MessageBuffer))
    → Outcome (List E × List MessageBuffer)
aggregate_messages pull16 handler msgs =
    aggregate_rounds pull16 handler (count_entries msgs + 1) msgs []
