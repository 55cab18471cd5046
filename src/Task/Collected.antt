-- ===== src/Task/Collected.antt =====
-- What oai_subframe_task and oai_slot_task of src/nfapi_pnf.c do with the messages of one time.
use mathlib.Core.List.{Perm, perm_append_comm}
use mathlib.Core.List.Perm
use oai_lte_5g_multi_ue_prox.Base.{
  ℕ, ◌≤◌, ◌≡◌, ◌≢◌, sym, subst, ap, ◌∙◌, Option, some, List, [], ◌∷◌, ◌++◌, map, Outcome, returns,
  ◌>>=◌, arith, length, All, All-append,
}
use oai_lte_5g_multi_ue_prox.Message.{MessageBuffer, Pull, data_max}
use oai_lte_5g_multi_ue_prox.Uplink.Drained.{IsStored}
use oai_lte_5g_multi_ue_prox.Batch.{aggregate_messages}
use oai_lte_5g_multi_ue_prox.Batch.Pass.{IsGood}
use oai_lte_5g_multi_ue_prox.Batch.Select.{batches, freed_batches, send_batches, freed_batches-Perm}
use oai_lte_5g_multi_ue_prox.Batch.Batches.{id_of_message, aggregate_messages-batches}
use oai_lte_5g_multi_ue_prox.Task.{entries}
use oai_lte_5g_multi_ue_prox.Task.Swept.{concat, all_present-entries}

pub entries-IsGood :
    (mss : List (List MessageBuffer)) → All (All IsStored) mss → All (All IsGood) (entries mss)
entries-IsGood [] h = tt
entries-IsGood (ms ∷ mss) h = (row ms h.0, entries-IsGood mss h.1)
  where
    row : (ms : List MessageBuffer) → All IsStored ms → All IsGood (map some ms)
    row [] h = tt
    row (m ∷ ms) h = (h.0, row ms h.1)

pub concat-IsStored :
    (mss : List (List MessageBuffer)) → All (All IsStored) mss → All IsStored (concat mss)
concat-IsStored [] h = tt
concat-IsStored (ms ∷ mss) h = All-append IsStored ms (concat mss) h.0 (concat-IsStored mss h.1)

-- The batches of what was collected, by message id.
abbrev pub batches_of : Pull → List (List MessageBuffer) → List (ℕ × List MessageBuffer)
batches_of pull16 mss = batches (id_of_message pull16) (length (concat mss)) (concat mss)

module _ {E : Type 0} (pull16 : Pull) (handler : ℕ → List MessageBuffer → Outcome (List E)) where
  -- The aggregation of collected messages.
  pub collected-batches :
      (mss : List (List MessageBuffer))
      → All (All IsStored) mss
      → All (λ m. id_of_message pull16 m ≢ 0) (concat mss)
      → aggregate_messages pull16 handler (entries mss) ≡ (
          send_batches handler (batches_of pull16 mss) >>= λ sent.
          returns (sent, freed_batches (batches_of pull16 mss)))
  collected-batches mss stored ids =
      let flat = all_present-entries mss in
      aggregate_messages-batches pull16 handler (entries mss) (entries-IsGood mss stored)
        (subst (All (λ m. id_of_message pull16 m ≢ 0)) (sym flat) ids)
      ∙ ap
          (λ ms.
            let bs = batches (id_of_message pull16) (length ms) ms in
            send_batches handler bs >>= λ sent. returns (sent, freed_batches bs))
          flat

pub timed_ids :
    (time : MessageBuffer → Option ℕ) (id : MessageBuffer → ℕ)
    (known : (m : MessageBuffer) (at : ℕ) → m.length_field ≤ data_max → time m ≡ some at → id m ≢ 0)
    (ms : List MessageBuffer)
    → All IsStored ms
    → All (λ msg. (at : ℕ) × (time msg ≡ some at)) ms
    → All (λ m. id m ≢ 0) ms
timed_ids time id known [] ok timed = tt
timed_ids time id known (m ∷ ms) ok timed =
    (known m timed.0.0 ok.0.fits timed.0.1, timed_ids time id known ms ok.1 timed.1)

-- The messages `before` a round are each freed once in it, or still queued in `rests`.
abbrev pub IsOnce :
    List (List MessageBuffer) → List MessageBuffer → List (List MessageBuffer) → Type 0
IsOnce before freed rests = Perm (freed ++ concat rests) (concat before)

pub freed-IsOnce :
    (pull16 : Pull) (xss mss rests : List (List MessageBuffer)) (freed : List MessageBuffer)
    → Perm ((concat mss ++ freed) ++ concat rests) (concat xss)
    → IsOnce xss (freed ++ freed_batches (batches_of pull16 mss)) rests
freed-IsOnce pull16 xss mss rests freed once =
    Perm.trans
      (Perm.append_right (concat rests) (
        Perm.trans
          (Perm.append_left freed (
            freed_batches-Perm (id_of_message pull16) (length (concat mss)) (concat mss)
              (omega arith)))
          (perm_append_comm freed (concat mss))))
      once
