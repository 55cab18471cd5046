-- ===== src/Batch/Batches.antt =====
-- The aggregation loops of src/nfapi_pnf.c as a whole: which batches they hand over.
use oai_lte_5g_multi_ue_prox.Base.{
  ℕ, zero, suc, ◌+◌, ◌≤◌, ◌<◌, ◌≡◌, ◌≢◌, sym, subst, ap, ap₂, ◌∙◌, inl, inr, Option, List, [], ◌∷◌,
  ◌++◌, Outcome, returns, ◌>>=◌, arith, length, All, append_assoc, append-nil, take, drop,
  Outcome-cases,
}
use oai_lte_5g_multi_ue_prox.Message.{
  MessageBuffer, Pull, get_message_id, message_id_of, valid_bytes, data_max,
}
use oai_lte_5g_multi_ue_prox.Uplink.{max_msgs}
use oai_lte_5g_multi_ue_prox.Uplink.Drained.{IsStored}
use oai_lte_5g_multi_ue_prox.Batch.{gather_all, count_entries, aggregate_rounds, aggregate_messages}
use oai_lte_5g_multi_ue_prox.Batch.Pass.{
  all_present, select, reject, gathered, IsGood, gather_all_lem,
}
use oai_lte_5g_multi_ue_prox.Batch.Select.{
  batches, batches_fuel, length-reject-le, reject-head, All-take, select-All, reject-All,
  freed_batches, send_batches,
}
use oai_lte_5g_multi_ue_prox.Batch.Round.{
  cons-cases, gather_all-none, gather_all-first, all_present-IsStored, free_all-IsStored,
  length-all_present,
}

module _ {E : Type 0} (pull16 : Pull) (handler : ℕ → List MessageBuffer → Outcome (List E))
    (ident : MessageBuffer → ℕ)
    (reads : (msg : MessageBuffer)
      → msg.length_field ≤ data_max
      → get_message_id pull16 msg ≡ returns (ident msg)) where
  -- What the rounds come to when the batches are `bs` and `base` is already freed.
  abbrev outcome_of :
      List (ℕ × List MessageBuffer) → List MessageBuffer → Outcome (List E × List MessageBuffer)
  outcome_of bs base = send_batches handler bs >>= λ sent. returns (sent, base ++ freed_batches bs)

  abbrev RoundsLem : ℕ → Type 0
  RoundsLem fuel =
      (us : List (List (Option MessageBuffer))) (base : List MessageBuffer)
      → All (All IsGood) us
      → All (λ m. ident m ≢ 0) (all_present us)
      → length (all_present us) < fuel
      → aggregate_rounds pull16 handler fuel us base
        ≡ outcome_of (batches ident fuel (all_present us)) base

  aggregate_rounds-none :
      (fuel : ℕ) (us : List (List (Option MessageBuffer))) (base : List MessageBuffer)
      → all_present us ≡ []
      → aggregate_rounds pull16 handler (suc fuel) us base
        ≡ outcome_of (batches ident (suc fuel) (all_present us)) base
  unfolding aggregate_rounds batches
  aggregate_rounds-none fuel us base e = rw e (
      ground (
        arith,
        gather_all-none pull16 ident reads
            (record { found_msg_id = 0; msgs_by_id = []; freed = base }) us e,
        append-nil base,
      ))

  -- One round, given what the rest comes to.
  aggregate_rounds-cons :
      (fuel id : ℕ) (all base : List MessageBuffer) (us us' : List (List (Option MessageBuffer)))
      (bs : List (ℕ × List MessageBuffer))
      → id ≢ 0
      → gather_all pull16 (record { found_msg_id = 0; msgs_by_id = []; freed = base }) us
        ≡ returns (gathered id all base, us')
      → All IsStored (take max_msgs all)
      → aggregate_rounds pull16 handler fuel us' ((base ++ drop max_msgs all) ++ take max_msgs all)
        ≡ outcome_of bs ((base ++ drop max_msgs all) ++ take max_msgs all)
      → aggregate_rounds pull16 handler (suc fuel) us base ≡ outcome_of ((id, all) ∷ bs) base
  unfolding aggregate_rounds
  aggregate_rounds-cons fuel id all base us us' bs ne run kept rest =
      let free = free_all-IsStored (take max_msgs all) kept in
      elim (Outcome-cases (handler id (take max_msgs all))) [
        | inl a ↦ ground (arith, run, a)
        | inr (sent, h) ↦ elim (Outcome-cases (send_batches handler bs)) [
          | inl a ↦ ground (arith, run, h, free, rest, a)
          | inr (more, k) ↦ ground (arith, run, h, free, rest, k, freed_eq)
        ]
      ]
    where
      freed_eq :
          ((base ++ drop max_msgs all) ++ take max_msgs all) ++ freed_batches bs
          ≡ base ++ ((drop max_msgs all ++ take max_msgs all) ++ freed_batches bs)
      freed_eq =
          ap (λ t. t ++ freed_batches bs)
            (append_assoc base (drop max_msgs all) (take max_msgs all))
          ∙ append_assoc base (drop max_msgs all ++ take max_msgs all) (freed_batches bs)

  aggregate_rounds-step : (fuel : ℕ) → RoundsLem fuel → RoundsLem (suc fuel)
  unfolding aggregate_rounds batches
  aggregate_rounds-step fuel ih us base ok ids short = elim (cons-cases (all_present us)) [
    | inl e ↦ aggregate_rounds-none fuel us base e
    | inr (m, ms, e) ↦
        let ne : ident m ≢ 0 = (subst (All (λ m. ident m ≢ 0)) e ids).0 in
        let id : ℕ = ident m in
        let all : List MessageBuffer = select ident id (all_present us) in
        let (us', run, left, good, len) = gather_all_lem pull16 ident reads id [] base us ne ok in
        let first = gather_all-first pull16 ident reads base us m ms ok e ne in
        let kept =
          All-take IsStored max_msgs all
            (select-All ident IsStored id (all_present us) (all_present-IsStored us ok)) in
        let shorter : length (all_present us') < fuel =
          rw (left, e, reject-head ident m ms)
            (omega (arith, short, ap length e, length-reject-le ident id ms)) in
        let rest =
          ih us' ((base ++ drop max_msgs all) ++ take max_msgs all) good
            (subst (All (λ m. ident m ≢ 0)) (sym left)
              (reject-All ident (λ m. ident m ≢ 0) id (all_present us) ids))
            shorter in
        let batch_eq : batches ident (suc fuel) (all_present us)
            ≡ (id, all) ∷ batches ident fuel (all_present us') =
          ap (batches ident (suc fuel)) e
          ∙ ap₂ (λ xs ys. (id, xs) ∷ batches ident fuel ys) (ap (select ident id) (sym e))
              (ap (reject ident id) (sym e) ∙ sym left) in
        aggregate_rounds-cons fuel id all base us us' (batches ident fuel (all_present us')) ne
          (first ∙ run) kept rest
        ∙ ap (λ bs. outcome_of bs base) (sym batch_eq)
  ]

  aggregate_rounds-batches : (fuel : ℕ) → RoundsLem fuel
  aggregate_rounds-batches zero us base ok ids short = absurd (omega arith)
  aggregate_rounds-batches (suc fuel) us base ok ids short =
      aggregate_rounds-step fuel (aggregate_rounds-batches fuel) us base ok ids short

  aggregate_messages-ident_batches :
      (us : List (List (Option MessageBuffer)))
      → All (All IsGood) us
      → All (λ m. ident m ≢ 0) (all_present us)
      → aggregate_messages pull16 handler us ≡ (
          let bs = batches ident (length (all_present us)) (all_present us) in
          send_batches handler bs >>= λ sent. returns (sent, freed_batches bs))
  unfolding aggregate_messages
  aggregate_messages-ident_batches us ok ids =
      let short = length-all_present us in
      aggregate_rounds-batches (count_entries us + 1) us [] ok ids (omega (arith, short))
      ∙ ap (λ bs. outcome_of bs [])
          (batches_fuel ident (count_entries us + 1) (length (all_present us)) (all_present us)
            (omega (arith, short)) (omega arith))

-- The id that `get_message_id` reads in a buffer of valid length.
abbrev pub id_of_message : Pull → MessageBuffer → ℕ
id_of_message pull16 msg = message_id_of pull16 (take msg.length_field msg.bytes)

get_message_id_lem :
    (pull16 : Pull) (msg : MessageBuffer)
    → msg.length_field ≤ data_max
    → get_message_id pull16 msg ≡ returns (id_of_message pull16 msg)
unfolding get_message_id valid_bytes
get_message_id_lem pull16 msg h = ground arith

-- When every entry holds a stored message, and every message has an id other than 0, the loop
-- hands over one batch for each id, in the order in which the ids first occur, and then ends; it
-- stops early only where the handling of a batch does. A batch has the first eight messages of its
-- id, in order. Every message is freed: of each batch first those past the eighth, then the
-- others.
pub aggregate_messages-batches :
    {E : Type 0} (pull16 : Pull) (handler : ℕ → List MessageBuffer → Outcome (List E))
    (us : List (List (Option MessageBuffer)))
    → All (All IsGood) us
    → All (λ m. id_of_message pull16 m ≢ 0) (all_present us)
    → aggregate_messages pull16 handler us ≡ (
        let bs = batches (id_of_message pull16) (length (all_present us)) (all_present us) in
        send_batches handler bs >>= λ sent. returns (sent, freed_batches bs))
aggregate_messages-batches pull16 handler us ok ids =
    aggregate_messages-ident_batches pull16 handler (id_of_message pull16)
      (get_message_id_lem pull16) us ok ids
