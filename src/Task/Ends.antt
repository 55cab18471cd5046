-- ===== src/Task/Ends.antt =====
-- A round of oai_subframe_task and of oai_slot_task of src/nfapi_pnf.c comes to its end.
use oai_lte_5g_multi_ue_prox.Base.{
  ℕ, zero, suc, ◌≡◌, refl, Option, some, List, [], ◌∷◌, ◌++◌, Outcome, All, take, Ends, >>=-Ends,
}
use oai_lte_5g_multi_ue_prox.Message.{MessageBuffer}
use oai_lte_5g_multi_ue_prox.Uplink.{max_msgs}
use oai_lte_5g_multi_ue_prox.Uplink.Drained.{IsStored}
use oai_lte_5g_multi_ue_prox.Batch.Pass.{select, reject}
use oai_lte_5g_multi_ue_prox.Batch.Select.{
  batches, send_batches, select-head, select-All, select-ids, reject-All, All-take,
}

module _ {E : Type 0} (P : MessageBuffer → Type 0) (ident : MessageBuffer → ℕ)
    (time : MessageBuffer → Option ℕ) (handler : ℕ → List MessageBuffer → Outcome (List E)) where
  abbrev IsTimed : MessageBuffer → Type 0
  IsTimed msg = (at : ℕ) × (time msg ≡ some at)

  abbrev pub HandlesAll : Type 0
  HandlesAll =
      (id : ℕ) (msg : MessageBuffer) (msgs : List MessageBuffer)
      → All P (msg ∷ msgs)
      → All (λ m. ident m ≡ id) (msg ∷ msgs)
      → All IsStored (msg ∷ msgs)
      → IsTimed msg
      → Ends (handler id (msg ∷ msgs))

  -- A batch starts with the first message of its id.
  batch-Ends :
      HandlesAll
      → (m : MessageBuffer) (ms : List MessageBuffer) → All P (m ∷ ms)
      → All IsStored (m ∷ ms)
      → IsTimed m
      → Ends (handler (ident m) (take max_msgs (select ident (ident m) (m ∷ ms))))
  batch-Ends handles m ms good ok timed =
      let chosen = select-All ident IsStored (ident m) ms ok.1 in
      rw (select-head ident m ms) (
        handles (ident m) m (take 7 (select ident (ident m) ms))
          (
            good.0,
            All-take P 7 (select ident (ident m) ms) (select-All ident P (ident m) ms good.1),
          )
          (
            refl,
            All-take (λ x. ident x ≡ ident m) 7 (select ident (ident m) ms)
                (select-ids ident (ident m) ms),
          )
          (ok.0, All-take IsStored 7 (select ident (ident m) ms) chosen) timed)

  pub send_batches-Ends :
      HandlesAll
      → (n : ℕ) (ms : List MessageBuffer) → All P ms
      → All IsStored ms
      → All IsTimed ms
      → Ends (send_batches handler (batches ident n ms))
  unfolding batches
  send_batches-Ends handles zero ms good ok timed = ([], refl)
  send_batches-Ends handles (suc n) [] good ok timed = ([], refl)
  send_batches-Ends handles (suc n) (m ∷ ms) good ok timed =
      >>=-Ends _ _ (batch-Ends handles m ms good ok timed.0) (λ sent.
        >>=-Ends _ _
          (send_batches-Ends handles n (reject ident (ident m) (m ∷ ms))
            (reject-All ident P (ident m) (m ∷ ms) good)
            (reject-All ident IsStored (ident m) (m ∷ ms) ok)
            (reject-All ident IsTimed (ident m) (m ∷ ms) timed))
          (λ more. (sent ++ more, refl)))
