-- ===== src/Aggregate/Ends.antt =====
-- When the aggregation of src/nfapi_pnf.c stops the program, and when it does not.
use oai_lte_5g_multi_ue_prox.Base.{
  true, ℕ, ◌≡◌, refl, inl, inr, false, Option, none, some, List, [], ◌∷◌, Ends, arith, length, All,
  ◌==◌, take, Option-cases, Bool-cases,
}
use oai_lte_5g_multi_ue_prox.Message.{MessageBuffer}
use oai_lte_5g_multi_ue_prox.Uplink.Drained.{IsStored}
use oai_lte_5g_multi_ue_prox.Aggregate.{Indication, Kind, add_messages, add_indication, aggregate}

module _ {W P : Type 0} (kind : Kind W P) (unpack : List ℕ → Option (Indication W P)) where
  -- A message is not refused, if it unpacks.
  abbrev pub IsAccepted : MessageBuffer → Type 0
  IsAccepted msg =
      (ind : Indication W P)
      → unpack (take msg.length_field msg.bytes) ≡ some ind
      → kind.refuses ind ≡ false

  add_messages-Ends :
      (agg : Indication W P) (msgs : List MessageBuffer)
      → All IsAccepted msgs
      → All IsStored msgs
      → Ends (add_messages kind unpack agg msgs)
  unfolding add_messages
  add_messages-Ends agg [] ok h = (some agg, refl)
  add_messages-Ends agg (msg ∷ msgs) ok h =
      elim (Option-cases (unpack (take msg.length_field msg.bytes))) [
        | inl e ↦ (none, ground (arith, h.0.fits, e))
        | inr (ind, e) ↦
            let agg' = add_indication kind agg ind in
            let fine = ok.0 ind e in
            elim (Bool-cases (length agg'.pdus == kind.max_pdu)) [
              | inl full ↦ (some agg', ground (arith, h.0.fits, e, fine, full))
              | inr room ↦
                  let (out, run) = add_messages-Ends agg' msgs ok.1 h.1 in
                  (out, ground (arith, h.0.fits, e, fine, room, run))
            ]
      ]

  pub aggregate-Ends :
      (msg : MessageBuffer) (msgs : List MessageBuffer)
      → All IsAccepted (msg ∷ msgs)
      → All IsStored (msg ∷ msgs)
      → Ends (aggregate kind unpack (msg ∷ msgs))
  unfolding aggregate
  aggregate-Ends msg msgs ok h = add_messages-Ends _ (msg ∷ msgs) ok h

-- What each message with an id satisfies, in a batch of this id.
pub All-of_id :
    (ident : MessageBuffer → ℕ) (P Q : MessageBuffer → Type 0) (id goal : ℕ)
    → (id == goal) ≡ true
    → ((msg : MessageBuffer) → P msg → ident msg ≡ goal → Q msg)
    → (msgs : List MessageBuffer) → All P msgs
    → All (λ msg. ident msg ≡ id) msgs
    → All Q msgs
All-of_id ident P Q id goal same get [] ok ids = tt
All-of_id ident P Q id goal same get (msg ∷ msgs) ok ids =
    let right : ident msg ≡ goal = ground (arith, same, ids.0) in
    (get msg ok.0 right, All-of_id ident P Q id goal same get msgs ok.1 ids.1)
