-- ===== src/Aggregate/Whole.antt =====
-- What an aggregated indication of src/nfapi_pnf.c holds.
use oai_lte_5g_multi_ue_prox.Base.{
  ℕ, zero, suc, ◌+◌, ◌%◌, ◌≤◌, ◌<◌, ◌≡◌, refl, sym, ap, ◌∙◌, inl, inr, Option, some, List, [], ◌∷◌,
  ◌++◌, returns, arith, length, append-nil, take, length-take, length-append,
}
use native.Mathlib.Nat.{mod-eq_of_lt, zero-mod}
use oai_lte_5g_multi_ue_prox.Message.{MessageBuffer}
use oai_lte_5g_multi_ue_prox.Aggregate.{no_header, Indication, Kind, aggregate}
use oai_lte_5g_multi_ue_prox.Aggregate.Combine.{
  pdus_of, last_frame, pdus_of-append, Unpacks, Aggregated, add_messages-Aggregated,
}

module _ {W P : Type 0} (kind : Kind W P) (unpack : List ℕ → Option (Indication W P)) where
  -- What `memset` leaves.
  abbrev pub zeroed : Indication W P
  zeroed = record { header = no_header; frame = kind.no_frame; number = 0; pdus = [] }

  -- The aggregate of a batch's indications.
  pub record IsWhole (inds : List (Indication W P)) (out : Indication W P) : Type 0 where
    pub copied : out.pdus ≡ take kind.max_pdu (pdus_of inds)
    pub counted : length (pdus_of inds) ≤ kind.max_pdu → out.number ≡ length out.pdus
    pub overcounted :
        kind.max_pdu < length (pdus_of inds)
        → (used : List (Indication W P)) × (unused : List (Indication W P)) × (inds
            ≡ used ++ unused)
          × (kind.max_pdu ≤ length (pdus_of used))
          × (out.number ≡ length (pdus_of used) % kind.count_bound)
    pub from_last :
        length (pdus_of inds) < kind.max_pdu
        → (out.header, out.frame) ≡ last_frame (no_header, kind.no_frame) inds

  take-append_le : (n : ℕ) (xs ys : List P) → n ≤ length xs → take n (xs ++ ys) ≡ take n xs
  take-append_le zero xs ys h = refl
  take-append_le (suc n) [] ys h = absurd (omega arith)
  take-append_le (suc n) (x ∷ xs) ys h = ap (◌∷◌ x) (take-append_le n xs ys (omega arith))

  Aggregated-IsWhole :
      (inds : List (Indication W P)) (out : Indication W P)
      → kind.max_pdu < kind.count_bound
      → Aggregated kind unpack zeroed [] inds out
      → IsWhole inds out
  Aggregated-IsWhole inds out wide a =
      let joined : pdus_of inds ≡ pdus_of a.used ++ pdus_of a.unused =
        ap pdus_of a.parts ∙ pdus_of-append a.used a.unused in
      let sizes : length (pdus_of inds) ≡ length (pdus_of a.used) + length (pdus_of a.unused) =
        ap length joined ∙ length-append (pdus_of a.used) (pdus_of a.unused) in
      record {
        copied = a.copied ∙ elim a.stops [
          | inl e ↦
              ap (take kind.max_pdu) (
                sym
                  (joined ∙ ap (λ t. pdus_of a.used ++ pdus_of t) e ∙ append-nil (pdus_of a.used)))
          | inr full ↦ sym (
              ap (take kind.max_pdu) joined
              ∙ take-append_le kind.max_pdu (pdus_of a.used) (pdus_of a.unused) full)
        ];
        counted = λ fit.
            a.counted
            ∙ mod-eq_of_lt (omega (arith, sizes, fit, wide))
            ∙ omega
                (arith, sizes, fit, ap length a.copied, length-take kind.max_pdu (pdus_of a.used));
        overcounted = λ more. (
          a.used,
          a.unused,
          a.parts,
          elim a.stops [
            | inl e ↦ omega (arith, more, sizes, ap (λ t. length (pdus_of t)) e)
            | inr full ↦ full
          ],
          a.counted,
        );
        from_last = λ fit. elim a.stops [
          | inl e ↦
              a.from_last
              ∙ ap (last_frame (no_header, kind.no_frame))
                  (sym (a.parts ∙ ap (λ t. a.used ++ t) e ∙ append-nil a.used))
          | inr full ↦ absurd (omega (arith, fit, sizes, full))
        ];
      }

  -- A batch of messages that unpack to indications that count their PDUs and that the function
  -- does not refuse gives one indication, which holds what `IsWhole` says.
  pub aggregate-IsWhole :
      (msg : MessageBuffer) (msgs : List MessageBuffer) (inds : List (Indication W P))
      → kind.max_pdu < kind.count_bound
      → Unpacks kind unpack (msg ∷ msgs) inds
      → (out : Indication W P) × (aggregate kind unpack (msg ∷ msgs) ≡ returns (some out))
        × IsWhole inds out
  unfolding aggregate
  aggregate-IsWhole msg msgs inds wide us =
      let (out, run, a) =
        add_messages-Aggregated kind unpack zeroed [] (msg ∷ msgs) inds refl (omega arith)
          (sym (zero-mod kind.count_bound)) us in
      (out, run, Aggregated-IsWhole inds out wide a)
