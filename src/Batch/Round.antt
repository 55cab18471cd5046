-- ===== src/Batch/Round.antt =====
-- A round of the aggregation loops of src/nfapi_pnf.c before its id is known, and the loop that
-- frees a batch.
use oai_lte_5g_multi_ue_prox.Base.{
  ℕ, ◌≤◌, ◌≡◌, ◌≢◌, ◌⊎◌, refl, sym, subst, ap, ◌∙◌, inl, inr, Option, none, some, List, [], ◌∷◌,
  ◌++◌, returns, arith, length, All, append-nil, All-append, length-append,
}
use oai_lte_5g_multi_ue_prox.Message.{MessageBuffer, Pull, get_message_id, data_max}
use oai_lte_5g_multi_ue_prox.Uplink.Drained.{IsStored}
use oai_lte_5g_multi_ue_prox.Batch.{
  Gather, gather_msg, gather_entry, gather_ue, gather_all, count_entries, free_all,
}
use oai_lte_5g_multi_ue_prox.Batch.Pass.{present, all_present, gathered, IsGood}

append-eq-nil {ℓ} : {A : Type ℓ} (xs ys : List A) → xs ++ ys ≡ [] → (xs ≡ []) × (ys ≡ [])
append-eq-nil [] ys e = (refl, e)
append-eq-nil (x ∷ xs) ys e = cc

pub cons-cases {ℓ} :
    {A : Type ℓ} (xs : List A) → (xs ≡ []) ⊎ ((x : A) × (ys : List A) × (xs ≡ x ∷ ys))
cons-cases [] = inl refl
cons-cases (x ∷ xs) = inr (x, xs, refl)

module _ (pull16 : Pull) (ident : MessageBuffer → ℕ)
    (reads : (msg : MessageBuffer)
      → msg.length_field ≤ data_max
      → get_message_id pull16 msg ≡ returns (ident msg)) where
  abbrev fresh : List MessageBuffer → Gather
  fresh base = record { found_msg_id = 0; msgs_by_id = []; freed = base }

  gather_ue-none :
      (g : Gather) (es : List (Option MessageBuffer))
      → present es ≡ []
      → gather_ue pull16 g es ≡ returns (g, es)
  unfolding gather_ue gather_entry
  gather_ue-none g [] e = refl
  gather_ue-none g (none ∷ es) e = ground (arith, gather_ue-none g es e)
  gather_ue-none g (some m ∷ es) e = cc

  pub gather_all-none :
      (g : Gather) (us : List (List (Option MessageBuffer)))
      → all_present us ≡ []
      → gather_all pull16 g us ≡ returns (g, us)
  unfolding gather_all
  gather_all-none g [] e = refl
  gather_all-none g (u ∷ us) e =
      let (p, q) = append-eq-nil (present u) (all_present us) e in
      ground (arith, gather_ue-none g u p, gather_all-none g us q)

  gather_msg-first :
      (base : List MessageBuffer) (m : MessageBuffer)
      → IsStored m
      → ident m ≢ 0
      → gather_msg pull16 (fresh base) m ≡ gather_msg pull16 (gathered (ident m) [] base) m
  unfolding gather_msg
  gather_msg-first base m ok ne = ground (arith, ok.marked, reads m ok.fits, append-nil base)

  gather_ue-first :
      (base : List MessageBuffer) (es : List (Option MessageBuffer)) (m : MessageBuffer)
      (ms : List MessageBuffer)
      → All IsGood es
      → present es ≡ m ∷ ms
      → ident m ≢ 0
      → gather_ue pull16 (fresh base) es ≡ gather_ue pull16 (gathered (ident m) [] base) es
  unfolding gather_ue gather_entry
  gather_ue-first base [] m ms ok e ne = cc
  gather_ue-first base (none ∷ es) m ms ok e ne =
      ground (arith, gather_ue-first base es m ms ok.1 e ne)
  gather_ue-first base (some x ∷ es) m ms ok e ne =
      let x_m : x ≡ m = cc in
      rw (sym x_m)
        (ground (arith, gather_msg-first base x ok.0 (subst (λ t. ident t ≢ 0) (sym x_m) ne)))

  -- The first message of all gives the round's id.
  pub gather_all-first :
      (base : List MessageBuffer) (us : List (List (Option MessageBuffer))) (m : MessageBuffer)
      (ms : List MessageBuffer)
      → All (All IsGood) us
      → all_present us ≡ m ∷ ms
      → ident m ≢ 0
      → gather_all pull16 (fresh base) us ≡ gather_all pull16 (gathered (ident m) [] base) us
  unfolding gather_all
  gather_all-first base [] m ms ok e ne = cc
  gather_all-first base (u ∷ us) m ms ok e ne = elim (cons-cases (present u)) [
    | inl p ↦ ground (
      arith,
      gather_ue-none (fresh base) u p,
      gather_ue-none (gathered (ident m) [] base) u p,
      gather_all-first base us m ms ok.1 (ap (λ t. t ++ all_present us) (sym p) ∙ e) ne,
    )
    | inr (x, xs, p) ↦
        let q : x ∷ (xs ++ all_present us) ≡ m ∷ ms = ap (λ t. t ++ all_present us) (sym p) ∙ e in
        let x_m : x ≡ m = cc in
        ground (arith, gather_ue-first base u m xs ok.0 (p ∙ ap (λ t. t ∷ xs) x_m) ne)
  ]

present-IsStored : (es : List (Option MessageBuffer)) → All IsGood es → All IsStored (present es)
present-IsStored [] h = tt
present-IsStored (none ∷ es) h = present-IsStored es h.1
present-IsStored (some m ∷ es) h = (h.0, present-IsStored es h.1)

pub all_present-IsStored :
    (us : List (List (Option MessageBuffer))) → All (All IsGood) us → All IsStored (all_present us)
all_present-IsStored [] h = tt
all_present-IsStored (u ∷ us) h =
    All-append IsStored (present u) (all_present us) (present-IsStored u h.0)
      (all_present-IsStored us h.1)

pub free_all-IsStored : (ms : List MessageBuffer) → All IsStored ms → free_all ms ≡ returns ms
unfolding free_all
free_all-IsStored [] h = refl
free_all-IsStored (m ∷ ms) h = ground (arith, h.0.marked, free_all-IsStored ms h.1)

pub length-all_present :
    (us : List (List (Option MessageBuffer))) → length (all_present us) ≤ count_entries us
length-all_present [] = omega arith
length-all_present (u ∷ us) =
    omega
      (arith, length-append (present u) (all_present us), length-present u, length-all_present us)
  where
    length-present : (es : List (Option MessageBuffer)) → length (present es) ≤ length es
    length-present [] = omega arith
    length-present (none ∷ es) = omega (arith, length-present es)
    length-present (some m ∷ es) = omega (arith, length-present es)
