-- ===== src/Batch/Pass.antt =====
-- One round of the aggregation loop: all messages of one id leave the entries, the first eight as
-- a batch.
use oai_lte_5g_multi_ue_prox.Base.{
  ℕ, zero, suc, ◌≤◌, ◌≡◌, ◌≢◌, refl, ap, true, false, Option, none, some, List, [], ◌∷◌, ◌++◌,
  returns, arith, length, All, append_assoc, append-nil, if◌then◌else◌, ◌==◌, ℕ_discrete, take,
  drop,
}
use oai_lte_5g_multi_ue_prox.Message.{MessageBuffer, Pull, get_message_id, data_max}
use oai_lte_5g_multi_ue_prox.Uplink.{max_msgs}
use oai_lte_5g_multi_ue_prox.Uplink.Drained.{IsStored}
use oai_lte_5g_multi_ue_prox.Batch.{
  Gather, gather_msg, gather_entry, gather_ue, gather_all, count_entries,
}

-- The messages that are not yet handled, in the order of the loops.
abbrev pub present : List (Option MessageBuffer) → List MessageBuffer
present [] = []
present (none ∷ es) = present es
present (some msg ∷ es) = msg ∷ present es

abbrev pub all_present : List (List (Option MessageBuffer)) → List MessageBuffer
all_present [] = []
all_present (u ∷ us) = present u ++ all_present us

module _ (ident : MessageBuffer → ℕ) where
  abbrev pub select : ℕ → List MessageBuffer → List MessageBuffer
  select id [] = []
  select id (m ∷ ms) = if ident m == id then m ∷ select id ms else select id ms

  abbrev pub reject : ℕ → List MessageBuffer → List MessageBuffer
  reject id [] = []
  reject id (m ∷ ms) = if ident m == id then reject id ms else m ∷ reject id ms

  pub select-append :
      (id : ℕ) (xs ys : List MessageBuffer) → select id (xs ++ ys) ≡ select id xs ++ select id ys
  select-append id [] ys = refl
  select-append id (x ∷ xs) ys = ground (arith, select-append id xs ys)

  pub reject-append :
      (id : ℕ) (xs ys : List MessageBuffer) → reject id (xs ++ ys) ≡ reject id xs ++ reject id ys
  reject-append id [] ys = refl
  reject-append id (x ∷ xs) ys = ground (arith, reject-append id xs ys)

take-snoc {ℓ} :
    {A : Type ℓ} (n : ℕ) (xs : List A) (x : A)
    → take n (xs ++ x ∷ []) ≡ (if length (take n xs) == n then take n xs else take n xs ++ x ∷ [])
take-snoc zero [] x = refl
take-snoc zero (y ∷ ys) x = refl
take-snoc (suc zero) [] x = ground arith
take-snoc (suc (suc n)) [] x = ground arith
take-snoc (suc n) (y ∷ ys) x = ground (arith, take-snoc n ys x)

drop-snoc {ℓ} :
    {A : Type ℓ} (n : ℕ) (xs : List A) (x : A)
    → drop n (xs ++ x ∷ []) ≡ (if length (take n xs) == n then drop n xs ++ x ∷ [] else drop n xs)
drop-snoc zero [] x = refl
drop-snoc zero (y ∷ ys) x = refl
drop-snoc (suc zero) [] x = ground arith
drop-snoc (suc (suc n)) [] x = ground arith
drop-snoc (suc n) (y ∷ ys) x = ground (arith, drop-snoc n ys x)

-- The state of a round that has met the messages `all` of the id, after `base` was freed.
abbrev pub gathered : ℕ → List MessageBuffer → List MessageBuffer → Gather
gathered id all base = record {
  found_msg_id = id;
  msgs_by_id = take max_msgs all;
  freed = base ++ drop max_msgs all;
}

abbrev pub IsGood : Option MessageBuffer → Type 0
IsGood none = Unit {0}
IsGood (some msg) = IsStored msg

module _ (pull16 : Pull) (ident : MessageBuffer → ℕ)
    (reads : (msg : MessageBuffer)
      → msg.length_field ≤ data_max
      → get_message_id pull16 msg ≡ returns (ident msg)) where
  pub gather_msg-gathered :
      (id : ℕ) (all base : List MessageBuffer) (msg : MessageBuffer)
      → id ≢ 0
      → IsStored msg
      → gather_msg pull16 (gathered id all base) msg
        ≡ returns (
            if ident msg == id
            then (gathered id (all ++ msg ∷ []) base, none)
            else (gathered id all base, some msg))
  unfolding gather_msg
  gather_msg-gathered id all base msg ne ok = ground (
    arith,
    ok.marked,
    reads msg ok.fits,
    take-snoc max_msgs all msg,
    drop-snoc max_msgs all msg,
    append_assoc base (drop max_msgs all) (msg ∷ []),
  )

  -- One UE's entries, once the round's id is known.
  abbrev pub GathersUe :
      ℕ → List MessageBuffer → List MessageBuffer → List (Option MessageBuffer) → Type 0
  GathersUe id all base es =
      (es' : List (Option MessageBuffer)) × (gather_ue pull16 (gathered id all base) es
        ≡ returns (gathered id (all ++ select ident id (present es)) base, es'))
      × (present es' ≡ reject ident id (present es))
      × All IsGood es'
      × (length es' ≡ length es)

  pub gather_ue-gathered :
      (id : ℕ) (all base : List MessageBuffer) (es : List (Option MessageBuffer))
      → id ≢ 0
      → All IsGood es
      → GathersUe id all base es
  unfolding gather_ue gather_entry
  gather_ue-gathered id all base [] ne ok = ([], ground (arith, append-nil all), refl, tt, refl)
  gather_ue-gathered id all base (none ∷ es) ne ok =
      let (es', run, left, good, len) = gather_ue-gathered id all base es ne ok.1 in
      (none ∷ es', ground (arith, run), left, (tt, good), ap suc len)
  gather_ue-gathered id all base (some msg ∷ es) ne ok = elim (ℕ_discrete (ident msg) id) [
    | yes e ↦
        let t : (ident msg == id) ≡ true = ground arith in
        let (es', run, left, good, len) = gather_ue-gathered id (all ++ msg ∷ []) base es ne ok.1 in
        (
          none ∷ es',
          ground (
            arith,
            gather_msg-gathered id all base msg ne ok.0,
            run,
            append_assoc all (msg ∷ []) (select ident id (present es)),
          ),
          rw t left,
          (tt, good),
          ap suc len,
        )
    | no d ↦
        let t : (ident msg == id) ≡ false = ground arith in
        let (es', run, left, good, len) = gather_ue-gathered id all base es ne ok.1 in
        (
          some msg ∷ es',
          ground (arith, gather_msg-gathered id all base msg ne ok.0, run),
          rw t (ap (◌∷◌ msg) left),
          (ok.0, good),
          ap suc len,
        )
  ]

  -- All UEs' entries, once the id is known.
  abbrev pub GathersAll :
      ℕ → List MessageBuffer → List MessageBuffer → List (List (Option MessageBuffer)) → Type 0
  GathersAll id all base us =
      (us' : List (List (Option MessageBuffer))) × (gather_all pull16 (gathered id all base) us
        ≡ returns (gathered id (all ++ select ident id (all_present us)) base, us'))
      × (all_present us' ≡ reject ident id (all_present us))
      × All (All IsGood) us'
      × (count_entries us' ≡ count_entries us)

  pub gather_all_lem :
      (id : ℕ) (all base : List MessageBuffer) (us : List (List (Option MessageBuffer)))
      → id ≢ 0
      → All (All IsGood) us
      → GathersAll id all base us
  unfolding gather_all
  gather_all_lem id all base [] ne ok = ([], ground (arith, append-nil all), refl, tt, refl)
  gather_all_lem id all base (u ∷ us) ne ok =
      let (u', run, left, good, len) = gather_ue-gathered id all base u ne ok.0 in
      let (us', runs, lefts, goods, lens) =
        gather_all_lem id (all ++ select ident id (present u)) base us ne ok.1 in
      (
        u' ∷ us',
        ground (
          arith,
          run,
          runs,
          append_assoc all (select ident id (present u)) (select ident id (all_present us)),
          select-append ident id (present u) (all_present us),
        ),
        ground (arith, left, lefts, reject-append ident id (present u) (all_present us)),
        (good, goods),
        omega (arith, len, lens),
      )
