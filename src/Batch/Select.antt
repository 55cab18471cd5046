-- ===== src/Batch/Select.antt =====
-- The messages of the aggregation loops of src/nfapi_pnf.c, sorted into batches of one id.
use mathlib.Core.List.{Perm, perm_middle, perm_append_comm}
use mathlib.Core.List.Perm
use oai_lte_5g_multi_ue_prox.Base.{
  ℕ, zero, suc, ◌≤◌, ◌≡◌, refl, sym, subst, ap, inl, inr, true, false, List, [], ◌∷◌, ◌++◌, Outcome,
  returns, ◌>>=◌, arith, length, All, ◌==◌, ℕ_discrete, take, drop, take-append-drop, take_all,
  Bool-cases,
}
use oai_lte_5g_multi_ue_prox.Message.{MessageBuffer}
use oai_lte_5g_multi_ue_prox.Uplink.{max_msgs}
use oai_lte_5g_multi_ue_prox.Batch.Pass.{select, reject}

module _ (ident : MessageBuffer → ℕ) where
  -- The messages of each id, in the order of their first messages.
  unfoldable pub batches : ℕ → List MessageBuffer → List (ℕ × List MessageBuffer)
  batches zero ms = []
  batches (suc n) [] = []
  batches (suc n) (m ∷ ms) =
      (ident m, select ident (ident m) (m ∷ ms)) ∷ batches n (reject ident (ident m) (m ∷ ms))

  pub length-reject-le :
      (id : ℕ) (ms : List MessageBuffer) → length (reject ident id ms) ≤ length ms
  length-reject-le id [] = omega arith
  length-reject-le id (m ∷ ms) = ground (arith, length-reject-le id ms)

  pub reject-head :
      (m : MessageBuffer) (ms : List MessageBuffer)
      → reject ident (ident m) (m ∷ ms) ≡ reject ident (ident m) ms
  reject-head m ms = ground arith

  pub select-head :
      (m : MessageBuffer) (ms : List MessageBuffer)
      → select ident (ident m) (m ∷ ms) ≡ m ∷ select ident (ident m) ms
  select-head m ms = ground arith

  pub batches_fuel :
      (n k : ℕ) (ms : List MessageBuffer)
      → length ms ≤ n
      → length ms ≤ k
      → batches n ms ≡ batches k ms
  unfolding batches
  batches_fuel zero zero ms p q = refl
  batches_fuel zero (suc k) [] p q = refl
  batches_fuel zero (suc k) (m ∷ ms) p q = absurd (omega arith)
  batches_fuel (suc n) zero [] p q = refl
  batches_fuel (suc n) zero (m ∷ ms) p q = absurd (omega arith)
  batches_fuel (suc n) (suc k) [] p q = refl
  batches_fuel (suc n) (suc k) (m ∷ ms) p q = ap (◌∷◌ (ident m, select ident (ident m) (m ∷ ms))) (
      rw reject-head (
        batches_fuel n k (reject ident (ident m) ms) (omega (arith, length-reject-le (ident m) ms))
          (omega (arith, length-reject-le (ident m) ms))))

  pub select-reject-Perm :
      (id : ℕ) (ms : List MessageBuffer) → Perm (select ident id ms ++ reject ident id ms) ms
  select-reject-Perm id [] = Perm.nil
  select-reject-Perm id (m ∷ ms) = elim (ℕ_discrete (ident m) id) [
    | yes e ↦
        let t : (ident m == id) ≡ true = ground arith in
        rw t (Perm.cons m (select-reject-Perm id ms))
    | no d ↦
        let t : (ident m == id) ≡ false = ground arith in
        rw t (
          Perm.trans (perm_middle (select ident id ms) (reject ident id ms))
            (Perm.cons m (select-reject-Perm id ms)))
  ]

-- What is freed, in order: of each batch first what exceeds eight messages.
abbrev pub freed_batches : List (ℕ × List MessageBuffer) → List MessageBuffer
freed_batches [] = []
freed_batches ((id, ms) ∷ bs) = (drop max_msgs ms ++ take max_msgs ms) ++ freed_batches bs

-- Each batch is handed over with at most eight messages.
abbrev pub send_batches :
    {E : Type 0}
    → (ℕ → List MessageBuffer → Outcome (List E))
    → List (ℕ × List MessageBuffer)
    → Outcome (List E)
send_batches handler [] = returns []
send_batches handler ((id, ms) ∷ bs) = handler id (take max_msgs ms) >>= λ sent.
    send_batches handler bs >>= λ more. returns (sent ++ more)

pub All-take {ℓ κ} :
    {A : Type ℓ} (P : A → Type κ) (n : ℕ) (xs : List A) → All P xs → All P (take n xs)
All-take P zero xs h = tt
All-take P (suc n) [] h = tt
All-take P (suc n) (x ∷ xs) h = (h.0, All-take P n xs h.1)

pub select-All {κ} :
    (ident : MessageBuffer → ℕ) (P : MessageBuffer → Type κ) (id : ℕ) (ms : List MessageBuffer)
    → All P ms
    → All P (select ident id ms)
select-All ident P id [] h = tt
select-All ident P id (m ∷ ms) h = elim (Bool-cases (ident m == id)) [
  | inl t ↦ rw t (h.0, select-All ident P id ms h.1)
  | inr t ↦ rw t (select-All ident P id ms h.1)
]

pub select-ids :
    (ident : MessageBuffer → ℕ) (id : ℕ) (ms : List MessageBuffer)
    → All (λ m. ident m ≡ id) (select ident id ms)
select-ids ident id [] = tt
select-ids ident id (m ∷ ms) = elim (Bool-cases (ident m == id)) [
  | inl t ↦ rw t (ground (arith, t), select-ids ident id ms)
  | inr t ↦ rw t (select-ids ident id ms)
]

pub reject-All {κ} :
    (ident : MessageBuffer → ℕ) (P : MessageBuffer → Type κ) (id : ℕ) (ms : List MessageBuffer)
    → All P ms
    → All P (reject ident id ms)
reject-All ident P id [] h = tt
reject-All ident P id (m ∷ ms) h = elim (Bool-cases (ident m == id)) [
  | inl t ↦ rw t (reject-All ident P id ms h.1)
  | inr t ↦ rw t (h.0, reject-All ident P id ms h.1)
]

-- Whatever the ids, the messages that are freed are those of all the entries, each once.
pub freed_batches-Perm :
    (ident : MessageBuffer → ℕ) (n : ℕ) (ms : List MessageBuffer)
    → length ms ≤ n
    → Perm (freed_batches (batches ident n ms)) ms
unfolding batches
freed_batches-Perm ident zero [] short = Perm.nil
freed_batches-Perm ident zero (m ∷ ms) short = absurd (omega arith)
freed_batches-Perm ident (suc n) [] short = Perm.nil
freed_batches-Perm ident (suc n) (m ∷ ms) short =
    let all : List MessageBuffer = select ident (ident m) (m ∷ ms) in
    let others : List MessageBuffer = reject ident (ident m) (m ∷ ms) in
    let fits : length others ≤ n =
      rw (reject-head ident m ms) (omega (arith, short, length-reject-le ident (ident m) ms)) in
    Perm.trans
      (Perm.append (perm_append_comm (drop max_msgs all) (take max_msgs all))
        (freed_batches-Perm ident n others fits))
      (subst (λ t. Perm (t ++ others) (m ∷ ms)) (sym (take-append-drop max_msgs all))
        (select-reject-Perm ident (ident m) (m ∷ ms)))

-- What is handed over, in order.
abbrev pub handed_over : List (ℕ × List MessageBuffer) → List MessageBuffer
handed_over [] = []
handed_over ((id, ms) ∷ bs) = take max_msgs ms ++ handed_over bs

pub length-select-le :
    (ident : MessageBuffer → ℕ) (id : ℕ) (ms : List MessageBuffer)
    → length (select ident id ms) ≤ length ms
length-select-le ident id [] = omega arith
length-select-le ident id (m ∷ ms) = ground (arith, length-select-le ident id ms)

length-select-reject :
    (ident : MessageBuffer → ℕ) (id other : ℕ) (ms : List MessageBuffer)
    → length (select ident id (reject ident other ms)) ≤ length (select ident id ms)
length-select-reject ident id other [] = omega arith
length-select-reject ident id other (m ∷ ms) =
    let ih = length-select-reject ident id other ms in
    elim (Bool-cases (ident m == id)) [
      | inl t ↦ elim (Bool-cases (ident m == other)) [
        | inl u ↦ ground (arith, t, u, ih)
        | inr u ↦ ground (arith, t, u, ih)
      ]
      | inr t ↦ elim (Bool-cases (ident m == other)) [
        | inl u ↦ ground (arith, t, u, ih)
        | inr u ↦ ground (arith, t, u, ih)
      ]
    ]

-- With at most eight messages of each id, all are handed over, each once.
pub handed_over-Perm :
    (ident : MessageBuffer → ℕ) (n : ℕ) (ms : List MessageBuffer)
    → length ms ≤ n
    → ((id : ℕ) → length (select ident id ms) ≤ max_msgs)
    → Perm (handed_over (batches ident n ms)) ms
unfolding batches
handed_over-Perm ident zero [] short few = Perm.nil
handed_over-Perm ident zero (m ∷ ms) short few = absurd (omega arith)
handed_over-Perm ident (suc n) [] short few = Perm.nil
handed_over-Perm ident (suc n) (m ∷ ms) short few =
    let all : List MessageBuffer = select ident (ident m) (m ∷ ms) in
    let others : List MessageBuffer = reject ident (ident m) (m ∷ ms) in
    let fits : length others ≤ n =
      rw (reject-head ident m ms) (omega (arith, short, length-reject-le ident (ident m) ms)) in
    let few_others : (id : ℕ) → length (select ident id others) ≤ max_msgs =
      λ id. omega (arith, few id, length-select-reject ident id (ident m) (m ∷ ms)) in
    Perm.trans
      (subst (λ t. Perm (t ++ handed_over (batches ident n others)) (all ++ others))
        (sym (take_all max_msgs all (few (ident m))))
        (Perm.append_left all (handed_over-Perm ident n others fits few_others)))
      (select-reject-Perm ident (ident m) (m ∷ ms))
