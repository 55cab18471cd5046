-- ===== src/Barrier/Drift.antt =====
-- How far the two threads of src/nfapi_pnf.c can get apart.
use oai_lte_5g_multi_ue_prox.Base.{ℕ, zero, suc, ◌+◌, ◌≤◌, ◌≡◌, ◌≢◌, refl, subst, arith}
use oai_lte_5g_multi_ue_prox.Barrier.{
  Thread, lte_thread, nr_thread, Place, working, waiting, woken, Barrier, both_lte_nr_done, start,
  place, arrive, wake, stir, arrives, Reaches, starts, steps,
}
use oai_lte_5g_multi_ue_prox.Barrier.Shape.{
  Shape, none_waits, lte_waits, lte_stirs, nr_waits, nr_stirs, nr_passed, lte_passed,
}

-- The LTE thread has passed n times while the NR thread, woken up by the first broadcast, has
-- not yet taken the mutex.
abbrev lapped : ℕ → Barrier
lapped n = record {
  sf_slot_tick = both_lte_nr_done;
  lte_place = working;
  nr_place = woken;
  lte_rounds = n;
  nr_rounds = 0;
}

lapped-Reaches : (n : ℕ) → Reaches (lapped (n + 1))
unfolding arrive
lapped-Reaches zero = steps (steps starts (arrives nr_thread refl)) (arrives lte_thread refl)
lapped-Reaches (suc n) =
    let later : n + 1 + 1 ≡ suc n + 1 = omega arith in
    subst (λ k. Reaches (lapped k)) later (steps (lapped-Reaches n) (arrives lte_thread refl))

-- However large n is, the LTE thread can pass n + 1 times before the NR thread passes once: the
-- last one to come leaves both flags set, so until the woken thread has run it does not wait.
pub Reaches-drift : (n : ℕ) → (b : Barrier) × Reaches b × (b.lte_rounds ≡ n + 1) × (b.nr_rounds ≡ 0)
Reaches-drift n = (lapped (n + 1), lapped-Reaches n, refl, refl)

-- Steps where no thread comes while both flags are set: the woken thread runs first.
pub data IsPrompt : Barrier → Type 0 where
  starts_promptly : IsPrompt start
  arrives_promptly :
      {b : Barrier} (t : Thread)
      → IsPrompt b
      → place t b ≡ working
      → b.sf_slot_tick ≢ both_lte_nr_done
      → IsPrompt (arrive t b)
  wakes_promptly : {b : Barrier} (t : Thread) → IsPrompt b → place t b ≡ woken → IsPrompt (wake t b)
  stirs_promptly :
      {b : Barrier} (t : Thread) → IsPrompt b → place t b ≡ waiting → IsPrompt (stir t b)

-- The shape of a state, and how many rounds the threads have passed.
pub data InStep : ℕ → Place → Place → ℕ → ℕ → Type 0 where
  level : {k m n : ℕ} {p q : Place} → Shape k p q → k ≢ 3 → m ≡ n → InStep k p q m n
  nr_first : {m n : ℕ} → n ≡ m + 1 → InStep 3 woken working m n
  lte_first : {m n : ℕ} → m ≡ n + 1 → InStep 3 working woken m n

abbrev InStepOf : Barrier → Type 0
InStepOf b = InStep b.sf_slot_tick b.lte_place b.nr_place b.lte_rounds b.nr_rounds

abbrev state : ℕ → Place → Place → ℕ → ℕ → Barrier
state k p q m n = record {
  sf_slot_tick = k;
  lte_place = p;
  nr_place = q;
  lte_rounds = m;
  nr_rounds = n;
}

arrive-InStep :
    (t : Thread) (k : ℕ) (p q : Place) (m n : ℕ)
    → InStep k p q m n
    → place t (state k p q m n) ≡ working
    → k ≢ 3
    → InStepOf (arrive t (state k p q m n))
unfolding arrive
arrive-InStep lte_thread k p q m n (level none_waits d s) e partial =
    level lte_waits (omega arith) s
arrive-InStep nr_thread k p q m n (level none_waits d s) e partial = level nr_waits (omega arith) s
arrive-InStep lte_thread k p q m n (level lte_waits d s) e partial = cc
arrive-InStep nr_thread k p q m n (level lte_waits d s) e partial = nr_first (omega (arith, s))
arrive-InStep lte_thread k p q m n (level lte_stirs d s) e partial = cc
arrive-InStep nr_thread k p q m n (level lte_stirs d s) e partial = nr_first (omega (arith, s))
arrive-InStep lte_thread k p q m n (level nr_stirs d s) e partial = lte_first (omega (arith, s))
arrive-InStep nr_thread k p q m n (level nr_stirs d s) e partial = cc
arrive-InStep lte_thread k p q m n (level nr_waits d s) e partial = lte_first (omega (arith, s))
arrive-InStep nr_thread k p q m n (level nr_waits d s) e partial = cc
arrive-InStep t k p q m n (level nr_passed d s) e partial = absurd (partial refl)
arrive-InStep t k p q m n (level lte_passed d s) e partial = absurd (partial refl)
arrive-InStep t k p q m n (nr_first s) e partial = absurd (partial refl)
arrive-InStep t k p q m n (lte_first s) e partial = absurd (partial refl)

wake-InStep :
    (t : Thread) (k : ℕ) (p q : Place) (m n : ℕ)
    → InStep k p q m n
    → place t (state k p q m n) ≡ woken
    → InStepOf (wake t (state k p q m n))
unfolding wake
wake-InStep lte_thread k p q m n (level none_waits d s) e = cc
wake-InStep nr_thread k p q m n (level none_waits d s) e = cc
wake-InStep lte_thread k p q m n (level lte_waits d s) e = cc
wake-InStep lte_thread k p q m n (level lte_stirs d s) e = level lte_waits d s
wake-InStep nr_thread k p q m n (level lte_stirs d s) e = cc
wake-InStep nr_thread k p q m n (level lte_waits d s) e = cc
wake-InStep lte_thread k p q m n (level nr_waits d s) e = cc
wake-InStep nr_thread k p q m n (level nr_waits d s) e = cc
wake-InStep lte_thread k p q m n (level nr_stirs d s) e = cc
wake-InStep nr_thread k p q m n (level nr_stirs d s) e = level nr_waits d s
wake-InStep t k p q m n (level nr_passed d s) e = absurd (d refl)
wake-InStep t k p q m n (level lte_passed d s) e = absurd (d refl)
wake-InStep lte_thread k p q m n (nr_first s) e = level none_waits (omega arith) (omega (arith, s))
wake-InStep nr_thread k p q m n (nr_first s) e = cc
wake-InStep lte_thread k p q m n (lte_first s) e = cc
wake-InStep nr_thread k p q m n (lte_first s) e = level none_waits (omega arith) (omega (arith, s))

stir-InStep :
    (t : Thread) (k : ℕ) (p q : Place) (m n : ℕ)
    → InStep k p q m n
    → place t (state k p q m n) ≡ waiting
    → InStepOf (stir t (state k p q m n))
stir-InStep lte_thread k p q m n (level none_waits d s) e = cc
stir-InStep nr_thread k p q m n (level none_waits d s) e = cc
stir-InStep lte_thread k p q m n (level lte_waits d s) e = level lte_stirs d s
stir-InStep nr_thread k p q m n (level lte_waits d s) e = cc
stir-InStep lte_thread k p q m n (level lte_stirs d s) e = cc
stir-InStep nr_thread k p q m n (level lte_stirs d s) e = cc
stir-InStep lte_thread k p q m n (level nr_waits d s) e = cc
stir-InStep nr_thread k p q m n (level nr_waits d s) e = level nr_stirs d s
stir-InStep lte_thread k p q m n (level nr_stirs d s) e = cc
stir-InStep nr_thread k p q m n (level nr_stirs d s) e = cc
stir-InStep t k p q m n (level nr_passed d s) e = absurd (d refl)
stir-InStep t k p q m n (level lte_passed d s) e = absurd (d refl)
stir-InStep lte_thread k p q m n (nr_first s) e = cc
stir-InStep nr_thread k p q m n (nr_first s) e = cc
stir-InStep lte_thread k p q m n (lte_first s) e = cc
stir-InStep nr_thread k p q m n (lte_first s) e = cc

IsPrompt-InStep : {b : Barrier} → IsPrompt b → InStepOf b
IsPrompt-InStep starts_promptly = level none_waits (omega arith) refl
IsPrompt-InStep (arrives_promptly {b} t r e partial) =
    arrive-InStep t b.sf_slot_tick b.lte_place b.nr_place b.lte_rounds b.nr_rounds
      (IsPrompt-InStep r) e partial
IsPrompt-InStep (wakes_promptly {b} t r e) =
    wake-InStep t b.sf_slot_tick b.lte_place b.nr_place b.lte_rounds b.nr_rounds (IsPrompt-InStep r)
      e
IsPrompt-InStep (stirs_promptly {b} t r e) =
    stir-InStep t b.sf_slot_tick b.lte_place b.nr_place b.lte_rounds b.nr_rounds (IsPrompt-InStep r)
      e

-- If a woken thread, with both flags set, always runs before the other one comes again, the two
-- have passed equally often whenever not both flags are set, and their numbers of rounds never
-- differ by more than one.
pub IsPrompt-in_step :
    (b : Barrier)
    → IsPrompt b
    → (b.sf_slot_tick ≢ both_lte_nr_done → b.lte_rounds ≡ b.nr_rounds)
      × (b.lte_rounds ≤ b.nr_rounds + 1)
      × (b.nr_rounds ≤ b.lte_rounds + 1)
IsPrompt-in_step b r =
    bounds b.sf_slot_tick b.lte_place b.nr_place b.lte_rounds b.nr_rounds (IsPrompt-InStep r)
  where
    bounds :
        (k : ℕ) (p q : Place) (m n : ℕ)
        → InStep k p q m n
        → (k ≢ 3 → m ≡ n) × (m ≤ n + 1) × (n ≤ m + 1)
    bounds k p q m n (level sh d s) = (λ _. s, omega (arith, s), omega (arith, s))
    bounds k p q m n (nr_first s) = (λ d. absurd (d refl), omega (arith, s), omega (arith, s))
    bounds k p q m n (lte_first s) = (λ d. absurd (d refl), omega (arith, s), omega (arith, s))
