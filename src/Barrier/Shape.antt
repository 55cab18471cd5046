-- ===== src/Barrier/Shape.antt =====
-- Which states of the meeting of the two threads in src/nfapi_pnf.c can occur.
use oai_lte_5g_multi_ue_prox.Base.{ℕ, ◌+◌, ◌≡◌, refl, suc}
use oai_lte_5g_multi_ue_prox.Barrier.{
  Thread, lte_thread, nr_thread, Place, working, waiting, woken, Barrier, place, rounds, arrive,
  wake, stir, Step, arrives, wakes, Reaches, starts, steps, stirs,
}

-- `sf_slot_tick`, and where LTE and NR are: at most one thread is in the wait, and the flags say
-- which; with both flags it is woken.
pub data Shape : ℕ → Place → Place → Type 0 where
  none_waits : Shape 0 working working
  lte_waits : Shape 1 waiting working
  lte_stirs : Shape 1 woken working
  nr_waits : Shape 2 working waiting
  nr_stirs : Shape 2 working woken
  nr_passed : Shape 3 woken working
  lte_passed : Shape 3 working woken

abbrev pub ShapeOf : Barrier → Type 0
ShapeOf b = Shape b.sf_slot_tick b.lte_place b.nr_place

arrive-ShapeOf :
    (t : Thread) (k : ℕ) (p q : Place) (m n : ℕ)
    → Shape k p q
    → (let b : Barrier = record {
      sf_slot_tick = k;
      lte_place = p;
      nr_place = q;
      lte_rounds = m;
      nr_rounds = n;
    } in
        place t b ≡ working → ShapeOf (arrive t b))
unfolding arrive
arrive-ShapeOf lte_thread k p q m n none_waits e = lte_waits
arrive-ShapeOf lte_thread k p q m n lte_waits e = cc
arrive-ShapeOf lte_thread k p q m n lte_stirs e = cc
arrive-ShapeOf lte_thread k p q m n nr_waits e = lte_passed
arrive-ShapeOf lte_thread k p q m n nr_stirs e = lte_passed
arrive-ShapeOf lte_thread k p q m n nr_passed e = cc
arrive-ShapeOf lte_thread k p q m n lte_passed e = lte_passed
arrive-ShapeOf nr_thread k p q m n none_waits e = nr_waits
arrive-ShapeOf nr_thread k p q m n lte_waits e = nr_passed
arrive-ShapeOf nr_thread k p q m n lte_stirs e = nr_passed
arrive-ShapeOf nr_thread k p q m n nr_waits e = cc
arrive-ShapeOf nr_thread k p q m n nr_stirs e = cc
arrive-ShapeOf nr_thread k p q m n nr_passed e = nr_passed
arrive-ShapeOf nr_thread k p q m n lte_passed e = cc

wake-ShapeOf :
    (t : Thread) (k : ℕ) (p q : Place) (m n : ℕ)
    → Shape k p q
    → (let b : Barrier = record {
      sf_slot_tick = k;
      lte_place = p;
      nr_place = q;
      lte_rounds = m;
      nr_rounds = n;
    } in
        place t b ≡ woken → ShapeOf (wake t b))
unfolding wake
wake-ShapeOf lte_thread k p q m n none_waits e = cc
wake-ShapeOf lte_thread k p q m n lte_waits e = cc
wake-ShapeOf lte_thread k p q m n lte_stirs e = lte_waits
wake-ShapeOf lte_thread k p q m n nr_waits e = cc
wake-ShapeOf lte_thread k p q m n nr_stirs e = cc
wake-ShapeOf lte_thread k p q m n nr_passed e = none_waits
wake-ShapeOf lte_thread k p q m n lte_passed e = cc
wake-ShapeOf nr_thread k p q m n none_waits e = cc
wake-ShapeOf nr_thread k p q m n lte_waits e = cc
wake-ShapeOf nr_thread k p q m n lte_stirs e = cc
wake-ShapeOf nr_thread k p q m n nr_waits e = cc
wake-ShapeOf nr_thread k p q m n nr_stirs e = nr_waits
wake-ShapeOf nr_thread k p q m n nr_passed e = cc
wake-ShapeOf nr_thread k p q m n lte_passed e = none_waits

stir-ShapeOf :
    (t : Thread) (k : ℕ) (p q : Place) (m n : ℕ)
    → Shape k p q
    → (let b : Barrier = record {
      sf_slot_tick = k;
      lte_place = p;
      nr_place = q;
      lte_rounds = m;
      nr_rounds = n;
    } in
        place t b ≡ waiting → ShapeOf (stir t b))
stir-ShapeOf lte_thread k p q m n none_waits e = cc
stir-ShapeOf lte_thread k p q m n lte_waits e = lte_stirs
stir-ShapeOf lte_thread k p q m n lte_stirs e = cc
stir-ShapeOf lte_thread k p q m n nr_waits e = cc
stir-ShapeOf lte_thread k p q m n nr_stirs e = cc
stir-ShapeOf lte_thread k p q m n nr_passed e = cc
stir-ShapeOf lte_thread k p q m n lte_passed e = cc
stir-ShapeOf nr_thread k p q m n none_waits e = cc
stir-ShapeOf nr_thread k p q m n lte_waits e = cc
stir-ShapeOf nr_thread k p q m n lte_stirs e = cc
stir-ShapeOf nr_thread k p q m n nr_waits e = nr_stirs
stir-ShapeOf nr_thread k p q m n nr_stirs e = cc
stir-ShapeOf nr_thread k p q m n nr_passed e = cc
stir-ShapeOf nr_thread k p q m n lte_passed e = cc

-- In every state that the two threads can reach, wake-ups without a broadcast included, at most one
-- of them is in the wait. The tick is 0 if none is, that thread's own flag, or both flags, and with
-- both flags that thread has been woken.
pub Reaches-ShapeOf : {b : Barrier} → Reaches b → ShapeOf b
Reaches-ShapeOf starts = none_waits
Reaches-ShapeOf (steps {b} r (arrives t e)) =
    arrive-ShapeOf t b.sf_slot_tick b.lte_place b.nr_place b.lte_rounds b.nr_rounds
      (Reaches-ShapeOf r) e
Reaches-ShapeOf (steps {b} r (wakes t e)) =
    wake-ShapeOf t b.sf_slot_tick b.lte_place b.nr_place b.lte_rounds b.nr_rounds
      (Reaches-ShapeOf r) e
Reaches-ShapeOf (stirs {b} t r e) =
    stir-ShapeOf t b.sf_slot_tick b.lte_place b.nr_place b.lte_rounds b.nr_rounds
      (Reaches-ShapeOf r) e

-- At most so many steps.
pub data Leads : ℕ → Barrier → Barrier → Type 0 where
  here : {n : ℕ} {b : Barrier} → Leads n b b
  next : {n : ℕ} {b c d : Barrier} → Step b c → Leads n c d → Leads (suc n) b d

abbrev pub Passes : Thread → Barrier → Type 0
Passes t b = (b' : Barrier) × Leads 3 b b' × (rounds t b' ≡ rounds t b + 1)

abbrev state : ℕ → Place → Place → ℕ → ℕ → Barrier
state k p q m n = record {
  sf_slot_tick = k;
  lte_place = p;
  nr_place = q;
  lte_rounds = m;
  nr_rounds = n;
}

Shape-Passes :
    (t : Thread) (k : ℕ) (p q : Place) (m n : ℕ) → Shape k p q → Passes t (state k p q m n)
unfolding arrive wake
Shape-Passes lte_thread k p q m n none_waits = (
  state 0 working working (m + 1) (n + 1),
  next (arrives lte_thread refl)
      (next (arrives nr_thread refl) (next (wakes lte_thread refl) here)),
  refl,
)
Shape-Passes nr_thread k p q m n none_waits = (
  state 0 working working (m + 1) (n + 1),
  next (arrives nr_thread refl) (next (arrives lte_thread refl) (next (wakes nr_thread refl) here)),
  refl,
)
Shape-Passes lte_thread k p q m n lte_waits = (
  state 0 working working (m + 1) (n + 1),
  next (arrives nr_thread refl) (next (wakes lte_thread refl) here),
  refl,
)
Shape-Passes nr_thread k p q m n lte_waits =
    (state 3 woken working m (n + 1), next (arrives nr_thread refl) here, refl)
Shape-Passes lte_thread k p q m n lte_stirs = (
  state 0 working working (m + 1) (n + 1),
  next (arrives nr_thread refl) (next (wakes lte_thread refl) here),
  refl,
)
Shape-Passes nr_thread k p q m n lte_stirs =
    (state 3 woken working m (n + 1), next (arrives nr_thread refl) here, refl)
Shape-Passes lte_thread k p q m n nr_stirs =
    (state 3 working woken (m + 1) n, next (arrives lte_thread refl) here, refl)
Shape-Passes nr_thread k p q m n nr_stirs = (
  state 0 working working (m + 1) (n + 1),
  next (arrives lte_thread refl) (next (wakes nr_thread refl) here),
  refl,
)
Shape-Passes lte_thread k p q m n nr_waits =
    (state 3 working woken (m + 1) n, next (arrives lte_thread refl) here, refl)
Shape-Passes nr_thread k p q m n nr_waits = (
  state 0 working working (m + 1) (n + 1),
  next (arrives lte_thread refl) (next (wakes nr_thread refl) here),
  refl,
)
Shape-Passes lte_thread k p q m n nr_passed =
    (state 0 working working (m + 1) n, next (wakes lte_thread refl) here, refl)
Shape-Passes nr_thread k p q m n nr_passed =
    (state 3 woken working m (n + 1), next (arrives nr_thread refl) here, refl)
Shape-Passes lte_thread k p q m n lte_passed =
    (state 3 working woken (m + 1) n, next (arrives lte_thread refl) here, refl)
Shape-Passes nr_thread k p q m n lte_passed =
    (state 0 working working m (n + 1), next (wakes nr_thread refl) here, refl)

-- From every state that the two threads can reach, wake-ups without a broadcast included, either
-- thread can pass the meeting within three steps of the threads, in which a waiting thread goes on
-- only after a broadcast: no state is a deadlock.
pub Reaches-Passes : {b : Barrier} (t : Thread) → Reaches b → Passes t b
Reaches-Passes {b} t r =
    Shape-Passes t b.sf_slot_tick b.lte_place b.nr_place b.lte_rounds b.nr_rounds
      (Reaches-ShapeOf r)
