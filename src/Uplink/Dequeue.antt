-- ===== src/Uplink/Dequeue.antt =====
-- The loops of dequeue_ue_msgs and dequeue_ue_slot_msgs of src/nfapi_pnf.c end, trip no assertion,
-- and sort the queued messages by their time.
use oai_lte_5g_multi_ue_prox.Base.{
  ℕ, zero, suc, ◌≤◌, ◌<◌, ◌≡◌, ◌≢◌, ◌⊎◌, refl, sym, ap, ◌∙◌, inl, inr, true, false, Option, some,
  List, [], ◌∷◌, ◌++◌, returns, arith, length, All, exceeds, length-append, append_assoc,
  append-nil, ℕ_discrete,
}
use oai_lte_5g_multi_ue_prox.Message.{MessageBuffer, data_max, all_ones}
use oai_lte_5g_multi_ue_prox.Queue.{Queue, get_queue}
use oai_lte_5g_multi_ue_prox.Queue.Ring.{Represents}
use oai_lte_5g_multi_ue_prox.Queue.Fifo.{get_queue-removes_oldest}
use oai_lte_5g_multi_ue_prox.Uplink.{Link, Drain, max_msgs, free_msg, handle_msg, drain}
use oai_lte_5g_multi_ue_prox.Uplink.Drained.{
  IsStored, none_left, to_first, to_second, Drained, Verdict, IsRefused, IsRefused-later, drop,
  keep, hold, handle_msg-Verdict,
}

module _ (link : Link) (time : MessageBuffer → Option ℕ) (tx : ℕ) where
  abbrev Drains : ℕ → Drain → List MessageBuffer → Type 0
  Drains fuel d xs =
      (d' : Drain) × (drain link tx fuel d ≡ returns d') × Drained link time tx d xs d'

  Drained-empty :
      (d : Drain) → Represents d.queue [] → length d.msgs ≤ max_msgs → Drained link time tx d [] d
  Drained-empty d v few = record {
    taken = [];
    rest = [];
    kept = [];
    dropped = [];
    parts = refl;
    sorted = none_left;
    left = v;
    collected = sym (append-nil d.msgs);
    released = sym (append-nil d.freed);
    bounded = few;
    timely = tt;
    excused = tt;
    steady = λ _. refl;
    emptied = ground arith;
    held = tt;
  }

  Drained-hold :
      (d : Drain) (xs : List MessageBuffer) (msg : MessageBuffer) (at : ℕ) (q : Queue MessageBuffer)
      → length d.msgs ≤ max_msgs
      → time msg ≡ some at
      → at ≢ d.master
      → d.master ≢ all_ones
      → Represents q (msg ∷ xs)
      → Drained link time tx d (msg ∷ xs) (record d { queue = q; are_queues_empty = false })
  Drained-hold d xs msg at q few e ne set v = record {
    taken = [];
    rest = msg ∷ xs;
    kept = [];
    dropped = [];
    parts = refl;
    sorted = none_left;
    left = v;
    collected = sym (append-nil d.msgs);
    released = sym (append-nil d.freed);
    bounded = few;
    timely = tt;
    excused = tt;
    steady = λ _. refl;
    emptied = ground arith;
    held = (at, e, ne, set);
  }

  Drained-drop :
      (d : Drain) (q : Queue MessageBuffer) (xs : List MessageBuffer) (msg : MessageBuffer)
      (master : ℕ) (d' : Drain)
      → (d.master ≡ master) ⊎ (d.master ≡ all_ones)
      → IsRefused link time tx (length d.msgs) msg
      → Drained link time tx (record (free_msg d msg) { queue = q; master = master }) xs d'
      → Drained link time tx d (msg ∷ xs) d'
  Drained-drop d q xs msg master d' on why r = record {
    taken = msg ∷ r.taken;
    rest = r.rest;
    kept = r.kept;
    dropped = msg ∷ r.dropped;
    parts = ap (◌∷◌ msg) r.parts;
    sorted = to_second msg r.sorted;
    left = r.left;
    collected = r.collected;
    released = r.released ∙ append_assoc d.freed (msg ∷ []) r.dropped;
    bounded = r.bounded;
    timely = r.timely;
    excused = (
      IsRefused-later link time tx (length d.msgs) (length d'.msgs) msg
          (omega (arith, ap length r.collected, length-append d.msgs r.kept)) r.bounded why,
      r.excused,
    );
    steady = λ set. ground (arith, r.steady);
    emptied = r.emptied;
    held = r.held;
  }

  Drained-keep :
      (d : Drain) (q : Queue MessageBuffer) (xs : List MessageBuffer) (msg : MessageBuffer) (at : ℕ)
      (d' : Drain)
      → time msg ≡ some at
      → (d.master ≡ at) ⊎ (d.master ≡ all_ones)
      → exceeds (link.delta tx at) link.oldest ≡ false
      → Drained link time tx (record d { queue = q; master = at; msgs = d.msgs ++ msg ∷ [] }) xs d'
      → Drained link time tx d (msg ∷ xs) d'
  Drained-keep d q xs msg at d' e on recent r = record {
    taken = msg ∷ r.taken;
    rest = r.rest;
    kept = msg ∷ r.kept;
    dropped = r.dropped;
    parts = ap (◌∷◌ msg) r.parts;
    sorted = to_first msg r.sorted;
    left = r.left;
    collected = r.collected ∙ append_assoc d.msgs (msg ∷ []) r.kept;
    released = r.released;
    bounded = r.bounded;
    timely = (
      record { at = at; read = e; on_time = on_time (ℕ_discrete at all_ones); recent = recent },
      r.timely,
    );
    excused = r.excused;
    steady = λ set. ground (arith, r.steady);
    emptied = r.emptied;
    held = r.held;
  }
    where
      on_time : Dec (at ≡ all_ones) → (at ≡ d'.master) ⊎ (at ≡ all_ones)
      on_time (yes none_set) = inr none_set
      on_time (no set) = inl (sym (r.steady set))

  module _
      (reads : (msg : MessageBuffer)
        → msg.length_field ≤ data_max
        → link.get_time msg ≡ returns (time msg)) where
    drain_step :
        (fuel : ℕ) (d : Drain) (q : Queue MessageBuffer) (xs : List MessageBuffer)
        (msg : MessageBuffer)
        → get_queue true d.queue ≡ returns (q, some msg)
        → Represents q xs
        → length d.msgs ≤ max_msgs
        → Verdict link time tx
            (record d { queue = q })
            xs
            msg
            (handle_msg link tx (record d { queue = q }) msg)
        → ((d : Drain) → Represents d.queue xs → length d.msgs ≤ max_msgs → Drains fuel d xs)
        → Drains (suc fuel) d (msg ∷ xs)
    unfolding drain
    drain_step fuel d q xs msg got v few (drop master on why e) rest =
        let (d', run, r) = rest (record (free_msg d msg) { queue = q; master = master }) v few in
        (d', rw (got, e, run), Drained-drop d q xs msg master d' on why r)
    drain_step fuel d q xs msg got v few (keep at t on recent room e) rest =
        let (d', run, r) =
          rest (record d { queue = q; master = at; msgs = d.msgs ++ msg ∷ [] }) v
            (omega (arith, length-append d.msgs (msg ∷ []))) in
        (d', rw (got, e, run), Drained-keep d q xs msg at d' t on recent r)
    drain_step fuel d q xs msg got v few (hold at q' t ne set v' e) rest =
        (_, rw (got, e), Drained-hold d xs msg at q' few t ne set v')

    pub drain-Drained :
        (xs : List MessageBuffer) (fuel : ℕ) (d : Drain)
        → All IsStored xs
        → Represents d.queue xs
        → length d.msgs ≤ max_msgs
        → length xs < fuel
        → Drains fuel d xs
    unfolding drain
    drain-Drained [] zero d ok v few h = absurd (omega arith)
    drain-Drained [] (suc fuel) d ok v few h =
        (d, rw ((get_queue-removes_oldest d.queue).0 v), Drained-empty d v few)
    drain-Drained (msg ∷ xs) zero d ok v few h = absurd (omega arith)
    drain-Drained (msg ∷ xs) (suc fuel) d ok v few h =
        let (q, got, v') = (get_queue-removes_oldest d.queue).1 msg xs v in
        drain_step fuel d q xs msg got v' few
          (handle_msg-Verdict link time tx reads (record d { queue = q }) xs msg ok.0 v'
            (omega (arith, v.fits)) few)
          (λ d' r few'. drain-Drained xs fuel d' ok.1 r few' (omega arith))
