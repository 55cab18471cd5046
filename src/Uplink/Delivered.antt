-- ===== src/Uplink/Delivered.antt =====
-- Messages that are due are all taken out, by dequeue_ue_msgs and dequeue_ue_slot_msgs of
-- src/nfapi_pnf.c.
use oai_lte_5g_multi_ue_prox.Base.{
  ℕ, zero, suc, ◌+◌, ◌≤◌, ◌<◌, ◌≡◌, ◌≢◌, ◌⊎◌, refl, inl, inr, Bool, true, false, Option, some, List,
  [], ◌∷◌, ◌++◌, returns, arith, length, All, exceeds, length-append, append_assoc, append-nil, map,
}
use oai_lte_5g_multi_ue_prox.Message.{MessageBuffer, data_max, all_ones}
use oai_lte_5g_multi_ue_prox.Queue.{Queue, max_queue_size, get_queue}
use oai_lte_5g_multi_ue_prox.Queue.Ring.{Represents}
use oai_lte_5g_multi_ue_prox.Queue.Fifo.{get_queue-removes_oldest}
use oai_lte_5g_multi_ue_prox.Uplink.{
  Link, Drain, max_msgs, handle_msg, drain, dequeue_from, dequeue_msgs,
}
use oai_lte_5g_multi_ue_prox.Uplink.Drained.{
  IsStored, IsRefused, is_dummy, has_no_time, is_old, finds_full, Verdict, drop, keep, hold,
  handle_msg-Verdict,
}
use oai_lte_5g_multi_ue_prox.Uplink.Sweep.{Hold, no_ue, one_ue}

module _ (time : MessageBuffer → Option ℕ) (t : ℕ) where
  -- A message of time `t` that is no dummy.
  abbrev pub IsDue : MessageBuffer → Type 0
  IsDue msg = (time msg ≡ some t) × (msg.length_field ≢ 4)

  -- At most eight such messages.
  abbrev pub IsDueUe : List MessageBuffer → Type 0
  IsDueUe xs = (length xs ≤ max_msgs) × All IsDue xs

module _ (link : Link) (time : MessageBuffer → Option ℕ) (tx t : ℕ) where
  abbrev IsOpen : ℕ → Type 0
  IsOpen master = (master ≡ t) ⊎ (master ≡ all_ones)

  abbrev drained : Drain → Queue MessageBuffer → ℕ → List MessageBuffer → Drain
  drained d q master xs = record d { queue = q; master = master; msgs = d.msgs ++ xs }

  abbrev Collects : ℕ → Drain → List MessageBuffer → Type 0
  Collects fuel d xs =
      (q : Queue MessageBuffer) × (master : ℕ) × (drain link tx fuel d
        ≡ returns (drained d q master xs))
      × Represents q []
      × IsOpen master

  module _ (recent : exceeds (link.delta tx t) link.oldest ≡ false) where
    fresh-IsDue :
        (n : ℕ) (msg : MessageBuffer)
        → n < max_msgs
        → IsDue time t msg
        → ¬ IsRefused link time tx n msg
    fresh-IsDue n msg room due (is_dummy e) = due.1 e
    fresh-IsDue n msg room due (has_no_time e) = ground (arith, e, due.0)
    fresh-IsDue n msg room due (is_old at e old) = ground (arith, e, due.0, recent, old)
    fresh-IsDue n msg room due (finds_full e) = omega (arith, room, e)

    collect_step :
        (fuel : ℕ) (d : Drain) (q : Queue MessageBuffer) (xs : List MessageBuffer)
        (msg : MessageBuffer)
        → get_queue true d.queue ≡ returns (q, some msg)
        → Represents q xs
        → length d.msgs < max_msgs
        → IsDue time t msg
        → IsOpen d.master
        → Verdict link time tx
            (record d { queue = q })
            xs
            msg
            (handle_msg link tx (record d { queue = q }) msg)
        → ((master : ℕ)
            → IsOpen master
            → Collects fuel (record d { queue = q; master = master; msgs = d.msgs ++ msg ∷ [] }) xs)
        → Collects (suc fuel) d (msg ∷ xs)
    unfolding drain
    collect_step fuel d q xs msg got v room due on (drop master same why e) rest =
        absurd (fresh-IsDue (length d.msgs) msg room due why)
    collect_step fuel d q xs msg got v room due on (keep at read same fresh few e) rest =
        let (q', master, run, empty, on') = rest at (inl (ground (arith, read, due.0))) in
        (q', master, rw (got, e, run, append_assoc d.msgs (msg ∷ []) xs) refl, empty, on')
    collect_step fuel d q xs msg got v room due on (hold at q' read ne set v' e) rest =
        absurd (ground (arith, read, due.0, on, ne, set))

    module _
        (reads : (msg : MessageBuffer)
          → msg.length_field ≤ data_max
          → link.get_time msg ≡ returns (time msg)) where
      drain-Collects :
          (xs : List MessageBuffer) (fuel : ℕ) (d : Drain)
          → All IsStored xs
          → All (IsDue time t) xs
          → Represents d.queue xs
          → length d.msgs + length xs ≤ max_msgs
          → IsOpen d.master
          → length xs < fuel
          → Collects fuel d xs
      unfolding drain
      drain-Collects [] zero d ok due v few on h = absurd (omega arith)
      drain-Collects [] (suc fuel) d ok due v few on h = (
        d.queue,
        d.master,
        rw ((get_queue-removes_oldest d.queue).0 v, append-nil d.msgs) refl,
        v,
        on,
      )
      drain-Collects (msg ∷ xs) zero d ok due v few on h = absurd (omega arith)
      drain-Collects (msg ∷ xs) (suc fuel) d ok due v few on h =
          let (q, got, v') = (get_queue-removes_oldest d.queue).1 msg xs v in
          collect_step fuel d q xs msg got v' (omega (arith, few)) due.0 on
            (handle_msg-Verdict link time tx reads (record d { queue = q }) xs msg ok.0 v'
              (omega (arith, v.fits)) (omega (arith, few)))
            (λ master on'.
              drain-Collects xs fuel
                (record d { queue = q; master = master; msgs = d.msgs ++ msg ∷ [] }) ok.1 due.1 v'
                (omega (arith, few, length-append d.msgs (msg ∷ []))) on' (omega (arith, h)))

      -- All messages are collected, none is freed, and all queues are empty then.
      dequeue_from-collects :
          (qs : List (Queue MessageBuffer)) (xss : List (List MessageBuffer)) (master : ℕ)
          (empty : Bool) (freed : List MessageBuffer)
          → Hold qs xss
          → All (IsDueUe time t) xss
          → IsOpen master
          → (qs' : List (Queue MessageBuffer)) × (dequeue_from link tx master empty freed qs
              ≡ returns (record {
                queues = qs';
                collected = xss;
                freed = freed;
                are_queues_empty = empty;
              }))
            × Hold qs' (map (λ xs. []) xss)
      unfolding dequeue_from
      dequeue_from-collects qs xss master empty freed no_ue due on = ([], refl, no_ue)
      dequeue_from-collects qs xss master empty freed
            (one_ue {q} {xs} {qs = qs'} {xss = xss'} v ok h) due on =
          let d : Drain = record {
            queue = q;
            master = master;
            msgs = [];
            freed = freed;
            are_queues_empty = empty;
          } in
          let (q', master', run, rep, on') =
            drain-Collects xs (max_queue_size + 1) d ok due.0.1 v (omega (arith, due.0.0)) on
              (omega (arith, v.fits)) in
          let (qs'', runs, holds) =
            dequeue_from-collects qs' xss' master' empty freed h due.1 on' in
          (q' ∷ qs'', rw (run, runs) refl, one_ue rep tt holds)

      pub dequeue_msgs-collects :
          (qs : List (Queue MessageBuffer)) (xss : List (List MessageBuffer))
          → Hold qs xss
          → All (IsDueUe time t) xss
          → (qs' : List (Queue MessageBuffer)) × (dequeue_msgs link tx qs
              ≡ returns
                  (record { queues = qs'; collected = xss; freed = []; are_queues_empty = true }))
            × Hold qs' (map (λ xs. []) xss)
      unfolding dequeue_msgs
      dequeue_msgs-collects qs xss h due =
          dequeue_from-collects qs xss all_ones true [] h due (inr refl)
