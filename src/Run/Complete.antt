-- ===== src/Run/Complete.antt =====
-- The loops of oai_subframe_task and oai_slot_task of src/nfapi_pnf.c, from empty queues on.
use oai_lte_5g_multi_ue_prox.Base.{
  ℕ, ◌+◌, ◌*◌, ◌-◌, ◌≤◌, ◌<◌, ◌≡◌, ◌≢◌, inl, inr, refl, subst, ◌∙◌, Bool, List, [], ◌∷◌, Outcome,
  returns, arith, length, Bool-cases, All, true,
}
use oai_lte_5g_multi_ue_prox.Queue.{Queue}
use oai_lte_5g_multi_ue_prox.Sfn.{Counter, sfn_slot_counter}
use oai_lte_5g_multi_ue_prox.Message.{MessageBuffer, data_max}
use oai_lte_5g_multi_ue_prox.Uplink.{
  handle_msg_from_ue, new_buffer, min_ue_nem_id, oai_slot_handle_msg_from_ue,
}
use oai_lte_5g_multi_ue_prox.Uplink.Sweep.{Hold}
use oai_lte_5g_multi_ue_prox.Uplink.Receive.{
  enqueue_at, handle_msg_from_ue-accepts, handle_msg_from_ue-ignores, length-Hold,
  length-enqueue_at,
}
use oai_lte_5g_multi_ue_prox.Aggregate.Slot.{NrLibrary, NrSent}
use oai_lte_5g_multi_ue_prox.Aggregate.EndsNr.{IsNrAcceptable}
use oai_lte_5g_multi_ue_prox.Task.{TaskState, Worked, slot_round}
use oai_lte_5g_multi_ue_prox.Task.Returned.{IsWorked, slot_round-IsWorked}
use oai_lte_5g_multi_ue_prox.Run.{Call, receives, works, run_calls, run_slots}
use oai_lte_5g_multi_ue_prox.Run.Kept.{is_kept, AllFit, enqueue_at-Perm, enqueue_at-All}
use oai_lte_5g_multi_ue_prox.Run.Times.{times, times_after, slot_times}
use oai_lte_5g_multi_ue_prox.Run.Accounts.{
  count_rounds, IsAccounted, queued-IsAccounted, refused-IsAccounted, ignored-IsAccounted,
  worked-IsAccounted, empty-IsAccounted,
}

module _ {S : Type 0} (P : MessageBuffer → Type 0)
    (handle : List (Queue MessageBuffer) → List ℕ → ℕ → Outcome (List (Queue MessageBuffer)))
    (round : TaskState → Outcome (Worked S)) (next : Counter → Counter × ℕ)
    (handles : (qs : List (Queue MessageBuffer)) (msg : List ℕ) (nem_id : ℕ)
      → handle qs msg nem_id ≡ handle_msg_from_ue qs msg nem_id)
    (rounds : (s : TaskState) (xss : List (List MessageBuffer))
      → Hold s.queues xss
      → All (All P) xss
      → (w : Worked S) × (round s ≡ returns w) × IsWorked P next s xss w) where
  abbrev Completes : TaskState → List (List MessageBuffer) → ℕ → List Call → Type 0
  Completes s xss num_ues calls =
      (r : Worked S) × (run_calls handle round s calls ≡ returns r)
      × IsAccounted xss num_ues calls (times next s.counter (count_rounds calls)) r

  receive_step :
      (s : TaskState) (xss : List (List MessageBuffer)) (num_ues : ℕ) (msg : List ℕ) (nem_id : ℕ)
      (calls : List Call)
      → Hold s.queues xss
      → All (All P) xss
      → length xss ≡ num_ues
      → length msg < data_max
      → (is_kept num_ues msg nem_id ≡ true → P (new_buffer msg))
      → ((qs : List (Queue MessageBuffer)) (yss : List (List MessageBuffer))
          → Hold qs yss
          → All (All P) yss
          → length yss ≡ num_ues
          → Completes (record s { queues = qs }) yss num_ues calls)
      → Completes s xss num_ues (receives msg nem_id ∷ calls)
  unfolding run_calls
  receive_step s xss num_ues msg nem_id calls h good size short fine later =
      let i = nem_id - min_ue_nem_id in
      let same = handles s.queues msg nem_id in
      let told = times next s.counter (count_rounds calls) in
      let sized : length s.queues ≡ num_ues = length-Hold h ∙ size in
      elim (Bool-cases (is_kept num_ues msg nem_id)) [
        | inr skipped ↦
            let ignored =
              handle_msg_from_ue-ignores s.queues msg nem_id (ground (arith, skipped, sized)) in
            let (r, run, a) = later s.queues xss h good size in
            (
              r,
              rw (same, ignored, run) refl,
              ignored-IsAccounted xss num_ues msg nem_id calls told r skipped a,
            )
        | inl kept ↦
            let long : length msg ≢ 4 = λ dummy. ground (arith, kept, dummy) in
            let low : min_ue_nem_id ≤ nem_id = ground (arith, kept) in
            let high : i < num_ues = ground (arith, kept) in
            let (qs, put, hold) =
              handle_msg_from_ue-accepts s.queues xss msg nem_id h long short low
                (omega (arith, high, sized)) in
            let (r, run, a) =
              later qs (enqueue_at xss i (new_buffer msg)) hold
                (enqueue_at-All P xss i (new_buffer msg) good (fine kept))
                (length-enqueue_at xss i (new_buffer msg) ∙ size) in
            (
              r,
              rw (same, put, run) refl,
              elim (enqueue_at-Perm xss i (new_buffer msg) (omega (arith, high, size))) [
                | inl p ↦
                    queued-IsAccounted xss (enqueue_at xss i (new_buffer msg)) num_ues msg nem_id
                      calls told r kept p a
                | inr (unchanged, full) ↦
                    refused-IsAccounted xss num_ues msg nem_id calls told r kept full
                      (subst (λ yss. IsAccounted yss num_ues calls told r) unchanged a)
              ],
            )
      ]

  run_calls-Completes :
      (calls : List Call) (s : TaskState) (xss : List (List MessageBuffer)) (num_ues : ℕ)
      → Hold s.queues xss
      → All (All P) xss
      → length xss ≡ num_ues
      → AllFit P num_ues calls
      → Completes s xss num_ues calls
  unfolding run_calls
  run_calls-Completes [] s xss num_ues h good size short =
      (record { state = s; events = []; freed = [] }, refl, empty-IsAccounted s xss num_ues h)
  run_calls-Completes (receives msg nem_id ∷ calls) s xss num_ues h good size short =
      receive_step s xss num_ues msg nem_id calls h good size short.0 short.1
        (λ qs yss h' good' size'.
          run_calls-Completes calls (record s { queues = qs }) yss num_ues h' good' size' short.2)
  run_calls-Completes (works ∷ calls) s xss num_ues h good size short =
      let (w, run, done) = rounds s xss h good in
      let (r, runs, a) =
        run_calls-Completes calls w.state done.rests num_ues done.holds done.remain
          (done.sized ∙ size) short in
      (
        _,
        rw (run, runs) refl,
        worked-IsAccounted next s xss num_ues calls _ w r done (
            subst (λ c. IsAccounted done.rests num_ues calls (times next c (count_rounds calls)) r)
              done.advanced a),
      )

-- Whatever the library, any sequence of rounds of the NR thread and of messages from UEs, each
-- shorter than 8192 bytes, comes to its end, from queues of stored messages on, if the aggregation
-- for the message's id refuses none of the messages that are queued, or are put into a queue: an RX
-- data or UCI message either does not unpack, or unpacks to an indication with at least one PDU,
-- which for UCI is of a known type. The times sent to the UEs are the slots after the counter's,
-- one for each round and in order, with 0.0 after 1023.19. Each message that was queued, or that
-- comes in and is no dummy and names one of the UEs, is in the end refused, freed in a round, or
-- still queued, exactly once; and with at most 512 messages in all, none is refused.
pub run_slots-IsAccounted :
    {P : Type 0} (lib : NrLibrary P) (is_configured : Bool) (s : TaskState)
    (xss : List (List MessageBuffer)) (calls : List Call)
    → Hold s.queues xss
    → All (All (IsNrAcceptable lib)) xss
    → s.counter.sfn < 1024
    → s.counter.sub < 20
    → AllFit (IsNrAcceptable lib) (length xss) calls
    → (r : Worked (NrSent P)) × (run_slots lib is_configured s calls ≡ returns r)
      × IsAccounted xss
          (length xss)
          calls
          (times_after 20 64 (s.counter.sfn * 20 + s.counter.sub) (count_rounds calls))
          r
unfolding run_slots oai_slot_handle_msg_from_ue
run_slots-IsAccounted lib is_configured s xss calls h good low sub short =
    let (r, run, a) =
      run_calls-Completes (IsNrAcceptable lib) oai_slot_handle_msg_from_ue
        (slot_round lib is_configured) sfn_slot_counter (λ qs msg nem_id. refl)
        (λ s xss h good. slot_round-IsWorked lib is_configured s xss h good) calls s xss
        (length xss) h good refl short in
    (
      r,
      run,
      subst (λ t. IsAccounted xss (length xss) calls t r)
          (slot_times s.counter (count_rounds calls) low sub) a,
    )
