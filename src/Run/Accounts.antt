-- ===== src/Run/Accounts.antt =====
-- What becomes of the messages in a run of the loops of src/nfapi_pnf.c.
use mathlib.Core.List.{Perm, perm_middle}
use mathlib.Core.List.Perm
use oai_lte_5g_multi_ue_prox.Base.{
  ℕ, suc, ◌+◌, ◌≤◌, ◌≡◌, refl, sym, subst, ◌∙◌, true, false, List, [], ◌∷◌, ◌++◌, arith, length,
  append_assoc, append-nil, length-append,
}
use oai_lte_5g_multi_ue_prox.Queue.{max_queue_size}
use oai_lte_5g_multi_ue_prox.Sfn.{Counter}
use oai_lte_5g_multi_ue_prox.Message.{MessageBuffer}
use oai_lte_5g_multi_ue_prox.Uplink.{new_buffer}
use oai_lte_5g_multi_ue_prox.Uplink.Sweep.{Hold}
use oai_lte_5g_multi_ue_prox.Task.{TaskState, Worked}
use oai_lte_5g_multi_ue_prox.Task.Swept.{concat}
use oai_lte_5g_multi_ue_prox.Task.Returned.{ue_times, ue_times-append, IsWorked}
use oai_lte_5g_multi_ue_prox.Run.{Call, receives, works}
use oai_lte_5g_multi_ue_prox.Run.Kept.{is_kept, received, length-Perm, Perm-front}

abbrev pub count_rounds : List Call → ℕ
count_rounds [] = 0
count_rounds (receives msg nem_id ∷ calls) = count_rounds calls
count_rounds (works ∷ calls) = suc (count_rounds calls)

-- After a run from queues that held `xss`: each message that was queued or kept is refused, freed
-- or queued still, exactly once; none is refused if they are 512 at most. Only the times of
-- `announced` were sent to the UEs.
pub record IsAccounted {S : Type 0} (xss : List (List MessageBuffer)) (num_ues : ℕ)
    (calls : List Call) (announced : List ℕ) (r : Worked S) : Type 0 where
  pub rests : List (List MessageBuffer)
  pub refused : List MessageBuffer
  pub holds : Hold r.state.queues rests
  pub once : Perm (refused ++ (r.freed ++ concat rests)) (concat xss ++ received num_ues calls)
  pub all_fit :
      length (concat xss) + length (received num_ues calls) ≤ max_queue_size → refused ≡ []
  pub tells : ue_times r.events ≡ announced

module _ {S : Type 0} where
  pub empty-IsAccounted :
      (s : TaskState) (xss : List (List MessageBuffer)) (num_ues : ℕ)
      → Hold s.queues xss
      → IsAccounted {S = S} xss num_ues [] [] (record { state = s; events = []; freed = [] })
  empty-IsAccounted s xss num_ues h = record {
    rests = xss;
    refused = [];
    holds = h;
    once = subst (Perm (concat xss)) (sym (append-nil (concat xss))) (Perm.refl (concat xss));
    all_fit = λ few. refl;
    tells = refl;
  }

  -- A message that its queue takes.
  pub queued-IsAccounted :
      (xss yss : List (List MessageBuffer)) (num_ues : ℕ) (msg : List ℕ) (nem_id : ℕ)
      (calls : List Call) (announced : List ℕ) (r : Worked S)
      → is_kept num_ues msg nem_id ≡ true
      → Perm (concat yss) (new_buffer msg ∷ concat xss)
      → IsAccounted yss num_ues calls announced r
      → IsAccounted xss num_ues (receives msg nem_id ∷ calls) announced r
  queued-IsAccounted xss yss num_ues msg nem_id calls announced r kept p a = record {
    rests = a.rests;
    refused = a.refused;
    holds = a.holds;
    once = rw kept (
        Perm.trans a.once (
          Perm.trans (Perm.append_right (received num_ues calls) p)
            (Perm.symm (perm_middle (concat xss) (received num_ues calls)))));
    all_fit = rw kept (λ few. a.all_fit (omega (arith, length-Perm p, few)));
    tells = a.tells;
  }

  -- A message that a full queue refuses.
  pub refused-IsAccounted :
      (xss : List (List MessageBuffer)) (num_ues : ℕ) (msg : List ℕ) (nem_id : ℕ)
      (calls : List Call) (announced : List ℕ) (r : Worked S)
      → is_kept num_ues msg nem_id ≡ true
      → max_queue_size ≤ length (concat xss)
      → IsAccounted xss num_ues calls announced r
      → IsAccounted xss num_ues (receives msg nem_id ∷ calls) announced r
  refused-IsAccounted xss num_ues msg nem_id calls announced r kept full a = record {
    rests = a.rests;
    refused = new_buffer msg ∷ a.refused;
    holds = a.holds;
    once = rw kept (
        Perm.trans (Perm.cons (new_buffer msg) a.once)
          (Perm.symm (perm_middle (concat xss) (received num_ues calls))));
    all_fit = rw kept (λ few. absurd (omega (arith, full, few)));
    tells = a.tells;
  }

  pub ignored-IsAccounted :
      (xss : List (List MessageBuffer)) (num_ues : ℕ) (msg : List ℕ) (nem_id : ℕ)
      (calls : List Call) (announced : List ℕ) (r : Worked S)
      → is_kept num_ues msg nem_id ≡ false
      → IsAccounted xss num_ues calls announced r
      → IsAccounted xss num_ues (receives msg nem_id ∷ calls) announced r
  ignored-IsAccounted xss num_ues msg nem_id calls announced r skipped a = record {
    rests = a.rests;
    refused = a.refused;
    holds = a.holds;
    once = rw skipped a.once;
    all_fit = rw skipped a.all_fit;
    tells = a.tells;
  }

  -- A round, and what comes after it.
  pub worked-IsAccounted :
      (next : Counter → Counter × ℕ) (s : TaskState) (xss : List (List MessageBuffer)) (num_ues : ℕ)
      (calls : List Call) (announced : List ℕ) (w r : Worked S) {P : MessageBuffer → Type 0}
      (done : IsWorked P next s xss w)
      → IsAccounted done.rests num_ues calls announced r
      → IsAccounted xss num_ues
          (works ∷ calls)
          ((next s.counter).1 ∷ announced)
          (record { state = r.state; events = w.events ++ r.events; freed = w.freed ++ r.freed })
  worked-IsAccounted next s xss num_ues calls announced w r done a = record {
    rests = a.rests;
    refused = a.refused;
    holds = a.holds;
    once =
        subst (λ l. Perm (a.refused ++ l) (concat xss ++ received num_ues calls))
          (sym (append_assoc w.freed r.freed (concat a.rests)))
          (Perm.trans (Perm-front a.refused w.freed (r.freed ++ concat a.rests)) (
            Perm.trans (Perm.append_left w.freed a.once) (
              subst (λ l. Perm l (concat xss ++ received num_ues calls))
                (append_assoc w.freed (concat done.rests) (received num_ues calls))
                (Perm.append_right (received num_ues calls) done.once))));
    all_fit = λ few.
        a.all_fit
          (omega (arith, length-Perm done.once, length-append w.freed (concat done.rests), few));
    tells = ue_times-append w.events r.events ∙ rw (done.announced, a.tells) refl;
  }
