-- ===== src/Task/Swept.antt =====
-- What the dequeuing of src/nfapi_pnf.c leaves: every message that was queued is collected, freed
-- or queued still, exactly once.
use mathlib.Core.List.{Perm, perm_middle, perm_append_comm}
use mathlib.Core.List.Perm
use oai_lte_5g_multi_ue_prox.Base.{
  ℕ, ◌≡◌, refl, sym, subst, subst₂, ap, ◌∙◌, Bool, Option, some, List, [], ◌∷◌, ◌++◌, All,
  All-append, append_assoc, map, arith,
}
use oai_lte_5g_multi_ue_prox.Message.{MessageBuffer}
use oai_lte_5g_multi_ue_prox.Queue.{Queue}
use oai_lte_5g_multi_ue_prox.Uplink.{Link}
use oai_lte_5g_multi_ue_prox.Uplink.Drained.{
  IsStored, Split, none_left, to_first, to_second, IsTimely,
}
use oai_lte_5g_multi_ue_prox.Uplink.Sweep.{Hold, no_ue, one_ue, Sweep, swept, sweep_ue}
use oai_lte_5g_multi_ue_prox.Batch.Pass.{present, all_present}
use oai_lte_5g_multi_ue_prox.Task.{entries}

-- The messages of all UEs, in order.
abbrev pub concat : List (List MessageBuffer) → List MessageBuffer
concat [] = []
concat (xs ∷ xss) = xs ++ concat xss

Split-Perm : {xs ys zs : List MessageBuffer} → Split xs ys zs → Perm (ys ++ zs) xs
Split-Perm none_left = Perm.nil
Split-Perm (to_first x s) = Perm.cons x (Split-Perm s)
Split-Perm (to_second {ys} {zs} x s) = Perm.trans (perm_middle ys zs) (Perm.cons x (Split-Perm s))

Split-All {κ} :
    (P : MessageBuffer → Type κ) {xs ys zs : List MessageBuffer}
    → Split xs ys zs
    → All P xs
    → All P ys
Split-All P none_left h = tt
Split-All P (to_first x s) h = (h.0, Split-All P s h.1)
Split-All P (to_second x s) h = Split-All P s h.1

All-prefix {κ} :
    (P : MessageBuffer → Type κ) (xs ys : List MessageBuffer)
    → All P (xs ++ ys)
    → All P xs × All P ys
All-prefix P [] ys h = (tt, h)
All-prefix P (x ∷ xs) ys h = let (a, b) = All-prefix P xs ys h.1 in ((h.0, a), b)

pub present-some : (ms : List MessageBuffer) → present (map some ms) ≡ ms
present-some [] = refl
present-some (m ∷ ms) = ap (◌∷◌ m) (present-some ms)

pub all_present-entries : (mss : List (List MessageBuffer)) → all_present (entries mss) ≡ concat mss
all_present-entries [] = refl
all_present-entries (ms ∷ mss) = ground (arith, present-some ms, all_present-entries mss)

exchange : (a b c d : List MessageBuffer) → Perm ((a ++ b) ++ (c ++ d)) ((a ++ c) ++ (b ++ d))
exchange a b c d =
    subst₂ Perm (sym (inner b c)) (sym (inner c b))
      (Perm.append_left a (Perm.append_right d (perm_append_comm b c)))
  where
    inner : (x y : List MessageBuffer) → (a ++ x) ++ (y ++ d) ≡ a ++ ((x ++ y) ++ d)
    inner x y = append_assoc a x (y ++ d) ∙ ap (λ t. a ++ t) (sym (append_assoc x y d))

regroup :
    (ms mss dropped freed rest rests : List MessageBuffer)
    → Perm
        (((ms ++ mss) ++ (dropped ++ freed)) ++ (rest ++ rests))
        (((ms ++ dropped) ++ rest) ++ ((mss ++ freed) ++ rests))
regroup ms mss dropped freed rest rests =
    Perm.trans (Perm.append_right (rest ++ rests) (exchange ms mss dropped freed))
      (exchange (ms ++ dropped) (mss ++ freed) rest rests)

module _ (P : MessageBuffer → Type 0) (link : Link) (time : MessageBuffer → Option ℕ) (tx : ℕ) where
  -- What a sweep leaves in the queues, and what it collected; both satisfy what all messages did.
  pub record Accounted (xss : List (List MessageBuffer)) (qs : List (Queue MessageBuffer))
      (mss : List (List MessageBuffer)) (freed : List MessageBuffer) : Type 0 where
    pub rests : List (List MessageBuffer)
    pub holds : Hold qs rests
    pub stored : All (All IsStored) mss
    pub timed : All (λ msg. (at : ℕ) × (time msg ≡ some at)) (concat mss)
    pub once : Perm ((concat mss ++ freed) ++ concat rests) (concat xss)
    pub remain : All (All P) xss → All (All P) rests
    pub selected : All (All P) xss → All P (concat mss)

  All-timed :
      (master : ℕ) (ms : List MessageBuffer)
      → All (IsTimely link time tx master) ms
      → All (λ msg. (at : ℕ) × (time msg ≡ some at)) ms
  All-timed master [] h = tt
  All-timed master (m ∷ ms) (t, h) = ((t.at, t.read), All-timed master ms h)

  pub swept-Accounted :
      (master : ℕ) {xss : List (List MessageBuffer)} {qs₀ qs : List (Queue MessageBuffer)}
      {mss : List (List MessageBuffer)} {freed : List MessageBuffer} {empty : Bool}
      → Hold qs₀ xss
      → Sweep link time tx master xss qs mss freed empty
      → Accounted xss qs mss freed
  swept-Accounted master no_ue swept = record {
    rests = [];
    holds = no_ue;
    stored = tt;
    timed = tt;
    once = Perm.nil;
    remain = λ all. tt;
    selected = λ all. tt;
  }
  swept-Accounted master (one_ue {xs} {xss} v ok h)
        (sweep_ue {ms} {mss} {freed} taken rest dropped parts split rep few timely excused held f e
          sw) =
      let a = swept-Accounted master h sw in
      let (ok_taken, ok_rest) = All-prefix IsStored taken rest (subst (All IsStored) parts ok) in
      record {
        rests = rest ∷ a.rests;
        holds = one_ue rep ok_rest a.holds;
        stored = (Split-All IsStored split ok_taken, a.stored);
        timed =
            All-append (λ msg. (at : ℕ) × (time msg ≡ some at)) ms (concat mss)
              (All-timed master ms timely) a.timed;
        once =
            subst
              (λ t. Perm (((ms ++ concat mss) ++ t) ++ (rest ++ concat a.rests)) (xs ++ concat xss))
              (sym f)
              (Perm.trans (regroup ms (concat mss) dropped freed rest (concat a.rests)) (
                Perm.append
                  (subst (Perm ((ms ++ dropped) ++ rest)) (sym parts)
                    (Perm.append_right rest (Split-Perm split)))
                  a.once));
        remain = λ all. ((All-prefix P taken rest (subst (All P) parts all.0)).1, a.remain all.1);
        selected = λ all.
            All-append P ms (concat mss)
              (Split-All P split (All-prefix P taken rest (subst (All P) parts all.0)).0)
              (a.selected all.1);
      }
