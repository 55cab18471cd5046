-- ===== src/Run/Kept.antt =====
-- Which messages from the UEs the handlers of src/nfapi_pnf.c keep, over a sequence of calls.
use mathlib.Core.List.{Perm, perm_middle, perm_append_comm}
use mathlib.Core.List.Perm
use mathlib.Core.List.{Permᴰ}
use mathlib.Core.List.Permᴰ.{nil, cons, swap, trans}
use mathlib.Core.Logic.{∥∥₁_elim}
use oai_lte_5g_multi_ue_prox.Base.{
  ℕ, zero, suc, ◌-◌, ◌≤◌, ◌<◌, ◌≡◌, ◌⊎◌, inl, inr, refl, sym, subst, subst₂, ap, ◌∙◌, Bool, true,
  false, List, [], ◌∷◌, ◌++◌, arith, length, length-append, append_assoc, if◌then◌else◌, ltb, leb,
  ◌==◌, ◌&&◌, not, dec_lt, All, All-append, Bool-cases,
}
use oai_lte_5g_multi_ue_prox.Queue.{max_queue_size}
use oai_lte_5g_multi_ue_prox.Message.{MessageBuffer, data_max}
use oai_lte_5g_multi_ue_prox.Uplink.{new_buffer, min_ue_nem_id}
use oai_lte_5g_multi_ue_prox.Uplink.Receive.{enqueue_at}
use oai_lte_5g_multi_ue_prox.Task.Swept.{concat}
use oai_lte_5g_multi_ue_prox.Run.{Call, receives, works}

-- A message that is no dummy and whose NEM id names one of the UEs.
abbrev pub is_kept : ℕ → List ℕ → ℕ → Bool
is_kept num_ues msg nem_id =
    not (length msg == 4) && leb min_ue_nem_id nem_id && ltb (nem_id - min_ue_nem_id) num_ues

-- The messages of the calls that are put into a queue, if there is room.
abbrev pub received : ℕ → List Call → List MessageBuffer
received num_ues [] = []
received num_ues (works ∷ calls) = received num_ues calls
received num_ues (receives msg nem_id ∷ calls) =
    let rest = received num_ues calls in
    if is_kept num_ues msg nem_id then new_buffer msg ∷ rest else rest

-- Each message of the calls fits into a buffer; each that is put into a queue satisfies `P`.
abbrev pub AllFit : (P : MessageBuffer → Type 0) → ℕ → List Call → Type 0
AllFit P num_ues [] = Unit {0}
AllFit P num_ues (works ∷ calls) = AllFit P num_ues calls
AllFit P num_ues (receives msg nem_id ∷ calls) =
    (length msg < data_max)
    × ((is_kept num_ues msg nem_id ≡ true) → P (new_buffer msg))
    × AllFit P num_ues calls

pub enqueue_at-All :
    (P : MessageBuffer → Type 0) (xss : List (List MessageBuffer)) (i : ℕ) (msg : MessageBuffer)
    → All (All P) xss
    → P msg
    → All (All P) (enqueue_at xss i msg)
enqueue_at-All P [] i msg h p = tt
enqueue_at-All P (xs ∷ xss) zero msg h p = elim (Bool-cases (ltb (length xs) max_queue_size)) [
  | inl t ↦ rw t (All-append P xs (msg ∷ []) h.0 (p, tt), h.1)
  | inr t ↦ rw t h
]
enqueue_at-All P (xs ∷ xss) (suc i) msg h p = (h.0, enqueue_at-All P xss i msg h.1 p)

-- The message is queued, or the queue is full and it is refused.
pub enqueue_at-Perm :
    (xss : List (List MessageBuffer)) (i : ℕ) (msg : MessageBuffer)
    → i < length xss
    → Perm (concat (enqueue_at xss i msg)) (msg ∷ concat xss)
      ⊎ ((enqueue_at xss i msg ≡ xss) × (max_queue_size ≤ length (concat xss)))
enqueue_at-Perm [] i msg h = absurd (omega arith)
enqueue_at-Perm (xs ∷ xss) zero msg h = elim (dec_lt (length xs) max_queue_size) [
  | yes room ↦
      let t : ltb (length xs) max_queue_size ≡ true = ground arith in
      inl (
        rw t (
          subst (λ l. Perm l (msg ∷ (xs ++ concat xss)))
            (sym (append_assoc xs (msg ∷ []) (concat xss))) (perm_middle xs (concat xss))))
  | no full ↦
      let t : ltb (length xs) max_queue_size ≡ false = ground arith in
      inr (rw t refl, omega (arith, full, length-append xs (concat xss)))
]
enqueue_at-Perm (xs ∷ xss) (suc i) msg h = elim (enqueue_at-Perm xss i msg (omega (arith, h))) [
  | inl p ↦ inl (Perm.trans (Perm.append_left xs p) (perm_middle xs (concat xss)))
  | inr (same, full) ↦ inr (ap (◌∷◌ xs) same, omega (arith, full, length-append xs (concat xss)))
]

Permᴰ-length : {xs ys : List MessageBuffer} → Permᴰ xs ys → length xs ≡ length ys
Permᴰ-length nil = refl
Permᴰ-length (cons e d) = ap suc (Permᴰ-length d)
Permᴰ-length (swap e e') = refl
Permᴰ-length (trans d d') = Permᴰ-length d ∙ Permᴰ-length d'

pub length-Perm : {xs ys : List MessageBuffer} → Perm xs ys → length xs ≡ length ys
length-Perm {xs} {ys} p = ∥∥₁_elim p (hlevel) Permᴰ-length

-- Lists in another order.
pub Perm-front : (xs ys zs : List MessageBuffer) → Perm (xs ++ (ys ++ zs)) (ys ++ (xs ++ zs))
Perm-front xs ys zs =
    subst₂ Perm (append_assoc xs ys zs) (append_assoc ys xs zs)
      (Perm.append_right zs (perm_append_comm xs ys))
