-- ===== src/Uplink/Receive.antt =====
-- oai_subframe_handle_msg_from_ue and oai_slot_handle_msg_from_ue of src/nfapi_pnf.c: what a
-- datagram does to the queues.
use oai_lte_5g_multi_ue_prox.Base.{
  aborts, ap, ℕ, zero, suc, ◌-◌, ◌≤◌, ◌<◌, ◌≡◌, ◌≢◌, ◌⊎◌, refl, sym, subst, Bool, true, false, none,
  some, inl, inr, List, [], ◌∷◌, ◌++◌, returns, arith, length, All-append, get_elem?,
  get_elem?_beyond, if◌then◌else◌, ltb, dec_lt,
}
use oai_lte_5g_multi_ue_prox.Message.{MessageBuffer, data_max}
use oai_lte_5g_multi_ue_prox.Queue.{Queue, max_queue_size, put_queue}
use oai_lte_5g_multi_ue_prox.Queue.Fifo.{put_queue-appends, init_queue-Represents}
use oai_lte_5g_multi_ue_prox.Uplink.{
  set_at, new_buffer, min_ue_nem_id, handle_msg_from_ue, init_queues, max_ue_queues,
  oai_subframe_init, oai_slot_init, oai_subframe_handle_msg_from_ue, oai_slot_handle_msg_from_ue,
}
use oai_lte_5g_multi_ue_prox.Uplink.Drained.{IsStored}
use oai_lte_5g_multi_ue_prox.Uplink.Sweep.{Hold, no_ue, one_ue}

-- The contents with a message behind those of UE i, if its queue has room.
abbrev pub enqueue_at : List (List MessageBuffer) → ℕ → MessageBuffer → List (List MessageBuffer)
enqueue_at [] i msg = []
enqueue_at (xs ∷ xss) zero msg =
    (if ltb (length xs) max_queue_size then xs ++ msg ∷ [] else xs) ∷ xss
enqueue_at (xs ∷ xss) (suc i) msg = xs ∷ enqueue_at xss i msg

abbrev store :
    List (Queue MessageBuffer) → ℕ → Queue MessageBuffer → Bool → List (Queue MessageBuffer)
store qs i q queued = if queued then set_at qs i q else qs

store-cons :
    (q p : Queue MessageBuffer) (qs : List (Queue MessageBuffer)) (i : ℕ) (queued : Bool)
    → store (p ∷ qs) (suc i) q queued ≡ p ∷ store qs i q queued
unfolding set_at
store-cons q p qs i true = refl
store-cons q p qs i false = refl

put_at-Hold :
    (qs : List (Queue MessageBuffer)) (xss : List (List MessageBuffer)) (i : ℕ)
    (msg : MessageBuffer)
    → Hold qs xss
    → IsStored msg
    → i < length qs
    → (q q' : Queue MessageBuffer) × (queued : Bool) × (get_elem? qs i ≡ some q)
      × (put_queue true q (some msg) ≡ returns (q', queued))
      × Hold (store qs i q' queued) (enqueue_at xss i msg)
unfolding set_at
put_at-Hold qs xss i msg no_ue ok h = absurd (omega arith)
put_at-Hold qs xss zero msg (one_ue {q} {xs} v stored rest) ok h =
    elim (dec_lt (length xs) max_queue_size) [
      | yes room ↦
          let (q', e, v') = (put_queue-appends q xs msg v).0 room in
          let t : ltb (length xs) max_queue_size ≡ true = ground arith in
          (
            q,
            q',
            true,
            refl,
            e,
            rw t (one_ue v' (All-append IsStored xs (msg ∷ []) stored (ok, tt)) rest),
          )
      | no full ↦
          let e = (put_queue-appends q xs msg v).1 (omega (arith, v.fits)) in
          let t : ltb (length xs) max_queue_size ≡ false = ground arith in
          (q, q, false, refl, e, rw t (one_ue v stored rest))
    ]
put_at-Hold qs xss (suc i) msg (one_ue {q} {xs} {qs = qs'} {xss = xss'} v stored rest) ok h =
    let (p, p', queued, e, put, more) = put_at-Hold qs' xss' i msg rest ok (omega arith) in
    (
      p,
      p',
      queued,
      e,
      put,
      subst (λ t. Hold t (xs ∷ enqueue_at xss' i msg)) (sym (store-cons p' q qs' i queued))
          (one_ue v stored more),
    )

new_buffer-IsStored : (msg : List ℕ) → length msg < data_max → IsStored (new_buffer msg)
new_buffer-IsStored msg h = record { marked = refl; fits = omega arith }

pub handle_msg_from_ue-accepts :
    (qs : List (Queue MessageBuffer)) (xss : List (List MessageBuffer)) (msg : List ℕ) (nem_id : ℕ)
    → Hold qs xss
    → length msg ≢ 4
    → length msg < data_max
    → min_ue_nem_id ≤ nem_id
    → nem_id - min_ue_nem_id < length qs
    → (qs' : List (Queue MessageBuffer)) × (handle_msg_from_ue qs msg nem_id ≡ returns qs')
      × Hold qs' (enqueue_at xss (nem_id - min_ue_nem_id) (new_buffer msg))
unfolding handle_msg_from_ue
handle_msg_from_ue-accepts qs xss msg nem_id h long short low high =
    let i = nem_id - min_ue_nem_id in
    let (q, q', queued, found, put, hold) =
      put_at-Hold qs xss i (new_buffer msg) h (new_buffer-IsStored msg short) high in
    (store qs i q' queued, ground (arith, found, put), hold)

pub handle_msg_from_ue-ignores :
    (qs : List (Queue MessageBuffer)) (msg : List ℕ) (nem_id : ℕ)
    → (length msg ≡ 4) ⊎ (nem_id < min_ue_nem_id) ⊎ (length qs ≤ nem_id - min_ue_nem_id)
    → handle_msg_from_ue qs msg nem_id ≡ returns qs
unfolding handle_msg_from_ue
handle_msg_from_ue-ignores qs msg nem_id why =
    ground (arith, get_elem?_beyond qs (nem_id - min_ue_nem_id))

-- A message that fills the buffer, or more, trips the assertion on its length.
pub handle_msg_from_ue-aborts :
    (qs : List (Queue MessageBuffer)) (xss : List (List MessageBuffer)) (msg : List ℕ) (nem_id : ℕ)
    → Hold qs xss
    → data_max ≤ length msg
    → min_ue_nem_id ≤ nem_id
    → nem_id - min_ue_nem_id < length qs
    → handle_msg_from_ue qs msg nem_id ≡ aborts
unfolding handle_msg_from_ue
handle_msg_from_ue-aborts qs xss msg nem_id h large low high =
    let (q, q', queued, found, put, hold) =
      put_at-Hold qs xss (nem_id - min_ue_nem_id) (new_buffer []) h
        (new_buffer-IsStored [] (omega arith)) high in
    ground (arith, found)

pub length-Hold :
    {qs : List (Queue MessageBuffer)} {xss : List (List MessageBuffer)}
    → Hold qs xss
    → length qs ≡ length xss
length-Hold no_ue = refl
length-Hold (one_ue v ok h) = ap suc (length-Hold h)

pub length-enqueue_at :
    (xss : List (List MessageBuffer)) (i : ℕ) (msg : MessageBuffer)
    → length (enqueue_at xss i msg) ≡ length xss
length-enqueue_at [] i msg = refl
length-enqueue_at (xs ∷ xss) zero msg = refl
length-enqueue_at (xs ∷ xss) (suc i) msg = ap suc (length-enqueue_at xss i msg)

-- With the queues holding stored messages, both handlers put a datagram of any length but 4 below
-- 8192 behind the messages of the UE that the NEM id names, and drop it if 512 are queued there.
-- They ignore a datagram of length 4 and one whose NEM id names no UE.
pub handle_msg_from_ue-enqueues :
    (qs : List (Queue MessageBuffer)) (xss : List (List MessageBuffer)) (msg : List ℕ) (nem_id : ℕ)
    → Hold qs xss
    → (length msg ≢ 4
        → length msg < data_max
        → min_ue_nem_id ≤ nem_id
        → nem_id - min_ue_nem_id < length qs
        → (qs' : List (Queue MessageBuffer)) × (oai_subframe_handle_msg_from_ue qs msg nem_id
            ≡ returns qs')
          × (oai_slot_handle_msg_from_ue qs msg nem_id ≡ returns qs')
          × Hold qs' (enqueue_at xss (nem_id - min_ue_nem_id) (new_buffer msg)))
      × ((length msg ≡ 4) ⊎ (nem_id < min_ue_nem_id) ⊎ (length qs ≤ nem_id - min_ue_nem_id)
          → (oai_subframe_handle_msg_from_ue qs msg nem_id ≡ returns qs)
            × (oai_slot_handle_msg_from_ue qs msg nem_id ≡ returns qs))
unfolding oai_subframe_handle_msg_from_ue oai_slot_handle_msg_from_ue
handle_msg_from_ue-enqueues qs xss msg nem_id h = (
  λ long short low high.
      let (qs', run, hold) = handle_msg_from_ue-accepts qs xss msg nem_id h long short low high in
      (qs', run, run, hold),
  λ why. let same = handle_msg_from_ue-ignores qs msg nem_id why in (same, same),
)

abbrev pub no_messages : ℕ → List (List MessageBuffer)
no_messages zero = []
no_messages (suc num_ues) = [] ∷ no_messages num_ues

pub init_queues-Hold : (num_ues : ℕ) → Hold (init_queues num_ues) (no_messages num_ues)
unfolding init_queues
init_queues-Hold zero = no_ue
init_queues-Hold (suc num_ues) = one_ue init_queue-Represents tt (init_queues-Hold num_ues)

-- With at most 64 UEs both tables have a queue for each, which holds no message; with more, the
-- loops leave the tables.
pub oai_init-Hold :
    (num_ues : ℕ)
    → ((num_ues ≤ max_ue_queues)
        × (qs : List (Queue MessageBuffer)) × (oai_subframe_init num_ues ≡ some qs)
        × (oai_slot_init num_ues ≡ some qs)
        × Hold qs (no_messages num_ues))
      ⊎ ((max_ue_queues < num_ues)
          × (oai_subframe_init num_ues ≡ none)
          × (oai_slot_init num_ues ≡ none))
unfolding oai_subframe_init oai_slot_init
oai_init-Hold num_ues = elim (dec_lt max_ue_queues num_ues) [
  | yes many ↦ inr (many, ground arith, ground arith)
  | no few ↦ inl (
    omega (arith, few),
    init_queues num_ues,
    ground arith,
    ground arith,
    init_queues-Hold num_ues,
  )
]
