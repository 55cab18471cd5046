-- ===== src/Uplink/Drained.antt =====
-- What emptying one UE's queue comes to, for the loops of dequeue_ue_msgs and dequeue_ue_slot_msgs.
use oai_lte_5g_multi_ue_prox.Base.{
  ℕ, ◌+◌, ◌≤◌, ◌<◌, ◌≡◌, ◌≢◌, ◌⊎◌, refl, sym, inl, inr, Bool, true, false, ◌&&◌, Option, none, some,
  List, [], ◌∷◌, ◌++◌, Outcome, returns, arith, length, All, exceeds, Option-cases, Bool-cases,
  dec_lt, ℕ_discrete,
}
use oai_lte_5g_multi_ue_prox.Message.{MessageBuffer, message_buffer_magic, data_max, all_ones}
use oai_lte_5g_multi_ue_prox.Queue.{Queue, max_queue_size}
use oai_lte_5g_multi_ue_prox.Queue.Ring.{Represents}
use oai_lte_5g_multi_ue_prox.Queue.Fifo.{requeue-prepends}
use oai_lte_5g_multi_ue_prox.Uplink.{
  Link, Drain, Round, continues, breaks, max_msgs, free_msg, set_master, keep_or_drop, handle_msg,
}

-- What the receiving side puts into a queue.
pub record IsStored (msg : MessageBuffer) : Type 0 where
  pub marked : msg.magic ≡ message_buffer_magic
  pub fits : msg.length_field ≤ data_max

-- Each element of the first list is in one of the two others, and the order is kept.
pub data Split {ℓ} {A : Type ℓ} : List A → List A → List A → Type ℓ where
  none_left : Split [] [] []
  to_first : {xs ys zs : List A} (x : A) → Split xs ys zs → Split (x ∷ xs) (x ∷ ys) zs
  to_second : {xs ys zs : List A} (x : A) → Split xs ys zs → Split (x ∷ xs) ys (x ∷ zs)

pub length-Split {ℓ} :
    {A : Type ℓ} {xs ys zs : List A} → Split xs ys zs → length xs ≡ length ys + length zs
length-Split none_left = refl
length-Split (to_first x s) = omega (arith, length-Split s)
length-Split (to_second x s) = omega (arith, length-Split s)

abbrev pub is_nil {ℓ} : {A : Type ℓ} → List A → Bool
is_nil [] = true
is_nil (x ∷ xs) = false

module _ (link : Link) (time : MessageBuffer → Option ℕ) (tx : ℕ) where
  -- A message may be collected: it has the master time, or the time 0xFFFF that stands for none,
  -- and is not too old.
  pub record IsTimely (master : ℕ) (msg : MessageBuffer) : Type 0 where
    pub at : ℕ
    pub read : time msg ≡ some at
    pub on_time : (at ≡ master) ⊎ (at ≡ all_ones)
    pub recent : exceeds (link.delta tx at) link.oldest ≡ false

  -- The message at the head of what is left, if any, has another time.
  abbrev pub IsHeld : ℕ → List MessageBuffer → Type 0
  IsHeld master [] = Unit {0}
  IsHeld master (msg ∷ rest) = (at : ℕ) × (time msg ≡ some at) × (at ≢ master) × (master ≢ all_ones)

  -- Why a message is freed, where `n` messages of its UE are collected.
  pub data IsRefused (n : ℕ) (msg : MessageBuffer) : Type 0 where
    is_dummy : msg.length_field ≡ 4 → IsRefused n msg
    has_no_time : time msg ≡ none → IsRefused n msg
    is_old :
        (at : ℕ)
        → time msg ≡ some at
        → exceeds (link.delta tx at) link.oldest ≡ true
        → IsRefused n msg
    finds_full : n ≡ max_msgs → IsRefused n msg

  pub IsRefused-later :
      (n m : ℕ) (msg : MessageBuffer) → n ≤ m → m ≤ max_msgs → IsRefused n msg → IsRefused m msg
  IsRefused-later n m msg up few (is_dummy e) = is_dummy e
  IsRefused-later n m msg up few (has_no_time e) = has_no_time e
  IsRefused-later n m msg up few (is_old at e old) = is_old at e old
  IsRefused-later n m msg up few (finds_full e) = finds_full (omega (arith, up, few, e))

  -- From `d`, whose queue holds `xs`, to `d'`.
  pub record Drained (d : Drain) (xs : List MessageBuffer) (d' : Drain) : Type 0 where
    pub taken : List MessageBuffer
    pub rest : List MessageBuffer
    pub kept : List MessageBuffer
    pub dropped : List MessageBuffer
    pub parts : xs ≡ taken ++ rest
    pub sorted : Split taken kept dropped
    pub left : Represents d'.queue rest
    pub collected : d'.msgs ≡ d.msgs ++ kept
    pub released : d'.freed ≡ d.freed ++ dropped
    pub bounded : length d'.msgs ≤ max_msgs
    pub timely : All (IsTimely d'.master) kept
    pub excused : All (IsRefused (length d'.msgs)) dropped
    pub steady : d.master ≢ all_ones → d'.master ≡ d.master
    pub emptied : d'.are_queues_empty ≡ (d.are_queues_empty && is_nil rest)
    pub held : IsHeld d'.master rest

  -- What a round does with a message, at the head of a queue that holds `xs` besides.
  pub data Verdict (d : Drain) (xs : List MessageBuffer) (msg : MessageBuffer)
      (out : Outcome (Round Drain)) : Type 0 where
    drop :
        (master : ℕ)
        → (d.master ≡ master) ⊎ (d.master ≡ all_ones)
        → IsRefused (length d.msgs) msg
        → out ≡ returns (continues (record (free_msg d msg) { master = master }))
        → Verdict d xs msg out
    keep :
        (at : ℕ)
        → time msg ≡ some at
        → (d.master ≡ at) ⊎ (d.master ≡ all_ones)
        → exceeds (link.delta tx at) link.oldest ≡ false
        → length d.msgs < max_msgs
        → out ≡ returns (continues (record d { master = at; msgs = d.msgs ++ msg ∷ [] }))
        → Verdict d xs msg out
    hold :
        (at : ℕ) (q : Queue MessageBuffer)
        → time msg ≡ some at
        → at ≢ d.master
        → d.master ≢ all_ones
        → Represents q (msg ∷ xs)
        → out ≡ returns (breaks (record d { queue = q; are_queues_empty = false }))
        → Verdict d xs msg out

  module _
      (reads : (msg : MessageBuffer)
        → msg.length_field ≤ data_max
        → link.get_time msg ≡ returns (time msg)) where
    agreed-Verdict :
        (d : Drain) (xs : List MessageBuffer) (msg : MessageBuffer) (at : ℕ)
        → length d.msgs ≤ max_msgs
        → time msg ≡ some at
        → (d.master ≡ at) ⊎ (d.master ≡ all_ones)
        → Verdict d xs msg (keep_or_drop link tx at (set_master d at) msg)
    unfolding keep_or_drop
    agreed-Verdict d xs msg at few e on =
        elim (Bool-cases (exceeds (link.delta tx at) link.oldest)) [
          | inl old ↦ drop at on (is_old at e old) (ground arith)
          | inr recent ↦ elim (dec_lt (length d.msgs) max_msgs) [
            | yes room ↦ keep at e on recent room (ground arith)
            | no full ↦ drop at on (finds_full (omega (arith, full, few))) (ground arith)
          ]
        ]

    differing-Verdict :
        (d : Drain) (xs : List MessageBuffer) (msg : MessageBuffer) (at : ℕ)
        → Represents d.queue xs
        → length xs < max_queue_size
        → time msg ≡ some at
        → d.master ≢ at
        → d.master ≢ all_ones
        → Verdict d xs msg (keep_or_drop link tx at (set_master d at) msg)
    unfolding keep_or_drop
    differing-Verdict d xs msg at v room e ne unset =
        let (q, queued, rep) = (requeue-prepends d.queue xs msg v).0 room in
        hold at q e (λ same. ne (sym same)) unset rep (ground (arith, queued))

    pub handle_msg-Verdict :
        (d : Drain) (xs : List MessageBuffer) (msg : MessageBuffer)
        → IsStored msg
        → Represents d.queue xs
        → length xs < max_queue_size
        → length d.msgs ≤ max_msgs
        → Verdict d xs msg (handle_msg link tx d msg)
    unfolding handle_msg
    handle_msg-Verdict d xs msg ok v room few = elim (ℕ_discrete msg.length_field 4) [
      | yes dummy ↦ drop d.master (inl refl) (is_dummy dummy) (ground (arith, ok.marked))
      | no long ↦ elim (Option-cases (time msg)) [
        | inl e ↦
            drop d.master (inl refl) (has_no_time e) (ground (arith, ok.marked, reads msg ok.fits))
        | inr (at, e) ↦
            let step : handle_msg link tx d msg ≡ keep_or_drop link tx at (set_master d at) msg =
              ground (arith, ok.marked, reads msg ok.fits) in
            rw step (elim (ℕ_discrete d.master at) [
              | yes same ↦ agreed-Verdict d xs msg at few e (inl same)
              | no ne ↦ elim (ℕ_discrete d.master all_ones) [
                | yes unset ↦ agreed-Verdict d xs msg at few e (inr unset)
                | no set ↦ differing-Verdict d xs msg at v room e ne set
              ]
            ])
      ]
    ]
