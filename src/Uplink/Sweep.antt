-- ===== src/Uplink/Sweep.antt =====
-- All UEs' queues in one pass: dequeue_ue_msgs and dequeue_ue_slot_msgs of src/nfapi_pnf.c.
use oai_lte_5g_multi_ue_prox.Base.{
  subst₂, ℕ, ◌+◌, ◌≤◌, ◌≡◌, ◌≢◌, ◌⊎◌, refl, sym, ap, ◌∙◌, Bool, true, ◌&&◌, Option, List, [], ◌∷◌,
  ◌++◌, returns, arith, length, All, append_assoc, append-nil, ℕ_discrete,
}
use oai_lte_5g_multi_ue_prox.Message.{MessageBuffer, Pull, data_max, all_ones}
use oai_lte_5g_multi_ue_prox.Queue.{Queue, max_queue_size}
use oai_lte_5g_multi_ue_prox.Queue.Ring.{Represents}
use oai_lte_5g_multi_ue_prox.Uplink.{
  Link, lte, nr, Drain, max_msgs, drain, Dequeued, dequeue_from, dequeue_msgs, dequeue_ue_msgs,
  dequeue_ue_slot_msgs,
}
use oai_lte_5g_multi_ue_prox.Uplink.Drained.{
  IsStored, Split, is_nil, IsTimely, IsRefused, IsHeld, Drained,
}
use oai_lte_5g_multi_ue_prox.Uplink.Dequeue.{drain-Drained}
use oai_lte_5g_multi_ue_prox.Uplink.Times.{
  lte_time, nr_time, get_sfnsf-lte_time, get_sfnslot-nr_time,
}

-- Queue i holds list i, of messages that the receiving side stored.
pub data Hold : List (Queue MessageBuffer) → List (List MessageBuffer) → Type 0 where
  no_ue : Hold [] []
  one_ue :
      {q : Queue MessageBuffer} {xs : List MessageBuffer} {qs : List (Queue MessageBuffer)}
      {xss : List (List MessageBuffer)}
      → Represents q xs
      → All IsStored xs
      → Hold qs xss
      → Hold (q ∷ qs) (xs ∷ xss)

module _ (link : Link) (time : MessageBuffer → Option ℕ) (tx : ℕ) where
  -- What becomes of the contents of the queues under one master time: the queues afterwards, the
  -- messages collected from each, those freed, and whether all queues are empty. From each UE a
  -- prefix is taken, split in order into at most eight collected messages of the master time and
  -- the freed ones, which have a reason; what is left starts with a message of another time.
  pub data Sweep (master : ℕ)
      : List (List MessageBuffer)
        → List (Queue MessageBuffer)
        → List (List MessageBuffer)
        → List MessageBuffer
        → Bool
        → Type 0 where
    swept : Sweep master [] [] [] [] true
    sweep_ue :
        {xs : List MessageBuffer} {xss : List (List MessageBuffer)} {q : Queue MessageBuffer}
        {qs : List (Queue MessageBuffer)} {ms : List MessageBuffer}
        {mss : List (List MessageBuffer)} {freed all_freed : List MessageBuffer}
        {empty all_empty : Bool} (taken rest dropped : List MessageBuffer)
        → xs ≡ taken ++ rest
        → Split taken ms dropped
        → Represents q rest
        → length ms ≤ max_msgs
        → All (IsTimely link time tx master) ms
        → All (IsRefused link time tx (length ms)) dropped
        → IsHeld link time tx master rest
        → all_freed ≡ dropped ++ freed
        → all_empty ≡ (is_nil rest && empty)
        → Sweep master xss qs mss freed empty
        → Sweep master (xs ∷ xss) (q ∷ qs) (ms ∷ mss) all_freed all_empty

  IsTimely-later :
      (m m' : ℕ) (ms : List MessageBuffer)
      → (m ≢ all_ones → m' ≡ m)
      → All (IsTimely link time tx m) ms
      → All (IsTimely link time tx m') ms
  IsTimely-later m m' [] steady ok = tt
  IsTimely-later m m' (msg ∷ ms) steady (t, ok) = (
    record { at = t.at; read = t.read; on_time = later (ℕ_discrete m all_ones); recent = t.recent },
    IsTimely-later m m' ms steady ok,
  )
    where
      later : Dec (m ≡ all_ones) → (t.at ≡ m') ⊎ (t.at ≡ all_ones)
      later (yes unset) = ground (arith, t.on_time)
      later (no set) = ground (arith, t.on_time, steady set)

  IsHeld-later :
      (m m' : ℕ) (rest : List MessageBuffer)
      → (m ≢ all_ones → m' ≡ m)
      → IsHeld link time tx m rest
      → IsHeld link time tx m' rest
  IsHeld-later m m' [] steady h = tt
  IsHeld-later m m' (msg ∷ rest) steady (at, read, ne, set) = rw (steady set) (at, read, ne, set)

  abbrev Sweeps :
      ℕ
      → Bool
      → List MessageBuffer
      → List (Queue MessageBuffer)
      → List (List MessageBuffer)
      → Type 0
  Sweeps m empty freed qs xss =
      (r : Dequeued) × (master : ℕ) × (dropped : List MessageBuffer) × (all_empty : Bool)
      × (dequeue_from link tx m empty freed qs ≡ returns r)
      × (m ≢ all_ones → master ≡ m)
      × Sweep master xss r.queues r.collected dropped all_empty
      × (r.freed ≡ freed ++ dropped)
      × (r.are_queues_empty ≡ (empty && all_empty))

  module _
      (reads : (msg : MessageBuffer)
        → msg.length_field ≤ data_max
        → link.get_time msg ≡ returns (time msg)) where
    sweep_step :
        (m : ℕ) (empty : Bool) (freed : List MessageBuffer) (q : Queue MessageBuffer)
        (qs : List (Queue MessageBuffer)) (xs : List MessageBuffer)
        (xss : List (List MessageBuffer)) (d : Drain)
        → drain link tx
            (max_queue_size + 1)
            (record { queue = q; master = m; msgs = []; freed = freed; are_queues_empty = empty })
          ≡ returns d
        → Drained link time tx
            (record { queue = q; master = m; msgs = []; freed = freed; are_queues_empty = empty })
            xs
            d
        → Sweeps d.master d.are_queues_empty d.freed qs xss
        → Sweeps m empty freed (q ∷ qs) (xs ∷ xss)
    unfolding dequeue_from
    sweep_step m empty freed q qs xs xss d run dr
          (r, master, dropped, all_empty, runs, steady, sw, fr, em) =
        (
          record r { queues = d.queue ∷ r.queues; collected = d.msgs ∷ r.collected },
          master,
          dr.dropped ++ dropped,
          is_nil dr.rest && all_empty,
          rw (run, runs),
          λ set. ground (arith, steady, dr.steady set),
          sweep_ue dr.taken dr.rest dr.dropped dr.parts (rw dr.collected dr.sorted) dr.left
              dr.bounded (rw dr.collected (IsTimely-later d.master master dr.kept steady dr.timely))
              dr.excused (IsHeld-later d.master master dr.rest steady dr.held) refl refl sw,
          fr ∙ ap (λ f. f ++ dropped) dr.released ∙ append_assoc freed dr.dropped dropped,
          ground (arith, em, dr.emptied),
        )

    dequeue_from-Sweeps :
        (m : ℕ) (empty : Bool) (freed : List MessageBuffer) (qs : List (Queue MessageBuffer))
        (xss : List (List MessageBuffer))
        → Hold qs xss
        → Sweeps m empty freed qs xss
    unfolding dequeue_from
    dequeue_from-Sweeps m empty freed qs xss no_ue = (
      record { queues = []; collected = []; freed = freed; are_queues_empty = empty },
      m,
      [],
      true,
      refl,
      λ _. refl,
      swept,
      sym (append-nil freed),
      ground arith,
    )
    dequeue_from-Sweeps m empty freed qs xss (one_ue {q} {xs} {qs = qs'} {xss = xss'} v ok h) =
        let (d, run, dr) =
          drain-Drained link time tx reads xs (max_queue_size + 1)
            (record { queue = q; master = m; msgs = []; freed = freed; are_queues_empty = empty })
            ok v (omega arith) (omega (arith, v.fits)) in
        sweep_step m empty freed q qs' xs xss' d run dr
          (dequeue_from-Sweeps d.master d.are_queues_empty d.freed qs' xss' h)

    pub dequeue_msgs-Sweep :
        (qs : List (Queue MessageBuffer)) (xss : List (List MessageBuffer))
        → Hold qs xss
        → (r : Dequeued) × (master : ℕ) × (dequeue_msgs link tx qs ≡ returns r)
          × Sweep master xss r.queues r.collected r.freed r.are_queues_empty
    unfolding dequeue_msgs
    dequeue_msgs-Sweep qs xss h =
        let (r, master, dropped, all_empty, run, steady, sw, fr, em) =
          dequeue_from-Sweeps all_ones true [] qs xss h in
        (r, master, run, subst₂ (Sweep master xss r.queues r.collected) (sym fr) (sym em) sw)

-- For queues that hold messages as the receiving side stores them, `dequeue_ue_msgs` ends and trips
-- no assertion. There is one master time such that from each UE's queue a prefix is taken and
-- split, in order, into at most eight collected messages, which have the master time (or the time
-- 0xFFFF) and a `get_sf_delta` of at most 200, and messages that are freed, each of which has
-- length 4 or no time or a larger delta, unless eight are collected; what stays queued starts with
-- a message of another time. The result is true exactly when nothing stays queued.
pub dequeue_ue_msgs-Sweep :
    (pull16 : Pull) (qs : List (Queue MessageBuffer)) (xss : List (List MessageBuffer))
    (sfn_sf_tx : ℕ)
    → Hold qs xss
    → (r : Dequeued) × (master : ℕ) × (dequeue_ue_msgs pull16 qs sfn_sf_tx ≡ returns r)
      × Sweep
          (lte pull16)
          (lte_time pull16)
          sfn_sf_tx
          master
          xss
          r.queues
          r.collected
          r.freed
          r.are_queues_empty
unfolding dequeue_ue_msgs
dequeue_ue_msgs-Sweep pull16 qs xss tx h =
    dequeue_msgs-Sweep (lte pull16) (lte_time pull16) tx (get_sfnsf-lte_time pull16) qs xss h

-- `dequeue_ue_slot_msgs` does the same with slots, where the `get_slot_delta` of a collected
-- message is at most 400.
pub dequeue_ue_slot_msgs-Sweep :
    (pull16 : Pull) (qs : List (Queue MessageBuffer)) (xss : List (List MessageBuffer))
    (sfn_slot_tx : ℕ)
    → Hold qs xss
    → (r : Dequeued) × (master : ℕ) × (dequeue_ue_slot_msgs pull16 qs sfn_slot_tx ≡ returns r)
      × Sweep
          (nr pull16)
          (nr_time pull16)
          sfn_slot_tx
          master
          xss
          r.queues
          r.collected
          r.freed
          r.are_queues_empty
unfolding dequeue_ue_slot_msgs
dequeue_ue_slot_msgs-Sweep pull16 qs xss tx h =
    dequeue_msgs-Sweep (nr pull16) (nr_time pull16) tx (get_sfnslot-nr_time pull16) qs xss h
