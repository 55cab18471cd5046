-- ===== src/Uplink.antt =====
-- The uplink queues of src/nfapi_pnf.c: the receiving threads put each UE's messages into that UE's
-- queue, and every subframe or slot the task takes out those of one time. LTE and NR have the same
-- code over different words, so what they share is written once over a `Link`.
-- `assert` and `abort` are `aborts`, and so is a loop that runs out of fuel. The mutexes are
-- default ones, which lock. The messages freed are
-- returned beside the state, oldest first.
pub mod Drained
pub mod Dequeue
pub mod Times
pub mod Sweep
pub mod Delivered
pub mod Receive
pub mod Examples
use oai_lte_5g_multi_ue_prox.Base.{
  ℕ, zero, suc, ◌+◌, ◌-◌, ℤ, exceeds, Bool, true, false, ◌||◌, ◌&&◌, not, Option, none, some, List,
  [], ◌∷◌, ◌++◌, Outcome, returns, aborts, ◌>>=◌, if◌then◌else◌, ◌==◌, leb, ltb, length, get_elem?,
}
use oai_lte_5g_multi_ue_prox.Queue.{
  Queue, init_queue, put_queue, get_queue, requeue, max_queue_size,
}
use oai_lte_5g_multi_ue_prox.Message.{
  MessageBuffer, message_buffer_magic, data_max, all_ones, Pull, get_sfnsf, get_sfnslot,
}
use oai_lte_5g_multi_ue_prox.Sfn.{get_sf_delta, get_slot_delta}

-- What differs between LTE and NR: how a message's time is read, and when it is too old.
pub record Link : Type 0 where
  pub get_time : MessageBuffer → Outcome (Option ℕ)
  pub delta : ℕ → ℕ → ℤ
  pub oldest : ℕ

abbrev pub lte : Pull → Link
lte pull16 = record { get_time = get_sfnsf pull16; delta = get_sf_delta; oldest = 200 }

abbrev pub nr : Pull → Link
nr pull16 = record { get_time = get_sfnslot pull16; delta = get_slot_delta; oldest = 400 }

-- MAX_SUBFRAME_MSGS and MAX_SLOT_MSGS
abbrev pub max_msgs : ℕ
max_msgs = 8

abbrev pub min_ue_nem_id : ℕ
min_ue_nem_id = 2

-- What the loops of `dequeue_ue_msgs` keep while one UE's queue is emptied.
pub record Drain : Type 0 where
  pub queue : Queue MessageBuffer
  pub master : ℕ
  pub msgs : List MessageBuffer
  pub freed : List MessageBuffer
  pub are_queues_empty : Bool

-- The next round of a `for (;;)`, or its end.
pub data Round {ℓ} (A : Type ℓ) : Type ℓ where
  continues : A → Round A
  breaks : A → Round A

abbrev pub free_msg : Drain → MessageBuffer → Drain
free_msg d msg = record d { freed = d.freed ++ msg ∷ [] }

-- `if (master == 0xFFFF) master = time;`
abbrev pub set_master : Drain → ℕ → Drain
set_master d time = record d { master = if d.master == all_ones then time else d.master }

-- The result for all UEs: each one's queue afterwards and messages, then what was freed, and
-- `are_queues_empty`.
pub record Dequeued : Type 0 where
  pub queues : List (Queue MessageBuffer)
  pub collected : List (List MessageBuffer)
  pub freed : List MessageBuffer
  pub are_queues_empty : Bool

module _ (link : Link) (tx : ℕ) where
  -- The rest of a round, once the message's time is known and the master time is set.
  unfoldable pub keep_or_drop : ℕ → Drain → MessageBuffer → Outcome (Round Drain)
  keep_or_drop time d msg =
      if d.master == time
      then if exceeds (link.delta tx time) link.oldest || length d.msgs == max_msgs
        then returns (continues (free_msg d msg))
        else returns (continues (record d { msgs = d.msgs ++ msg ∷ [] }))
      else requeue true d.queue (some msg) >>= λ (q, queued).
          let back : Drain = record d { queue = q; are_queues_empty = false } in
          returns (breaks (if queued then back else free_msg back msg))

  unfoldable pub handle_msg : Drain → MessageBuffer → Outcome (Round Drain)
  handle_msg d msg =
      if not (msg.magic == message_buffer_magic)
      then aborts
      else if msg.length_field == 4
      then returns (continues (free_msg d msg))
      else link.get_time msg >>= elim [
        | none ↦ returns (continues (free_msg d msg))
        | some time ↦ keep_or_drop time (set_master d time) msg
      ]

  -- The `for (;;)` over one UE's queue.
  unfoldable pub drain : ℕ → Drain → Outcome Drain
  drain zero d = aborts
  drain (suc fuel) d = get_queue true d.queue >>= λ (q, item). elim item [
    | none ↦ returns (record d { queue = q })
    | some msg ↦
        handle_msg (record d { queue = q }) msg
        >>= elim [ continues d' ↦ drain fuel d' | breaks d' ↦ returns d' ]
  ]

  -- The loop over the UEs whose queues are given; a UE's array starts empty.
  unfoldable pub dequeue_from :
      ℕ → Bool → List MessageBuffer → List (Queue MessageBuffer) → Outcome Dequeued
  dequeue_from master empty freed [] =
      returns (record { queues = []; collected = []; freed = freed; are_queues_empty = empty })
  dequeue_from master empty freed (q ∷ qs) =
      drain (max_queue_size + 1)
        (record { queue = q; master = master; msgs = []; freed = freed; are_queues_empty = empty })
      >>= λ d. dequeue_from d.master d.are_queues_empty d.freed qs >>= λ r.
          returns (record r { queues = d.queue ∷ r.queues; collected = d.msgs ∷ r.collected })

  unfoldable pub dequeue_msgs : List (Queue MessageBuffer) → Outcome Dequeued
  dequeue_msgs queues = dequeue_from all_ones true [] queues

-- The two functions of the source, with the number of UEs the length of the list.
unfoldable pub dequeue_ue_msgs : Pull → List (Queue MessageBuffer) → ℕ → Outcome Dequeued
dequeue_ue_msgs pull16 queues sfn_sf_tx = dequeue_msgs (lte pull16) sfn_sf_tx queues

unfoldable pub dequeue_ue_slot_msgs : Pull → List (Queue MessageBuffer) → ℕ → Outcome Dequeued
dequeue_ue_slot_msgs pull16 queues sfn_slot_tx = dequeue_msgs (nr pull16) sfn_slot_tx queues

-- `msgs_from_ue[i] = q`
unfoldable pub set_at :
    List (Queue MessageBuffer) → ℕ → Queue MessageBuffer → List (Queue MessageBuffer)
set_at [] i q = []
set_at (p ∷ ps) zero q = q ∷ ps
set_at (p ∷ ps) (suc i) q = p ∷ set_at ps i q

unfoldable pub init_queues : ℕ → List (Queue MessageBuffer)
init_queues zero = []
init_queues (suc num_ues) = init_queue ∷ init_queues num_ues

-- MAX_UES, the length of `msgs_from_ue` and of `msgs_from_nr_ue`.
abbrev pub max_ue_queues : ℕ
max_ue_queues = 64

-- `none` where the loop leaves its table, and C promises nothing.
unfoldable pub oai_subframe_init : ℕ → Option (List (Queue MessageBuffer))
oai_subframe_init num_ues = if leb num_ues max_ue_queues then some (init_queues num_ues) else none

unfoldable pub oai_slot_init : ℕ → Option (List (Queue MessageBuffer))
oai_slot_init num_ues = if leb num_ues max_ue_queues then some (init_queues num_ues) else none

-- `i = nem_id - MIN_UE_NEM_ID`, and the queue of UE i if i is in range.
queue_of : List (Queue MessageBuffer) → ℕ → Option (Queue MessageBuffer)
queue_of queues nem_id =
    if ltb nem_id min_ue_nem_id then none else get_elem? queues (nem_id - min_ue_nem_id)

-- The buffer that `malloc` and `memcpy` make of a datagram.
abbrev pub new_buffer : List ℕ → MessageBuffer
new_buffer msg = record { magic = message_buffer_magic; length_field = length msg; bytes = msg }

-- What both handlers do with a datagram from a UE; a refused message is freed.
unfoldable pub handle_msg_from_ue :
    List (Queue MessageBuffer) → List ℕ → ℕ → Outcome (List (Queue MessageBuffer))
unfolding queue_of
handle_msg_from_ue queues msg nem_id =
    if length msg == 4 then returns queues else elim (queue_of queues nem_id) [
      | none ↦ returns queues
      | some q ↦
          if ltb (length msg) data_max
          then (put_queue true q (some (new_buffer msg)) >>= λ (q', queued).
              returns (if queued then set_at queues (nem_id - min_ue_nem_id) q' else queues))
          else aborts
    ]

unfoldable pub oai_subframe_handle_msg_from_ue :
    List (Queue MessageBuffer) → List ℕ → ℕ → Outcome (List (Queue MessageBuffer))
oai_subframe_handle_msg_from_ue queues msg nem_id = handle_msg_from_ue queues msg nem_id

unfoldable pub oai_slot_handle_msg_from_ue :
    List (Queue MessageBuffer) → List ℕ → ℕ → Outcome (List (Queue MessageBuffer))
oai_slot_handle_msg_from_ue queues msg nem_id = handle_msg_from_ue queues msg nem_id
