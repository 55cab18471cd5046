-- ===== src/Task/Returned.antt =====
-- What a round of oai_subframe_task and of oai_slot_task of src/nfapi_pnf.c returns.
use oai_lte_5g_multi_ue_prox.Base.{
  ℕ, suc, sym, Option, ◌≡◌, refl, Bool, true, false, List, [], ◌∷◌, ◌++◌, map, returns, length, ap,
  ◌∙◌, All,
}
use oai_lte_5g_multi_ue_prox.Sfn.{Counter, sfn_sf_counter, sfn_slot_counter}
use oai_lte_5g_multi_ue_prox.Queue.{Queue}
use oai_lte_5g_multi_ue_prox.Message.{MessageBuffer}
use oai_lte_5g_multi_ue_prox.Uplink.{Link, lte, nr}
use oai_lte_5g_multi_ue_prox.Uplink.Sweep.{Hold, Sweep, swept, sweep_ue}
use oai_lte_5g_multi_ue_prox.Uplink.Times.{lte_time, nr_time}
use oai_lte_5g_multi_ue_prox.Uplink.Receive.{length-Hold}
use oai_lte_5g_multi_ue_prox.Batch.Batches.{id_of_message}
use oai_lte_5g_multi_ue_prox.Aggregate.Subframe.{
  LteLibrary, LteSent, oai_subframe_aggregate_message_id,
}
use oai_lte_5g_multi_ue_prox.Aggregate.Slot.{NrLibrary, NrSent, oai_slot_aggregate_message_id}
use oai_lte_5g_multi_ue_prox.Aggregate.EndsLte.{IsAcceptable, message_id-Ends}
use oai_lte_5g_multi_ue_prox.Aggregate.EndsNr.{IsNrAcceptable, nr_message_id-Ends}
use oai_lte_5g_multi_ue_prox.Task.{
  Event, ue_time, station_time, pauses, subframe_pause, sends, TaskState, Worked, oai_subframe_ind,
  oai_slot_ind, subframe_round, slot_round,
}
use oai_lte_5g_multi_ue_prox.Task.Swept.{concat, swept-Accounted}
use oai_lte_5g_multi_ue_prox.Task.Ends.{send_batches-Ends}
use oai_lte_5g_multi_ue_prox.Task.Collected.{IsOnce, freed-IsOnce, concat-IsStored}
use oai_lte_5g_multi_ue_prox.Task.Rounds.{
  subframe_worked, slot_worked, subframe_round-sends_batches, slot_round-sends_batches,
}

-- The times that are sent to the UEs.
abbrev pub ue_times : {S : Type 0} → List (Event S) → List ℕ
ue_times [] = []
ue_times (ue_time t ∷ es) = t ∷ ue_times es
ue_times (station_time t ∷ es) = ue_times es
ue_times (pauses usec ∷ es) = ue_times es
ue_times (sends s ∷ es) = ue_times es

pub ue_times-append :
    {S : Type 0} (xs ys : List (Event S)) → ue_times (xs ++ ys) ≡ ue_times xs ++ ue_times ys
ue_times-append [] ys = refl
ue_times-append (ue_time t ∷ xs) ys = ap (◌∷◌ t) (ue_times-append xs ys)
ue_times-append (station_time t ∷ xs) ys = ue_times-append xs ys
ue_times-append (pauses usec ∷ xs) ys = ue_times-append xs ys
ue_times-append (sends s ∷ xs) ys = ue_times-append xs ys

ue_times-sends : {S : Type 0} (sent : List S) → ue_times (map sends sent) ≡ []
ue_times-sends [] = refl
ue_times-sends (s ∷ sent) = ue_times-sends sent

subframe-ue_times :
    {S : Type 0} (is_empty is_configured : Bool) (sfn sf : ℕ) (sent : List S)
    → ue_times
        (subframe_pause is_empty ++ (oai_subframe_ind is_configured sfn sf ++ map sends sent))
      ≡ []
unfolding oai_subframe_ind subframe_pause
subframe-ue_times true true sfn sf sent = ue_times-sends sent
subframe-ue_times true false sfn sf sent = ue_times-sends sent
subframe-ue_times false true sfn sf sent = ue_times-sends sent
subframe-ue_times false false sfn sf sent = ue_times-sends sent

slot-ue_times :
    {S : Type 0} (is_configured : Bool) (sfn slot : ℕ) (sent : List S)
    → ue_times (oai_slot_ind is_configured sfn slot ++ map sends sent) ≡ []
unfolding oai_slot_ind
slot-ue_times true sfn slot sent = ue_times-sends sent
slot-ue_times false sfn slot sent = ue_times-sends sent

queues-Sweep :
    {link : Link} {time : MessageBuffer → Option ℕ} {tx master : ℕ}
    {xss : List (List MessageBuffer)} {qs : List (Queue MessageBuffer)}
    {mss : List (List MessageBuffer)} {freed : List MessageBuffer} {empty : Bool}
    → Sweep link time tx master xss qs mss freed empty
    → length qs ≡ length xss
queues-Sweep swept = refl
queues-Sweep (sweep_ue taken rest dropped parts split rep few timely excused held f e sw) =
    ap suc (queues-Sweep sw)

-- A round's result: the next time, which alone goes to the UEs, and each message freed or queued;
-- what all queued messages satisfy, those left satisfy.
pub record IsWorked {S : Type 0} (P : MessageBuffer → Type 0) (next : Counter → Counter × ℕ)
    (s : TaskState) (xss : List (List MessageBuffer)) (w : Worked S) : Type 0 where
  pub rests : List (List MessageBuffer)
  pub holds : Hold w.state.queues rests
  pub sized : length rests ≡ length xss
  pub once : IsOnce xss w.freed rests
  pub remain : All (All P) rests
  pub advanced : w.state.counter ≡ (next s.counter).0
  pub announced : ue_times w.events ≡ (next s.counter).1 ∷ []

-- On queues of stored messages that the aggregation of their ids does not refuse, a round of the
-- LTE thread always returns. It has then announced just the next subframe to the UEs, and each
-- message that was queued is freed exactly once, or is queued still.
pub subframe_round-IsWorked :
    {P : Type 0} (lib : LteLibrary P) (is_configured : Bool) (s : TaskState)
    (xss : List (List MessageBuffer))
    → Hold s.queues xss
    → All (All (IsAcceptable lib)) xss
    → (w : Worked (LteSent P)) × (subframe_round lib is_configured s ≡ returns w)
      × IsWorked (IsAcceptable lib) sfn_sf_counter s xss w
subframe_round-IsWorked lib is_configured s xss h good =
    let (r, master, rests, sw, holds, run, once) =
      subframe_round-sends_batches lib is_configured s xss h in
    let tx = (sfn_sf_counter s.counter).1 in
    let a =
      swept-Accounted (IsAcceptable lib) (lte lib.pull16) (lte_time lib.pull16) tx master h sw in
    let (sent, e) =
      send_batches-Ends (IsAcceptable lib) (id_of_message lib.pull16) (lte_time lib.pull16)
        (oai_subframe_aggregate_message_id lib) (message_id-Ends lib) (length (concat r.collected))
        (concat r.collected) (a.selected good) (concat-IsStored r.collected a.stored) a.timed in
    let w = subframe_worked lib is_configured s r sent in
    let next = (sfn_sf_counter s.counter).0 in
    (
      w,
      rw (run, e) refl,
      record {
        rests = a.rests;
        holds = a.holds;
        sized = sym (length-Hold a.holds) ∙ queues-Sweep sw;
        once = freed-IsOnce lib.pull16 xss r.collected a.rests r.freed a.once;
        remain = a.remain good;
        advanced = refl;
        announced =
            ap (◌∷◌ tx) (subframe-ue_times s.are_queues_empty is_configured next.sfn next.sub sent);
      },
    )

-- So does a round of the NR thread, with slots.
pub slot_round-IsWorked :
    {P : Type 0} (lib : NrLibrary P) (is_configured : Bool) (s : TaskState)
    (xss : List (List MessageBuffer))
    → Hold s.queues xss
    → All (All (IsNrAcceptable lib)) xss
    → (w : Worked (NrSent P)) × (slot_round lib is_configured s ≡ returns w)
      × IsWorked (IsNrAcceptable lib) sfn_slot_counter s xss w
slot_round-IsWorked lib is_configured s xss h good =
    let (r, master, rests, sw, holds, run, once) =
      slot_round-sends_batches lib is_configured s xss h in
    let tx = (sfn_slot_counter s.counter).1 in
    let a =
      swept-Accounted (IsNrAcceptable lib) (nr lib.pull16) (nr_time lib.pull16) tx master h sw in
    let (sent, e) =
      send_batches-Ends (IsNrAcceptable lib) (id_of_message lib.pull16) (nr_time lib.pull16)
        (oai_slot_aggregate_message_id lib) (nr_message_id-Ends lib) (length (concat r.collected))
        (concat r.collected) (a.selected good) (concat-IsStored r.collected a.stored) a.timed in
    let next = (sfn_slot_counter s.counter).0 in
    (
      slot_worked lib is_configured s r sent,
      rw (run, e) refl,
      record {
        rests = a.rests;
        holds = a.holds;
        sized = sym (length-Hold a.holds) ∙ queues-Sweep sw;
        once = freed-IsOnce lib.pull16 xss r.collected a.rests r.freed a.once;
        remain = a.remain good;
        advanced = refl;
        announced = ap (◌∷◌ tx) (slot-ue_times is_configured next.sfn next.sub sent);
      },
    )
