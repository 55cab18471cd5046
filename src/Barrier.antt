-- ===== src/Barrier.antt =====
-- The meeting of oai_subframe_task and oai_slot_task in NSA mode (src/nfapi_pnf.c): the shared
-- `sf_slot_tick`, its mutex and its condition variable. What a thread does between taking the mutex
-- and giving it up, or waiting, is one step. A waiting thread goes on only after it is woken, by a
-- broadcast or, as POSIX allows, for no reason (`stir`). Failing lock calls exit the program and
-- are left out.
pub mod Shape
pub mod Drift
mod Examples
use oai_lte_5g_multi_ue_prox.Base.{
  ℕ, ◌+◌, ◌%◌, ◌^◌, ◌≡◌, Bool, true, false, ◌&&◌, bit_or, if◌then◌else◌, ◌==◌,
}

pub data Thread : Type 0 where
  lte_thread : Thread
  nr_thread : Thread

-- Outside the critical section, asleep in `pthread_cond_wait`, or woken there and about to take the
-- mutex again.
pub data Place : Type 0 where
  working : Place
  waiting : Place
  woken : Place

-- `rounds` count how often a thread has passed the meeting.
pub record Barrier : Type 0 where
  pub sf_slot_tick : ℕ
  pub lte_place : Place
  pub nr_place : Place
  pub lte_rounds : ℕ
  pub nr_rounds : ℕ

-- LTE_PROXY_DONE, NR_PROXY_DONE and BOTH_LTE_NR_DONE
abbrev pub lte_proxy_done : ℕ
lte_proxy_done = 1

abbrev pub nr_proxy_done : ℕ
nr_proxy_done = 2

abbrev pub both_lte_nr_done : ℕ
both_lte_nr_done = 3

abbrev pub start : Barrier
start = record {
  sf_slot_tick = 0;
  lte_place = working;
  nr_place = working;
  lte_rounds = 0;
  nr_rounds = 0;
}

abbrev pub place : Thread → Barrier → Place
place lte_thread b = b.lte_place
place nr_thread b = b.nr_place

abbrev pub rounds : Thread → Barrier → ℕ
rounds lte_thread b = b.lte_rounds
rounds nr_thread b = b.nr_rounds

-- `pthread_cond_broadcast`, for the other thread.
abbrev pub broadcast : Place → Place
broadcast working = working
broadcast waiting = woken
broadcast woken = woken

-- The last one to come broadcasts and goes on; the first one waits.
unfoldable pub arrive : Thread → Barrier → Barrier
arrive lte_thread b =
    let tick = bit_or b.sf_slot_tick lte_proxy_done in
    if tick == both_lte_nr_done
    then record b {
      sf_slot_tick = tick;
      nr_place = broadcast b.nr_place;
      lte_rounds = b.lte_rounds + 1;
    }
    else record b { sf_slot_tick = tick; lte_place = waiting }
arrive nr_thread b =
    let tick = bit_or b.sf_slot_tick nr_proxy_done in
    if tick == both_lte_nr_done
    then record b {
      sf_slot_tick = tick;
      lte_place = broadcast b.lte_place;
      nr_rounds = b.nr_rounds + 1;
    }
    else record b { sf_slot_tick = tick; nr_place = waiting }

-- A woken thread: the `while` around the wait, and the reset behind it.
unfoldable pub wake : Thread → Barrier → Barrier
wake lte_thread b =
    if b.sf_slot_tick == both_lte_nr_done
    then record b { sf_slot_tick = 0; lte_place = working; lte_rounds = b.lte_rounds + 1 }
    else record b { lte_place = waiting }
wake nr_thread b =
    if b.sf_slot_tick == both_lte_nr_done
    then record b { sf_slot_tick = 0; nr_place = working; nr_rounds = b.nr_rounds + 1 }
    else record b { nr_place = waiting }

-- A wake-up without a broadcast.
abbrev pub stir : Thread → Barrier → Barrier
stir lte_thread b = record b { lte_place = woken }
stir nr_thread b = record b { nr_place = woken }

-- What the threads do by themselves; a wake-up without a broadcast is not among it.
pub data Step : Barrier → Barrier → Type 0 where
  arrives : {b : Barrier} (t : Thread) → place t b ≡ working → Step b (arrive t b)
  wakes : {b : Barrier} (t : Thread) → place t b ≡ woken → Step b (wake t b)

pub data Reaches : Barrier → Type 0 where
  starts : Reaches start
  steps : {b b' : Barrier} → Reaches b → Step b b' → Reaches b'
  stirs : {b : Barrier} (t : Thread) → Reaches b → place t b ≡ waiting → Reaches (stir t b)

-- `++slot_tick == NR_PROXY_DONE && softmodem_mode == SOFTMODEM_NSA`: whether the NR thread comes to
-- the meeting in this slot, and `slot_tick` afterwards.
unfoldable pub count_slot : Bool → ℕ → Bool × ℕ
count_slot is_nsa slot_tick =
    let next = (slot_tick + 1) % 2 ^ 16 in
    if (next == nr_proxy_done) && is_nsa then (true, 0) else (false, next)
